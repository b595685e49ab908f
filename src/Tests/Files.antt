-- ===== src/Tests/Files.antt =====
-- Requirements files.
use core_pip.Prelude.{◌≡◌, refl, List, [], ◌∷◌, ◌++◌, Text, codes, keep, strip, ends_with}
use core_pip.RequirementFile.{cleaned, continued, lines_from, is_live, requirement_lines}
use core_pip.RequirementFile.Continued.{each_alone, requirement_lines_lem}

-- A requirement that is continued on the next line, and a comment
abbrev lines : List Text
lines = (codes "requests " ++ (92 ∷ [])) ∷ codes "  >=2.0 # new" ∷ codes "# end" ∷ []

-- They become two requirements.
lines_read : requirement_lines lines ≡ (1, codes "requests") ∷ (2, codes "  >=2.0") ∷ []
unfolding requirement_lines lines_from cleaned continued is_live strip ends_with
lines_read = refl

requirement_lines_lem_example : requirement_lines lines ≡ keep is_live (each_alone 1 lines)
requirement_lines_lem_example = requirement_lines_lem lines
