-- ===== src/Tests/Texts.antt =====
-- The texts of requirements.
use core_pip.Prelude.{◌≡◌, refl, none, some, [], Text, codes, strip}
use core_pip.Requirement.Marker.{scan, parts_of, split_marker, split_marker_lem}
use core_pip.Requirement.Direct.{ParsedUrl}

abbrev marked : Text
marked = codes "a; b == ';'"

split_marker_lem_example : split_marker marked ≡ parts_of marked (scan none marked)
split_marker_lem_example = split_marker_lem marked

marked_split : split_marker marked ≡ (codes "a", some (codes "b == ';'"))
unfolding split_marker strip
marked_split = refl

abbrev no_url : Text → ParsedUrl
no_url t = record { scheme = []; netloc = []; path = t }

abbrev drive : Text
drive = codes "C:/wheels"
