-- ===== src/SpecifierSet/Parse/Defs.antt =====
-- The clauses of a text, and the text of clauses.
use core_pip.Prelude.{
  Option, none, some, List, [], ◌∷◌, ◌++◌, map, Text, codes, strip, split, join, strip_prefix,
  is_nil, Result, ok, err, if◌then◌else◌,
}
use core_pip.Version.Build.{Groups, VersionError}
use core_pip.Specifier.{
  Operator, arbitrary, equal, not_equal, at_least, at_most, greater, less, compatible, Specifier,
  new_specifier,
}

-- The exceptions: `ValueError("invalid version specifier")`, and what `Specifier` raises.
pub data SetError : Type 0 where
  invalid_specifier : SetError
  in_clause : VersionError → SetError

abbrev pub operator_text : Operator → Text
operator_text arbitrary = codes "==="
operator_text equal = codes "=="
operator_text not_equal = codes "!="
operator_text compatible = codes "~="
operator_text at_most = codes "<="
operator_text less = codes "<"
operator_text at_least = codes ">="
operator_text greater = codes ">"

-- The operator that a clause starts with, the longest first, and the rest behind it.
abbrev pub try_operators : List Operator → Text → Option (Operator × Text)
try_operators [] clause = none
try_operators (op ∷ ops) clause = elim (strip_prefix (operator_text op) clause) [
  | some rest ↦ some (op, rest)
  | none ↦ try_operators ops clause
]

unfoldable pub split_operator : Text → Option (Operator × Text)
split_operator =
    try_operators
      (arbitrary ∷ equal ∷ not_equal ∷ compatible ∷ at_most ∷ less ∷ at_least ∷ greater ∷ [])

abbrev pub lifted : Result VersionError Specifier → Result SetError Specifier
lifted (ok s) = ok s
lifted (err e) = err (in_clause e)

-- One stripped part that is not empty.
unfoldable pub read_clause : (Text → Option Groups) → Text → Result SetError Specifier
read_clause match clause = elim (split_operator clause) [
  | none ↦ err invalid_specifier
  | some (op, rest) ↦
      if is_nil (strip rest)
      then err invalid_specifier
      else lifted (new_specifier match op (strip rest))
]

abbrev pub put_clause :
    Result SetError Specifier → Result SetError (List Specifier) → Result SetError (List Specifier)
put_clause (err e) rest = err e
put_clause (ok s) (err e) = err e
put_clause (ok s) (ok l) = ok (s ∷ l)

-- The loop over the parts; an empty part is skipped.
unfoldable pub read_clauses : (Text → Option Groups) → List Text → Result SetError (List Specifier)
read_clauses match [] = ok []
read_clauses match (part ∷ parts) =
    let rest = read_clauses match parts in
    if is_nil (strip part) then rest else put_clause (read_clause match (strip part)) rest

abbrev pub checked : Text → Result SetError (List Specifier) → Result SetError (List Specifier)
checked key (err e) = err e
checked key (ok []) = if is_nil key then ok [] else err invalid_specifier
checked key (ok (s ∷ l)) = ok (s ∷ l)

unfoldable pub new_specifier_set : (Text → Option Groups) → Text → Result SetError (List Specifier)
unfolding read_clauses read_clause split_operator
new_specifier_set match value =
    let key = strip value in checked key (read_clauses match (split b',' key))

-- The property `text`
abbrev pub specifier_text : Specifier → Text
specifier_text s = operator_text s.operator ++ s.version

abbrev pub set_text : List Specifier → Text
set_text l = join b',' (map specifier_text l)
