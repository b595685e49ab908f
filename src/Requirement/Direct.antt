-- ===== src/Requirement/Direct.antt =====
-- `looks_like_direct_reference` of src/cpip/core/packaging.py. `urlparse` belongs to Python's
-- `urllib` and is a parameter.
use core_pip.Prelude.{
  ◌≡◌, refl, Bool, false, not, ◌&&◌, ◌||◌, [], ◌∷◌, Text, has_char, is_nil, nat_beq, is_upper,
  is_lower, if◌then◌else◌, arith,
}

-- The attributes of `urllib.parse.urlparse(value)` that are read.
pub record ParsedUrl : Type 0 where
  pub scheme : Text
  pub netloc : Text
  pub path : Text

-- `len(value) >= 3 and value[0].isalpha() and value[1] == ":" and value[2] in "/\\"`
abbrev pub is_windows_path : Text → Bool
is_windows_path (a ∷ b ∷ c ∷ t) =
    (is_lower a || is_upper a) && nat_beq b b':' && (nat_beq c b'/' || nat_beq c b'\\')
is_windows_path _ = false

-- `value[:1] in (".", "/", "~")`, and `value.startswith((".", "/", "~"))`
abbrev pub starts_as_path : Text → Bool
starts_as_path [] = false
starts_as_path (c ∷ t) = nat_beq c b'.' || nat_beq c b'/' || nat_beq c b'~'

module _ (urlparse : Text → ParsedUrl) where
  unfoldable pub looks_like_url : Text → Bool
  looks_like_url value =
      if is_windows_path value
      then false
      else if not (has_char b':' value)
      then false
      else let parsed = urlparse value in
        not (is_nil parsed.scheme) && (not (is_nil parsed.netloc) || not (is_nil parsed.path))

  unfoldable pub looks_like_direct_reference : Text → Bool
  unfolding looks_like_url
  looks_like_direct_reference value =
      if not (has_char b':' value) && not (starts_as_path value)
      then false
      else looks_like_url value || starts_as_path value || is_windows_path value

  windows_has_colon : (value : Text) → has_char b':' value ≡ false → is_windows_path value ≡ false
  windows_has_colon [] h = refl
  windows_has_colon (a ∷ []) h = refl
  windows_has_colon (a ∷ b ∷ []) h = refl
  windows_has_colon (a ∷ b ∷ c ∷ t) h = ground arith

  url_has_colon : (value : Text) → has_char b':' value ≡ false → looks_like_url value ≡ false
  unfolding looks_like_url
  url_has_colon value h = ground arith

  -- The test at the head of the function changes nothing, whatever `urlparse` answers: the
  -- function holds exactly of URLs, of texts that start as a path, and of Windows paths.
  pub looks_like_direct_reference_lem :
      (value : Text)
      → looks_like_direct_reference value
        ≡ (looks_like_url value || starts_as_path value || is_windows_path value)
  unfolding looks_like_direct_reference
  looks_like_direct_reference_lem value =
      ground (arith, windows_has_colon value, url_has_colon value)
