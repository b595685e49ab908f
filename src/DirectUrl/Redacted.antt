-- ===== src/DirectUrl/Redacted.antt =====
-- What the redaction of a URL leaves.
use mathlib.Core.List.{reverse, append_assoc, reverse-append, reverse-reverse, reverse-cons}
use core_pip.Prelude.{
  partition, rpartition, put_front, ℕ, ◌≡◌, ◌∙◌, refl, ap, Bool, true, false, not, Option, none,
  some, [], ◌∷◌, ◌++◌, Text, text_ord, ◌=?◌, codes, has_char, is_some, Result, ok, if◌then◌else◌,
  arith, ap₂, nat_beq, Bool-cases, Option-cases, ◌||◌, inl, inr, sym,
}
use core_pip.DirectUrl.Defs.{DirectUrlError, DirectUrl}
use core_pip.DirectUrl.Write.{SplitUrl, is_variable, redacted_auth, redacted_url}
use core_pip.DirectUrl.Legacy.{partition-append}

has_char-append :
    (sep : ℕ) (u v : Text) → has_char sep (u ++ v) ≡ (has_char sep u || has_char sep v)
has_char-append sep [] v = refl
has_char-append sep (c ∷ u) v = ground (arith, has_char-append sep u v)

has_char-reverse : (sep : ℕ) (u : Text) → has_char sep (reverse u) ≡ has_char sep u
has_char-reverse sep [] = refl
has_char-reverse sep (c ∷ u) =
    rw (reverse-cons c u, has_char-append sep (reverse u) (c ∷ []))
      (ground (arith, has_char-reverse sep u))

is_some-put_front : (c : ℕ) (o : Option (Text × Text)) → is_some (put_front c o) ≡ is_some o
is_some-put_front c none = refl
is_some-put_front c (some p) = refl

turned : (sep : ℕ) (u v : Text) → reverse (u ++ (sep ∷ v)) ≡ reverse v ++ (sep ∷ reverse u)
turned sep u v =
    reverse-append u (sep ∷ v)
    ∙ ap (λ l. l ++ reverse u) (reverse-cons sep v)
    ∙ append_assoc (reverse v) (sep ∷ []) (reverse u)

rpartition-append :
    (sep : ℕ) (u v : Text) → has_char sep v ≡ false → rpartition sep (u ++ (sep ∷ v)) ≡ some (u, v)
rpartition-append sep u v h =
    let back : Option (Text × Text) → Option (Text × Text) =
      λ o. elim o [ none ↦ none | some (x, y) ↦ some (reverse y, reverse x) ] in
    ap (λ t. back (partition sep t)) (turned sep u v)
    ∙ ap back (partition-append sep (reverse v) (reverse u) (has_char-reverse sep v ∙ h))
    ∙ ap₂ (λ x y. some (x, y)) (reverse-reverse u) (reverse-reverse v)

partition-has_char : (sep : ℕ) (t : Text) → is_some (partition sep t) ≡ has_char sep t
partition-has_char sep [] = refl
partition-has_char sep (c ∷ t) = elim (Bool-cases (nat_beq sep c)) [
  | inl e ↦ rw e refl
  | inr e ↦ rw e (is_some-put_front c (partition sep t) ∙ partition-has_char sep t)
]

-- The user information has a password, and that is a variable.
abbrev pub has_variable_password : Text → Bool
has_variable_password auth = elim (partition b':' auth) [
  | none ↦ false
  | some (user, password) ↦ is_variable password
]

module _ (urlsplit : Text → Result DirectUrlError SplitUrl) (urlunsplit : SplitUrl → Text)
    (d : DirectUrl) (parsed : SplitUrl) where
  redacted_url-auth :
      (auth host : Text)
      → urlsplit d.url ≡ ok parsed
      → (parsed.scheme =? codes "ssh") ≡ false
      → parsed.netloc ≡ auth ++ (b'@' ∷ host)
      → has_char b'@' host ≡ false
      → redacted_url urlsplit urlunsplit d
        ≡ ok (redacted_auth urlsplit urlunsplit (is_some d.vcs_info) d.url parsed auth host)
  unfolding redacted_url
  redacted_url-auth auth host split scheme netloc last =
      let split_auth : rpartition b'@' parsed.netloc ≡ some (auth, host) =
        ap (rpartition b'@') netloc ∙ rpartition-append b'@' auth host last in
      rw (split, scheme, split_auth) refl

  -- The location that is written
  abbrev netloc_left : Text → Text → Bool → Text
  netloc_left auth host is_vcs = if is_vcs || not (has_char b':' auth) then host else parsed.netloc

  redacted_auth_lem :
      (auth host : Text)
      → is_variable auth ≡ false
      → has_variable_password auth ≡ false
      → (is_vcs : Bool)
      → redacted_auth urlsplit urlunsplit is_vcs d.url parsed auth host
        ≡ urlunsplit (record parsed { netloc = netloc_left auth host is_vcs })
  redacted_auth_lem auth host variable h is_vcs =
      let Redacts : Bool → Type 0 = λ b.
        redacted_auth urlsplit urlunsplit b d.url parsed auth host
        ≡ urlunsplit (record parsed { netloc = netloc_left auth host b }) in
      elim (Option-cases (partition b':' auth)) [
        | inl e ↦
            let no_colon : has_char b':' auth ≡ false =
              sym (partition-has_char b':' auth) ∙ ap is_some e in
            elim is_vcs as Redacts [
              | true ↦ rw (variable, e, variable) refl
              | false ↦ rw (variable, e, variable, no_colon) refl
            ]
        | inr ((user, password), e) ↦
            let colon : has_char b':' auth ≡ true =
              sym (partition-has_char b':' auth) ∙ ap is_some e in
            let fixed : is_variable password ≡ false = rw (e, has_variable_password) at h in
            elim is_vcs as Redacts [
              | true ↦ rw (variable, e, fixed) refl
              | false ↦ rw (variable, e, fixed, colon) refl
            ]
      ]

  -- The URL that is written for a location with user information, in a scheme other than "ssh":
  -- the user information is taken out if the record is of version control or there is no password.
  -- Elsewhere the location stays as it is, with the password. (The host has no "@", and neither the
  -- user information nor the password is a variable "${NAME}".)
  pub redacted_url_lem :
      (auth host : Text)
      → urlsplit d.url ≡ ok parsed
      → (parsed.scheme =? codes "ssh") ≡ false
      → parsed.netloc ≡ auth ++ (b'@' ∷ host)
      → has_char b'@' host ≡ false
      → is_variable auth ≡ false
      → has_variable_password auth ≡ false
      → redacted_url urlsplit urlunsplit d
        ≡ ok (
            urlunsplit (record parsed {
              netloc =
                  if is_some d.vcs_info || not (has_char b':' auth) then host else parsed.netloc;
            }))
  redacted_url_lem auth host split scheme netloc last variable h =
      redacted_url-auth auth host split scheme netloc last
      ∙ ap ok (redacted_auth_lem auth host variable h (is_some d.vcs_info))
