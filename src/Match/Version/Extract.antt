-- ===== src/Match/Version/Extract.antt =====
-- extractVersion finds the version that stands in a module path.
use opentelemetry_go_auto_in.Base.{
  ℕ, ◌≡◌, refl, ◌≢◌, true, false, none, some, [], ◌∷◌, ◌++◌, arith, ◌==◌, all, Str, str_eq_iff,
  contains_byte,
}
use opentelemetry_go_auto_in.Match.Version.{
  is_digit, digits, digits1, byte, up_to_slash, suffix_then_slash, version_here, find_version,
  to_slash, extract_version,
}

-- A run of digits, not empty.
abbrev pub IsNumber : Str → Type 0
IsNumber s = (s ≢ []) × (all is_digit s ≡ true)

-- What may follow the third number: nothing, or a dash and text on the line without a slash.
abbrev pub IsSuffix : Str → Type 0
IsSuffix [] = Unit
IsSuffix (c ∷ s) = (c ≡ b'-') × (contains_byte s b'/' ≡ false) × (contains_byte s 10 ≡ false)

-- va.b.c and the suffix
abbrev pub version_text : Str → Str → Str → Str → Str
version_text a b c t = b'v' ∷ (a ++ (b'.' ∷ (b ++ (b'.' ∷ (c ++ t)))))

digits-append :
    (a : Str) (d : ℕ) (t : Str)
    → all is_digit a ≡ true
    → is_digit d ≡ false
    → digits (a ++ (d ∷ t)) ≡ (a, d ∷ t)
unfolding digits
digits-append [] d t h n = ground arith
digits-append (c ∷ a) d t h n = ground (arith, digits-append a d t)

digits1-append :
    (a : Str) (d : ℕ) (t : Str)
    → IsNumber a
    → is_digit d ≡ false
    → digits1 (a ++ (d ∷ t)) ≡ some (a, d ∷ t)
unfolding digits1
digits1-append a d t h n = ground (arith, digits-append a d t h.1 n, str_eq_iff a [])

up_to_slash-append :
    (s rest : Str)
    → contains_byte s b'/' ≡ false
    → contains_byte s 10 ≡ false
    → up_to_slash (s ++ (b'/' ∷ rest)) ≡ some s
unfolding up_to_slash contains_byte
up_to_slash-append [] rest h n = refl
up_to_slash-append (c ∷ s) rest h n = ground (arith, up_to_slash-append s rest)

-- What precedes the slash is no digit at its start.
suffix_starts :
    (t rest : Str)
    → IsSuffix t
    → (d : ℕ) × (u : Str) × (t ++ (b'/' ∷ rest) ≡ d ∷ u)
      × (is_digit d ≡ false)
      × (suffix_then_slash (d ∷ u) ≡ some t)
unfolding suffix_then_slash
suffix_starts [] rest h = (b'/', rest, refl, refl, refl)
suffix_starts (c ∷ s) rest h =
    (c, s ++ (b'/' ∷ rest), refl, ground arith, ground (arith, up_to_slash-append s rest h.1 h.2))

version_here-version_text :
    (a b c t rest : Str)
    → IsNumber a
    → IsNumber b
    → IsNumber c
    → IsSuffix t
    → version_here (b'@' ∷ (b'v' ∷ (a ++ (b'.' ∷ (b ++ (b'.' ∷ (c ++ (t ++ (b'/' ∷ rest)))))))))
      ≡ some (version_text a b c t)
unfolding version_here byte
version_here-version_text a b c t rest ha hb hc ht =
    let (d, u, e, n, s) = suffix_starts t rest ht in
    rw
      (
        e,
        digits1-append a b'.' (b ++ (b'.' ∷ (c ++ (d ∷ u)))) ha refl,
        digits1-append b b'.' (c ++ (d ∷ u)) hb refl,
        digits1-append c d u hc n,
        s,
      )
      refl

version_here-ne_at : (c : ℕ) (s : Str) → (c == b'@') ≡ false → version_here (c ∷ s) ≡ none
unfolding version_here byte
version_here-ne_at c s h = rw h

find_version-here : (s : Str) (v : Str) → version_here s ≡ some v → find_version s ≡ v
unfolding find_version
find_version-here [] v e = unfold version_here byte in cc
find_version-here (c ∷ s) v e = rw (e, find_version)

-- A match is found behind a prefix without `@`.
find_version-append :
    (dir s : Str) (v : Str)
    → contains_byte dir b'@' ≡ false
    → version_here s ≡ some v
    → find_version (dir ++ s) ≡ v
unfolding find_version contains_byte
find_version-append [] s v h e = find_version-here s v e
find_version-append (c ∷ dir) s v h e =
    rw (version_here-ne_at c (dir ++ s) (ground arith), find_version)
      (find_version-append dir s v (ground arith) e)

to_slash_unix : (s : Str) → to_slash false s ≡ s
unfolding to_slash
to_slash_unix [] = refl
to_slash_unix (c ∷ s) = rw (to_slash_unix s)

none_found : (s : Str) → contains_byte s b'@' ≡ false → find_version s ≡ []
unfolding find_version contains_byte
none_found [] h = refl
none_found (c ∷ s) h =
    rw (version_here-ne_at c s (ground arith), find_version) (none_found s (ground arith))

-- On Unix, for a path dir@va.b.c/rest (or dir@va.b.c-suffix/rest) where dir has no `@`, a, b and c
-- are digit strings, and the suffix has no slash and no line feed, extractVersion returns va.b.c
-- (with its suffix).
pub extract_version-version_text :
    (dir a b c t rest : Str)
    → contains_byte dir b'@' ≡ false
    → IsNumber a
    → IsNumber b
    → IsNumber c
    → IsSuffix t
    → extract_version false (dir ++ (b'@' ∷ (version_text a b c (t ++ (b'/' ∷ rest)))))
      ≡ version_text a b c t
unfolding extract_version
extract_version-version_text dir a b c t rest h ha hb hc ht =
    rw (to_slash_unix (dir ++ (b'@' ∷ (version_text a b c (t ++ (b'/' ∷ rest))))))
      (find_version-append dir _ _ h (version_here-version_text a b c t rest ha hb hc ht))

-- On Unix, a path without `@` has no version: extractVersion returns the empty string.
pub extract_version_none :
    (path : Str) → contains_byte path b'@' ≡ false → extract_version false path ≡ []
unfolding extract_version
extract_version_none path h = rw (to_slash_unix path) (none_found path h)
