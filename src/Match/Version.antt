-- ===== src/Match/Version.antt =====
-- tool/preprocess/match.go: versions. `extractVersion` reads the version of a module out of the
-- path of one of its files, and `matchVersion` tests it against a rule's range "[start,end)".
-- `semver_compare` is semver.Compare of golang.org/x/mod, a parameter.
pub mod Ranges
pub mod Extract
pub mod Verified
use opentelemetry_go_auto_in.Base.{
  ℕ, ◌+◌, ◌-◌, Bool, true, false, not, ◌&&◌, ◌||◌, Option, none, some, [], ◌∷◌, ◌++◌, leb, ◌==◌,
  if◌then◌else◌, length, take, drop, Outcome, ok, err, panicked, ◌>>=◌, ◌>>◌, assert, Code, Str,
  codes, str_eq, index_byte, contains_byte, remove_byte,
}
use Prim.Native.Nat.{Ordering}
use mathlib.Core.Option as Option

-- s[lo:hi], a panic where lo > hi or hi > len(s).
unfoldable pub slice : Str → ℕ → ℕ → Outcome Str
slice s lo hi = if leb lo hi && leb hi (length s) then ok (drop lo (take hi s)) else panicked

-- strings.Index(vr, ",") as splitVersionRange uses it, after its assertion that "," occurs.
abbrev found {ℓ} : {A : Type ℓ} → Option A → Outcome A
found none = panicked
found (some i) = ok i

-- splitVersionRange. `len(vr) - 1` is exact: `vr` is not empty after the assertions.
unfoldable pub split_version_range : Str → Outcome (Str × Str)
split_version_range vr = do
  assert (contains_byte vr b',')
  assert (contains_byte vr b'[')
  assert (contains_byte vr b')')
  comma ← found (index_byte vr b',')
  start ← slice vr 1 comma
  end ← slice vr (comma + 1) (length vr - 1)
  ok (b'v' ∷ start, b'v' ∷ end)

abbrev at_least : Ordering → Bool
at_least Ordering.lt = false
at_least _ = true

abbrev less : Ordering → Bool
less Ordering.lt = true
less _ = false

-- The test of matchVersion that ends in the error `invalid rule version`.
unfoldable pub is_invalid_range : Str → Bool
is_invalid_range v =
    not (contains_byte v b'[')
    || not (contains_byte v b')')
    || not (contains_byte v b',')
    || contains_byte v b'v'

module _ (semver_compare : Str → Str → Ordering) where
  -- The `switch` of matchVersion over the two bounds; "v" is an omitted bound.
  unfoldable pub match_bounds : Str → Str × Str → Outcome Bool
  match_bounds version (start, end) =
      if not (str_eq start (codes "v")) && not (str_eq end (codes "v"))
      then ok (at_least (semver_compare version start) && less (semver_compare version end))
      else if str_eq start (codes "v")
      then (assert (not (str_eq end (codes "v"))) >> ok (less (semver_compare version end)))
      else if str_eq end (codes "v")
      then (assert (not (str_eq start (codes "v"))) >> ok (at_least (semver_compare version start)))
      else err Code.match_rule

  unfoldable pub match_version : Str → Str → Outcome Bool
  match_version version rule_version =
      if str_eq rule_version []
      then ok true
      else if not (contains_byte version b'v')
      then err Code.match_rule
      else if is_invalid_range rule_version
      then err Code.match_rule
      else (do
        bounds ← split_version_range (remove_byte rule_version b' ')
        match_bounds version bounds)

-- versionRegexp = `@v\d+\.\d+\.\d+(-.*?)?/`, read by hand below.
abbrev is_digit : ℕ → Bool
is_digit c = leb b'0' c && leb c b'9'

-- \d* as far as it goes: the digits, and the rest.
unfoldable pub digits : Str → Str × Str
digits [] = ([], [])
digits (c ∷ s) = let (ds, rest) = digits s in if is_digit c then (c ∷ ds, rest) else ([], c ∷ s)

-- \d+
unfoldable pub digits1 : Str → Option (Str × Str)
unfolding digits
digits1 s = let (ds, rest) = digits s in if str_eq ds [] then none else some (ds, rest)

-- The literal byte b.
unfoldable pub byte : ℕ → Str → Option Str
byte b [] = none
byte b (c ∷ s) = if c == b then some s else none

-- .*?/ : the text up to the first slash of the line; `.` is no line feed.
unfoldable pub up_to_slash : Str → Option Str
up_to_slash [] = none
up_to_slash (c ∷ s) =
    let rest = Option.map (λ t. c ∷ t) (up_to_slash s) in
    if c == b'/' then some [] else if c == 10 then none else rest

-- (-.*?)?/ : what precedes the slash.
unfoldable pub suffix_then_slash : Str → Option Str
unfolding up_to_slash
suffix_then_slash [] = none
suffix_then_slash (c ∷ s) =
    if c == b'-' then up_to_slash (c ∷ s) else if c == b'/' then some [] else none

abbrev bind_option {ℓ κ} : {A : Type ℓ} {B : Type κ} → Option A → (A → Option B) → Option B
bind_option none f = none
bind_option (some a) f = f a

-- The whole expression at one position; what stands between `@` and `/`, which is what
-- extractVersion returns of the match.
unfoldable pub version_here : Str → Option Str
version_here s = bind_option (byte b'@' s) λ s1. bind_option (byte b'v' s1) λ s2.
    bind_option (digits1 s2) λ (a, s3). bind_option (byte b'.' s3) λ s4.
      bind_option (digits1 s4) λ (b, s5). bind_option (byte b'.' s5) λ s6.
        bind_option (digits1 s6) λ (c, s7).
          bind_option (suffix_then_slash s7)
            λ t. some (b'v' ∷ (a ++ (b'.' ∷ (b ++ (b'.' ∷ (c ++ t))))))

-- FindString: the leftmost match; "" where there is none.
unfoldable pub find_version : Str → Str
find_version [] = []
find_version (c ∷ s) =
    let rest = find_version s in elim (version_here (c ∷ s)) [ none ↦ rest | some v ↦ v ]

-- filepath.ToSlash: a change on Windows only.
unfoldable pub to_slash : Bool → Str → Str
to_slash windows [] = []
to_slash windows (c ∷ s) = (if windows && c == 92 then b'/' else c) ∷ to_slash windows s

unfoldable pub extract_version : Bool → Str → Str
unfolding find_version to_slash
extract_version windows path = find_version (to_slash windows path)
