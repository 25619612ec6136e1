-- ===== src/Base/Text.antt =====
-- Go strings as lists of bytes, and the functions of Go's package strings that the tool calls.
pub mod Bytes
use Prim.Native.Nat.{ℕ, suc}
use Prim.Native.Char.{code}
use Prim.Native.String.{String}
use mathlib.Core.Path.{◌≡◌, refl}
use mathlib.Core.Logic.{◌↔◌}
use mathlib.Core.Bool.{Bool, true, false, ◌&&◌, ◌||◌}
use mathlib.Core.List.{List, [], ◌∷◌, ◌++◌}
use mathlib.Core.Option.{Option, none, some}
use mathlib.Core.Option as Option
use native.Mathlib.Omega.{arith}
use opentelemetry_go_auto_in.Base.Tests.{◌==◌, if◌then◌else◌}
use opentelemetry_go_auto_in.Base.Lists.{length, drop}

abbrev pub Str : Type 0
Str = List ℕ

-- A literal: its bytes, for the ASCII literals of the source.
abbrev pub codes : String → Str
codes String.[] = []
codes (String.◌∷◌ c s) = code c ∷ codes s

-- s == t
unfoldable pub str_eq : Str → Str → Bool
str_eq [] [] = true
str_eq [] (d ∷ t) = false
str_eq (c ∷ s) [] = false
str_eq (c ∷ s) (d ∷ t) = c == d && str_eq s t

pub str_eq_refl : (s : Str) → str_eq s s ≡ true
unfolding str_eq
str_eq_refl [] = refl
str_eq_refl (c ∷ s) = ground (arith, str_eq_refl s)

pub eq_of_str_eq : (s t : Str) → str_eq s t ≡ true → s ≡ t
unfolding str_eq
eq_of_str_eq [] [] h = refl
eq_of_str_eq [] (d ∷ t) h = cc
eq_of_str_eq (c ∷ s) [] h = cc
eq_of_str_eq (c ∷ s) (d ∷ t) h = ground (arith, eq_of_str_eq s t)

pub str_eq_iff : (s t : Str) → (str_eq s t ≡ true) ↔ (s ≡ t)
str_eq_iff s t = (eq_of_str_eq s t, λ e. rw e (str_eq_refl t))

-- strings.HasPrefix(s, p)
unfoldable pub has_prefix : Str → Str → Bool
has_prefix s [] = true
has_prefix [] (d ∷ p) = false
has_prefix (c ∷ s) (d ∷ p) = c == d && has_prefix s p

-- strings.HasSuffix(s, p): some tail of s is p.
unfoldable pub has_suffix : Str → Str → Bool
unfolding str_eq
has_suffix [] p = str_eq [] p
has_suffix (c ∷ s) p = str_eq (c ∷ s) p || has_suffix s p

-- strings.Contains(s, p)
unfoldable pub contains : Str → Str → Bool
unfolding has_prefix
contains [] p = has_prefix [] p
contains (c ∷ s) p = has_prefix (c ∷ s) p || contains s p

has_prefix_refl : (s : Str) → has_prefix s s ≡ true
unfolding has_prefix
has_prefix_refl [] = refl
has_prefix_refl (c ∷ s) = ground (arith, has_prefix_refl s)

pub contains_refl : (s : Str) → contains s s ≡ true
unfolding contains
contains_refl [] = has_prefix_refl []
contains_refl (c ∷ s) = rw (has_prefix_refl (c ∷ s)) refl

-- strings.Index(s, b) for a one-byte string b; `none` is -1.
unfoldable pub index_byte : Str → ℕ → Option ℕ
index_byte [] b = none
index_byte (c ∷ s) b = let rest = index_byte s b in if c == b then some 0 else Option.map suc rest

-- Whether the byte occurs: strings.Contains(s, b) for a one-byte string b.
unfoldable pub contains_byte : Str → ℕ → Bool
contains_byte [] b = false
contains_byte (c ∷ s) b = c == b || contains_byte s b

-- strings.ReplaceAll(s, b, "") for a one-byte string b.
unfoldable pub remove_byte : Str → ℕ → Str
remove_byte [] b = []
remove_byte (c ∷ s) b = let rest = remove_byte s b in if c == b then rest else c ∷ rest

-- The parts so far: `cur` is the part being read, reversed bytes are not needed since it is
-- extended at its end.
unfoldable pub split_from : Str → Str → ℕ → List Str
split_from cur [] b = cur ∷ []
split_from cur (c ∷ s) b =
    let here = cur ∷ split_from [] s b in
    let more = split_from (cur ++ c ∷ []) s b in if c == b then here else more

-- strings.Split(s, b) for a one-byte separator b.
unfoldable pub split : Str → ℕ → List Str
unfolding split_from
split s b = split_from [] s b

-- strings.TrimPrefix(s, p)
unfoldable pub trim_prefix : Str → Str → Str
unfolding has_prefix
trim_prefix s p = if has_prefix s p then drop (length p) s else s
