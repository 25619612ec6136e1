-- ===== src/Base/Text/Bytes.antt =====
-- Laws of the byte searches of Base/Text.antt.
use Prim.Native.Nat.{ℕ}
use mathlib.Core.Path.{◌≡◌, refl}
use mathlib.Core.Bool.{false, ◌||◌}
use mathlib.Core.List.{[], ◌∷◌, ◌++◌}
use mathlib.Core.Option.{some}
use native.Mathlib.Omega.{arith}
use opentelemetry_go_auto_in.Base.Tests.{◌==◌}
use opentelemetry_go_auto_in.Base.Lists.{length}
use opentelemetry_go_auto_in.Base.Text.{Str, contains_byte, remove_byte, index_byte}

pub contains_byte-append :
    (s t : Str) (b : ℕ) → contains_byte (s ++ t) b ≡ (contains_byte s b || contains_byte t b)
unfolding contains_byte
contains_byte-append [] t b = refl
contains_byte-append (c ∷ s) t b = ground (arith, contains_byte-append s t b)

-- Removing one byte loses no other.
pub contains_byte-remove_byte :
    (s : Str) (b d : ℕ) → (b == d) ≡ false → contains_byte (remove_byte s b) d ≡ contains_byte s d
unfolding contains_byte remove_byte
contains_byte-remove_byte [] b d h = refl
contains_byte-remove_byte (c ∷ s) b d h = ground (arith, contains_byte-remove_byte s b d h)

pub remove_byte-absent : (s : Str) (b : ℕ) → contains_byte s b ≡ false → remove_byte s b ≡ s
unfolding contains_byte remove_byte
remove_byte-absent [] b h = refl
remove_byte-absent (c ∷ s) b h = ground (arith, remove_byte-absent s b)

-- The first occurrence stands behind what holds none.
pub index_byte-append :
    (s t : Str) (b : ℕ) → contains_byte s b ≡ false → index_byte (s ++ (b ∷ t)) b ≡ some (length s)
unfolding contains_byte index_byte
index_byte-append [] t b h = ground arith
index_byte-append (c ∷ s) t b h = ground (arith, index_byte-append s t b)
