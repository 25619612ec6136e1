-- ===== src/Base/Errors.antt =====
-- What a fallible operation returns. `err` is a returned error, with the code of
-- tool/errc/errcode.go; `panicked` is a Go panic (util.Assert, an index or slice out of range).
use mathlib.Core.Path.{◌≡◌, refl, subst}
use mathlib.Core.Bool.{Bool, true, false}
use mathlib.Core.Option.{Option, none, some}
use opentelemetry_go_auto_in.Base.Tests.{if◌then◌else◌}

-- The codes of errcode.go.
pub data Code : Type 0 where
  open_file create_file close_file remove_all read_dir copy_file write_file walk_dir : Code
  stat_file mkdir_all not_exist invalid_rule match_rule internal run_cmd invalid_json : Code
  getwd setup_rule parse_code abs_path not_modularized get_executable : Code
  instrument preprocess : Code

pub data Outcome {ℓ} (A : Type ℓ) : Type ℓ where
  ok : A → Outcome A
  err : Code → Outcome A
  panicked : Outcome A

infixl 5 ◌>>=◌ ◌>>◌
abbrev pub ◌>>=◌ {ℓ κ} : {A : Type ℓ} {B : Type κ} → Outcome A → (A → Outcome B) → Outcome B
ok a >>= f = f a
err c >>= f = err c
panicked >>= f = panicked

abbrev pub ◌>>◌ {ℓ} : {B : Type ℓ} → Outcome (Unit {0}) → Outcome B → Outcome B
m >> k = m >>= λ _. k

-- util.Assert
abbrev pub assert : Bool → Outcome (Unit {0})
assert true = ok tt
assert false = panicked

-- `if err != nil { return err }` on a call that yields no value but a code.
abbrev pub or_err {ℓ} : {A : Type ℓ} → Option A → Code → Outcome A
or_err (some a) c = ok a
or_err none c = err c

-- What holds of the value that is returned, if one is.
abbrev pub Holds {ℓ κ} : {A : Type ℓ} → (A → Type κ) → Outcome A → Type κ
Holds P (ok a) = P a
Holds P (err c) = Unit
Holds P panicked = Unit

pub Holds-bind {ℓ κ μ ν} :
    {A : Type ℓ} {B : Type κ} (Q : A → Type μ) (P : B → Type ν) (m : Outcome A) (f : A → Outcome B)
    → Holds Q m
    → ((a : A) → Q a → Holds P (f a))
    → Holds P (m >>= f)
Holds-bind Q P (ok a) f h k = k a h
Holds-bind Q P (err c) f h k = tt
Holds-bind Q P panicked f h k = tt

pub Holds-use {ℓ κ} :
    {A : Type ℓ} (P : A → Type κ) (m : Outcome A) (a : A) → Holds P m → m ≡ ok a → P a
Holds-use P m a h e = subst (Holds P) e h

-- The same where nothing is known of the value.
pub Holds-after {ℓ κ ν} :
    {A : Type ℓ} {B : Type κ} (P : B → Type ν) (m : Outcome A) (f : A → Outcome B)
    → ((a : A) → Holds P (f a))
    → Holds P (m >>= f)
Holds-after P (ok a) f k = k a
Holds-after P (err c) f k = tt
Holds-after P panicked f k = tt

pub Holds-if {ℓ κ} :
    {A : Type ℓ} (P : A → Type κ) (b : Bool) (x y : Outcome A)
    → Holds P x
    → Holds P y
    → Holds P (if b then x else y)
Holds-if P true x y h k = h
Holds-if P false x y h k = k

pub Holds-weaken {ℓ κ ν} :
    {A : Type ℓ} (Q : A → Type κ) (P : A → Type ν) (m : Outcome A)
    → Holds Q m
    → ((a : A) → Q a → P a)
    → Holds P m
Holds-weaken Q P (ok a) h k = k a h
Holds-weaken Q P (err c) h k = tt
Holds-weaken Q P panicked h k = tt

pub Holds-both {ℓ κ ν} :
    {A : Type ℓ} (Q : A → Type κ) (P : A → Type ν) (m : Outcome A)
    → Holds Q m
    → Holds P m
    → Holds (λ a. Q a × P a) m
Holds-both Q P (ok a) h k = (h, k)
Holds-both Q P (err c) h k = tt
Holds-both Q P panicked h k = tt

-- Inversion of a bind that returns.
pub >>=-eq-ok {ℓ κ} :
    {A : Type ℓ} {B : Type κ} (first : Outcome A) (next : A → Outcome B) {result : B}
    → (first >>= next) ≡ ok result
    → (between : A) × (first ≡ ok between) × (next between ≡ ok result)
>>=-eq-ok panicked next h = cc
>>=-eq-ok (ok between) next h = (between, refl, h)
>>=-eq-ok (err c) next h = cc

-- What holds of the value that is returned, if one is, of a computation that does not panic.
abbrev pub NoPanic {ℓ} : {A : Type ℓ} → (A → Type 0) → Outcome A → Type 0
NoPanic P (ok a) = P a
NoPanic P (err c) = Unit
NoPanic P panicked = ⊥

pub NoPanic-bind {ℓ κ} :
    {A : Type ℓ} {B : Type κ} (Q : A → Type 0) (P : B → Type 0) (m : Outcome A) (f : A → Outcome B)
    → NoPanic Q m
    → ((a : A) → Q a → NoPanic P (f a))
    → NoPanic P (m >>= f)
NoPanic-bind Q P (ok a) f h k = k a h
NoPanic-bind Q P (err c) f h k = tt
NoPanic-bind Q P panicked f h k = absurd h

pub NoPanic-weaken {ℓ} :
    {A : Type ℓ} (Q : A → Type 0) (P : A → Type 0) (m : Outcome A)
    → NoPanic Q m
    → ((a : A) → Q a → P a)
    → NoPanic P m
NoPanic-weaken Q P (ok a) h k = k a h
NoPanic-weaken Q P (err c) h k = tt
NoPanic-weaken Q P panicked h k = absurd h

pub ok-injective {ℓ} : {A : Type ℓ} {a b : A} → ok a ≡ ok b → a ≡ b
ok-injective e = cc
