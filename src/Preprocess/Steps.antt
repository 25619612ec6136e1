-- ===== src/Preprocess/Steps.antt =====
-- A step of the preprocessor: it changes the state, also where it then fails. A panic unwinds to the
-- deferred calls, while a panic in a goroutine ends the process without them: `crashed`.
use opentelemetry_go_auto_in.Base.{Outcome, ok, err, panicked, Code}
use opentelemetry_go_auto_in.Preprocess.Backup.{FileSystem, State}

pub data Result (A : Type 0) : Type 0 where
  value : A → Result A
  error : Code → Result A
  unwinding crashed : Result A

abbrev pub result_of : {A : Type 0} → Outcome A → Result A
result_of (ok a) = value a
result_of (err c) = error c
result_of panicked = unwinding

abbrev pub Step : Type 0 → Type 0
Step A = State → Result A × State

abbrev pub continue : {A B : Type 0} → (A → Step B) → Result A × State → Result B × State
continue f (value a, s) = f a s
continue f (error c, s) = (error c, s)
continue f (unwinding, s) = (unwinding, s)
continue f (crashed, s) = (crashed, s)

infixl 5 ◌>>=◌ ◌>>◌
abbrev pub ◌>>=◌ : {A B : Type 0} → Step A → (A → Step B) → Step B
(m >>= f) s = continue f (m s)

abbrev pub ◌>>◌ : {B : Type 0} → Step (Unit {0}) → Step B → Step B
m >> k = m >>= λ _. k

abbrev pub done : {A : Type 0} → A → Step A
done a s = (value a, s)

-- A computation that reads the files.
abbrev pub reading : {A : Type 0} → (FileSystem → Result A) → Step A
reading f s = (f s.fs, s)

-- What may change files, also where it then fails.
abbrev pub running : {A : Type 0} → (FileSystem → Outcome A × FileSystem) → Step A
running f s = let (r, fs) = f s.fs in (result_of r, record s { fs = fs })

-- Where the step leads from states of the property to such states, whatever it returns.
abbrev pub Keeps : (State → Type 0) → {A : Type 0} → Step A → Type 0
Keeps I m = (s : State) → I s → I (m s).1

pub continue-Keeps :
    (I : State → Type 0) {A B : Type 0} (f : A → Step B) (r : Result A × State)
    → ((a : A) → Keeps I (f a))
    → I r.1
    → I (continue f r).1
continue-Keeps I f (value a, s) h i = h a s i
continue-Keeps I f (error c, s) h i = i
continue-Keeps I f (unwinding, s) h i = i
continue-Keeps I f (crashed, s) h i = i

pub bind-Keeps :
    (I : State → Type 0) {A B : Type 0} (m : Step A) (f : A → Step B)
    → Keeps I m
    → ((a : A) → Keeps I (f a))
    → Keeps I (m >>= f)
bind-Keeps I m f k h s i = continue-Keeps I f (m s) h (k s i)
