-- ===== src/Instrument/CompileArgs.antt =====
-- tool/instrument/instrument.go: the arguments of the compile command while rules are applied, and
-- the files that were moved. `abs` is filepath.Abs, `none` its error; the message of the error
-- that replaceCompileArg returns is left out, with haveSameSuffix, which is for that message only.
use opentelemetry_go_auto_in.Base.{
  ◌≡◌, refl, Bool, true, false, Option, none, some, List, [], ◌∷◌, ◌++◌, arith, if◌then◌else◌, All,
  Outcome, ok, err, ◌>>=◌, or_err, Code, Str, str_eq,
}
use opentelemetry_go_auto_in.Base.Dict.{Dict, lookup, insert, lookup-insert}

pub record RuleProcessor : Type 0 where
  pub compile_args : List Str
  pub relocated : Dict Str

unfoldable pub set_relocated : Str → Str → RuleProcessor → RuleProcessor
set_relocated name target rp = record rp { relocated = insert name target rp.relocated }

abbrev pub or_name : Option Str → Str → Str
or_name none name = name
or_name (some target) name = target

unfoldable pub try_relocated : RuleProcessor → Str → Str
try_relocated rp name = or_name (lookup name rp.relocated) name

unfoldable pub add_compile_arg : Str → RuleProcessor → RuleProcessor
add_compile_arg new_arg rp = record rp { compile_args = rp.compile_args ++ new_arg ∷ [] }

module _ (abs : Str → Option Str) (new_arg : Str) (pred : Str → Bool) where
  -- The loop of replaceCompileArg: the arguments with the first match replaced, and its path.
  unfoldable pub replace_loop : List Str → Outcome (List Str × Str)
  replace_loop [] = err Code.instrument
  replace_loop (arg ∷ args) =
      let rest = replace_loop args in
      or_err (abs arg) Code.abs_path >>= λ path.
      (if pred path
        then ok (new_arg ∷ args, path)
        else (rest >>= λ (args', found). ok (arg ∷ args', found)))

  unfoldable pub replace_compile_arg : RuleProcessor → Outcome RuleProcessor
  unfolding replace_loop set_relocated
  replace_compile_arg rp = replace_loop rp.compile_args >>= λ (args, path).
      ok (set_relocated path new_arg (record rp { compile_args = args }))

  -- An argument that is not the one to replace.
  abbrev pub Passed : Str → Type 0
  Passed arg = (path : Str) × (abs arg ≡ some path) × (pred path ≡ false)

  replace_loop-append :
      (before after : List Str) (arg path : Str)
      → All Passed before
      → abs arg ≡ some path
      → pred path ≡ true
      → replace_loop (before ++ arg ∷ after) ≡ ok (before ++ new_arg ∷ after, path)
  unfolding replace_loop
  replace_loop-append [] after arg path h e p = rw e (rw p refl)
  replace_loop-append (b ∷ before) after arg path h e p =
      let (skipped, at, missed) = h.0 in
      rw at (rw missed (rw (replace_loop-append before after arg path h.1 e p) refl))

  replace_loop_none : (args : List Str) → All Passed args → replace_loop args ≡ err Code.instrument
  unfolding replace_loop
  replace_loop_none [] h = refl
  replace_loop_none (a ∷ args) h =
      let (skipped, at, missed) = h.0 in rw at (rw missed (rw (replace_loop_none args h.1) refl))

  -- replaceCompileArg replaces the first argument whose absolute path passes the test, keeps the
  -- others in their places, and from then on that path, and no other, is relocated to the new
  -- argument.
  pub replace_compile_arg-try_relocated :
      (before after : List Str) (arg path : Str) (moved : Dict Str)
      → All Passed before
      → abs arg ≡ some path
      → pred path ≡ true
      → (rp : RuleProcessor) × (replace_compile_arg
            (record { compile_args = before ++ arg ∷ after; relocated = moved })
          ≡ ok rp)
        × (rp.compile_args ≡ before ++ new_arg ∷ after)
        × ((name : Str)
            → try_relocated rp name ≡ (
                if str_eq path name
                then new_arg
                else try_relocated (record { compile_args = []; relocated = moved }) name))
  unfolding replace_compile_arg try_relocated
  replace_compile_arg-try_relocated before after arg path moved h e p = (
    record { compile_args = before ++ new_arg ∷ after; relocated = insert path new_arg moved },
    rw (replace_loop-append before after arg path h e p) refl,
    refl,
    λ name. ground (arith, lookup-insert path name new_arg moved),
  )

  -- When every argument has an absolute path and none passes the test, replaceCompileArg returns
  -- the error ErrInstrument.
  pub replace_compile_arg_none :
      (rp : RuleProcessor)
      → All Passed rp.compile_args
      → replace_compile_arg rp ≡ err Code.instrument
  unfolding replace_compile_arg
  replace_compile_arg_none rp h = rw (replace_loop_none rp.compile_args h) refl
