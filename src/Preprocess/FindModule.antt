-- ===== src/Preprocess/FindModule.antt =====
-- findModule of tool/preprocess/preprocess.go: the packages that a build command names. `load` is
-- tryLoadPackage, that is packages.Load of golang.org/x/tools; `none` is its error.
use mathlib.Core.List.{reverse}
use opentelemetry_go_auto_in.Base.{
  ◌≡◌, ◌↔◌, Bool, true, false, ◌&&◌, ◌||◌, Option, none, some, List, [], ◌∷◌, ◌++◌, arith,
  if◌then◌else◌, Outcome, ok, err, Code, Str, codes, str_eq, has_prefix, has_suffix,
}

pub record Package : Type 0 where
  pub name : Str
  pub go_files : List Str
  pub has_errors : Bool

-- The test that ends the scan, with the arguments of strings.HasPrefix as the source has them:
-- HasPrefix("-", buildArg).
unfoldable pub stops : Str → Bool
stops arg = has_prefix (codes "-") arg || str_eq arg (codes "build") || str_eq arg (codes "install")

-- A Go file named with test_ stands for an artificial package.
unfoldable pub is_test_file : Str → Bool
is_test_file arg = has_suffix arg (codes ".go") && has_prefix arg (codes "test_")

abbrev pub artificial : Str → Package
artificial arg = record { name = codes "main"; go_files = arg ∷ []; has_errors = false }

-- The packages that loaded without errors.
unfoldable pub sound : List Package → List Package
sound [] = []
sound (p ∷ ps) = let rest = sound ps in if p.has_errors then rest else p ∷ rest

abbrev not_empty {ℓ} : {A : Type ℓ} → List A → Bool
not_empty [] = false
not_empty (x ∷ xs) = true

module _ (load : Str → Option (List Package)) where
  -- The loop, over the arguments from the last one; the Boolean is `found`.
  unfoldable pub scan : List Str → Bool → List Package → Bool × List Package
  unfolding sound
  scan [] found candidates = (found, candidates)
  scan (arg ∷ args) found candidates =
      let as_test = scan args true (candidates ++ artificial arg ∷ []) in
      let skipped = scan args found candidates in
      if stops arg
      then (found, candidates)
      else if is_test_file arg
      then as_test
      else elim (load arg) [
        | none ↦ if found then (found, candidates) else skipped
        | some ps ↦ scan args (found || not_empty (sound ps)) (candidates ++ sound ps)
      ]

  abbrev or_none : List Package → Outcome (List Package)
  or_none [] = err Code.preprocess
  or_none (p ∷ ps) = ok (p ∷ ps)

  unfoldable pub find_module : List Str → Outcome (List Package)
  unfolding scan
  find_module build_cmd =
      let (found, candidates) = scan (reverse build_cmd) false [] in
      if found then or_none candidates else elim (load (codes ".")) [
        | none ↦ err Code.preprocess
        | some ps ↦ or_none (candidates ++ sound ps)
      ]

-- A build argument that begins with a dash ends the scan only if it is the dash alone.
pub stops-dash_iff :
    (arg : Str) → has_prefix arg (codes "-") ≡ true → (stops arg ≡ true) ↔ (arg ≡ codes "-")
unfolding stops has_prefix str_eq
stops-dash_iff [] h = cc
stops-dash_iff (c ∷ []) h = (λ e. ground arith, λ e. ground arith)
stops-dash_iff (c ∷ d ∷ s) h = (λ e. ground arith, λ e. cc)
