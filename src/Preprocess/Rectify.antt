-- ===== src/Preprocess/Rectify.antt =====
-- rectifyRule of tool/preprocess/rectify.go. The rules are shared: one rule may stand in several
-- bundles, and is changed in place. So a bundle holds numbers of rules, and the rules are a store.
pub mod Halfway
pub mod Shared
use opentelemetry_go_auto_in.Base.{
  ℕ, Bool, true, false, List, [], ◌∷◌, any, ◌==◌, if◌then◌else◌, Str, str_eq, trim_prefix,
}
use opentelemetry_go_auto_in.Base.Dict.{Dict}
use opentelemetry_go_auto_in.Resource.RuleDef.{InstFuncRule, InstFileRule}
use opentelemetry_go_auto_in.Preprocess.Replace.{pkg_prefix}

pub record RuleRefs : Type 0 where
  pub func_refs : Dict (Dict (List ℕ))
  pub file_refs : List ℕ

-- The rules, and the set `rectified` of paths.
pub record RuleStore : Type 0 where
  pub funcs : ℕ → InstFuncRule
  pub files : ℕ → InstFileRule
  pub rectified : List Str

abbrev pub set_func : ℕ → InstFuncRule → RuleStore → RuleStore
set_func i r s = record s { funcs = λ j. if i == j then r else s.funcs j }

abbrev pub set_file : ℕ → InstFileRule → RuleStore → RuleStore
set_file i r s = record s { files = λ j. if i == j then r else s.files j }

abbrev pub is_rectified : RuleStore → Str → Bool
is_rectified s path = any (λ p. str_eq p path) s.rectified

-- A loop over a slice, or over a map in the order that Go takes.
abbrev pub each {ℓ} : {A : Type ℓ} → (A → RuleStore → RuleStore) → List A → RuleStore → RuleStore
each f [] s = s
each f (a ∷ l) s = each f l (f a s)

-- `join` is filepath.Join, `cache` is pkgLocalCache.
module _ (join : Str → Str → Str) (cache : Str) where
  abbrev pub local_path : Str → Str
  local_path path = join cache (trim_prefix path pkg_prefix)

  abbrev pub local_func : InstFuncRule → InstFuncRule
  local_func r = record r { base = record r.base { path = local_path r.base.path } }

  abbrev pub local_file : InstFileRule → InstFileRule
  local_file r = record r {
    base = record r.base { path = local_path r.base.path };
    file_name = join (local_path r.base.path) r.file_name;
  }

  abbrev pub mark : Str → RuleStore → RuleStore
  mark path s = record s { rectified = path ∷ s.rectified }

  abbrev pub change_func : ℕ → InstFuncRule → RuleStore → RuleStore
  change_func i r s =
      if r.use_raw
      then s
      else if is_rectified s r.base.path
      then s
      else mark (local_path r.base.path) (set_func i (local_func r) s)

  unfoldable pub rectify_func : ℕ → RuleStore → RuleStore
  rectify_func i s = change_func i (s.funcs i) s

  abbrev pub change_file : ℕ → InstFileRule → RuleStore → RuleStore
  change_file i r s =
      if is_rectified s r.base.path
      then s
      else mark (local_path r.base.path) (set_file i (local_file r) s)

  unfoldable pub rectify_file : ℕ → RuleStore → RuleStore
  rectify_file i s = change_file i (s.files i) s

  abbrev pub rectify_function : Str × List ℕ → RuleStore → RuleStore
  rectify_function (name, refs) s = each rectify_func refs s

  abbrev pub rectify_functions : Str × Dict (List ℕ) → RuleStore → RuleStore
  rectify_functions (file, m) s = each rectify_function m s

  unfoldable pub rectify_bundle : RuleRefs → RuleStore → RuleStore
  rectify_bundle b s = each rectify_file b.file_refs (each rectify_functions b.func_refs s)

  unfoldable pub rectify_rule : List RuleRefs → RuleStore → RuleStore
  rectify_rule bundles s = each rectify_bundle bundles (record s { rectified = [] })
