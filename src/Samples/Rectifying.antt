-- ===== src/Samples/Rectifying.antt =====
-- The theorem on the paths of rules, at two bundles that share a rule.
use opentelemetry_go_auto_in.Base.{
  ◌≡◌, refl, ◌⊎◌, ℕ, Bool, true, false, [], ◌∷◌, ◌++◌, All, Str, codes, has_prefix,
}
use opentelemetry_go_auto_in.Base.Int.{pos}
use opentelemetry_go_auto_in.Resource.RuleDef.{InstBaseRule}
use opentelemetry_go_auto_in.Preprocess.Replace.{pkg_prefix}
use opentelemetry_go_auto_in.Preprocess.Rectify.{RuleRefs, RuleStore, rectify_rule}
use opentelemetry_go_auto_in.Preprocess.Rectify.Halfway.{BundleDone, wanted_func, wanted_file}
use opentelemetry_go_auto_in.Preprocess.Rectify.Shared.{rectify_rule_once}

abbrev base : InstBaseRule
base = record {
  path = pkg_prefix ++ codes "/rules/http";
  version = [];
  go_version = [];
  import_path = codes "net/http";
}

abbrev store : RuleStore
store = record {
  funcs = λ i. record {
    base = base;
    function = codes "Do";
    receiver_type = [];
    order = pos 0;
    use_raw = false;
    on_enter = codes "before";
    on_exit = [];
  };
  files = λ i. record { base = base; file_name = codes "f.go"; replace = false };
  rectified = [];
}

abbrev bundle : RuleRefs
bundle = record {
  func_refs = (codes "a.go", (codes "Do,", 0 ∷ 1 ∷ []) ∷ []) ∷ [];
  file_refs = 0 ∷ [];
}

abbrev join_paths : Str → Str → Str
join_paths dir name = dir ++ name

abbrev is_local : Str → Bool
is_local p = has_prefix p (codes "/c")

in_cache : (path : Str) → is_local (join_paths (codes "/c") path) ≡ true
unfolding has_prefix
in_cache path = refl

rectify_rule_once_example :
    let s = rectify_rule join_paths (codes "/c") (bundle ∷ bundle ∷ []) store in
    All (BundleDone join_paths (codes "/c") is_local store s) (bundle ∷ bundle ∷ [])
    × ((i : ℕ)
        → (s.funcs i ≡ store.funcs i)
          ⊎ (s.funcs i ≡ wanted_func join_paths (codes "/c") is_local store i))
    × ((i : ℕ)
        → (s.files i ≡ store.files i)
          ⊎ (s.files i ≡ wanted_file join_paths (codes "/c") is_local store i))
rectify_rule_once_example =
    rectify_rule_once join_paths (codes "/c") is_local store in_cache
      (λ i raw. unfold has_prefix in refl) (λ i. unfold has_prefix in refl) (bundle ∷ bundle ∷ [])
