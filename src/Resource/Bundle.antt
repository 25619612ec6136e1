-- ===== src/Resource/Bundle.antt =====
-- tool/resource/bundle.go: the rules that matched one package, by file and by function or struct.
use opentelemetry_go_auto_in.Base.{
  Bool, true, false, not, ◌||◌, Option, none, some, List, [], ◌∷◌, ◌++◌, Outcome, ok, ◌>>=◌, ◌>>◌,
  assert, or_err, Code, Str, codes, str_eq,
}
use opentelemetry_go_auto_in.Base.Dict.{Dict, lookup, insert}
use opentelemetry_go_auto_in.Resource.RuleDef.{InstFuncRule, InstStructRule, InstFileRule}

pub record RuleBundle : Type 0 where
  pub package_name : Str
  pub import_path : Str
  pub file_rules : List InstFileRule
  pub file2func_rules : Dict (Dict (List InstFuncRule))
  pub file2struct_rules : Dict (Dict (List InstStructRule))

unfoldable pub new_rule_bundle : Str → RuleBundle
new_rule_bundle import_path = record {
  package_name = [];
  import_path = import_path;
  file_rules = [];
  file2func_rules = [];
  file2struct_rules = [];
}

abbrev not_empty {ℓ} : {A : Type ℓ} → List A → Bool
not_empty [] = false
not_empty (x ∷ xs) = true

-- IsValid; a nil bundle is `none`.
unfoldable pub is_valid : Option RuleBundle → Bool
is_valid none = false
is_valid (some rb) =
    not_empty rb.file_rules || not_empty rb.file2func_rules || not_empty rb.file2struct_rules

-- m[k] where a missing key reads as the nil slice.
abbrev pub slice_at {ℓ} : {A : Type ℓ} → Option (List A) → List A
slice_at none = []
slice_at (some xs) = xs

-- The body that AddFile2FuncRule and AddFile2StructRule share: a new inner map where the file is
-- new, else one more rule at the end of the slice of the key.
unfoldable pub add_rule {ℓ} :
    {A : Type ℓ} → Dict (Dict (List A)) → Str → Str → A → Dict (Dict (List A))
add_rule m file k rule = elim (lookup file m) [
  | none ↦ insert file (insert k (rule ∷ []) []) m
  | some inner ↦ insert file (insert k (slice_at (lookup k inner) ++ rule ∷ []) inner) m
]

-- fn := rule.Function + "," + rule.ReceiverType
unfoldable pub func_key : InstFuncRule → Str
func_key r = r.function ++ (codes "," ++ r.receiver_type)

-- `abs` is filepath.Abs; `none` is its error.
module _ (abs : Str → Option Str) where
  unfoldable pub add_file2func_rule : RuleBundle → Str → InstFuncRule → Outcome RuleBundle
  add_file2func_rule rb file rule = do
    file ← or_err (abs file) Code.abs_path
    assert (not (str_eq (func_key rule) []))
    ok (record rb { file2func_rules = add_rule rb.file2func_rules file (func_key rule) rule })

  unfoldable pub add_file2struct_rule : RuleBundle → Str → InstStructRule → Outcome RuleBundle
  add_file2struct_rule rb file rule = do
    file ← or_err (abs file) Code.abs_path
    assert (not (str_eq rule.struct_type []))
    ok (record rb { file2struct_rules = add_rule rb.file2struct_rules file rule.struct_type rule })

unfoldable pub set_package_name : RuleBundle → Str → RuleBundle
set_package_name rb name = record rb { package_name = name }

unfoldable pub add_file_rule : RuleBundle → InstFileRule → RuleBundle
add_file_rule rb rule = record rb { file_rules = rb.file_rules ++ rule ∷ [] }
