-- ===== src/Resource/RuleDef.antt =====
-- The instrumentation rules of tool/resource/ruledef.go: the three kinds of rule as records over
-- the base rule, the interface InstRule as a data type with a constructor for each kind, and the
-- checks of Verify.
use opentelemetry_go_auto_in.Base.{
  Bool, true, false, not, ◌&&◌, ◌||◌, List, [], ◌∷◌, if◌then◌else◌, Outcome, ok, err, ◌>>◌, Code,
  Str, codes, str_eq, has_suffix, contains_byte,
}
use opentelemetry_go_auto_in.Base.Int.{ℤ}

pub record InstBaseRule : Type 0 where
  pub path : Str
  pub version : Str
  pub go_version : Str
  pub import_path : Str

pub record InstFuncRule : Type 0 where
  pub base : InstBaseRule
  pub function : Str
  pub receiver_type : Str
  pub order : ℤ
  pub use_raw : Bool
  pub on_enter : Str
  pub on_exit : Str

pub record InstStructRule : Type 0 where
  pub base : InstBaseRule
  pub struct_type : Str
  pub field_name : Str
  pub field_type : Str

pub record InstFileRule : Type 0 where
  pub base : InstBaseRule
  pub file_name : Str
  pub replace : Bool

pub data InstRule : Type 0 where
  func_rule : InstFuncRule → InstRule
  struct_rule : InstStructRule → InstRule
  file_rule : InstFileRule → InstRule

-- The embedded InstBaseRule, through which the getters read.
abbrev pub base_of : InstRule → InstBaseRule
base_of (func_rule r) = r.base
base_of (struct_rule r) = r.base
base_of (file_rule r) = r.base

-- GetVersion, GetGoVersion, GetImportPath, GetPath
abbrev pub get_version : InstRule → Str
get_version r = (base_of r).version

abbrev pub get_go_version : InstRule → Str
get_go_version r = (base_of r).go_version

abbrev pub get_import_path : InstRule → Str
get_import_path r = (base_of r).import_path

abbrev pub get_path : InstRule → Str
get_path r = (base_of r).path

-- The format test of verifyRule: has `[`, `)` and `,`, and no `v`.
unfoldable pub is_range_text : Str → Bool
is_range_text v =
    contains_byte v b'['
    && contains_byte v b')'
    && contains_byte v b','
    && not (contains_byte v b'v')

-- The loop of verifyRule over its two version strings.
unfoldable pub verify_versions : List Str → Outcome (Unit {0})
unfolding is_range_text
verify_versions [] = ok tt
verify_versions (v ∷ vs) =
    if str_eq v [] || is_range_text v then verify_versions vs else err Code.invalid_rule

unfoldable pub verify_rule : InstBaseRule → Bool → Outcome (Unit {0})
unfolding verify_versions
verify_rule r check_path =
    if check_path && str_eq r.path []
    then err Code.invalid_rule
    else if str_eq r.import_path []
    then err Code.invalid_rule
    else verify_versions (r.version ∷ r.go_version ∷ [])

-- The two wrappers pass `checkPath` as the source does: the one named "WithoutPath" passes true.
unfoldable pub verify_rule_base : InstBaseRule → Outcome (Unit {0})
unfolding verify_rule
verify_rule_base r = verify_rule r false

unfoldable pub verify_rule_base_without_path : InstBaseRule → Outcome (Unit {0})
unfolding verify_rule
verify_rule_base_without_path r = verify_rule r true

unfoldable pub verify_file : InstFileRule → Outcome (Unit {0})
unfolding verify_rule_base
verify_file r = do
  verify_rule_base r.base
  (if str_eq r.file_name []
      then err Code.invalid_rule
      else if has_suffix r.file_name (codes ".go")
      then ok tt
      else err Code.invalid_rule)

unfoldable pub verify_func : InstFuncRule → Outcome (Unit {0})
unfolding verify_rule_base verify_rule_base_without_path
verify_func r = do
  (if r.use_raw then verify_rule_base_without_path r.base else verify_rule_base r.base)
  (if str_eq r.function []
      then err Code.invalid_rule
      else if str_eq r.on_enter [] && str_eq r.on_exit []
      then err Code.invalid_rule
      else ok tt)

unfoldable pub verify_struct : InstStructRule → Outcome (Unit {0})
unfolding verify_rule_base_without_path
verify_struct r = do
  verify_rule_base_without_path r.base
  (if str_eq r.struct_type []
      then err Code.invalid_rule
      else if str_eq r.field_name [] || str_eq r.field_type []
      then err Code.invalid_rule
      else ok tt)

-- Verify, by the kind of the rule.
unfoldable pub verify : InstRule → Outcome (Unit {0})
unfolding verify_func verify_struct verify_file
verify (func_rule r) = verify_func r
verify (struct_rule r) = verify_struct r
verify (file_rule r) = verify_file r
