-- ===== src/Samples/Loading.antt =====
-- The theorems on loading rules at concrete files.
use Prim.Native.Nat.{Ordering}
use opentelemetry_go_auto_in.Config.{BuildConfig, empty_config}
use opentelemetry_go_auto_in.Base.Dict.{lookup, insert}
use opentelemetry_go_auto_in.Match.Vendor.{VendorModule}
use opentelemetry_go_auto_in.Match.Vendor.Parse.{
  parse_vendor_modules, parse_lines, parse_line, module_line, package_line, record_version, fields,
  fields_from, is_providing, parse_vendor_modules_provide,
}
use opentelemetry_go_auto_in.Match.Version.Verified.{Judged, verify-match_version}
use opentelemetry_go_auto_in.Base.{
  Bool, true, all, has_prefix, contains_byte, has_suffix, ◌≡◌, refl, false, Option, none, some,
  List, [], ◌∷◌, ok, Str, codes, str_eq, split, split_from, if◌then◌else◌,
}
use opentelemetry_go_auto_in.Base.Int.{pos}
use opentelemetry_go_auto_in.Resource.RuleDef.{
  InstRule, verify, verify_file, verify_rule_base, verify_rule, verify_versions, InstBaseRule,
  InstFileRule, file_rule,
}
use opentelemetry_go_auto_in.Match.Load.{
  RuleHolder, rule_of, rules_of, load_rule_raw, load_rule_file, load_default_rules, load_chunks,
  load_chunk, start_rules, find_available_rules, find_available_rules-load_all,
}

abbrev fmt_base : InstBaseRule
fmt_base = record { path = []; version = []; go_version = []; import_path = codes "fmt" }

abbrev fmt_file : InstFileRule
fmt_file = record { base = fmt_base; file_name = codes "hook.go"; replace = false }

abbrev fmt_holder : RuleHolder
fmt_holder = record {
  base = fmt_base;
  func = record {
    base = fmt_base;
    function = [];
    receiver_type = [];
    order = pos 0;
    use_raw = false;
    on_enter = [];
    on_exit = [];
  };
  struct = record { base = fmt_base; struct_type = []; field_name = []; field_type = [] };
  file = fmt_file;
}

-- The content "f" is the one rule above, every other content no JSON; the file "a" has it.
abbrev decode : Str → Option (List (Option RuleHolder))
decode content = if str_eq content (codes "f") then some (some fmt_holder ∷ []) else none

abbrev read : Str → Option Str
read path = if str_eq path (codes "a") then some (codes "f") else none

abbrev embedded : Str → Option Str
embedded name = some (codes "f")

abbrev two_files : BuildConfig
two_files = record empty_config { rule_json_files = codes "b,a" }

abbrev one_file : BuildConfig
one_file = record empty_config { rule_json_files = codes "b" }

default_rule :
    start_rules decode read (some (codes "d" ∷ [])) embedded two_files
    ≡ ok (file_rule fmt_file ∷ [])
unfolding load_default_rules load_chunks load_chunk load_rule_raw rules_of rule_of str_eq
default_rule = refl

find_available_rules-load_all_example :
    find_available_rules decode read (some (codes "d" ∷ [])) embedded two_files
    ≡ ok (file_rule fmt_file ∷ file_rule fmt_file ∷ [])
unfolding load_rule_file load_rule_raw rules_of rule_of str_eq split split_from
find_available_rules-load_all_example =
    find_available_rules-load_all decode read (some (codes "d" ∷ [])) embedded two_files
      (file_rule fmt_file ∷ []) refl (unfold contains_byte in refl) default_rule
      ((λ e. cc), ((λ e. cc), tt))

abbrev ranged_rule : InstRule
ranged_rule = file_rule (record fmt_file { base = record fmt_base { version = codes "[1.0.0,)" } })

ranged_rule_ok : verify ranged_rule ≡ ok tt
unfolding verify verify_file verify_rule_base verify_rule verify_versions has_suffix contains_byte
    str_eq
ranged_rule_ok = refl

abbrev always_equal : Str → Str → Ordering
always_equal a b = Ordering.eq

verify-match_version_example :
    Judged always_equal (codes "v1.2.0") (codes "[1.0.0,)")
    × Judged always_equal (codes "v1.2.0") []
verify-match_version_example =
    verify-match_version always_equal ranged_rule (codes "v1.2.0") ranged_rule_ok
      (unfold contains_byte in refl)

abbrev begins_with_v : Str → Bool
begins_with_v s = has_prefix s (codes "v")

abbrev any_path : Str → Bool
any_path s = true

abbrev modules_txt : List Str
modules_txt =
    codes "# m v1.2.0"
    ∷ codes "## explicit"
    ∷ codes "m/a"
    ∷ codes "# n v1.0.0"
    ∷ codes "# m => ../m"
    ∷ []

abbrev vendored : List VendorModule
vendored = record { path = codes "m"; version = codes "v1.2.0"; submodules = codes "m/a" ∷ [] } ∷ []

modules_txt_parsed :
    parse_vendor_modules begins_with_v always_equal any_path (some (modules_txt, true))
    ≡ ok vendored
unfolding parse_vendor_modules parse_lines parse_line module_line package_line record_version fields
    fields_from has_prefix str_eq lookup insert
modules_txt_parsed = refl

parse_vendor_modules_provide_example :
    all (is_providing begins_with_v always_equal any_path) vendored ≡ true
parse_vendor_modules_provide_example =
    parse_vendor_modules_provide begins_with_v always_equal any_path (some (modules_txt, true))
      vendored modules_txt_parsed
