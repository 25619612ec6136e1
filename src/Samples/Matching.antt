-- ===== src/Samples/Matching.antt =====
-- The matcher's theorems at concrete rules, versions and commands.
use opentelemetry_go_auto_in.Base.{
  ◌+◌, ◌≡◌, refl, inl, Bool, true, false, ◌&&◌, none, some, List, [], ◌∷◌, ok, Str, codes, str_eq,
  has_prefix, has_suffix, index_byte, contains_byte, remove_byte,
}
use Prim.Native.Nat.{Ordering, compare}
use opentelemetry_go_auto_in.Base.Int.{pos}
use opentelemetry_go_auto_in.Base.Dict.{lookup, insert}
use opentelemetry_go_auto_in.Resource.RuleDef.{InstRule, InstFuncRule, func_rule, get_import_path}
use opentelemetry_go_auto_in.Resource.Bundle.{
  RuleBundle, new_rule_bundle, add_rule, add_file2func_rule, set_package_name, func_key,
}
use opentelemetry_go_auto_in.Resource.Tally.{count, tally}
use opentelemetry_go_auto_in.Match.Version.{
  is_invalid_range, extract_version, find_version, version_here, digits1, byte, suffix_then_slash,
  to_slash, split_version_range, slice, match_bounds, match_version,
}
use opentelemetry_go_auto_in.Match.Version.Ranges.{Range, match_version-in_range}
use opentelemetry_go_auto_in.Match.Version.Extract.{extract_version-version_text}
use opentelemetry_go_auto_in.Match.Decl.{func_decl, match_func_decl, match_receiver, must_match}
use opentelemetry_go_auto_in.Match.Vendor.{find_vendor_module_version}
use opentelemetry_go_auto_in.Match.Select.{
  Tools, Scan, rules_at, find_flag_value, to_v, match_decls, version_matches, go_version_matches,
  parse_cached, match_tree, match_kind, match_rule, match_rules, file_version, match_files,
  match_available, match, group_rules, new_rule_matcher,
}
use opentelemetry_go_auto_in.Match.Select.Admitted.{start_scan, match-conserves}

-- A comparison of versions by their bytes.
abbrev compare_bytes : Str → Str → Ordering
compare_bytes [] [] = Ordering.eq
compare_bytes [] (d ∷ t) = Ordering.lt
compare_bytes (c ∷ s) [] = Ordering.gt
compare_bytes (c ∷ s) (d ∷ t) =
    let rest = compare_bytes s t in
    elim (compare c d) [
      | Ordering.lt ↦ Ordering.lt
      | Ordering.gt ↦ Ordering.gt
      | Ordering.eq ↦ rest
    ]

abbrev from_1_2 : Range
from_1_2 = record { start = some (codes "1.2.0"); end = none }

match_version-in_range_example :
    match_version compare_bytes (codes "v1.3.0") (codes "[1.2.0, )") ≡ ok true
match_version-in_range_example =
    match_version-in_range compare_bytes (codes "v1.3.0") (codes "[1.2.0, )") from_1_2
      (unfold contains_byte in refl) (unfold remove_byte in refl)
      (λ e. cc, unfold contains_byte in refl, unfold contains_byte in refl) tt (inl (λ e. cc))

extract_version-version_text_example :
    extract_version false (codes "/go/pkg/mod/github.com/gin-gonic/gin@v1.10.0/gin.go")
    ≡ codes "v1.10.0"
extract_version-version_text_example =
    extract_version-version_text (codes "/go/pkg/mod/github.com/gin-gonic/gin") (codes "1")
      (codes "10") (codes "0") [] (codes "gin.go") (unfold contains_byte in refl) (λ e. cc, refl)
      (λ e. cc, refl) (λ e. cc, refl) tt

abbrev hook : Str → Str → InstFuncRule
hook version function = record {
  base = record {
    path = codes "rules/gin";
    version = version;
    go_version = codes "[1.20,)";
    import_path = codes "gin";
  };
  function = function;
  receiver_type = [];
  order = pos 0;
  use_raw = false;
  on_enter = codes "enter";
  on_exit = [];
}

abbrev old_hook : InstFuncRule
old_hook = hook (codes "[1.0.0,1.5.0)") (codes "New")

abbrev new_hook : InstFuncRule
new_hook = hook (codes "[1.5.0,)") (codes "New")

-- A file that declares the function New; patterns match as plain texts.
abbrev tools : Tools
tools = record {
  windows = false;
  parse_package = λ file. some (codes "gin");
  parse_fast = λ file. some (record {
    package_name = codes "gin";
    decls = func_decl (record { name = codes "New"; recv = none }) ∷ [];
  });
  abs = λ file. some file;
  regex = λ pattern. some (λ text. true);
  semver_compare = compare_bytes;
}

abbrev rules : List InstRule
rules = func_rule old_hook ∷ func_rule new_hook ∷ []

abbrev file : Str
file = codes "/m/gin@v1.6.0/a.go"

abbrev command_line : List Str
command_line =
    codes "compile" ∷ codes "-p" ∷ codes "gin" ∷ codes "-goversion" ∷ codes "go1.22" ∷ file ∷ []

abbrev bundle : RuleBundle
bundle = record {
  package_name = codes "gin";
  import_path = codes "gin";
  file_rules = [];
  file2func_rules = (file, (codes "New,", new_hook ∷ []) ∷ []) ∷ [];
  file2struct_rules = [];
}

match_run : match tools (new_rule_matcher rules) [] command_line ≡ ok (some bundle)
unfolding match new_rule_matcher group_rules lookup insert str_eq find_flag_value match_available
    match_files match_rules match_rule version_matches go_version_matches match_version
    is_invalid_range contains_byte remove_byte split_version_range index_byte slice match_bounds
    match_kind match_tree parse_cached match_decls match_func_decl must_match match_receiver
    add_file2func_rule add_rule func_key set_package_name new_rule_bundle file_version
    find_vendor_module_version extract_version find_version version_here digits1 byte
    suffix_then_slash to_slash has_prefix has_suffix
match_run = refl

match-conserves_example :
    (import_path go_version : Str) × (kept : List InstRule) × (s : Scan) × (find_flag_value
        command_line
        (codes "-p")
      ≡ ok import_path)
    × (find_flag_value command_line (codes "-goversion") ≡ ok go_version)
    × (match_files tools [] import_path
          (to_v go_version)
          command_line
          (rules_at (lookup import_path (new_rule_matcher rules)))
          (start_scan import_path)
        ≡ ok (kept, s))
    × (s.bundle ≡ bundle)
    × ((p : InstRule → Bool)
        → tally p bundle + count p kept
          ≡ count (λ rule. p rule && str_eq (get_import_path rule) import_path) rules)
match-conserves_example = match-conserves tools rules [] command_line bundle match_run
