-- ===== src/Samples/Configuring.antt =====
-- The theorems on the configuration at concrete variables and files.
use opentelemetry_go_auto_in.Base.{
  arith, ◌≡◌, refl, Bool, true, false, Option, some, [], ◌++◌, map, all, ok, if◌then◌else◌, Str,
  codes, str_eq, contains_byte, split, split_from,
}
use opentelemetry_go_auto_in.Config.{
  BuildConfig, empty_config, disable_default_field, snake_loop, to_upper_snake_case, env_key,
  load_config_from_env, join, make_rule_abs, make_all_abs, parse_rule_files,
}
use opentelemetry_go_auto_in.Config.Overlay.{flag, value_of, value_of-load_config_from_env}
use opentelemetry_go_auto_in.Config.RuleFiles.{KeepsCommaFree, parse_rule_files-split}

abbrev getenv : Str → Str
getenv key = if str_eq key (codes "OTELTOOL_DISABLE_DEFAULT") then codes "true" else []

value_of-load_config_from_env_example :
    value_of disable_default_field (load_config_from_env getenv empty_config) ≡ flag true
unfolding env_key to_upper_snake_case snake_loop str_eq
value_of-load_config_from_env_example =
    value_of-load_config_from_env getenv empty_config disable_default_field

abbrev exists_all : Str → Bool
exists_all p = true

abbrev below_root : Str → Option Str
below_root p = some (codes "root" ++ p)

abbrev two_rules : BuildConfig
two_rules = record empty_config { rule_json_files = codes "a,b" }

abbrev two_rules_abs : BuildConfig
two_rules_abs = record empty_config { rule_json_files = codes "roota,rootb" }

two_rules_ok : parse_rule_files exists_all below_root false two_rules ≡ ok two_rules_abs
unfolding parse_rule_files make_all_abs make_rule_abs join contains_byte str_eq split split_from
two_rules_ok = refl

below_root_no_comma : KeepsCommaFree exists_all below_root
unfolding contains_byte
below_root_no_comma p q e h = let made : codes "root" ++ p ≡ q = ground (arith, h) in rw (← made) e

parse_rule_files-split_example :
    (map below_root (split (codes "a,b") b',') ≡ map some (split (codes "roota,rootb") b','))
    × (all exists_all (split (codes "a,b") b',') ≡ true)
parse_rule_files-split_example =
    parse_rule_files-split exists_all below_root two_rules two_rules_abs
      (unfold contains_byte in refl) below_root_no_comma two_rules_ok
