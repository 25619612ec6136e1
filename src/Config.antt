-- ===== src/Config.antt =====
-- tool/config/config.go: the configuration of the tool, its overlay by environment variables, and
-- the rule files made absolute.
pub mod Overlay
pub mod RuleFiles
use opentelemetry_go_auto_in.Base.{
  ℕ, ◌-◌, Bool, true, false, not, ◌&&◌, ◌||◌, Option, none, some, List, [], ◌∷◌, ◌++◌, leb,
  if◌then◌else◌, Outcome, ok, err, panicked, ◌>>=◌, ◌>>◌, or_err, Code, Str, codes, str_eq,
  contains_byte, split,
}

-- The fields of BuildConfig, in the order of their declaration.
pub record BuildConfig : Type 0 where
  pub rule_json_files : Str
  pub log : Str
  pub verbose : Bool
  pub debug : Bool
  pub restore : Bool
  pub disable_default : Bool

abbrev pub empty_config : BuildConfig
empty_config = record {
  rule_json_files = [];
  log = [];
  verbose = false;
  debug = false;
  restore = false;
  disable_default = false;
}

-- What package reflect sees of BuildConfig: its fields, their names, and assignment by kind.
pub data Field : Type 0 where
  rule_json_files_field log_field verbose_field debug_field : Field
  restore_field disable_default_field : Field

abbrev pub struct_field_name : Field → Str
struct_field_name rule_json_files_field = codes "RuleJsonFiles"
struct_field_name log_field = codes "Log"
struct_field_name verbose_field = codes "Verbose"
struct_field_name debug_field = codes "Debug"
struct_field_name restore_field = codes "Restore"
struct_field_name disable_default_field = codes "DisableDefault"

abbrev pub fields : List Field
fields =
    rule_json_files_field ∷ log_field ∷ verbose_field ∷ debug_field ∷ restore_field
    ∷ disable_default_field ∷ []

-- The switch over the kind of the field: a Boolean is whether the text is "true".
unfoldable pub set_field : Field → Str → BuildConfig → BuildConfig
set_field rule_json_files_field text conf = record conf { rule_json_files = text }
set_field log_field text conf = record conf { log = text }
set_field verbose_field text conf = record conf { verbose = str_eq text (codes "true") }
set_field debug_field text conf = record conf { debug = str_eq text (codes "true") }
set_field restore_field text conf = record conf { restore = str_eq text (codes "true") }
set_field disable_default_field text conf = record conf {
  disable_default = str_eq text (codes "true");
}

-- unicode.IsUpper and unicode.ToUpper on ASCII, which the names of Go's fields here are.
abbrev pub is_upper : ℕ → Bool
is_upper c = leb 65 c && leb c 90

abbrev pub to_upper : ℕ → ℕ
to_upper c = if leb 97 c && leb c 122 then c - 32 else c

-- The loop of toUpperSnakeCase; the Boolean is `i == 0`.
unfoldable pub snake_loop : Bool → Str → Str
snake_loop first [] = []
snake_loop first (c ∷ s) =
    let rest = to_upper c ∷ snake_loop false s in
    if is_upper c && not first then 95 ∷ rest else rest

unfoldable pub to_upper_snake_case : Str → Str
unfolding snake_loop
to_upper_snake_case s = snake_loop true s

unfoldable pub env_key : Field → Str
unfolding to_upper_snake_case
env_key f = codes "OTELTOOL_" ++ to_upper_snake_case (struct_field_name f)

-- One round of the loop of loadConfigFromEnv; `getenv` is os.Getenv.
unfoldable pub load_field : (Str → Str) → Field → BuildConfig → BuildConfig
load_field getenv f conf =
    if str_eq (getenv (env_key f)) [] then conf else set_field f (getenv (env_key f)) conf

unfoldable pub load_fields : (Str → Str) → List Field → BuildConfig → BuildConfig
load_fields getenv [] conf = conf
load_fields getenv (f ∷ fs) conf = load_fields getenv fs (load_field getenv f conf)

unfoldable pub load_config_from_env : (Str → Str) → BuildConfig → BuildConfig
load_config_from_env getenv conf = load_fields getenv fields conf

-- strings.Join with a separator of one byte
unfoldable pub join : List Str → ℕ → Str
join [] b = []
join (x ∷ []) b = x
join (x ∷ y ∷ xs) b = x ++ (b ∷ join (y ∷ xs) b)

-- `exists` is util.PathExists and `abs` is filepath.Abs.
module _ (exists : Str → Bool) (abs : Str → Option Str) where
  unfoldable pub make_rule_abs : Str → Outcome Str
  make_rule_abs file = if exists file then or_err (abs file) Code.abs_path else err Code.not_exist

  unfoldable pub make_all_abs : List Str → Outcome (List Str)
  unfolding make_rule_abs
  make_all_abs [] = ok []
  make_all_abs (file ∷ files) = do f ← make_rule_abs file; fs ← make_all_abs files; ok (f ∷ fs)

  -- `in_instrument` is util.InInstrument().
  unfoldable pub parse_rule_files : Bool → BuildConfig → Outcome BuildConfig
  unfolding make_all_abs join
  parse_rule_files in_instrument conf =
      if in_instrument || str_eq conf.rule_json_files []
      then ok conf
      else if contains_byte conf.rule_json_files b','
      then (make_all_abs (split conf.rule_json_files b',') >>= λ files.
          ok (record conf { rule_json_files = join files b',' }))
      else (make_rule_abs conf.rule_json_files >>= λ file.
          ok (record conf { rule_json_files = file }))

-- The stored configuration: `none` is a file that does not exist, `some none` one that cannot be
-- read. `marshal` and `unmarshal` are those of encoding/json.
module _ (marshal : BuildConfig → Str) (unmarshal : Str → Option BuildConfig) where
  unfoldable pub load_config : Option (Option Str) → Outcome BuildConfig
  load_config none = ok empty_config
  load_config (some none) = err Code.open_file
  load_config (some (some text)) = or_err (unmarshal text) Code.invalid_json

  -- Configure: the flags are parsed over what is stored; `parse_flags` is package flag.
  abbrev or_empty : Outcome BuildConfig → BuildConfig
  or_empty (ok conf) = conf
  or_empty (err c) = empty_config
  or_empty panicked = empty_config

  unfoldable pub configure : (BuildConfig → BuildConfig) → Option (Option Str) → Str
  unfolding load_config
  configure parse_flags file = marshal (parse_flags (or_empty (load_config file)))

  -- InitConfig; `open_log` says whether the log file can be opened, and without one a failure to
  -- open the default log is ignored.
  unfoldable pub init_config :
      (Str → Str)
      → (Str → Bool)
      → (Str → Option Str)
      → (Str → Bool)
      → Bool
      → Option (Option Str)
      → Outcome BuildConfig
  unfolding load_config load_config_from_env parse_rule_files
  init_config getenv exists abs open_log in_instrument file = do
    conf ← load_config file
    conf' ← parse_rule_files exists abs in_instrument (load_config_from_env getenv conf)
    (if str_eq conf'.log [] || open_log conf'.log then ok conf' else err Code.open_file)
