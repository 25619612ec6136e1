-- ===== src/Config/Overlay.antt =====
-- Environment variables over the stored configuration.
use opentelemetry_go_auto_in.Base.{
  subst, sym, ℕ, ◌==◌, ◌||◌, ◌&&◌, not, ◌∙◌, ◌≡◌, refl, Bool, true, false, List, [], ◌∷◌, arith,
  if◌then◌else◌, Str, codes, str_eq, Bool-cases, inl, inr,
}
use opentelemetry_go_auto_in.Config.{
  snake_loop, to_upper_snake_case, BuildConfig, Field, rule_json_files_field, log_field,
  verbose_field, debug_field, restore_field, disable_default_field, env_key, set_field, load_field,
  load_fields, fields, load_config_from_env,
}

-- The value of a field; a text for the two text fields, a Boolean for the others.
pub data Value : Type 0 where
  text : Str → Value
  flag : Bool → Value

abbrev pub value_of : Field → BuildConfig → Value
value_of rule_json_files_field conf = text conf.rule_json_files
value_of log_field conf = text conf.log
value_of verbose_field conf = flag conf.verbose
value_of debug_field conf = flag conf.debug
value_of restore_field conf = flag conf.restore
value_of disable_default_field conf = flag conf.disable_default

-- How a field reads the text of its variable.
abbrev pub read_as : Value → Str → Value
read_as (text t) s = text s
read_as (flag b) s = flag (str_eq s (codes "true"))

abbrev overlay : (Str → Str) → Field → Value → Value
overlay getenv f v = if str_eq (getenv (env_key f)) [] then v else read_as v (getenv (env_key f))

abbrev index : Field → ℕ
index rule_json_files_field = 0
index log_field = 1
index verbose_field = 2
index debug_field = 3
index restore_field = 4
index disable_default_field = 5

abbrev has : Field → List Field → Bool
has f [] = false
has f (g ∷ gs) = index g == index f || has f gs

abbrev are_distinct : List Field → Bool
are_distinct [] = true
are_distinct (f ∷ fs) = not (has f fs) && are_distinct fs

set_field-same :
    (f : Field) (t : Str) (conf : BuildConfig)
    → value_of f (set_field f t conf) ≡ read_as (value_of f conf) t
unfolding set_field
set_field-same rule_json_files_field t conf = refl
set_field-same log_field t conf = refl
set_field-same verbose_field t conf = refl
set_field-same debug_field t conf = refl
set_field-same restore_field t conf = refl
set_field-same disable_default_field t conf = refl

set_field-other :
    (f g : Field) (t : Str) (conf : BuildConfig)
    → (index f == index g) ≡ false
    → value_of g (set_field f t conf) ≡ value_of g conf
unfolding set_field
set_field-other f g t conf h = ground arith

index-injective : (f g : Field) → (index f == index g) ≡ true → f ≡ g
index-injective f g h = ground arith

load_field-same :
    (getenv : Str → Str) (f : Field) (conf : BuildConfig)
    → value_of f (load_field getenv f conf) ≡ overlay getenv f (value_of f conf)
unfolding load_field
load_field-same getenv f conf = ground (arith, set_field-same f (getenv (env_key f)) conf)

load_field-other :
    (getenv : Str → Str) (f g : Field) (conf : BuildConfig)
    → (index f == index g) ≡ false
    → value_of g (load_field getenv f conf) ≡ value_of g conf
unfolding load_field
load_field-other getenv f g conf h = ground (arith, set_field-other f g (getenv (env_key f)) conf h)

load_fields-overlay :
    (getenv : Str → Str) (fs : List Field) (conf : BuildConfig) (g : Field)
    → are_distinct fs ≡ true
    → value_of g (load_fields getenv fs conf)
      ≡ (if has g fs then overlay getenv g (value_of g conf) else value_of g conf)
unfolding load_fields
load_fields-overlay getenv [] conf g h = refl
load_fields-overlay getenv (f ∷ fs) conf g h = elim (Bool-cases (index f == index g)) [
  | inl e ↦
      let p = index-injective f g e in
      let absent : has g fs ≡ false = subst (λ q. has q fs ≡ false) p (ground (arith, h)) in
      let read : value_of g (load_field getenv f conf) ≡ overlay getenv g (value_of g conf) =
        subst (λ q. value_of g (load_field getenv q conf) ≡ overlay getenv g (value_of g conf))
          (sym p) (load_field-same getenv g conf) in
      load_fields-overlay getenv fs (load_field getenv f conf) g (ground (arith, h))
      ∙ ground (arith, e, absent, read)
  | inr e ↦
      load_fields-overlay getenv fs (load_field getenv f conf) g (ground (arith, h))
      ∙ ground (arith, e, load_field-other getenv f g conf e)
]

-- The variable of a field: OTELTOOL_ and the field's name in upper snake case.
abbrev pub variable : Field → Str
variable rule_json_files_field = codes "OTELTOOL_RULE_JSON_FILES"
variable log_field = codes "OTELTOOL_LOG"
variable verbose_field = codes "OTELTOOL_VERBOSE"
variable debug_field = codes "OTELTOOL_DEBUG"
variable restore_field = codes "OTELTOOL_RESTORE"
variable disable_default_field = codes "OTELTOOL_DISABLE_DEFAULT"

env_key-variable : (f : Field) → env_key f ≡ variable f
unfolding env_key to_upper_snake_case snake_loop
env_key-variable rule_json_files_field = refl
env_key-variable log_field = refl
env_key-variable verbose_field = refl
env_key-variable debug_field = refl
env_key-variable restore_field = refl
env_key-variable disable_default_field = refl

-- A field is what its variable says, where that is set and not empty, and else what it was; the
-- variable is OTELTOOL_RULE_JSON_FILES, OTELTOOL_LOG, OTELTOOL_VERBOSE, OTELTOOL_DEBUG,
-- OTELTOOL_RESTORE or OTELTOOL_DISABLE_DEFAULT.
pub value_of-load_config_from_env :
    (getenv : Str → Str) (conf : BuildConfig) (f : Field)
    → value_of f (load_config_from_env getenv conf) ≡ (
        if str_eq (getenv (variable f)) []
        then value_of f conf
        else read_as (value_of f conf) (getenv (variable f)))
unfolding load_config_from_env
value_of-load_config_from_env getenv conf f =
    let all_fields : has f fields ≡ true = ground arith in
    load_fields-overlay getenv fields conf f refl ∙ rw all_fields (rw (env_key-variable f) refl)
