-- ===== src/Preprocess/Replace.antt =====
-- addModReplace of tool/preprocess/preprocess.go, and the replace directives of rectifyMod in
-- tool/preprocess/rectify.go.
pub mod Once
use opentelemetry_go_auto_in.Base.{
  Bool, true, false, Option, none, some, List, [], ◌∷◌, ◌++◌, any, if◌then◌else◌, Outcome, ok, err,
  panicked, ◌>>=◌, or_err, Code, Str, codes, str_eq,
}
use opentelemetry_go_auto_in.Preprocess.Backup.{FileSystem, write_file}

-- An entry of the map: the old path, the new path and the version.
pub record Replacement : Type 0 where
  pub old : Str
  pub new : Str
  pub version : Str

-- The module file of golang.org/x/mod/modfile: Parse and Format, the old paths of its replace
-- directives, and AddReplace. An error of the package, which has no code, stands as parse_code.
module _ {ModFile : Type 0} (parse : Str → Option ModFile) (format : ModFile → Option Str)
    (replaced : ModFile → List Str) (add_replace : ModFile → Replacement → Option ModFile) where
  unfoldable pub parse_go_mod : Str → FileSystem → Outcome ModFile
  parse_go_mod gomod fs = do
    text ← or_err (fs.content gomod) Code.open_file
    or_err (parse text) Code.parse_code

  abbrev pub has_replace : Str → ModFile → Bool
  has_replace path file = any (λ old. str_eq old path) (replaced file)

  abbrev add_one : Replacement → ModFile → Bool → Outcome (ModFile × Bool)
  add_one r file added =
      if has_replace r.old file
      then ok (file, added)
      else (or_err (add_replace file r) Code.parse_code >>= λ file'. ok (file', true))

  -- The loop over the map, whose entries Go gives in any order; the Boolean is `added`.
  unfoldable pub add_all : List Replacement → ModFile → Bool → Outcome (ModFile × Bool)
  add_all [] file added = ok (file, added)
  add_all (r ∷ rs) file added = add_one r file added >>= λ (file', added'). add_all rs file' added'

  abbrev formatted : ModFile × Bool → Outcome (Option Str)
  formatted (file, true) = or_err (format file) Code.parse_code >>= λ text. ok (some text)
  formatted (file, false) = ok none

  -- The text to write, if a directive was added.
  unfoldable pub new_go_mod : Str → List Replacement → FileSystem → Outcome (Option Str)
  unfolding parse_go_mod add_all
  new_go_mod gomod entries fs = do
    file ← parse_go_mod gomod fs
    result ← add_all entries file false
    formatted result

  abbrev save : Str → FileSystem → Outcome (Option Str) → Outcome (Unit {0}) × FileSystem
  save gomod fs (ok (some text)) = write_file gomod text fs
  save gomod fs (ok none) = (ok tt, fs)
  save gomod fs (err c) = (err c, fs)
  save gomod fs panicked = (panicked, fs)

  unfoldable pub add_mod_replace :
      Str → List Replacement → FileSystem → Outcome (Unit {0}) × FileSystem
  unfolding new_go_mod
  add_mod_replace gomod entries fs = save gomod fs (new_go_mod gomod entries fs)

abbrev pub pkg_prefix : Str
pkg_prefix = codes "github.com/alibaba/opentelemetry-go-auto-instrumentation/pkg"

-- otelDeps: a dependency that is replaced by one version of itself.
abbrev pinned : Str → Str → Replacement
pinned path version = record { old = path; new = path; version = version }

abbrev pub otel_deps : List Replacement
otel_deps =
    pinned (codes "go.opentelemetry.io/otel") (codes "v1.35.0")
    ∷ pinned (codes "go.opentelemetry.io/otel/sdk") (codes "v1.35.0")
    ∷ pinned (codes "go.opentelemetry.io/otel/trace") (codes "v1.35.0")
    ∷ pinned (codes "go.opentelemetry.io/otel/metric") (codes "v1.35.0")
    ∷ pinned (codes "go.opentelemetry.io/otel/sdk/metric") (codes "v1.35.0")
    ∷ pinned (codes "go.opentelemetry.io/otel/exporters/otlp/otlptrace") (codes "v1.35.0")
    ∷ pinned (codes "go.opentelemetry.io/otel/exporters/otlp/otlptrace/otlptracegrpc")
        (codes "v1.35.0")
    ∷ pinned (codes "go.opentelemetry.io/otel/exporters/otlp/otlptrace/otlptracehttp")
        (codes "v1.35.0")
    ∷ pinned (codes "go.opentelemetry.io/otel/exporters/otlp/otlpmetric/otlpmetricgrpc")
        (codes "v1.35.0")
    ∷ pinned (codes "go.opentelemetry.io/otel/exporters/otlp/otlpmetric/otlpmetrichttp")
        (codes "v1.35.0")
    ∷ pinned (codes "go.opentelemetry.io/otel/exporters/prometheus") (codes "v0.57.0")
    ∷ pinned (codes "go.opentelemetry.io/contrib/instrumentation/runtime") (codes "v0.60.0")
    ∷ pinned (codes "google.golang.org/protobuf") (codes "v1.35.2")
    ∷ pinned (codes "go.opentelemetry.io/otel/exporters/stdout/stdoutmetric") (codes "v1.35.0")
    ∷ pinned (codes "go.opentelemetry.io/otel/exporters/stdout/stdouttrace") (codes "v1.35.0")
    ∷ pinned (codes "go.opentelemetry.io/otel/exporters/zipkin") (codes "v1.35.0")
    ∷ []

-- The map that rectifyMod builds, for the local module cache of the rules.
abbrev pub replace_map : Str → List Replacement
replace_map cache = record { old = pkg_prefix; new = cache; version = [] } ∷ otel_deps
