-- ===== src/Preprocess/Rounds.antt =====
-- Preprocess of tool/preprocess/preprocess.go, from the point where the project is known: rectifyMod
-- of tool/preprocess/rectify.go, the three rounds that write otel_importer.go and match the rules,
-- the build, and postProcess, which is deferred and so runs after an error and after a panic too.
pub mod Restored
pub mod Arrivals
use mathlib.Core.List.{reverse}
use opentelemetry_go_auto_in.Base.{
  ℕ, zero, suc, ◌+◌, ◌==◌, Bool, true, false, not, ◌||◌, Option, none, some, List, [], ◌∷◌, ◌++◌,
  map, any, if◌then◌else◌, Outcome, ok, err, panicked, Str, codes, str_eq, has_prefix, trim_prefix,
}
use opentelemetry_go_auto_in.Base.Dict.{Dict}
use opentelemetry_go_auto_in.Resource.RuleDef.{InstFuncRule, InstBaseRule}
use opentelemetry_go_auto_in.Resource.Bundle.{RuleBundle, is_valid}
use opentelemetry_go_auto_in.Util.Commands.{is_compile_command}
use opentelemetry_go_auto_in.Preprocess.Backup.{
  FileSystem, write_file, State, backup_existing, restore_backup_files,
}
use opentelemetry_go_auto_in.Preprocess.Steps.{
  Result, value, error, unwinding, crashed, result_of, Step, ◌>>=◌, ◌>>◌, done, reading, running,
}
use opentelemetry_go_auto_in.Preprocess.Importer.{bundle_paths, importer_text}
use opentelemetry_go_auto_in.Preprocess.Replace.{
  Replacement, pkg_prefix, replace_map, add_mod_replace,
}

-- What init has found of the project.
pub record Project : Type 0 where
  pub go_mod_path : Str
  pub go_mod_dir : Str
  pub vendor_mode : Bool
  pub pkg_local_cache : Str
  pub otel_importer : Str

-- os.RemoveAll: the path and what lies below it.
abbrev pub lies_in : Str → Str → Bool
lies_in dir path = str_eq dir path || has_prefix path (dir ++ codes "/")

abbrev pub remove_all : Str → FileSystem → FileSystem
remove_all dir fs = record fs { content = λ p. if lies_in dir p then none else fs.content p }

-- strings.Trim(s, " ")
abbrev pub trim_left : Str → Str
trim_left [] = []
trim_left (c ∷ s) = let rest = trim_left s in if c == b' ' then rest else c ∷ s

abbrev pub trim_spaces : Str → Str
trim_spaces s = reverse (trim_left (reverse (trim_left s)))

-- getCompileCommands, over the lines of the log of the dry build.
unfoldable pub compile_commands : Bool → List Str → List Str
compile_commands windows [] = []
compile_commands windows (line ∷ lines) =
    let rest = compile_commands windows lines in
    if is_compile_command windows line then trim_spaces line ∷ rest else rest

abbrev pub one_more :
    Outcome (Option RuleBundle)
    → Result (List (Option RuleBundle))
    → Result (List (Option RuleBundle))
one_more (ok b) (value bs) = value (b ∷ bs)
one_more _ _ = crashed

-- The goroutines of matchRules, one for a command: a panic in any of them ends the process.
unfoldable pub run_matches :
    (Str → Outcome (Option RuleBundle)) → List Str → Result (List (Option RuleBundle))
run_matches match_cmd [] = value []
run_matches match_cmd (cmd ∷ cmds) = one_more (match_cmd cmd) (run_matches match_cmd cmds)

-- The loop that receives the bundles, of which it keeps those that are valid.
unfoldable pub keep_valid : Option RuleBundle → List RuleBundle → List RuleBundle
keep_valid none bs = bs
keep_valid (some b) bs = if is_valid (some b) then b ∷ bs else bs

unfoldable pub receive : List (Option RuleBundle) → List RuleBundle
unfolding keep_valid
receive [] = []
receive (b ∷ bs) = keep_valid b (receive bs)

abbrev received :
    (List (Option RuleBundle) → List (Option RuleBundle))
    → Result (List (Option RuleBundle))
    → Result (List RuleBundle)
received arrive (value bs) = value (receive (arrive bs))
received arrive (error c) = error c
received arrive unwinding = unwinding
received arrive crashed = crashed

-- rectifyMod's list of files.
abbrev pub module_files : (Str → Str → Str) → Str → List Str
module_files join dir =
    join dir (codes "go.mod") ∷ join dir (codes "go.sum") ∷ join dir (codes "go.work.sum") ∷ []

-- The error of restoring is dropped; the files restored before it stay restored.
abbrev pub restored : State → Outcome (Unit {0}) × FileSystem → State
restored s (r, fs) = record s { fs = fs }

-- What Preprocess works with.
pub record Surroundings : Type 1 where
  -- Package modfile of golang.org/x/mod.
  pub ModFile : Type 0
  pub parse : Str → Option ModFile
  pub format : ModFile → Option Str
  pub replaced : ModFile → List Str
  pub add_replace : ModFile → Replacement → Option ModFile
  -- filepath.Join, and the path of the backup of a file.
  pub join_path : Str → Str → Str
  pub backup_of : Str → Str
  -- The orders in which Go goes through maps, and in which the bundles arrive.
  pub arrange : List Replacement → List Replacement
  pub arrange_paths : List Str → List Str
  pub arrange_backups : Dict Str → Dict Str
  pub arrive : List (Option RuleBundle) → List (Option RuleBundle)
  -- Commands of go, which may fail and change any file; the dry build yields the lines of its log.
  pub go_mod_tidy : FileSystem → Outcome (Unit {0}) × FileSystem
  pub go_mod_vendor : FileSystem → Outcome (Unit {0}) × FileSystem
  pub dry_build : FileSystem → Outcome (List Str) × FileSystem
  pub build : FileSystem → Outcome (Unit {0}) × FileSystem
  -- newRuleMatcher, with the versions of the vendored modules in vendor mode, and its match.
  pub new_matcher : Bool → FileSystem → Outcome (Str → Outcome (Option RuleBundle))
  pub rectify : List RuleBundle → List RuleBundle
  pub store_rule_bundles : List RuleBundle → FileSystem → Outcome (Unit {0}) × FileSystem
  pub save_debug_files : Dict Str → FileSystem → FileSystem
  -- template.go without its build constraint, %q and %d, and the configuration.
  pub importer_template : Str
  pub quote : Str → Str
  pub decimal : ℕ → Str
  pub windows : Bool
  pub debug : Bool

module _ (env : Surroundings) (dp : Project) where
  abbrev pub add_replaces : List Replacement → Step (Unit {0})
  add_replaces rs = running (
      add_mod_replace env.parse env.format env.replaced env.add_replace dp.go_mod_path
        (env.arrange rs))

  -- The backups of the files that exist, up to the first error.
  abbrev pub back_up : Step (Unit {0})
  back_up s =
      let (r, s') = backup_existing env.backup_of (module_files env.join_path dp.go_mod_dir) s in
      (result_of r, s')

  unfoldable pub rectify_mod : Step (Unit {0})
  rectify_mod = back_up >> add_replaces (replace_map dp.pkg_local_cache)

  abbrev pub write_importer : Str → Step (Unit {0})
  write_importer text = running (write_file dp.otel_importer text)

  abbrev pub replacement_of : Str → Replacement
  replacement_of path = record {
    old = path;
    new = env.join_path dp.pkg_local_cache (trim_prefix path pkg_prefix);
    version = [];
  }

  unfoldable pub new_rule_importer_with : List RuleBundle → Step (Unit {0})
  unfolding importer_text bundle_paths
  new_rule_importer_with [] = write_importer env.importer_template
  new_rule_importer_with (b ∷ bs) =
      let paths = env.arrange_paths (bundle_paths (b ∷ bs) []) in
      write_importer (importer_text env.importer_template env.quote env.decimal paths (b ∷ bs))
      >> add_replaces (map replacement_of paths)

  unfoldable pub refresh_deps : Step (Unit {0})
  refresh_deps =
      running env.go_mod_tidy >> (if dp.vendor_mode then running env.go_mod_vendor else done tt)

  -- The matcher on the compile commands of a log.
  abbrev pub matched : (Str → Outcome (Option RuleBundle)) → List Str → Result (List RuleBundle)
  matched match_cmd lines =
      received env.arrive (run_matches match_cmd (compile_commands env.windows lines))

  abbrev pub matching : List Str → Step (List RuleBundle)
  matching lines = reading (λ fs. result_of (env.new_matcher dp.vendor_mode fs)) >>= λ match_cmd.
      reading (λ fs. matched match_cmd lines)

  unfoldable pub match_rules : Step (List RuleBundle)
  match_rules = running env.dry_build >>= matching

  abbrev pub prepare : List RuleBundle → Step (Unit {0})
  prepare bundles = new_rule_importer_with bundles >> refresh_deps

  -- The three rounds; the last one does not match again.
  unfoldable pub rounds : ℕ → List RuleBundle → Step (List RuleBundle)
  unfolding new_rule_importer_with refresh_deps match_rules
  rounds zero bundles = prepare bundles >> done bundles
  rounds (suc n) bundles = prepare bundles >> (match_rules >>= λ found. rounds n found)

  abbrev pub save_debug : Step (Unit {0})
  save_debug s = (value tt, record s { fs = env.save_debug_files s.backups s.fs })

  abbrev pub store_and_build : List RuleBundle → Step (Unit {0})
  store_and_build bundles =
      running (env.store_rule_bundles (env.rectify bundles)) >> (save_debug >> running env.build)

  unfoldable pub prepare_and_build : Step (Unit {0})
  unfolding rectify_mod rounds
  prepare_and_build = rectify_mod >> (rounds 2 [] >>= store_and_build)

  -- postProcess; the errors of what it does are dropped.
  unfoldable pub post_process : State → State
  post_process s =
      if env.debug
      then s
      else (let fs1 = remove_all dp.otel_importer s.fs in
          let fs2 = remove_all (env.join_path dp.go_mod_dir (codes "otel_pkg")) fs1 in
          restored (record s { fs = fs2 })
            (restore_backup_files (env.arrange_backups s.backups) fs2))

  abbrev pub deferred : Result (Unit {0}) × State → Result (Unit {0}) × State
  deferred (value u, s) = (value u, post_process s)
  deferred (error c, s) = (error c, post_process s)
  deferred (unwinding, s) = (unwinding, post_process s)
  deferred (crashed, s) = (crashed, s)

  unfoldable pub preprocess : FileSystem → Result (Unit {0}) × State
  unfolding prepare_and_build post_process
  preprocess fs = deferred (prepare_and_build (record { backups = []; fs = fs }))
