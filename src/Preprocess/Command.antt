-- ===== src/Preprocess/Command.antt =====
-- Preprocess of tool/preprocess/preprocess.go from its start: the part of precheck that returns, init,
-- and the run of Rounds. Where precheck ends the process, nothing is prepared.
use opentelemetry_go_auto_in.Base.{
  ◌≡◌, ◌≢◌, Bool, true, false, some, List, [], any, Outcome, ok, err, panicked, if◌then◌else◌, Code,
  Str, str_eq,
}
use opentelemetry_go_auto_in.Preprocess.Backup.{FileSystem, State}
use opentelemetry_go_auto_in.Preprocess.Backup.Restore.{Layout, WritesTargets}
use opentelemetry_go_auto_in.Preprocess.Steps.{Result, error, unwinding, crashed}
use opentelemetry_go_auto_in.Preprocess.Init.{Sources, init_project}
use opentelemetry_go_auto_in.Preprocess.Rounds.{Surroundings, Project, module_files, preprocess}
use opentelemetry_go_auto_in.Preprocess.Rounds.Restored.{StaysAway}

abbrev untouched : FileSystem → State
untouched fs = record { backups = []; fs = fs }

module _ (env : Surroundings) (src : Sources) where
  abbrev pub prepared : FileSystem → Outcome Project → Result (Unit {0}) × State
  prepared fs (ok dp) = preprocess env dp fs
  prepared fs (err c) = (error c, untouched fs)
  prepared fs panicked = (unwinding, untouched fs)

  -- `off` is GO111MODULE=off, and the arguments are those behind the tool's own name.
  unfoldable pub command : Bool → List Str → FileSystem → Result (Unit {0}) × State
  unfolding init_project
  command off args fs =
      if off
      then (error Code.not_modularized, untouched fs)
      else prepared fs (init_project src fs args)

  module _ (y : Layout) (fs : FileSystem) (s' : State) (result : Result (Unit {0})) (f text : Str)
      (live : env.debug ≡ false) (unhurt : result ≢ crashed)
      (before : fs.content f ≡ some text) where
    -- f is one of the files that are backed up for the project, which can be written.
    abbrev pub IsFileOf : Project → Type 0
    IsFileOf dp =
        StaysAway env dp y
        × WritesTargets y fs fs
        × (any (λ g. str_eq g f) (module_files env.join_path dp.go_mod_dir) ≡ true)
