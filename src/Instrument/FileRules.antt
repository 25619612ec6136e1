-- ===== src/Instrument/FileRules.antt =====
-- applyFileRules of tool/instrument/inst_file.go: the files of the rules are copied to the working
-- directory and added to the compile command. saveDebugFile, whose errors are dropped, is left out.
use opentelemetry_go_auto_in.Base.{
  ◌≡◌, Bool, true, false, Option, some, List, [], ◌∷◌, ◌++◌, if◌then◌else◌, Outcome, ok, err,
  panicked, ◌>>=◌, or_err, Code, Str, codes, str_eq, has_suffix,
}
use opentelemetry_go_auto_in.Resource.RuleDef.{InstFileRule}
use opentelemetry_go_auto_in.Preprocess.Backup.{FileSystem, whole, write_file}
use opentelemetry_go_auto_in.Instrument.CompileArgs.{
  RuleProcessor, set_relocated, add_compile_arg, replace_compile_arg,
}

-- The processor with the files.
abbrev pub Workspace : Type 0
Workspace = RuleProcessor × FileSystem

-- `abs` and `base_name` are filepath.Abs and filepath.Base, `in_work_dir` joins the working directory
-- and a name, and `adapt` is the text of a rule's file without its build constraint and with the
-- name of the package that is compiled, which regular expressions put there.
module _ (abs : Str → Option Str) (base_name in_work_dir adapt : Str → Str) where
  abbrev pub target_of : InstFileRule → Str
  target_of r = in_work_dir (codes "otel_inst_file_" ++ base_name r.file_name)

  abbrev has_file_name : InstFileRule → Outcome (Unit {0})
  has_file_name r = if str_eq r.file_name [] then err Code.invalid_rule else ok tt

  -- The files after a write that succeeds; those that a failed one leaves are dropped with its error.
  abbrev files_after : Outcome (Unit {0}) × FileSystem → Outcome FileSystem
  files_after (ok u, fs) = ok fs
  files_after (err c, fs) = err c
  files_after (panicked, fs) = panicked

  unfoldable pub apply_file_rule : InstFileRule → Workspace → Outcome Workspace
  apply_file_rule r (rp, fs) = has_file_name r >>= λ _.
      or_err (fs.content r.file_name) Code.open_file >>= λ source.
      files_after (write_file (target_of r) (adapt source) fs) >>= λ fs'.
      let rp' = set_relocated r.file_name (target_of r) rp in
      if r.replace
      then (replace_compile_arg abs (target_of r) (λ arg. has_suffix arg (base_name r.file_name))
            rp'
          >>= λ rp''. ok (rp'', fs'))
      else ok (add_compile_arg (target_of r) rp', fs')

  unfoldable pub apply_file_rules : List InstFileRule → Workspace → Outcome Workspace
  apply_file_rules [] w = ok w
  apply_file_rules (r ∷ rs) w = apply_file_rule r w >>= λ w'. apply_file_rules rs w'

  -- A rule that adds a file which is there, outside the working directory, as a file that lies in it
  -- and can be written.
  abbrev pub IsAddition : (Str → Bool) → FileSystem → InstFileRule → Type 0
  IsAddition is_work fs r =
      (str_eq r.file_name [] ≡ false)
      × (r.replace ≡ false)
      × (is_work r.file_name ≡ false)
      × (is_work (target_of r) ≡ true)
      × (fs.writing (target_of r) ≡ whole)
      × (source : Str) × (fs.content r.file_name ≡ some source)
