-- ===== src/Preprocess/Rounds/Restored.antt =====
-- Whatever Preprocess meets with, it leaves go.mod and its neighbours as they were.
use mathlib.Core.List.{Permᴰ}
use opentelemetry_go_auto_in.Base.{
  ℕ, zero, suc, ◌≡◌, ◌≢◌, refl, sym, ap, subst, ◌∙◌, Bool, true, false, ◌⊎◌, eq_of_str_eq, err,
  panicked, inl, inr, some, List, [], ◌∷◌, map, any, arith, if◌then◌else◌, All, Bool-cases, Outcome,
  ok, Str, codes, str_eq, str_eq_refl, str_eq_iff,
}
use opentelemetry_go_auto_in.Base.Dict.{Dict}
use opentelemetry_go_auto_in.Resource.Bundle.{RuleBundle}
use opentelemetry_go_auto_in.Preprocess.Backup.{
  FileSystem, Writing, whole, not_created, cut_short, create_and_write, write_file, write, State,
  backup_existing,
}
use opentelemetry_go_auto_in.Preprocess.Backup.Restore.{Layout, WritesTargets, is_origin}
use opentelemetry_go_auto_in.Preprocess.Backup.RoundTrip.{
  IsSaving, start, start-IsSaving, backup_existing-SavesAll, restored-content,
}
use opentelemetry_go_auto_in.Preprocess.Steps.{
  Result, value, error, unwinding, crashed, result_of, ◌>>=◌, ◌>>◌, done, reading, running, Keeps,
  bind-Keeps, continue,
}
use opentelemetry_go_auto_in.Preprocess.Importer.{bundle_paths, importer_text}
use opentelemetry_go_auto_in.Preprocess.Replace.{Replacement, replace_map}
use opentelemetry_go_auto_in.Preprocess.Replace.Once.{add_mod_replace-Written}
use opentelemetry_go_auto_in.Preprocess.Rounds.{
  Surroundings, Project, lies_in, remove_all, module_files, add_replaces, rectify_mod,
  write_importer, new_rule_importer_with, refresh_deps, match_rules, rounds, save_debug, prepare,
  matched, matching, store_and_build, replacement_of, prepare_and_build, post_process, deferred,
  preprocess,
}

-- Where a command leaves the backups as they are, and the files that are backed up writable.
abbrev pub Spares : Layout → {A : Type 0} → (FileSystem → A × FileSystem) → Type 0
Spares y f =
    (fs : FileSystem)
    → ((p : Str) → y.is_backup p ≡ true → (f fs).1.content p ≡ fs.content p)
      × ((p : Str) → y.is_target p ≡ true → (f fs).1.writing p ≡ fs.writing p)

-- The commands and the paths that the preprocessor changes stay away from the backups, and what it
-- removes is none of the files that are backed up.
pub record StaysAway (env : Surroundings) (dp : Project) (y : Layout) : Type 0 where
  pub same : env.backup_of ≡ y.backup_of
  pub targets : All (λ f. y.is_target f ≡ true) (module_files env.join_path dp.go_mod_dir)
  pub go_mod : y.is_backup dp.go_mod_path ≡ false
  pub importer : (p : Str) → y.is_backup p ≡ true → lies_in dp.otel_importer p ≡ false
  pub generated :
      (p : Str)
      → y.is_backup p ≡ true
      → lies_in (env.join_path dp.go_mod_dir (codes "otel_pkg")) p ≡ false
  pub not_importer : (p : Str) → y.is_target p ≡ true → lies_in dp.otel_importer p ≡ false
  pub not_generated :
      (p : Str)
      → y.is_target p ≡ true
      → lies_in (env.join_path dp.go_mod_dir (codes "otel_pkg")) p ≡ false
  pub tidy : Spares y env.go_mod_tidy
  pub vendor : Spares y env.go_mod_vendor
  pub dry : Spares y env.dry_build
  pub built : Spares y env.build
  pub stored : (bundles : List RuleBundle) → Spares y (env.store_rule_bundles bundles)
  pub debugged :
      (backups : Dict Str)
      → (fs : FileSystem)
      → ((p : Str)
          → y.is_backup p ≡ true
          → (env.save_debug_files backups fs).content p ≡ fs.content p)
        × ((p : Str)
            → y.is_target p ≡ true
            → (env.save_debug_files backups fs).writing p ≡ fs.writing p)
  pub in_some_order : (backups : Dict Str) → Permᴰ backups (env.arrange_backups backups)

module _ (env : Surroundings) (dp : Project) (y : Layout) (away : StaysAway env dp y)
    (s1 : State) where
  -- The backups of a state and their contents are those of s1, and the files that are backed up can
  -- be written.
  abbrev AsBackedUp : State → Type 0
  AsBackedUp s =
      (s.backups ≡ s1.backups)
      × ((p : Str) → y.is_backup p ≡ true → s.fs.content p ≡ s1.fs.content p)
      × ((p : Str) → y.is_target p ≡ true → s.fs.writing p ≡ whole)

  running-Keeps :
      {A : Type 0} (f : FileSystem → Outcome A × FileSystem)
      → Spares y f
      → Keeps AsBackedUp (running f)
  running-Keeps f h s (k, c, w) =
      (k, (λ p b. (h s.fs).0 p b ∙ c p b), λ p t. (h s.fs).1 p t ∙ w p t)

  write-Keeps :
      (path text : Str)
      → y.is_backup path ≡ false
      → (s : State) → AsBackedUp s
      → AsBackedUp (record s { fs = write s.fs path text })
  write-Keeps path text apart s (k, c, w) = (
    k,
    (λ p b.
        let e : str_eq path p ≡ false =
          ground (arith, str_eq_iff path p, apart, b, λ (q : path ≡ p). ap y.is_backup q) in
        rw e (c p b)),
    w,
  )

  write_file-Keeps :
      (path text : Str)
      → y.is_backup path ≡ false
      → (s : State) (w : Writing) → s.fs.writing path ≡ w
      → AsBackedUp s
      → AsBackedUp (record s { fs = (write_file path text s.fs).1 })
  unfolding write_file
  write_file-Keeps path text apart s whole e i =
      rw (e, create_and_write) (write-Keeps path text apart s i)
  write_file-Keeps path text apart s not_created e i = rw (e, create_and_write) i
  write_file-Keeps path text apart s (cut_short rest) e i =
      rw (e, create_and_write) (write-Keeps path rest apart s i)

  add_replaces-Keeps : (rs : List Replacement) → Keeps AsBackedUp (add_replaces env dp rs)
  add_replaces-Keeps rs s i =
      elim (add_mod_replace-Written env.parse env.format env.replaced env.add_replace dp.go_mod_path
        (env.arrange rs) s.fs) [
          | inl e ↦ rw e i
          | inr (text, e) ↦ rw e (write-Keeps dp.go_mod_path text away.go_mod s i)
        ]

  importer_apart : y.is_backup dp.otel_importer ≡ false
  importer_apart = elim (Bool-cases (y.is_backup dp.otel_importer)) [
    | inr e ↦ e
    | inl e ↦
        let p = away.importer dp.otel_importer e in ground (arith, p, str_eq_refl dp.otel_importer)
  ]

  write_importer-Keeps : (text : Str) → Keeps AsBackedUp (write_importer env dp text)
  write_importer-Keeps text = λ s i.
      write_file-Keeps dp.otel_importer text importer_apart s (s.fs.writing dp.otel_importer) refl i

  importer-Keeps :
      (bundles : List RuleBundle) → Keeps AsBackedUp (new_rule_importer_with env dp bundles)
  unfolding new_rule_importer_with
  importer-Keeps [] = write_importer-Keeps env.importer_template
  importer-Keeps (b ∷ bs) =
      let paths : List Str = env.arrange_paths (bundle_paths (b ∷ bs) []) in
      let text : Str = importer_text env.importer_template env.quote env.decimal paths (b ∷ bs) in
      bind-Keeps AsBackedUp (write_importer env dp text)
        (λ u. add_replaces env dp (map (replacement_of env dp) paths)) (write_importer-Keeps text)
        (λ u. add_replaces-Keeps (map (replacement_of env dp) paths))

  vendor-Keeps : (b : Bool) → Keeps AsBackedUp (if b then running env.go_mod_vendor else done tt)
  vendor-Keeps true = running-Keeps env.go_mod_vendor away.vendor
  vendor-Keeps false = λ s i. i

  refresh-Keeps : Keeps AsBackedUp (refresh_deps env dp)
  unfolding refresh_deps
  refresh-Keeps =
      bind-Keeps AsBackedUp (running env.go_mod_tidy)
        (λ u. if dp.vendor_mode then running env.go_mod_vendor else done tt)
        (running-Keeps env.go_mod_tidy away.tidy) (λ u. vendor-Keeps dp.vendor_mode)

  match-Keeps : Keeps AsBackedUp (match_rules env dp)
  unfolding match_rules
  match-Keeps =
      bind-Keeps AsBackedUp (running env.dry_build) (matching env dp)
        (running-Keeps env.dry_build away.dry)
        (λ lines.
          bind-Keeps AsBackedUp (reading (λ fs. result_of (env.new_matcher dp.vendor_mode fs)))
            (λ match_cmd. reading (λ fs. matched env dp match_cmd lines)) (λ s i. i)
            (λ match_cmd s i. i))

  prepare-Keeps : (bundles : List RuleBundle) → Keeps AsBackedUp (prepare env dp bundles)
  prepare-Keeps bundles =
      bind-Keeps AsBackedUp (new_rule_importer_with env dp bundles) (λ u. refresh_deps env dp)
        (importer-Keeps bundles) (λ u. refresh-Keeps)

  rounds-Keeps : (n : ℕ) (bundles : List RuleBundle) → Keeps AsBackedUp (rounds env dp n bundles)
  unfolding rounds
  rounds-Keeps zero bundles =
      bind-Keeps AsBackedUp (prepare env dp bundles) (λ u. done bundles) (prepare-Keeps bundles)
        (λ u s i. i)
  rounds-Keeps (suc n) bundles =
      bind-Keeps AsBackedUp (prepare env dp bundles)
        (λ u. match_rules env dp >>= λ found. rounds env dp n found) (prepare-Keeps bundles)
        (λ u.
          bind-Keeps AsBackedUp (match_rules env dp) (rounds env dp n) match-Keeps (rounds-Keeps n))

  debug-Keeps : Keeps AsBackedUp (save_debug env dp)
  debug-Keeps s (k, c, w) = (
    k,
    (λ p b. (away.debugged s.backups s.fs).0 p b ∙ c p b),
    λ p t. (away.debugged s.backups s.fs).1 p t ∙ w p t,
  )

  store_and_build-Keeps :
      (bundles : List RuleBundle) → Keeps AsBackedUp (store_and_build env dp bundles)
  store_and_build-Keeps bundles =
      bind-Keeps AsBackedUp (running (env.store_rule_bundles (env.rectify bundles)))
        (λ u. save_debug env dp >> running env.build)
        (running-Keeps (env.store_rule_bundles (env.rectify bundles))
          (away.stored (env.rectify bundles)))
        (λ u.
          bind-Keeps AsBackedUp (save_debug env dp) (λ u. running env.build) debug-Keeps
            (λ u. running-Keeps env.build away.built))

  built-Keeps : Keeps AsBackedUp (λ s.
      continue
        (λ u. rounds env dp 2 [] >>= store_and_build env dp)
        (add_replaces env dp (replace_map dp.pkg_local_cache) s))
  built-Keeps =
      bind-Keeps AsBackedUp (add_replaces env dp (replace_map dp.pkg_local_cache))
        (λ u. rounds env dp 2 [] >>= store_and_build env dp)
        (add_replaces-Keeps (replace_map dp.pkg_local_cache))
        (λ u.
          bind-Keeps AsBackedUp (rounds env dp 2 []) (store_and_build env dp) (rounds-Keeps 2 [])
            store_and_build-Keeps)

-- What rectifyMod and the rest make of the state that backing up leaves.
module _ (env : Surroundings) (dp : Project) (y : Layout) (away : StaysAway env dp y) where
  abbrev resume : Outcome (Unit {0}) × State → Result (Unit {0}) × State
  resume (r, s) =
      continue (λ u. rounds env dp 2 [] >>= store_and_build env dp)
        (continue (λ u. add_replaces env dp (replace_map dp.pkg_local_cache)) (result_of r, s))

  -- Either nothing follows, or backing up returned no error.
  resume-Keeps :
      (p : Outcome (Unit {0}) × State)
      → ((q : Str) → y.is_target q ≡ true → p.1.fs.writing q ≡ whole)
      → AsBackedUp env dp y away p.1 (resume p).1 × ((p.0 ≡ ok tt) ⊎ ((resume p).1 ≡ p.1))
  resume-Keeps (ok u, s) w = (built-Keeps env dp y away s s (refl, (λ p b. refl), w), inl refl)
  resume-Keeps (err c, s) w = ((refl, (λ p b. refl), w), inr refl)
  resume-Keeps (panicked, s) w = ((refl, (λ p b. refl), w), inr refl)

listed_target :
    (y : Layout) (files : List Str) (f : Str)
    → All (λ g. y.is_target g ≡ true) files
    → any (λ g. str_eq g f) files ≡ true
    → y.is_target f ≡ true
listed_target y [] f h n = cc
listed_target y (g ∷ files) f (here, more) n = elim (Bool-cases (str_eq g f)) [
  | inl e ↦ subst (λ q. y.is_target q ≡ true) (eq_of_str_eq g f e) here
  | inr e ↦ listed_target y files f more (ground (arith, e, n))
]

-- The end of a run.
module _ (env : Surroundings) (dp : Project) (y : Layout) (away : StaysAway env dp y)
    (fs0 : FileSystem) where
  abbrev files : List Str
  files = module_files env.join_path dp.go_mod_dir

  -- What backing up leaves.
  abbrev backed : Outcome (Unit {0}) × State
  backed = backup_existing y.backup_of files (start y fs0)

  resumed : prepare_and_build env dp (start y fs0) ≡ resume env dp y away backed
  unfolding prepare_and_build rectify_mod
  resumed = rw away.same refl

  removed :
      (dir : Str) (fs : FileSystem) (p : Str)
      → lies_in dir p ≡ false
      → (remove_all dir fs).content p ≡ fs.content p
  removed dir fs p e = rw e refl

  -- What postProcess removes before it restores.
  abbrev swept : FileSystem → FileSystem
  swept fs =
      remove_all (env.join_path dp.go_mod_dir (codes "otel_pkg")) (remove_all dp.otel_importer fs)

  swept-content :
      (fs : FileSystem) (p : Str)
      → lies_in dp.otel_importer p ≡ false
      → lies_in (env.join_path dp.go_mod_dir (codes "otel_pkg")) p ≡ false
      → (swept fs).content p ≡ fs.content p
  swept-content fs p e e' =
      removed (env.join_path dp.go_mod_dir (codes "otel_pkg")) (remove_all dp.otel_importer fs) p e'
      ∙ removed dp.otel_importer fs p e

  post_restores :
      (s1 s : State) (f text : Str)
      → IsSaving y fs0 s1
      → AsBackedUp env dp y away s1 s
      → env.debug ≡ false
      → y.is_target f ≡ true
      → (is_origin f s1.backups ≡ true) ⊎ (s.fs.content f ≡ fs0.content f)
      → fs0.content f ≡ some text
      → (post_process env dp s).fs.content f ≡ some text
  unfolding post_process
  post_restores s1 s f text saving (k, c, w) live target safe e =
      let (fs3, done_, at) =
        restored-content y fs0 s1 (swept s.fs) (env.arrange_backups s.backups) f saving
          (λ p b. swept-content s.fs p (away.importer p b) (away.generated p b) ∙ c p b) w
          (subst (λ l. Permᴰ l (env.arrange_backups s.backups)) k (away.in_some_order s.backups)) in
      let here = swept-content s.fs f (away.not_importer f target) (away.not_generated f target) in
      rw live (rw done_ (at ∙ ground (arith, safe, here, e)))

  ended :
      (r : Result (Unit {0}) × State) (s' : State) (result : Result (Unit {0}))
      → deferred env dp r ≡ (result, s')
      → result ≢ crashed
      → s' ≡ post_process env dp r.1
  ended (value u, s) s' result e h = cc
  ended (error c, s) s' result e h = cc
  ended (unwinding, s) s' result e h = cc
  ended (crashed, s) s' result e h =
      let same : crashed ≡ result = ap (λ (p : Result (Unit {0}) × State). p.0) e in
      absurd (h (sym same))

  safe_after :
      (f text : Str)
      → any (λ g. str_eq g f) files ≡ true
      → y.is_target f ≡ true
      → fs0.content f ≡ some text
      → (s : State) → (backed.0 ≡ ok tt) ⊎ (s ≡ backed.1)
      → (is_origin f backed.1.backups ≡ true) ⊎ (s.fs.content f ≡ fs0.content f)
  safe_after f text listed target e s h =
      let (k, old, new) =
        backup_existing-SavesAll y fs0 files (start y fs0) away.targets (start-IsSaving y fs0) in
      elim h [
        | inl fine ↦ inl (new f text fine listed e)
        | inr same ↦
            inr (ap (λ (q : State). q.fs.content f) same ∙ k.unchanged f (y.target_apart f target))
      ]

  -- Not for debugging, and as long as no goroutine panics: however Preprocess ends once the project
  -- is known, be it with a build, an error at any point, in backing up too, or a panic that unwinds,
  -- go.mod, go.sum and go.work.sum have the contents that they had, if they existed. This uses that
  -- these three can be written, and that the commands it runs, and the paths it writes and removes,
  -- stay away from the backups and leave the three writable.
  pub preprocess-restores :
      (s' : State) (result : Result (Unit {0})) (f text : Str)
      → env.debug ≡ false
      → WritesTargets y fs0 fs0
      → preprocess env dp fs0 ≡ (result, s')
      → result ≢ crashed
      → any (λ g. str_eq g f) files ≡ true
      → fs0.content f ≡ some text
      → s'.fs.content f ≡ some text
  unfolding preprocess
  preprocess-restores s' result f text live w run unhurt listed e =
      let target = listed_target y files f away.targets listed in
      let saved =
        backup_existing-SavesAll y fs0 files (start y fs0) away.targets (start-IsSaving y fs0) in
      let (kept, either) =
        resume-Keeps env dp y away backed
          (λ q t. ap (λ (g : Str → Writing). g q) saved.0.writable ∙ w q t) in
      let last = ended (prepare_and_build env dp (start y fs0)) s' result run unhurt in
      rw last (
        rw resumed (
          post_restores backed.1 (resume env dp y away backed).1 f text saved.0 kept live target
            (safe_after f text listed target e (resume env dp y away backed).1 either) e))
