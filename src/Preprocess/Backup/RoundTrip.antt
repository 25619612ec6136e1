-- ===== src/Preprocess/Backup/RoundTrip.antt =====
-- What was backed up is restored.
use opentelemetry_go_auto_in.Base.{
  Code, Bool, false, ◌≡◌, refl, sym, ap, subst, ◌∙◌, inl, inr, true, false, ◌||◌, none, some, List,
  [], ◌∷◌, arith, Bool-cases, Option-cases, any, All, All-Permᴰ, if◌then◌else◌, Outcome, ok, err,
  panicked, Str, str_eq, str_eq_refl, eq_of_str_eq, str_eq_iff,
}
use opentelemetry_go_auto_in.Base.Dict.{Dict, lookup, insert}
use mathlib.Core.List.{Permᴰ}
use opentelemetry_go_auto_in.Preprocess.Backup.{
  FileSystem, Writing, whole, not_created, cut_short, write, create_and_write, State, recorded,
  and_then, copy_file, backup_file, backup_existing, restore_backup_files,
}
use opentelemetry_go_auto_in.Preprocess.Backup.Restore.{
  WritesTargets, HoldsOriginal, restore-content, is_origin, is_origin-Permᴰ, Layout,
}

module _ (y : Layout) (fs0 : FileSystem) where
  -- What holds of the state while files are backed up.
  pub record IsSaving (s : State) : Type 0 where
    pub writable : s.fs.writing ≡ fs0.writing
    pub unchanged : (p : Str) → y.is_backup p ≡ false → s.fs.content p ≡ fs0.content p
    pub saved : All (HoldsOriginal y fs0 s.fs) s.backups

  -- A backup that is written keeps the others, also where it is written once more.
  write-backup :
      (fs : FileSystem) (p text : Str) (l : Dict Str)
      → y.is_target p ≡ true
      → fs0.content p ≡ some text
      → All (HoldsOriginal y fs0 fs) l
      → All (HoldsOriginal y fs0 (write fs (y.backup_of p) text)) l
  write-backup fs p text [] h e a = a
  write-backup fs p text ((o, b) ∷ l) h e a =
      let (at_b, target, t, now, then_) = a.0 in
      let same : str_eq (y.backup_of p) b ≡ true → some text ≡ some t = λ q.
        sym e
        ∙ ap fs0.content (y.one_each p o h target (eq_of_str_eq (y.backup_of p) b q ∙ at_b))
        ∙ then_ in
      ((at_b, target, t, ground (arith, same), then_), write-backup fs p text l h e a.1)

  All-insert :
      (fs : FileSystem) (o b : Str) (l : Dict Str)
      → HoldsOriginal y fs0 fs (o, b)
      → All (HoldsOriginal y fs0 fs) l
      → All (HoldsOriginal y fs0 fs) (insert o b l)
  unfolding insert
  All-insert fs o b [] h a = (h, tt)
  All-insert fs o b ((j, c) ∷ l) h a = elim (Bool-cases (str_eq j o)) [
    | inl same ↦
        rw same (subst (λ q. HoldsOriginal y fs0 fs (q, b)) (sym (eq_of_str_eq j o same)) h, a.1)
    | inr other ↦ rw other (a.0, All-insert fs o b l h a.1)
  ]

  is_origin-insert :
      (p o b : Str) (l : Dict Str) → is_origin p (insert o b l) ≡ (str_eq o p || is_origin p l)
  unfolding insert
  is_origin-insert p o b [] = refl
  is_origin-insert p o b ((j, c) ∷ l) =
      ground (arith, is_origin-insert p o b l, str_eq_iff j o, str_eq_iff j p, str_eq_iff o p)

  is_origin-lookup :
      (p o b : Str) (l : Dict Str) → lookup o l ≡ some b → str_eq o p ≡ true → is_origin p l ≡ true
  unfolding lookup
  is_origin-lookup p o b [] e q = cc
  is_origin-lookup p o b ((j, c) ∷ l) e q =
      ground (arith, is_origin-lookup p o b l, str_eq_iff j o, str_eq_iff j p, str_eq_iff o p)

  -- A backup that is cut short keeps the others, and is not recorded.
  write-unrecorded :
      (fs : FileSystem) (f text : Str) (l : Dict Str)
      → y.is_target f ≡ true
      → is_origin f l ≡ false
      → All (HoldsOriginal y fs0 fs) l
      → All (HoldsOriginal y fs0 (write fs (y.backup_of f) text)) l
  write-unrecorded fs f text [] h n a = a
  write-unrecorded fs f text ((o, b) ∷ l) h n a =
      let (at_b, target, t, now, then_) = a.0 in
      let apart : str_eq (y.backup_of f) b ≡ false = elim (Bool-cases (str_eq (y.backup_of f) b)) [
        | inr e ↦ e
        | inl e ↦
            let same : f ≡ o = y.one_each f o h target (eq_of_str_eq (y.backup_of f) b e ∙ at_b) in
            ground (arith, n, str_eq_iff o f, sym same)
      ] in
      (
        (at_b, target, t, rw apart now, then_),
        write-unrecorded fs f text l h (ground (arith, n)) a.1,
      )

  lookup-none : (f : Str) (l : Dict Str) → lookup f l ≡ none → is_origin f l ≡ false
  unfolding lookup
  lookup-none f [] e = refl
  lookup-none f ((j, c) ∷ l) e = ground (arith, lookup-none f l, e)

  -- Whatever comes of it, what is recorded is saved, and what was recorded still is; if it returns
  -- no error, the file is recorded.
  abbrev Saves : State → Str → Outcome (Unit {0}) × State → Type 0
  Saves s f (r, s') =
      IsSaving s'
      × ((p : Str) → is_origin p s.backups ≡ true → is_origin p s'.backups ≡ true)
      × ((p : Str) → r ≡ ok tt → str_eq f p ≡ true → is_origin p s'.backups ≡ true)

  -- A backup leaves the files themselves.
  unchanged-backup :
      (s : State) (f text : Str)
      → IsSaving s
      → (p : Str) → y.is_backup p ≡ false
      → (write s.fs (y.backup_of f) text).content p ≡ fs0.content p
  unchanged-backup s f text k p apart = ground (
    arith,
    k.unchanged p apart,
    apart,
    str_eq_iff (y.backup_of f) p,
    y.backup_apart f,
    ap y.is_backup,
  )

  copy-eq :
      (f t : Str) (s : State)
      → y.is_target f ≡ true
      → fs0.content f ≡ some t
      → IsSaving s
      → copy_file f (y.backup_of f) s.fs
        ≡ create_and_write Code.create_file Code.copy_file (y.backup_of f) t s.fs
  unfolding copy_file
  copy-eq f t s h e k =
      let now : s.fs.content f ≡ some t = k.unchanged f (y.target_apart f h) ∙ e in
      rw (now, copy_file) refl

  backed_up-Saves :
      (f t : Str) (s : State) (w : Writing)
      → y.is_target f ≡ true
      → fs0.content f ≡ some t
      → lookup f s.backups ≡ none
      → IsSaving s
      → s.fs.writing (y.backup_of f) ≡ w
      → Saves s f (recorded y.backup_of f s (copy_file f (y.backup_of f) s.fs))
  backed_up-Saves f t s whole h e absent k q =
      let fs' = write s.fs (y.backup_of f) t in
      rw (copy-eq f t s h e k) (
        rw (q, create_and_write)
          (
            record {
              writable = k.writable;
              unchanged = unchanged-backup s f t k;
              saved =
                  All-insert fs' f (y.backup_of f) s.backups
                    (refl, h, t, rw (str_eq_refl (y.backup_of f)), e)
                    (write-backup s.fs f t s.backups h e k.saved);
            },
            (λ p o. ground (arith, is_origin-insert p f (y.backup_of f) s.backups, o)),
            (λ p u o. ground (arith, is_origin-insert p f (y.backup_of f) s.backups, o)),
          ))
  backed_up-Saves f t s not_created h e absent k q =
      rw (copy-eq f t s h e k) (rw (q, create_and_write) (k, (λ p o. o), (λ p u o. cc)))
  backed_up-Saves f t s (cut_short rest) h e absent k q = rw (copy-eq f t s h e k) (
      rw (q, create_and_write)
        (
          record {
            writable = k.writable;
            unchanged = unchanged-backup s f rest k;
            saved =
                write-unrecorded s.fs f rest s.backups h (lookup-none f s.backups absent) k.saved;
          },
          (λ p o. o),
          (λ p u o. cc),
        ))

  gate : (b : Bool) {A : Type 0} (x z : A) → b ≡ true → (if b then x else z) ≡ x
  gate true x z h = refl
  gate false x z h = cc

  no_gate : (b : Bool) {A : Type 0} (x z : A) → b ≡ false → (if b then x else z) ≡ z
  no_gate true x z h = cc
  no_gate false x z h = refl

  backup_file-new :
      (f : Str) (s : State)
      → s.fs.makes_dirs ≡ true
      → lookup f s.backups ≡ none
      → backup_file y.backup_of f s ≡ recorded y.backup_of f s (copy_file f (y.backup_of f) s.fs)
  unfolding backup_file
  backup_file-new f s dirs absent = gate s.fs.makes_dirs _ _ dirs ∙ rw (absent, backup_file) refl

  backup_file-old :
      (f b : Str) (s : State)
      → s.fs.makes_dirs ≡ true
      → lookup f s.backups ≡ some b
      → backup_file y.backup_of f s ≡ (ok tt, s)
  unfolding backup_file
  backup_file-old f b s dirs present =
      gate s.fs.makes_dirs _ _ dirs ∙ rw (present, backup_file) refl

  backup_file-shut :
      (f : Str) (s : State)
      → s.fs.makes_dirs ≡ false
      → backup_file y.backup_of f s ≡ (err Code.mkdir_all, s)
  unfolding backup_file
  backup_file-shut f s shut = no_gate s.fs.makes_dirs _ _ shut

  backup_file-Saves :
      (f t : Str) (s : State)
      → y.is_target f ≡ true
      → fs0.content f ≡ some t
      → IsSaving s
      → Saves s f (backup_file y.backup_of f s)
  backup_file-Saves f t s h e k = elim (Bool-cases s.fs.makes_dirs) [
    | inr shut ↦ rw (backup_file-shut f s shut) (k, (λ p o. o), (λ p u o. cc))
    | inl dirs ↦ elim (Option-cases (lookup f s.backups)) [
      | inl absent ↦
          rw (backup_file-new f s dirs absent)
            (backed_up-Saves f t s (s.fs.writing (y.backup_of f)) h e absent k refl)
      | inr (b, present) ↦
          rw (backup_file-old f b s dirs present)
            (k, (λ p o. o), (λ p u o. is_origin-lookup p f b s.backups present o))
    ]
  ]

  -- The same of several files; those that exist are recorded if there is no error.
  abbrev SavesAll : State → List Str → Outcome (Unit {0}) × State → Type 0
  SavesAll s files (r, s') =
      IsSaving s'
      × ((p : Str) → is_origin p s.backups ≡ true → is_origin p s'.backups ≡ true)
      × ((p t : Str)
          → r ≡ ok tt
          → any (λ f. str_eq f p) files ≡ true
          → fs0.content p ≡ some t
          → is_origin p s'.backups ≡ true)

  then-SavesAll :
      (f : Str) (files : List Str) (s : State) (r : Outcome (Unit {0}) × State)
      → Saves s f r
      → ((s' : State) → IsSaving s' → SavesAll s' files (backup_existing y.backup_of files s'))
      → SavesAll s (f ∷ files) (and_then r (λ s'. backup_existing y.backup_of files s'))
  then-SavesAll f files s (ok u, s1) (k1, keeps, here) more =
      let (k', old, new) = more s1 k1 in
      (
        k',
        (λ p q. old p (keeps p q)),
        λ p t q n e. elim (Bool-cases (str_eq f p)) [
          | inl same ↦ old p (here p refl same)
          | inr other ↦ new p t q (ground (arith, other, n)) e
        ],
      )
  then-SavesAll f files s (err c, s1) (k1, keeps, here) more = (k1, keeps, λ p t q n e. cc)
  then-SavesAll f files s (panicked, s1) (k1, keeps, here) more = (k1, keeps, λ p t q n e. cc)

  backup_existing-skip :
      (f : Str) (files : List Str) (s : State)
      → s.fs.content f ≡ none
      → backup_existing y.backup_of (f ∷ files) s ≡ backup_existing y.backup_of files s
  unfolding backup_existing
  backup_existing-skip f files s absent = rw (absent, backup_existing) refl

  backup_existing-step :
      (f t : Str) (files : List Str) (s : State)
      → s.fs.content f ≡ some t
      → backup_existing y.backup_of (f ∷ files) s
        ≡ and_then (backup_file y.backup_of f s) (λ s'. backup_existing y.backup_of files s')
  unfolding backup_existing
  backup_existing-step f t files s present = rw (present, backup_existing) refl

  skip-SavesAll :
      (f : Str) (files : List Str) (s : State) (r : Outcome (Unit {0}) × State)
      → fs0.content f ≡ none
      → SavesAll s files r
      → SavesAll s (f ∷ files) r
  skip-SavesAll f files s r absent (k', old, new) = (
    k',
    old,
    λ p t q n e. elim (Bool-cases (str_eq f p)) [
      | inl same ↦
          let gone : none ≡ some t = sym absent ∙ ap fs0.content (eq_of_str_eq f p same) ∙ e in cc
      | inr other ↦ new p t q (ground (arith, other, n)) e
    ],
  )

  pub backup_existing-SavesAll :
      (files : List Str) (s : State)
      → All (λ f. y.is_target f ≡ true) files
      → IsSaving s
      → SavesAll s files (backup_existing y.backup_of files s)
  backup_existing-SavesAll [] s h k = unfold backup_existing in (k, (λ p q. q), λ p t u n e. cc)
  backup_existing-SavesAll (f ∷ files) s h k =
      let here : s.fs.content f ≡ fs0.content f = k.unchanged f (y.target_apart f h.0) in
      elim (Option-cases (s.fs.content f)) [
        | inl absent ↦ rw (backup_existing-skip f files s absent) (
            skip-SavesAll f files s (backup_existing y.backup_of files s) (sym here ∙ absent)
              (backup_existing-SavesAll files s h.1 k))
        | inr (t, present) ↦ rw (backup_existing-step f t files s present) (
            then-SavesAll f files s (backup_file y.backup_of f s)
              (backup_file-Saves f t s h.0 (sym here ∙ present) k)
              (λ s' k'. backup_existing-SavesAll files s' h.1 k'))
      ]

  abbrev pub start : State
  start = record { backups = []; fs = fs0 }

  pub start-IsSaving : IsSaving start
  start-IsSaving = record { writable = refl; unchanged = λ p q. refl; saved = tt }

  -- The backups are as they were written.
  abbrev pub SameBackups : FileSystem → FileSystem → Type 0
  SameBackups fs fs' = (p : Str) → y.is_backup p ≡ true → fs'.content p ≡ fs.content p

  HoldsOriginal-same :
      (fs fs' : FileSystem) (l : Dict Str)
      → SameBackups fs fs'
      → All (HoldsOriginal y fs0 fs) l
      → All (HoldsOriginal y fs0 fs') l
  HoldsOriginal-same fs fs' [] h a = a
  HoldsOriginal-same fs fs' ((o, b) ∷ l) h a =
      let (at_b, target, t, now, then_) = a.0 in
      (
        (at_b, target, t, h b (ap y.is_backup at_b ∙ y.backup_apart o) ∙ now, then_),
        HoldsOriginal-same fs fs' l h a.1,
      )

  -- Where the directory of backups can be made and the backups in it can be written, a backup
  -- changes neither.
  abbrev WritesBackups : State → Type 0
  WritesBackups s =
      (s.fs.makes_dirs ≡ true)
      × ((f : Str) → y.is_target f ≡ true → s.fs.writing (y.backup_of f) ≡ whole)

  -- Restoring, whatever came of backing up, and whatever then happened to any path that is no
  -- backup.
  pub restored-content :
      (s : State) (fs1 : FileSystem) (entries : Dict Str) (f : Str)
      → IsSaving s
      → SameBackups s.fs fs1
      → WritesTargets y fs0 fs1
      → Permᴰ s.backups entries
      → (fs2 : FileSystem) × (restore_backup_files entries fs1 ≡ (ok tt, fs2))
        × (fs2.content f ≡ (if is_origin f s.backups then fs0.content f else fs1.content f))
  restored-content s fs1 entries f saving same w d =
      let (fs2, done, at) = restore-content y fs0 entries fs1 w (
        All-Permᴰ (HoldsOriginal y fs0 fs1) d
          (HoldsOriginal-same s.fs fs1 s.backups same saving.saved)) in
      (fs2, done, at f ∙ ground (arith, is_origin-Permᴰ f d))

  -- After files whose backups differ from one another and from the files were backed up without an
  -- error, starting with no backup, and whatever then happened to any path that is no backup, as long
  -- as the files can be written: restoring succeeds, in whatever order it goes through the map of
  -- backups, and gives each of the files that existed its original content.
  pub restore-backup :
      (files : List Str) (s : State) (fs1 : FileSystem) (entries : Dict Str) (f t : Str)
      → All (λ f. y.is_target f ≡ true) files
      → backup_existing y.backup_of files (record { backups = []; fs = fs0 }) ≡ (ok tt, s)
      → SameBackups s.fs fs1
      → WritesTargets y fs0 fs1
      → Permᴰ s.backups entries
      → any (λ g. str_eq g f) files ≡ true
      → fs0.content f ≡ some t
      → (fs2 : FileSystem) × (restore_backup_files entries fs1 ≡ (ok tt, fs2))
        × (fs2.content f ≡ some t)
  restore-backup files s fs1 entries f t h run same w d n e =
      let (k, old, new) =
        subst (SavesAll start files) run (backup_existing-SavesAll files start h start-IsSaving) in
      let (fs2, done, at) = restored-content s fs1 entries f k same w d in
      (fs2, done, at ∙ ground (arith, new f t refl n e, e))
