-- ===== src/Preprocess/Backup/Restore.antt =====
-- Restoring from backups that hold the original content of their files.
use opentelemetry_go_auto_in.Base.{
  ◌≡◌, refl, ap, subst, ◌∙◌, inl, inr, Bool, true, false, ◌||◌, some, [], ◌∷◌, arith, if◌then◌else◌,
  Bool-cases, All, ok, Str, str_eq, eq_of_str_eq, str_eq_iff,
}
use opentelemetry_go_auto_in.Base.Dict.{Dict}
use mathlib.Core.List.{Permᴰ}
use opentelemetry_go_auto_in.Preprocess.Backup.{
  FileSystem, whole, write, create_and_write, copy_file, restore_backup_files,
}

-- The files that are backed up, and where: their backups differ and lie apart from them.
pub record Layout : Type 0 where
  pub backup_of : Str → Str
  pub is_target : Str → Bool
  pub is_backup : Str → Bool
  pub backup_apart : (p : Str) → is_backup (backup_of p) ≡ true
  pub target_apart : (p : Str) → is_target p ≡ true → is_backup p ≡ false
  pub one_each :
      (p q : Str) → is_target p ≡ true → is_target q ≡ true → backup_of p ≡ backup_of q → p ≡ q

abbrev pub is_origin : Str → Dict Str → Bool
is_origin p [] = false
is_origin p ((o, b) ∷ l) = str_eq o p || is_origin p l

pub is_origin-Permᴰ : (p : Str) {l l' : Dict Str} → Permᴰ l l' → is_origin p l ≡ is_origin p l'
is_origin-Permᴰ p Permᴰ.nil = refl
is_origin-Permᴰ p (Permᴰ.cons {a} {b} {l₁} {l₂} e d) =
    ap (λ (x : Str × Str). str_eq x.0 p || is_origin p l₁) e
    ∙ ap (λ r. str_eq b.0 p || r) (is_origin-Permᴰ p d)
is_origin-Permᴰ p (Permᴰ.swap {a} {b} {a'} {b'} {l} e e') =
    let first : str_eq a.0 p ≡ str_eq b'.0 p = ap (λ (x : Str × Str). str_eq x.0 p) e in
    let second : str_eq b.0 p ≡ str_eq a'.0 p = ap (λ (x : Str × Str). str_eq x.0 p) e' in
    ground (arith, first, second)
is_origin-Permᴰ p (Permᴰ.trans d d') = is_origin-Permᴰ p d ∙ is_origin-Permᴰ p d'

module _ (y : Layout) (fs0 : FileSystem) where
  -- An entry of `backups` whose backup has the original content of its file.
  abbrev pub HoldsOriginal : FileSystem → Str × Str → Type 0
  HoldsOriginal fs (o, b) =
      (b ≡ y.backup_of o)
      × (y.is_target o ≡ true)
      × (t : Str) × (fs.content b ≡ some t)
      × (fs0.content o ≡ some t)

  -- Writing a target leaves every backup.
  pub write-target :
      (fs : FileSystem) (p text : Str) (l : Dict Str)
      → y.is_target p ≡ true
      → All (HoldsOriginal fs) l
      → All (HoldsOriginal (write fs p text)) l
  write-target fs p text [] h a = a
  write-target fs p text ((o, b) ∷ l) h a =
      let (at_b, target, t, now, then_) = a.0 in
      (
        (
          at_b,
          target,
          t,
          ground (arith, str_eq_iff p b, y.backup_apart o, y.target_apart p h, ap y.is_backup at_b),
          then_,
        ),
        write-target fs p text l h a.1,
      )

  pub copy_file-ok :
      (src dst t : Str) (fs : FileSystem)
      → fs.content src ≡ some t
      → fs.writing dst ≡ whole
      → copy_file src dst fs ≡ (ok tt, write fs dst t)
  unfolding copy_file
  copy_file-ok src dst t fs e w = rw (e, copy_file) (rw (w, create_and_write) refl)

  pub after_write :
      (fs : FileSystem) (o t p : Str) (rest : Bool)
      → fs0.content o ≡ some t
      → (if rest then fs0.content p else (write fs o t).content p)
        ≡ (if str_eq o p || rest then fs0.content p else fs.content p)
  after_write fs o t p rest e = elim (Bool-cases (str_eq o p)) [
    | inl same ↦
        let e' : fs0.content p ≡ some t =
          subst (λ q. fs0.content q ≡ some t) (eq_of_str_eq o p same) e in
        ground (arith, same, e')
    | inr other ↦ ground (arith, other)
  ]

  -- Every file that is backed up can be written.
  abbrev pub WritesTargets : FileSystem → Type 0
  WritesTargets fs = (p : Str) → y.is_target p ≡ true → fs.writing p ≡ whole

  -- After a restore, where each of the files can be written, the files of the entries have their
  -- original content, and no other path has changed.
  pub restore-content :
      (l : Dict Str) (fs : FileSystem)
      → WritesTargets fs
      → All (HoldsOriginal fs) l
      → (fs' : FileSystem) × (restore_backup_files l fs ≡ (ok tt, fs'))
        × ((p : Str) → fs'.content p ≡ (if is_origin p l then fs0.content p else fs.content p))
  unfolding restore_backup_files
  restore-content [] fs w a = (fs, refl, λ p. refl)
  restore-content ((o, b) ∷ l) fs w a =
      let (at_b, target, t, now, then_) = a.0 in
      let (fs', run, at) = restore-content l (write fs o t) w (write-target fs o t l target a.1) in
      (
        fs',
        rw (copy_file-ok b o t fs now (w o target)) run,
        λ p. at p ∙ after_write fs o t p (is_origin p l) then_,
      )
