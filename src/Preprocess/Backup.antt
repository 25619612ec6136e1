-- ===== src/Preprocess/Backup.antt =====
-- backupFile and restoreBackupFiles of tool/preprocess/preprocess.go, over a file system as a
-- function from paths to contents, which says besides what comes of writing a path. `backup_of` is the path of the backup: the base name of the
-- file with the suffix .bk, in the directory of backups.
pub mod Restore
pub mod RoundTrip
use opentelemetry_go_auto_in.Base.{
  Option, none, some, List, [], ◌∷◌, if◌then◌else◌, Outcome, ok, err, panicked, Bool, Code, Str,
  str_eq,
}
use opentelemetry_go_auto_in.Base.Dict.{Dict, lookup, insert}

-- What comes of writing a path: the text is written, the file cannot be created, or writing fails
-- midway and leaves another text.
pub data Writing : Type 0 where
  whole not_created : Writing
  cut_short : Str → Writing

-- The content of a file that is missing or cannot be read is `none`; `makes_dirs` is whether
-- os.MkdirAll succeeds for the directory of backups.
pub record FileSystem : Type 0 where
  pub content : Str → Option Str
  pub writing : Str → Writing
  pub makes_dirs : Bool

abbrev pub write : FileSystem → Str → Str → FileSystem
write fs path text = record fs { content = λ p. if str_eq path p then some text else fs.content p }

-- Creating a file and writing the text to it, with the errors of either.
abbrev pub create_and_write : Code → Code → Str → Str → FileSystem → Outcome (Unit {0}) × FileSystem
create_and_write no_file no_text path text fs = elim (fs.writing path) [
  | whole ↦ (ok tt, write fs path text)
  | not_created ↦ (err no_file, fs)
  | cut_short rest ↦ (err no_text, write fs path rest)
]

-- util.WriteFile
unfoldable pub write_file : Str → Str → FileSystem → Outcome (Unit {0}) × FileSystem
write_file = create_and_write Code.open_file Code.write_file

-- util.CopyFile
unfoldable pub copy_file : Str → Str → FileSystem → Outcome (Unit {0}) × FileSystem
copy_file src dst fs = elim (fs.content src) [
  | none ↦ (err Code.open_file, fs)
  | some text ↦ create_and_write Code.create_file Code.copy_file dst text fs
]

-- The field `backups` of DepProcessor, and the file system.
pub record State : Type 0 where
  pub backups : Dict Str
  pub fs : FileSystem

-- What follows, unless there was an error.
abbrev pub and_then :
    {S : Type 0} → Outcome (Unit {0}) × S → (S → Outcome (Unit {0}) × S) → Outcome (Unit {0}) × S
and_then (ok u, s) f = f s
and_then (err c, s) f = (err c, s)
and_then (panicked, s) f = (panicked, s)

module _ (backup_of : Str → Str) where
  -- A backup is recorded once it is written.
  abbrev pub recorded : Str → State → Outcome (Unit {0}) × FileSystem → Outcome (Unit {0}) × State
  recorded origin s (ok u, fs) =
      (ok u, record { backups = insert origin (backup_of origin) s.backups; fs = fs })
  recorded origin s (err c, fs) = (err c, record s { fs = fs })
  recorded origin s (panicked, fs) = (panicked, record s { fs = fs })

  unfoldable pub backup_file : Str → State → Outcome (Unit {0}) × State
  backup_file origin s =
      if s.fs.makes_dirs
      then (elim (lookup origin s.backups) [
        | some b ↦ (ok tt, s)
        | none ↦ recorded origin s (copy_file origin (backup_of origin) s.fs)
      ])
      else (err Code.mkdir_all, s)

  -- rectifyMod's loop: what does not exist is not backed up.
  unfoldable pub backup_existing : List Str → State → Outcome (Unit {0}) × State
  backup_existing [] s = (ok tt, s)
  backup_existing (file ∷ files) s = elim (s.fs.content file) [
    | none ↦ backup_existing files s
    | some text ↦ and_then (backup_file file s) (λ s'. backup_existing files s')
  ]

-- restoreBackupFiles, in the order of the map, up to the first error.
unfoldable pub restore_backup_files : Dict Str → FileSystem → Outcome (Unit {0}) × FileSystem
restore_backup_files [] fs = (ok tt, fs)
restore_backup_files ((origin, backup) ∷ backups) fs =
    and_then (copy_file backup origin fs) (λ fs'. restore_backup_files backups fs')
