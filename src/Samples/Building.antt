-- ===== src/Samples/Building.antt =====
-- The theorems on commands and backups at concrete inputs.
use opentelemetry_go_auto_in.Base.{
  Bool, any, ◌≡◌, refl, true, false, none, some, List, [], ◌∷◌, arith, if◌then◌else◌, ok, Str,
  codes, str_eq, has_prefix, contains, contains_byte,
}
use opentelemetry_go_auto_in.Util.Commands.{assert_go_build, split_cmds}
use opentelemetry_go_auto_in.Util.Commands.RoundTrip.{plain, quoted, split_cmds-spell_all}
use mathlib.Core.List.{Permᴰ}
use opentelemetry_go_auto_in.Base.Dict.{lookup, insert}
use opentelemetry_go_auto_in.Preprocess.Backup.{
  FileSystem, whole, State, backup_existing, restore_backup_files, write, backup_file, copy_file,
}
use opentelemetry_go_auto_in.Preprocess.Backup.Restore.{Layout}
use opentelemetry_go_auto_in.Preprocess.Backup.RoundTrip.{SameBackups, restore-backup}

split_cmds-spell_all_example :
    split_cmds false (codes "go build \"-gcflags=-N -l\" ")
    ≡ codes "go" ∷ codes "build" ∷ codes "-gcflags=-N -l" ∷ []
split_cmds-spell_all_example =
    split_cmds-spell_all
      ((plain, codes "go") ∷ (plain, codes "build") ∷ (quoted, codes "-gcflags=-N -l") ∷ [])
      (
        (λ e. cc, unfold contains_byte in refl, unfold contains_byte in refl),
        (
          (λ e. cc, unfold contains_byte in refl, unfold contains_byte in refl),
          ((λ e. cc, unfold contains_byte in refl, tt), tt),
        ),
      )

abbrev go_build : List Str
go_build = codes "go" ∷ codes "build" ∷ codes "-race" ∷ codes "./cmd" ∷ []

go_build_ok : assert_go_build go_build ≡ ok tt
unfolding assert_go_build contains has_prefix str_eq
go_build_ok = refl

-- Backups of the files named "m" and "s" are the names with a "k" in front.
abbrev pub is_saved : Str → Bool
is_saved p =
    any (str_eq p)
      (codes "m" ∷ codes "s" ∷ codes "go.mod" ∷ codes "go.sum" ∷ codes "go.work.sum" ∷ [])

pub layout_target_apart : (p : Str) → is_saved p ≡ true → has_prefix p (codes "k") ≡ false
unfolding str_eq has_prefix
layout_target_apart [] h = cc
layout_target_apart (c ∷ p) h = ground (arith, h)

pub layout_one_each : (p q : Str) → b'k' ∷ p ≡ b'k' ∷ q → p ≡ q
layout_one_each p q e = cc

pub layout_backup_apart : (p : Str) → has_prefix (b'k' ∷ p) (codes "k") ≡ true
unfolding has_prefix
layout_backup_apart p = refl

abbrev pub layout : Layout
layout = record {
  backup_of = λ p. b'k' ∷ p;
  is_target = is_saved;
  is_backup = λ p. has_prefix p (codes "k");
  backup_apart = λ p. layout_backup_apart p;
  target_apart = λ p h. layout_target_apart p h;
  one_each = λ p q hp hq e. layout_one_each p q e;
}

abbrev disk : FileSystem
disk = record {
  content = λ p. if str_eq p (codes "m") then some (codes "module x") else none;
  writing = λ p. whole;
  makes_dirs = true;
}

-- "m" is saved as "km", and then overwritten; "s" does not exist.
abbrev saved : State
saved = record {
  backups = (codes "m", codes "km") ∷ [];
  fs = write disk (codes "km") (codes "module x");
}

saved_ok :
    backup_existing layout.backup_of
      (codes "m" ∷ codes "s" ∷ [])
      (record { backups = []; fs = disk })
    ≡ (ok tt, saved)
unfolding backup_existing backup_file copy_file lookup insert str_eq
saved_ok = refl

overwritten_same : SameBackups layout disk saved.fs (write saved.fs (codes "m") (codes "module y"))
unfolding has_prefix str_eq
overwritten_same [] h = cc
overwritten_same (c ∷ p) h = ground arith

restore-backup_example :
    (fs2 : FileSystem) × (restore_backup_files
        ((codes "m", codes "km") ∷ [])
        (write saved.fs (codes "m") (codes "module y"))
      ≡ (ok tt, fs2))
    × (fs2.content (codes "m") ≡ some (codes "module x"))
restore-backup_example =
    restore-backup layout disk (codes "m" ∷ codes "s" ∷ []) saved
      (write saved.fs (codes "m") (codes "module y")) ((codes "m", codes "km") ∷ []) (codes "m")
      (codes "module x") (unfold str_eq in (refl, (refl, tt))) saved_ok overwritten_same
      (λ p h. refl) (Permᴰ.cons refl Permᴰ.nil) (unfold str_eq in refl) (unfold str_eq in refl)
