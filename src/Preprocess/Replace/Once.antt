-- ===== src/Preprocess/Replace/Once.antt =====
-- Every path of the map is replaced afterwards, and adding the replacements again changes nothing.
use opentelemetry_go_auto_in.Base.{
  ◌≡◌, refl, sym, ap, ◌∙◌, Bool, true, false, inl, inr, Option, none, some, List, [], ◌∷◌, All,
  All-map, All-Permᴰ, str_eq_refl, Bool-cases, subst, Outcome, ok, err, panicked, >>=-eq-ok, or_err,
  Code, Str, Holds, ◌⊎◌, Holds-bind, Holds-weaken, Holds-use,
}
use mathlib.Core.List.{Permᴰ}
use opentelemetry_go_auto_in.Preprocess.Backup.{
  FileSystem, Writing, whole, not_created, cut_short, create_and_write, write, write_file,
}
use opentelemetry_go_auto_in.Preprocess.Replace.{
  Replacement, parse_go_mod, has_replace, add_one, add_all, formatted, new_go_mod, save,
  add_mod_replace,
}

Holds-or_err {ℓ} : {A : Type ℓ} (o : Option A) (c : Code) → Holds (λ a. o ≡ some a) (or_err o c)
Holds-or_err none c = tt
Holds-or_err (some a) c = refl

module _ {ModFile : Type 0} (parse : Str → Option ModFile) (format : ModFile → Option Str)
    (replaced : ModFile → List Str) (add_replace : ModFile → Replacement → Option ModFile) where
  abbrev Has : ModFile → Str → Type 0
  Has file path = has_replace parse format replaced add_replace path file ≡ true

  abbrev adding : List Replacement → ModFile → Bool → Outcome (ModFile × Bool)
  adding = add_all parse format replaced add_replace

  -- What modfile documents of AddReplace: the path is replaced then, and what was replaced stays.
  abbrev pub Adds : Type 0
  Adds =
      (file file' : ModFile)
      → (r : Replacement) → add_replace file r ≡ some file'
      → Has file' r.old × ((path : Str) → Has file path → Has file' path)

  -- And of Format: what it writes is parsed to a file with the same replaced paths.
  abbrev pub RoundTrips : Type 0
  RoundTrips =
      (file : ModFile)
      → (text : Str) → format file ≡ some text
      → (file' : ModFile) × (parse text ≡ some file')
        × ((path : Str) → Has file path → Has file' path)

  present :
      (rs : List Replacement) (file : ModFile)
      → All (λ r. Has file r.old) rs
      → adding rs file false ≡ ok (file, false)
  unfolding add_all
  present [] file h = refl
  present (r ∷ rs) file (here, h) = rw here (present rs file h)

  -- What the file is after some of the loop: the paths of the list are replaced, no path is lost,
  -- and where nothing was added it is the file from before.
  abbrev Grown : List Replacement → ModFile → Bool → ModFile × Bool → Type 0
  Grown rs file added (file', added') =
      All (λ r. Has file' r.old) rs
      × ((path : Str) → Has file path → Has file' path)
      × (added' ≡ false → (file' ≡ file) × (added ≡ false))

  one_added :
      (adds : Adds) (r : Replacement) (file : ModFile) (added : Bool)
      → Holds (Grown (r ∷ []) file added) (add_one parse format replaced add_replace r file added)
  one_added adds r file added =
      elim (Bool-cases (has_replace parse format replaced add_replace r.old file)) [
        | inl there ↦ rw there ((there, tt), (λ path h. h), λ e. (refl, e))
        | inr absent ↦ rw absent (
            Holds-bind (λ file'. add_replace file r ≡ some file') (Grown (r ∷ []) file added)
              (or_err (add_replace file r) Code.parse_code) (λ file'. ok (file', true))
              (Holds-or_err (add_replace file r) Code.parse_code)
              (λ file' e. (((adds file file' r e).0, tt), (adds file file' r e).1, λ t. cc)))
      ]

  all_added :
      (adds : Adds) (rs : List Replacement) (file : ModFile) (added : Bool)
      → Holds (Grown rs file added) (adding rs file added)
  unfolding add_all
  all_added adds [] file added = (tt, (λ path h. h), λ e. (refl, e))
  all_added adds (r ∷ rs) file added =
      Holds-bind (Grown (r ∷ []) file added) (Grown (r ∷ rs) file added)
        (add_one parse format replaced add_replace r file added) _ (one_added adds r file added)
        (λ (file1, added1) (first, kept, same).
          Holds-weaken (Grown rs file1 added1) (Grown (r ∷ rs) file added) (adding rs file1 added1)
            (all_added adds rs file1 added1)
            (λ (file2, added2) (rest, kept', same'). (
              (kept' r.old first.0, rest),
              (λ path h. kept' path (kept path h)),
              λ e.
                  let (eq, none_added) = same' e in
                  let (eq', before) = same none_added in (eq ∙ eq', before),
            )))

  -- The module file has a directive for every path of the list.
  abbrev pub AllReplaced : Str → List Replacement → FileSystem → Type 0
  AllReplaced gomod rs fs =
      (file : ModFile) × (parse_go_mod parse format replaced add_replace gomod fs ≡ ok file)
      × All (λ r. Has file r.old) rs

  -- The files once the text, if there is one, is written.
  abbrev put : Str → FileSystem → Option Str → FileSystem
  put gomod fs none = fs
  put gomod fs (some text) = write fs gomod text

  formatted_text :
      (file : ModFile) (t : Option Str)
      → formatted parse format replaced add_replace (file, true) ≡ ok t
      → (text : Str) × (format file ≡ some text) × (some text ≡ t)
  formatted_text file t e =
      let (text, found, e1) = >>=-eq-ok (or_err (format file) Code.parse_code) _ e in
      (
        text,
        Holds-use (λ a. format file ≡ some a) (or_err (format file) Code.parse_code) text
            (Holds-or_err (format file) Code.parse_code) found,
        cc e1,
      )

  saved :
      (formats : RoundTrips) (gomod : Str) (rs : List Replacement) (fs : FileSystem)
      (file : ModFile)
      → parse_go_mod parse format replaced add_replace gomod fs ≡ ok file
      → (result : ModFile × Bool) → Grown rs file false result
      → (t : Option Str) → formatted parse format replaced add_replace result ≡ ok t
      → AllReplaced gomod rs (put gomod fs t)
  unfolding parse_go_mod
  saved formats gomod rs fs file parsed (file', false) (all, kept, same) none e =
      (file', parsed ∙ ap ok (sym (same refl).0), all)
  saved formats gomod rs fs file parsed (file', false) g (some text) e = cc
  saved formats gomod rs fs file parsed (file', true) g none e =
      let (text, found, e1) = formatted_text file' none e in cc
  saved formats gomod rs fs file parsed (file', true) (all, kept, same) (some text) e =
      let (text', found, e1) = formatted_text file' (some text) e in
      let (file2, parsed', kept') = formats file' text (found ∙ e1) in
      (
        file2,
        rw (str_eq_refl gomod) (rw parsed' refl),
        All-map (λ r. Has file' r.old) (λ r. Has file2 r.old) rs (λ r h. kept' r.old h) all,
      )

  write_file_ok :
      (path text : Str) (fs fs' : FileSystem) (w : Writing)
      → fs.writing path ≡ w
      → write_file path text fs ≡ (ok tt, fs')
      → fs' ≡ write fs path text
  unfolding write_file
  write_file_ok path text fs fs' whole q e =
      sym (ap (λ (p : Outcome (Unit {0}) × FileSystem). p.1) (rw (q, create_and_write) at e))
  write_file_ok path text fs fs' not_created q e =
      let failed =
        ap (λ (p : Outcome (Unit {0}) × FileSystem). p.0) (rw (q, create_and_write) at e) in
      cc
  write_file_ok path text fs fs' (cut_short rest) q e =
      let failed =
        ap (λ (p : Outcome (Unit {0}) × FileSystem). p.0) (rw (q, create_and_write) at e) in
      cc

  save_ok :
      (gomod : Str) (fs fs' : FileSystem) (o : Outcome (Option Str))
      → save parse format replaced add_replace gomod fs o ≡ (ok tt, fs')
      → (t : Option Str) × (o ≡ ok t) × (fs' ≡ put gomod fs t)
  save_ok gomod fs fs' (ok (some text)) e =
      (some text, refl, write_file_ok gomod text fs fs' (fs.writing gomod) refl e)
  save_ok gomod fs fs' (ok none) e =
      (none, refl, sym (ap (λ (p : Outcome (Unit {0}) × FileSystem). p.1) e))
  save_ok gomod fs fs' (err c) e =
      let failed = ap (λ (p : Outcome (Unit {0}) × FileSystem). p.0) e in cc
  save_ok gomod fs fs' panicked e =
      let failed = ap (λ (p : Outcome (Unit {0}) × FileSystem). p.0) e in cc

  -- No file but go.mod is written.
  abbrev pub Written : Str → FileSystem → FileSystem → Type 0
  Written gomod fs fs' = (fs' ≡ fs) ⊎ ((text : Str) × (fs' ≡ write fs gomod text))

  write_file-Written :
      (gomod text : Str) (fs : FileSystem) (w : Writing)
      → fs.writing gomod ≡ w
      → Written gomod fs (write_file gomod text fs).1
  unfolding write_file
  write_file-Written gomod text fs whole q = inr (text, rw (q, create_and_write) refl)
  write_file-Written gomod text fs not_created q = inl (rw (q, create_and_write) refl)
  write_file-Written gomod text fs (cut_short rest) q = inr (rest, rw (q, create_and_write) refl)

  save-Written :
      (gomod : Str) (fs : FileSystem) (o : Outcome (Option Str))
      → Written gomod fs (save parse format replaced add_replace gomod fs o).1
  save-Written gomod fs (ok (some text)) = write_file-Written gomod text fs (fs.writing gomod) refl
  save-Written gomod fs (ok none) = inl refl
  save-Written gomod fs (err c) = inl refl
  save-Written gomod fs panicked = inl refl

  pub add_mod_replace-Written :
      (gomod : Str) (rs : List Replacement) (fs : FileSystem)
      → Written gomod fs (add_mod_replace parse format replaced add_replace gomod rs fs).1
  unfolding add_mod_replace
  add_mod_replace-Written gomod rs fs =
      save-Written gomod fs (new_go_mod parse format replaced add_replace gomod rs fs)

  -- When addModReplace returns no error, go.mod is parsed to a file with a replace directive for every path
  -- of the map; and when it is run again on what it left, in whatever order it then goes through
  -- the map, it returns and changes no file. Of package modfile this uses that AddReplace adds the
  -- path and keeps those that were there, and that what Format writes is parsed back with them.
  pub add_mod_replace_twice :
      (adds : Adds) (formats : RoundTrips) (gomod : Str) (rs rs' : List Replacement)
      (fs fs' : FileSystem)
      → Permᴰ rs rs'
      → add_mod_replace parse format replaced add_replace gomod rs fs ≡ (ok tt, fs')
      → AllReplaced gomod rs fs'
        × (add_mod_replace parse format replaced add_replace gomod rs' fs' ≡ (ok tt, fs'))
  unfolding add_mod_replace new_go_mod
  add_mod_replace_twice adds formats gomod rs rs' fs fs' d e =
      let (t, made, put_) =
        save_ok gomod fs fs' (new_go_mod parse format replaced add_replace gomod rs fs) e in
      let (file, parsed, e1) =
        >>=-eq-ok (parse_go_mod parse format replaced add_replace gomod fs) _ made in
      let (result, run, e2) = >>=-eq-ok (adding rs file false) _ e1 in
      let grown : Grown rs file false result =
        Holds-use (Grown rs file false) (adding rs file false) result (all_added adds rs file false)
          run in
      let after : AllReplaced gomod rs fs' =
        subst (AllReplaced gomod rs) (sym put_)
          (saved formats gomod rs fs file parsed result grown t e2) in
      let (file', parsed', all) = after in
      (after, rw parsed' (rw (present rs' file' (All-Permᴰ (λ r. Has file' r.old) d all)) refl))
