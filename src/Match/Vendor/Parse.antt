-- ===== src/Match/Vendor/Parse.antt =====
-- parseVendorModules of tool/preprocess/match.go. The module under construction is a pointer that
-- may be in the result already; the state counts how often it is, always at the end.
-- `semver_valid`, `semver_compare` and `check_import_path` are semver.IsValid, semver.Compare and
-- module.CheckImportPath of golang.org/x/mod; the file is the list of its lines.
-- Not being able to open a file that exists is left out.
use opentelemetry_go_auto_in.Base.{
  ℕ, zero, suc, ◌≡◌, refl, Bool, true, false, ◌&&◌, ◌||◌, Option, none, some, List, [], ◌∷◌, ◌++◌,
  arith, ◌==◌, if◌then◌else◌, all, Outcome, ok, err, Code, Str, codes, str_eq, str_eq_iff,
  has_prefix,
}
use Prim.Native.Nat.{Ordering}
use opentelemetry_go_auto_in.Base.Dict.{Dict, lookup, insert}
use opentelemetry_go_auto_in.Match.Vendor.{VendorModule}

-- The white space of strings.Fields, in ASCII.
abbrev is_space : ℕ → Bool
is_space c = c == 32 || c == 9 || c == 10 || c == 11 || c == 12 || c == 13

abbrev field : Str → List Str → List Str
field [] fs = fs
field (c ∷ cur) fs = (c ∷ cur) ∷ fs

-- strings.Fields, with the field that is being read.
unfoldable pub fields_from : Str → Str → List Str
fields_from cur [] = field cur []
fields_from cur (c ∷ s) =
    let ended = field cur (fields_from [] s) in
    let longer = fields_from (cur ++ c ∷ []) s in if is_space c then ended else longer

unfoldable pub fields : Str → List Str
unfolding fields_from
fields s = fields_from [] s

pub record ParseState : Type 0 where
  pub finished : List VendorModule
  pub mod_now : VendorModule
  pub copies : ℕ  -- how often mod_now is in the result, behind `finished`
  pub versions : Dict Str

abbrev pub times : ℕ → VendorModule → List VendorModule
times zero m = []
times (suc n) m = m ∷ times n m

-- The variable `vms`.
abbrev pub vms : ParseState → List VendorModule
vms s = s.finished ++ times s.copies s.mod_now

-- `mod = &vendorModule{...}`
abbrev pub start_module : Str → Str → ParseState → ParseState
start_module path version s = record {
  finished = vms s;
  mod_now = record { path = path; version = version; submodules = [] };
  copies = 0;
  versions = s.versions;
}

abbrev is_less : Ordering → Bool
is_less Ordering.lt = true
is_less _ = false

module _ (semver_valid : Str → Bool) (semver_compare : Str → Str → Ordering)
    (check_import_path : Str → Bool) where
  -- A line that begins with "# ", of its fields.
  unfoldable pub module_line : List Str → ParseState → ParseState
  module_line (a ∷ path ∷ version ∷ rest) s =
      if semver_valid version
      then start_module path version s
      else if str_eq version (codes "=>")
      then start_module path [] s
      else start_module [] [] s
  module_line f s = s

  -- `if v, ok := vendorVersion[mod.path]; !ok || semver.Compare(v, mod.version) < 0`
  abbrev is_news : Option Str → Str → Bool
  is_news none version = true
  is_news (some v) version = is_less (semver_compare v version)

  unfoldable pub record_version : ParseState → ParseState
  record_version s =
      if is_news (lookup s.mod_now.path s.versions) s.mod_now.version
      then record s {
        copies = suc s.copies;
        versions = insert s.mod_now.path s.mod_now.version s.versions;
      }
      else s

  -- Any other line below a module line, of its fields.
  unfoldable pub package_line : List Str → ParseState → ParseState
  unfolding record_version
  package_line (f ∷ []) s =
      if check_import_path f
      then record_version
          (record s { mod_now = record s.mod_now { submodules = s.mod_now.submodules ++ f ∷ [] } })
      else s
  package_line f s = s

  unfoldable pub parse_line : Str → ParseState → ParseState
  unfolding module_line package_line
  parse_line line s =
      if has_prefix line (codes "# ")
      then module_line (fields line) s
      else if str_eq s.mod_now.path []
      then s
      else if has_prefix line (codes "## ")
      then s
      else package_line (fields line) s

  unfoldable pub parse_lines : List Str → ParseState → ParseState
  unfolding parse_line
  parse_lines [] s = s
  parse_lines (line ∷ lines) s = parse_lines lines (parse_line line s)

  abbrev pub start_state : ParseState
  start_state = record {
    finished = [];
    mod_now = record { path = []; version = []; submodules = [] };
    copies = 0;
    versions = [];
  }

  -- `file` is what the scanner reads: `none` where the file does not exist, and the Boolean says
  -- whether it could be read to its end.
  unfoldable pub parse_vendor_modules : Option (List Str × Bool) → Outcome (List VendorModule)
  unfolding parse_lines
  parse_vendor_modules none = err Code.not_exist
  parse_vendor_modules (some (lines, complete)) =
      if complete then ok (vms (parse_lines lines start_state)) else err Code.parse_code

  abbrev not_empty {ℓ} : {A : Type ℓ} → List A → Bool
  not_empty [] = false
  not_empty (x ∷ xs) = true

  -- A module with a path and at least one package, all of them import paths.
  abbrev pub is_providing : VendorModule → Bool
  is_providing m =
      not_empty m.path && (not_empty m.submodules && all check_import_path m.submodules)

  abbrev is_sound : ParseState → Bool
  is_sound s =
      all is_providing s.finished
      && (all check_import_path s.mod_now.submodules && (s.copies == 0 || is_providing s.mod_now))

  all-append {ℓ} :
      {A : Type ℓ} (p : A → Bool) (xs ys : List A) → all p (xs ++ ys) ≡ (all p xs && all p ys)
  all-append p [] ys = refl
  all-append p (x ∷ xs) ys = ground (arith, all-append p xs ys)

  all-times :
      (n : ℕ) (m : VendorModule)
      → (n == 0 || is_providing m) ≡ true
      → all is_providing (times n m) ≡ true
  all-times zero m h = refl
  all-times (suc n) m h = ground (arith, all-times n m, h)

  vms_sound : (s : ParseState) → is_sound s ≡ true → all is_providing (vms s) ≡ true
  vms_sound s h = ground (
    arith,
    h,
    all-append is_providing s.finished (times s.copies s.mod_now),
    all-times s.copies s.mod_now,
  )

  module_line_sound :
      (f : List Str) (s : ParseState) → is_sound s ≡ true → is_sound (module_line f s) ≡ true
  unfolding module_line
  module_line_sound [] s h = h
  module_line_sound (a ∷ []) s h = h
  module_line_sound (a ∷ b ∷ []) s h = h
  module_line_sound (a ∷ b ∷ c ∷ rest) s h = ground (arith, vms_sound s h)

  package_line_sound :
      (f : List Str) (s : ParseState)
      → not_empty s.mod_now.path ≡ true
      → is_sound s ≡ true
      → is_sound (package_line f s) ≡ true
  unfolding package_line record_version
  package_line_sound [] s n h = h
  package_line_sound (f ∷ []) s n h =
      ground (arith, n, h, all-append check_import_path s.mod_now.submodules (f ∷ []))
  package_line_sound (f ∷ g ∷ fs) s n h = h

  parse_line_sound :
      (line : Str) (s : ParseState) → is_sound s ≡ true → is_sound (parse_line line s) ≡ true
  unfolding parse_line
  parse_line_sound line s h = ground (
    arith,
    h,
    module_line_sound (fields line) s h,
    str_eq_iff s.mod_now.path [],
    package_line_sound (fields line) s,
  )

  parse_lines_sound :
      (lines : List Str) (s : ParseState)
      → is_sound s ≡ true
      → is_sound (parse_lines lines s) ≡ true
  unfolding parse_lines
  parse_lines_sound [] s h = h
  parse_lines_sound (line ∷ lines) s h =
      parse_lines_sound lines (parse_line line s) (parse_line_sound line s h)

  -- When parseVendorModules returns modules, each has a path and at least one package, and every
  -- package listed passes CheckImportPath.
  pub parse_vendor_modules_provide :
      (file : Option (List Str × Bool)) (modules : List VendorModule)
      → parse_vendor_modules file ≡ ok modules
      → all is_providing modules ≡ true
  unfolding parse_vendor_modules
  parse_vendor_modules_provide none modules h = cc
  parse_vendor_modules_provide (some (lines, complete)) modules h =
      let sound =
        vms_sound (parse_lines lines start_state) (parse_lines_sound lines start_state refl) in
      ground (arith, h, sound)
