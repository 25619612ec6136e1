-- ===== src/Preprocess/Init.antt =====
-- init of tool/preprocess/preprocess.go: initCmd, initMod with findMainDir and findGoMod, and
-- initBuildMode, from the arguments of the tool to the project that is built.
use opentelemetry_go_auto_in.Base.{
  Bool, true, false, not, ◌||◌, Option, none, some, List, [], ◌∷◌, ◌++◌, any, if◌then◌else◌,
  Outcome, ok, err, panicked, ◌>>=◌, ◌>>◌, assert, or_err, Code, Str, codes, str_eq, has_prefix,
  has_suffix, contains,
}
use opentelemetry_go_auto_in.Util.Commands.{assert_go_build}
use opentelemetry_go_auto_in.Preprocess.Backup.{FileSystem}
use opentelemetry_go_auto_in.Preprocess.FindModule.{Package, find_module}
use opentelemetry_go_auto_in.Preprocess.Rounds.{Project}

-- What init works with: filepath.Join and filepath.Dir, and the chain of directories that
-- filepath.Dir gives from a directory up to the one that is its own parent; packages.Load, and the
-- module of a package by its path and its go.mod; the names of the functions that the AST parser
-- finds in a file; the path of the module that package modfile reads; util.PathExists of a
-- directory; findModCacheDir.
pub record Sources : Type 0 where
  pub join_path : Str → Str → Str
  pub dir_of : Str → Str
  pub parents : Str → List Str
  pub load : Str → Option (List Package)
  pub module_of : Package → Option (Str × Str)
  pub function_names : Str → Outcome (List Str)
  pub module_path : Str → Option Str
  pub dir_exists : FileSystem → Str → Bool
  pub find_mod_cache_dir : Str → Outcome Str

abbrev pub otel_importer_name : Str
otel_importer_name = codes "otel_importer.go"

abbrev pub exists : FileSystem → Str → Bool
exists fs path = elim (fs.content path) [ none ↦ false | some text ↦ true ]

abbrev is_empty : Str → Bool
is_empty s = str_eq s []

-- The fields of DepProcessor while initMod goes through the packages.
pub record Found : Type 0 where
  pub module_name : Str
  pub module_path : Str
  pub otel_importer : Str
  pub go_build_cmd : List Str

abbrev last : List Str → Outcome Str
last [] = panicked
last (a ∷ []) = ok a
last (a ∷ b ∷ l) = last (b ∷ l)

module _ (src : Sources) (fs : FileSystem) where
  -- findGoMod, over the directory and its parents.
  unfoldable pub find_go_mod : List Str → Outcome Str
  find_go_mod [] = err Code.preprocess
  find_go_mod (dir ∷ dirs) =
      let rest = find_go_mod dirs in
      let file = src.join_path dir (codes "go.mod") in
      if is_empty dir then err Code.preprocess else if exists fs file then ok file else rest

  -- findMainDir, over the files of the packages.
  unfoldable pub find_main : List Str → Outcome Str
  find_main [] = err Code.preprocess
  find_main (file ∷ files) =
      let rest = find_main files in
      if not (has_suffix file (codes ".go"))
      then rest
      else (src.function_names file >>= λ names.
          if any (λ n. str_eq n (codes "main")) names then ok (src.dir_of file) else rest)

  abbrev go_files : List Package → List Str
  go_files [] = []
  go_files (p ∷ ps) = p.go_files ++ go_files ps

  unfoldable pub find_main_dir : List Package → Outcome Str
  unfolding find_main
  find_main_dir pkgs = find_main (go_files pkgs)

  -- The module of the package is known.
  unfoldable pub module_found : List Package → Str × Str → Found → Outcome Found
  unfolding find_main_dir
  module_found pkgs (path, go_mod) s = do
    assert (not (is_empty path))
    assert (not (is_empty go_mod))
    dir ← find_main_dir pkgs
    ok (record s {
      module_name = path;
      module_path = go_mod;
      otel_importer = src.join_path dir otel_importer_name;
    })

  -- otel_importer.go joins the source files of the command, unless one of them is it.
  unfoldable pub add_importer : Found → Outcome Found
  add_importer s =
      if any (λ cmd. contains cmd otel_importer_name) s.go_build_cmd
      then ok s
      else (last s.go_build_cmd >>= λ file.
          let importer = src.join_path (src.dir_of file) otel_importer_name in
          ok
            (record s { otel_importer = importer; go_build_cmd = s.go_build_cmd ++ importer ∷ [] }))

  -- Source files are built: go.mod is looked for above the first of them.
  unfoldable pub files_found : Str → Found → Outcome Found
  unfolding find_go_mod add_importer
  files_found file s = do
    go_mod ← find_go_mod (src.parents (src.dir_of file))
    assert (not (is_empty go_mod))
    assert (exists fs go_mod)
    text ← or_err (fs.content go_mod) Code.open_file
    name ← or_err (src.module_path text) Code.parse_code
    add_importer (record s { module_name = name; module_path = go_mod })

  abbrev pub package_found : List Package → Package → List Str → Found → Outcome Found
  package_found pkgs p [] s = ok s
  package_found pkgs p (file ∷ files) s = elim (src.module_of p) [
    | some m ↦ module_found pkgs m s
    | none ↦
        assert (not (is_empty p.name))
        >> (if str_eq p.name (codes "main") then files_found file s else ok s)
  ]

  -- The loop of initMod.
  unfoldable pub packages_found : List Package → List Package → Found → Outcome Found
  packages_found pkgs [] s = ok s
  packages_found pkgs (p ∷ ps) s =
      package_found pkgs p p.go_files s >>= λ s'. packages_found pkgs ps s'

  unfoldable pub init_mod : List Str → Outcome (Found × Str)
  unfolding packages_found
  init_mod cmd = do
    pkgs ← find_module src.load cmd
    s ←
        packages_found pkgs pkgs
          (record { module_name = []; module_path = []; otel_importer = []; go_build_cmd = cmd })
    (if is_empty s.module_name || is_empty s.module_path then err Code.preprocess else ok tt)
    (if is_empty s.otel_importer then err Code.preprocess else ok tt)
    cache ← src.find_mod_cache_dir s.module_path
    (if is_empty cache then err Code.preprocess else ok (s, cache))

  -- initBuildMode
  abbrev ignores_vendor : Str → Bool
  ignores_vendor arg = has_prefix arg (codes "-mod=mod") || has_prefix arg (codes "-mod=readonly")

  unfoldable pub init_build_mode : List Str → Str → Bool
  init_build_mode cmd dir =
      if any ignores_vendor cmd
      then false
      else src.dir_exists fs (src.join_path dir (codes "vendor"))

  -- For the arguments behind the tool's own name.
  unfoldable pub init_project : List Str → Outcome Project
  unfolding init_mod init_build_mode
  init_project args = do
    assert_go_build args
    (s, cache) ← init_mod args
    let dir = src.dir_of s.module_path
    ok (record {
      go_mod_path = s.module_path;
      go_mod_dir = dir;
      vendor_mode = init_build_mode s.go_build_cmd dir;
      pkg_local_cache = cache;
      otel_importer = s.otel_importer;
    })
