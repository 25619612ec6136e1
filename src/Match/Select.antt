-- ===== src/Match/Select.antt =====
-- The matcher of tool/preprocess/match.go: which of the available rules apply to the files of one
-- compile command, and the bundle of those that do.
-- The loop over `availables` runs from its last index down to 0 and deletes the rule that matched,
-- so `match_rules` handles the rest of the list first; the deletion at an index does not move the
-- rules below it.
pub mod Tally
pub mod Admitted
use opentelemetry_go_auto_in.Base.{
  Bool, true, false, not, Option, none, some, List, [], ◌∷◌, ◌++◌, if◌then◌else◌, drop, Outcome, ok,
  err, panicked, ◌>>=◌, ◌>>◌, assert, Str, codes, str_eq, has_prefix, has_suffix,
}
use Prim.Native.Nat.{Ordering}
use opentelemetry_go_auto_in.Base.Dict.{Dict, lookup, insert}
use opentelemetry_go_auto_in.Resource.RuleDef.{
  InstRule, InstFuncRule, InstStructRule, InstFileRule, func_rule, struct_rule, file_rule,
  get_version, get_go_version, get_import_path,
}
use opentelemetry_go_auto_in.Resource.Bundle.{
  RuleBundle, new_rule_bundle, add_file2func_rule, add_file2struct_rule, add_file_rule,
  set_package_name,
}
use opentelemetry_go_auto_in.Match.Version.{match_version, extract_version}
use opentelemetry_go_auto_in.Match.Decl.{
  Decl, gen_decl, func_decl, File, match_func_decl, match_struct_decl,
}
use opentelemetry_go_auto_in.Match.Vendor.{VendorModule, find_vendor_module_version}

-- What the matcher takes from outside: the platform, the file system with the Go parser
-- (ParseAstFromFileOnlyPackage and ParseAstFromFileFast; `none` is an error or a nil file),
-- filepath.Abs, package regexp and semver.Compare.
pub record Tools : Type 0 where
  pub windows : Bool
  pub parse_package : Str → Option Str
  pub parse_fast : Str → Option File
  pub abs : Str → Option Str
  pub regex : Str → Option (Str → Bool)
  pub semver_compare : Str → Str → Ordering

-- findFlagValue: the argument behind the first occurrence of the flag; `cmd[i+1]` may be out of
-- range.
unfoldable pub find_flag_value : List Str → Str → Outcome Str
find_flag_value [] flag = ok []
find_flag_value (v ∷ []) flag = if str_eq v flag then panicked else ok []
find_flag_value (v ∷ w ∷ cmd) flag =
    let rest = find_flag_value (w ∷ cmd) flag in if str_eq v flag then ok w else rest

-- The variables that the loops of `match` change, but for `availables`.
pub record Scan : Type 0 where
  pub parsed : Dict File
  pub bundle : RuleBundle

-- A new bundle if the rule was added; a logged error goes on with the next declaration.
abbrev pub on_added : Outcome RuleBundle → Outcome (Bool × RuleBundle) → Outcome (Bool × RuleBundle)
on_added (ok b) rest = ok (true, b)
on_added (err c) rest = rest
on_added panicked rest = panicked

-- `m[k]` of a map of slices
abbrev pub rules_at : Option (List InstRule) → List InstRule
rules_at none = []
rules_at (some rs) = rs

-- `strings.Replace(goVersion, "go", "v", 1)` of what begins with "go"
abbrev pub to_v : Str → Str
to_v s = b'v' ∷ drop 2 s

module _ (t : Tools) where
  -- The loop over tree.Decls; the Boolean is `valid`.
  unfoldable pub match_decls : InstRule → Str → List Decl → RuleBundle → Outcome (Bool × RuleBundle)
  match_decls rule file [] b = ok (false, b)
  match_decls (struct_rule r) file (gen_decl tok specs ∷ decls) b =
      let rest = match_decls (struct_rule r) file decls b in
      match_struct_decl (gen_decl tok specs) r.struct_type >>= λ matched.
      (if matched then on_added (add_file2struct_rule t.abs b file r) rest else rest)
  match_decls (func_rule r) file (func_decl f ∷ decls) b =
      let rest = match_decls (func_rule r) file decls b in
      match_func_decl t.regex (func_decl f) r.function r.receiver_type >>= λ matched.
      (if matched then on_added (add_file2func_rule t.abs b file r) rest else rest)
  match_decls rule file (d ∷ decls) b = match_decls rule file decls b

  -- `matched, err := matchVersion(...)`: an error is logged and counts as no match.
  unfoldable pub version_matches : Str → Str → Outcome Bool
  version_matches version range = elim (match_version t.semver_compare version range) [
    | ok m ↦ ok m
    | err c ↦ ok false
    | panicked ↦ panicked
  ]

  -- `if rule.GetGoVersion() != ""`
  unfoldable pub go_version_matches : Str → InstRule → Outcome Bool
  go_version_matches go_version rule =
      if str_eq (get_go_version rule) []
      then ok true
      else version_matches go_version (get_go_version rule)

  -- The tree of a file that was parsed before, or is parsed now; a parse names the package.
  unfoldable pub parse_cached : Str → Scan → Outcome (Option File × Scan)
  parse_cached file s = elim (lookup file s.parsed) [
    | some tree ↦ ok (some tree, s)
    | none ↦ elim (t.parse_fast file) [
      | none ↦ ok (none, s)
      | some tree ↦
          assert (not (str_eq tree.package_name []))
          >> ok (
            some tree,
            record {
              parsed = insert file tree s.parsed;
              bundle = set_package_name s.bundle tree.package_name;
            },
          )
    ]
  ]

  -- A func or struct rule against the declarations of the file.
  unfoldable pub match_tree : InstRule → Str → Scan → Outcome (Bool × Scan)
  match_tree rule file s = parse_cached file s >>= λ (tree, s'). elim tree [
    | none ↦ ok (false, s')
    | some f ↦ match_decls rule file f.decls s'.bundle >>= λ (valid, b).
        ok (valid, record s' { bundle = b })
  ]

  -- A file rule matches every file of the package that parses.
  unfoldable pub match_file : InstFileRule → Str → Scan → Outcome (Bool × Scan)
  match_file r file s = elim (t.parse_package file) [
    | none ↦ ok (false, s)
    | some name ↦ ok (true, record s { bundle = set_package_name (add_file_rule s.bundle r) name })
  ]

  unfoldable pub match_kind : InstRule → Str → Scan → Outcome (Bool × Scan)
  match_kind (file_rule r) file s = match_file r file s
  match_kind (func_rule r) file s = match_tree (func_rule r) file s
  match_kind (struct_rule r) file s = match_tree (struct_rule r) file s

  -- One round of the inner loop; the Boolean says that the rule is deleted from `availables`.
  unfoldable pub match_rule : Str → Str → Str → InstRule → Scan → Outcome (Bool × Scan)
  match_rule go_version version file rule s = do
    supported ← version_matches version (get_version rule)
    (if not supported then ok (false, s) else (do
      go_supported ← go_version_matches go_version rule
      (if go_supported then match_kind rule file s else ok (false, s))))

  unfoldable pub match_rules :
      Str → Str → Str → List InstRule → Scan → Outcome (List InstRule × Scan)
  match_rules go_version version file [] s = ok ([], s)
  match_rules go_version version file (rule ∷ rules) s = do
    (kept, s1) ← match_rules go_version version file rules s
    (matched, s2) ← match_rule go_version version file rule s1
    ok ((if matched then kept else rule ∷ kept), s2)

  -- `version := extractVersion(file)`, overridden by the version that vendor/modules.txt records.
  unfoldable pub file_version : List VendorModule → Str → Str → Str
  file_version modules import_path file =
      let recorded = find_vendor_module_version modules import_path in
      if str_eq recorded [] then extract_version t.windows file else recorded

  -- The loop over the arguments of the command; what is not a Go file is skipped.
  unfoldable pub match_files :
      List VendorModule
      → Str
      → Str
      → List Str
      → List InstRule
      → Scan
      → Outcome (List InstRule × Scan)
  match_files modules import_path go_version [] rules s = ok (rules, s)
  match_files modules import_path go_version (file ∷ files) rules s =
      (if has_suffix file (codes ".go")
        then match_rules go_version (file_version modules import_path file) file rules s
        else ok (rules, s))
      >>= λ (rules', s'). match_files modules import_path go_version files rules' s'

  unfoldable pub match_available :
      List VendorModule → List Str → Str → List InstRule → Outcome (Option RuleBundle)
  match_available modules cmd import_path [] = ok none
  match_available modules cmd import_path (rule ∷ rules) = do
    go_version ← find_flag_value cmd (codes "-goversion")
    assert (not (str_eq go_version []))
    assert (has_prefix go_version (codes "go"))
    (kept, s) ←
        match_files modules import_path (to_v go_version) cmd (rule ∷ rules)
          (record { parsed = []; bundle = new_rule_bundle import_path })
    ok (some s.bundle)

  -- ruleMatcher.match; a nil bundle is `none`.
  unfoldable pub match :
      Dict (List InstRule) → List VendorModule → List Str → Outcome (Option RuleBundle)
  match available modules cmd = do
    import_path ← find_flag_value cmd (codes "-p")
    assert (not (str_eq import_path []))
    match_available modules cmd import_path (rules_at (lookup import_path available))

-- newRuleMatcher: the rules by their import path, each slice in the order of the rules.
unfoldable pub group_rules : Dict (List InstRule) → List InstRule → Dict (List InstRule)
group_rules m [] = m
group_rules m (rule ∷ rules) =
    group_rules
      (insert (get_import_path rule) (rules_at (lookup (get_import_path rule) m) ++ rule ∷ []) m)
      rules

unfoldable pub new_rule_matcher : List InstRule → Dict (List InstRule)
unfolding group_rules
new_rule_matcher rules = group_rules [] rules
