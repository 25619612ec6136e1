-- ===== src/Samples/Rounds.antt =====
-- The theorems on a whole run of the preprocessor, at one whose build fails.
use mathlib.Core.List.{Permᴰ}
use mathlib.Core.List.Permᴰ
use opentelemetry_go_auto_in.Resource.Bundle.{RuleBundle, new_rule_bundle}
use opentelemetry_go_auto_in.Preprocess.Rounds.Arrivals.{valid_ones, IsResult, receive-run_matches}
use opentelemetry_go_auto_in.Base.{
  ◌≡◌, refl, true, false, Option, none, some, List, [], ◌∷◌, arith, if◌then◌else◌, Outcome, ap, any,
  sym, str_eq_refl, ok, err, Code, Str, codes, str_eq,
}
use opentelemetry_go_auto_in.Preprocess.FindModule.{Package}
use opentelemetry_go_auto_in.Preprocess.Init.{Sources}
use opentelemetry_go_auto_in.Preprocess.Backup.{FileSystem, whole, write_file, State, write}
use opentelemetry_go_auto_in.Preprocess.Steps.{Result, value}
use opentelemetry_go_auto_in.Preprocess.Replace.{new_go_mod, add_mod_replace, Replacement}
use opentelemetry_go_auto_in.Preprocess.Replace.Once.{AllReplaced, add_mod_replace_twice}
use opentelemetry_go_auto_in.Preprocess.Rounds.{
  Surroundings, Project, preprocess, run_matches, receive,
}
use opentelemetry_go_auto_in.Samples.Building.{layout}

abbrev disk : FileSystem
disk = record {
  content = λ p. if str_eq p (codes "go.mod") then some (codes "module x") else none;
  writing = λ p. whole;
  makes_dirs = true;
}

abbrev unchanged : FileSystem → Outcome (Unit {0}) × FileSystem
unchanged fs = (ok tt, fs)

-- It writes go.mod.
abbrev tidy : FileSystem → Outcome (Unit {0}) × FileSystem
tidy fs = (ok tt, write fs (codes "go.mod") (codes "module y"))

abbrev failing : FileSystem → Outcome (Unit {0}) × FileSystem
failing fs = (err Code.run_cmd, fs)

abbrev env : Surroundings
env = record {
  ModFile = Str;
  parse = λ text. some text;
  format = λ text. some text;
  replaced = λ text. [];
  add_replace = λ text r. some text;
  join_path = λ dir name. name;
  backup_of = layout.backup_of;
  arrange = λ rs. rs;
  arrange_paths = λ ps. ps;
  arrange_backups = λ bs. bs;
  arrive = λ bs. bs;
  go_mod_tidy = tidy;
  go_mod_vendor = unchanged;
  dry_build = λ fs. (ok [], fs);
  build = failing;
  new_matcher = λ vendor fs. ok (λ cmd. ok none);
  rectify = λ bs. bs;
  store_rule_bundles = λ bs. unchanged;
  save_debug_files = λ backups fs. fs;
  importer_template = codes "package main";
  quote = λ s. s;
  decimal = λ n. [];
  windows = false;
  debug = false;
}

abbrev project : Project
project = record {
  go_mod_path = codes "go.mod";
  go_mod_dir = codes ".";
  vendor_mode = false;
  pkg_local_cache = codes "cache";
  otel_importer = codes "otel_importer.go";
}

abbrev last : Result (Unit {0}) × State
last = preprocess env project disk

-- The package of go.mod's directory has the function main.
abbrev main_package : Package
main_package = record { name = codes "main"; go_files = codes "m.go" ∷ []; has_errors = false }

abbrev sources : Sources
sources = record {
  join_path = λ dir name. name;
  dir_of = λ path. codes ".";
  parents = λ dir. dir ∷ [];
  load = λ arg. some (main_package ∷ []);
  module_of = λ p. some (codes "x", codes "go.mod");
  function_names = λ file. ok (codes "main" ∷ []);
  module_path = λ text. some (codes "x");
  dir_exists = λ fs path. false;
  find_mod_cache_dir = λ path. ok (codes "cache");
}

abbrev args : List Str
args = codes "go" ∷ codes "build" ∷ []

-- A module file is its text, and its replaced paths are the letters of the text.
abbrev parse_text : Str → Option Str
parse_text text = some text

abbrev letters : Str → List Str
letters [] = []
letters (c ∷ text) = (c ∷ []) ∷ letters text

abbrev add_letter : Str → Str → Option Str
add_letter text [] = none
add_letter text (c ∷ []) = some (c ∷ text)
add_letter text (c ∷ d ∷ s) = none

abbrev add_text : Str → Replacement → Option Str
add_text text r = add_letter text r.old

some-injective : {s t : Str} → some s ≡ some t → s ≡ t
some-injective e = cc

adds_letter :
    (text text' old : Str)
    → add_letter text old ≡ some text'
    → (any (λ p. str_eq p old) (letters text') ≡ true)
      × ((path : Str)
          → any (λ p. str_eq p path) (letters text) ≡ true
          → any (λ p. str_eq p path) (letters text') ≡ true)
adds_letter text text' [] e = cc
adds_letter text text' (c ∷ []) e =
    rw (sym (some-injective e)) ((rw (str_eq_refl (c ∷ [])) refl), λ path h. ground (arith, h))
adds_letter text text' (c ∷ d ∷ s) e = cc

abbrev swap_a : List Replacement
swap_a = record { old = codes "a"; new = codes "b"; version = [] } ∷ []

abbrev go_mod : FileSystem
go_mod = record { content = λ p. some (codes "m"); writing = λ p. whole; makes_dirs = true }

add_mod_replace_twice_example :
    AllReplaced parse_text parse_text letters add_text
      (codes "go.mod")
      swap_a
      (write go_mod (codes "go.mod") (codes "am"))
    × (add_mod_replace parse_text parse_text letters add_text
          (codes "go.mod")
          swap_a
          (write go_mod (codes "go.mod") (codes "am"))
        ≡ (ok tt, write go_mod (codes "go.mod") (codes "am")))
add_mod_replace_twice_example =
    add_mod_replace_twice parse_text parse_text letters add_text
      (λ text text' r e. adds_letter text text' r.old e)
      (λ text out e. (text, ap some (sym (some-injective e)), λ path h. h)) (codes "go.mod") swap_a
      swap_a go_mod (write go_mod (codes "go.mod") (codes "am")) (Permᴰ.refl swap_a)
      (unfold add_mod_replace new_go_mod write_file str_eq in refl)

-- Two commands whose bundles are valid and none.
abbrev http_bundle : RuleBundle
http_bundle = record (new_rule_bundle (codes "net/http")) {
  file2func_rules = (codes "a.go", []) ∷ [];
}

abbrev match_cmd : Str → Outcome (Option RuleBundle)
match_cmd cmd = if str_eq cmd (codes "http") then ok (some http_bundle) else ok none

abbrev backwards : List (Option RuleBundle) → List (Option RuleBundle)
backwards (a ∷ b ∷ []) = b ∷ a ∷ []
backwards bs = bs

backwards_order : (bs : List (Option RuleBundle)) → Permᴰ bs (backwards bs)
backwards_order [] = Permᴰ.nil
backwards_order (a ∷ []) = Permᴰ.refl (a ∷ [])
backwards_order (a ∷ b ∷ []) = Permᴰ.swap refl refl
backwards_order (a ∷ b ∷ c ∷ l) = Permᴰ.refl (a ∷ b ∷ c ∷ l)

receive-run_matches_example :
    (bs : List (Option RuleBundle)) × (run_matches match_cmd (codes "http" ∷ codes "io" ∷ [])
      ≡ value bs)
    × IsResult match_cmd (codes "http" ∷ codes "io" ∷ []) bs
    × Permᴰ (valid_ones bs) (receive (backwards bs))
receive-run_matches_example =
    receive-run_matches match_cmd (codes "http" ∷ codes "io" ∷ []) backwards backwards_order
      ((some http_bundle, unfold str_eq in refl), ((none, unfold str_eq in refl), tt))
