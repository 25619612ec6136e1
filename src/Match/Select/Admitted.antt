-- ===== src/Match/Select/Admitted.antt =====
-- The two conclusions about `match` as a whole, over every test of the rules.
use opentelemetry_go_auto_in.Base.{
  ◌+◌, ◌≡◌, ap, ◌∙◌, inl, inr, Bool, false, not, ◌&&◌, some, List, [], ◌∷◌, ◌++◌, arith, Bool-cases,
  any, Outcome, ok, err, panicked, assert, Holds-use, >>=-eq-ok, Str, codes, str_eq, eq_of_str_eq,
  has_prefix, has_suffix,
}
use opentelemetry_go_auto_in.Base.Dict.{Dict, lookup, insert, lookup-insert}
use opentelemetry_go_auto_in.Resource.RuleDef.{InstRule, get_version, get_import_path}
use opentelemetry_go_auto_in.Resource.Bundle.{RuleBundle, new_rule_bundle}
use opentelemetry_go_auto_in.Resource.Tally.{bit, count, count-append, tally, tally-new_rule_bundle}
use opentelemetry_go_auto_in.Match.Vendor.{VendorModule}
use opentelemetry_go_auto_in.Match.Select.{
  Tools, Scan, version_matches, go_version_matches, file_version, match_files, match_available,
  match, group_rules, new_rule_matcher, rules_at, find_flag_value, to_v,
}
use opentelemetry_go_auto_in.Match.Select.Tally.{Moves, match_files-Moves}

abbrev passed : Outcome Bool → Bool
passed (ok b) = b
passed (err c) = false
passed panicked = false

module _ (t : Tools) (modules : List VendorModule) (import_path go_version : Str) where
  -- The two version tests of a rule, at a version of the package.
  abbrev pub admits : Str → InstRule → Bool
  admits version rule =
      passed (version_matches t version (get_version rule))
      && passed (go_version_matches t go_version rule)

  -- Some Go file of the command has a version that the rule admits.
  abbrev pub admitted : List Str → InstRule → Bool
  admitted files rule =
      any
        (λ file.
          has_suffix file (codes ".go") && admits (file_version t modules import_path file) rule)
        files

  module _ (p : InstRule → Bool) where
    -- Rules that pass `p` are not admitted, so the bundle gets none of them.
    abbrev Kept : Scan → List InstRule × Scan → Type 0
    Kept s (rules, s') = tally p s'.bundle ≡ tally p s.bundle

abbrev pub start_scan : Str → Scan
start_scan import_path = record { parsed = []; bundle = new_rule_bundle import_path }

module _ (t : Tools) (modules : List VendorModule) (cmd : List Str) (import_path : Str) where
  -- What a bundle tells of the run that made it.
  match_available_run :
      (rules : List InstRule) (b : RuleBundle)
      → match_available t modules cmd import_path rules ≡ ok (some b)
      → (go_version : Str) × (kept : List InstRule) × (s : Scan) × (find_flag_value cmd
            (codes "-goversion")
          ≡ ok go_version)
        × (match_files t modules import_path (to_v go_version) cmd rules (start_scan import_path)
            ≡ ok (kept, s))
        × (s.bundle ≡ b)
  unfolding match_available
  match_available_run [] b e = cc
  match_available_run (rule ∷ rules) b e =
      let (gv, flag, e1) = >>=-eq-ok (find_flag_value cmd (codes "-goversion")) _ e in
      let (u1, h1, e2) = >>=-eq-ok (assert (not (str_eq gv []))) _ e1 in
      let (u2, h2, e3) = >>=-eq-ok (assert (has_prefix gv (codes "go"))) _ e2 in
      let (r, files, e4) =
        >>=-eq-ok
          (match_files t modules import_path (to_v gv) cmd (rule ∷ rules) (start_scan import_path))
          _ e3 in
      (gv, r.0, r.1, flag, files, ground (arith, e4))

module _ (p : InstRule → Bool) (k : Str) where
  abbrev of_path : InstRule → Bool
  of_path rule = p rule && str_eq (get_import_path rule) k

  count-group_rules :
      (m : Dict (List InstRule)) (rules : List InstRule)
      → count p (rules_at (lookup k (group_rules m rules)))
        ≡ count p (rules_at (lookup k m)) + count of_path rules
  unfolding group_rules
  count-group_rules m [] = omega arith
  count-group_rules m (rule ∷ rules) =
      let ip = get_import_path rule in
      let here = rules_at (lookup ip m) ++ rule ∷ [] in
      let after : count p (rules_at (lookup k (insert ip here m)))
          ≡ count p (rules_at (lookup k m)) + bit (of_path rule) =
        elim (Bool-cases (str_eq ip k)) [
          | inl same ↦
              rw (lookup-insert ip k here m, same)
                (ground (
                  arith,
                  count-append p (rules_at (lookup ip m)) (rule ∷ []),
                  ap (λ j. count p (rules_at (lookup j m))) (eq_of_str_eq ip k same),
                ))
          | inr other ↦ rw (lookup-insert ip k here m, other) (ground arith)
        ] in
      omega (arith, count-group_rules (insert ip here m) rules, after)

  count-new_rule_matcher :
      (rules : List InstRule)
      → count p (rules_at (lookup k (new_rule_matcher rules))) ≡ count of_path rules
  unfolding new_rule_matcher
  count-new_rule_matcher rules = count-group_rules [] rules ∙ unfold lookup in omega arith

module _ (t : Tools) (modules : List VendorModule) (cmd : List Str) (import_path : Str) where
  match_available-conserves :
      (rules : List InstRule) (b : RuleBundle)
      → match_available t modules cmd import_path rules ≡ ok (some b)
      → (go_version : Str) × (kept : List InstRule) × (s : Scan) × (find_flag_value cmd
            (codes "-goversion")
          ≡ ok go_version)
        × (match_files t modules import_path (to_v go_version) cmd rules (start_scan import_path)
            ≡ ok (kept, s))
        × (s.bundle ≡ b)
        × ((p : InstRule → Bool) → tally p b + count p kept ≡ count p rules)
  match_available-conserves rules b e =
      let (gv, kept, s, flag, files, eq) =
        match_available_run t modules cmd import_path rules b e in
      (
        gv,
        kept,
        s,
        flag,
        files,
        eq,
        λ p.
            let moved : tally p s.bundle + count p kept
                ≡ tally p (new_rule_bundle import_path) + count p rules =
              Holds-use (Moves t p rules (start_scan import_path)) _ _
                (match_files-Moves t p modules import_path (to_v gv) cmd rules
                  (start_scan import_path))
                files in
            omega (arith, moved, tally-new_rule_bundle p import_path, ap (tally p) eq),
      )

module _ (t : Tools) (rules : List InstRule) (modules : List VendorModule) (cmd : List Str)
    (b : RuleBundle) (e : match t (new_rule_matcher rules) modules cmd ≡ ok (some b)) where
  match_runs :
      (import_path : Str) × (find_flag_value cmd (codes "-p") ≡ ok import_path)
      × (match_available t modules cmd import_path
            (rules_at (lookup import_path (new_rule_matcher rules)))
          ≡ ok (some b))
  unfolding match
  match_runs =
      let (ip, flag, e1) = >>=-eq-ok (find_flag_value cmd (codes "-p")) _ e in
      let (u, h, e2) = >>=-eq-ok (assert (not (str_eq ip []))) _ e1 in (ip, flag, e2)

  -- When the matcher built from `rules` returns a bundle for a compile command, the command has a
  -- `-p` flag with an import path and a `-goversion`, the loop over its arguments ends with that
  -- bundle and with the rules that it has not deleted from the available ones, and for every test of
  -- rules as many pass it in the bundle and among the rules that are left as among the rules of that
  -- import path: the matcher invents no rule, doubles none, and deletes none that it does not add.
  pub match-conserves :
      (import_path go_version : Str) × (kept : List InstRule) × (s : Scan) × (find_flag_value cmd
          (codes "-p")
        ≡ ok import_path)
      × (find_flag_value cmd (codes "-goversion") ≡ ok go_version)
      × (match_files t modules import_path
            (to_v go_version)
            cmd
            (rules_at (lookup import_path (new_rule_matcher rules)))
            (start_scan import_path)
          ≡ ok (kept, s))
      × (s.bundle ≡ b)
      × ((p : InstRule → Bool)
          → tally p b + count p kept
            ≡ count (λ rule. p rule && str_eq (get_import_path rule) import_path) rules)
  match-conserves =
      let (ip, flag, e1) = match_runs in
      let (gv, kept, s, go_flag, files, eq, h) =
        match_available-conserves t modules cmd ip (rules_at (lookup ip (new_rule_matcher rules))) b
          e1 in
      (ip, gv, kept, s, flag, go_flag, files, eq, λ p. h p ∙ count-new_rule_matcher p ip rules)
