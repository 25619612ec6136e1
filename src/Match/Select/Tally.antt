-- ===== src/Match/Select/Tally.antt =====
-- What one compile command's matching does with the rules: each is in the bundle or still
-- available, and those in the bundle passed their version tests.
use opentelemetry_go_auto_in.Base.{
  ◌+◌, ◌≡◌, refl, inl, inr, Bool, false, not, ◌&&◌, Option, List, [], ◌∷◌, arith, Option-cases,
  Outcome, ok, err, panicked, assert, Holds, Holds-bind, Holds-after, Holds-if, Holds-weaken, Str,
  codes, str_eq, has_suffix,
}
use opentelemetry_go_auto_in.Base.Dict.{lookup}
use opentelemetry_go_auto_in.Resource.RuleDef.{
  InstRule, func_rule, struct_rule, file_rule, get_version,
}
use opentelemetry_go_auto_in.Resource.Bundle.{RuleBundle, add_file_rule}
use opentelemetry_go_auto_in.Resource.Tally.{
  bit, count, tally, tally-set_package_name, tally-add_file_rule, tally-add_file2func_rule,
  tally-add_file2struct_rule,
}
use opentelemetry_go_auto_in.Match.Decl.{
  Decl, gen_decl, func_decl, File, match_func_decl, match_struct_decl,
}
use opentelemetry_go_auto_in.Match.Vendor.{VendorModule}
use opentelemetry_go_auto_in.Match.Select.{
  Tools, Scan, on_added, match_decls, version_matches, go_version_matches, parse_cached, match_tree,
  match_file, match_kind, match_rule, match_rules, match_files,
}

module _ (t : Tools) (p : InstRule → Bool) where
  -- The bundle has grown by the rule if and only if it is reported as matched.
  abbrev Grown : InstRule → RuleBundle → Bool × RuleBundle → Type 0
  Grown rule b (matched, b') = tally p b' ≡ tally p b + bit (matched && p rule)

  on_added-Grown :
      (rule : InstRule) (b : RuleBundle) (added : Outcome RuleBundle)
      (rest : Outcome (Bool × RuleBundle))
      → Holds (λ b'. tally p b' ≡ tally p b + bit (p rule)) added
      → Holds (Grown rule b) rest
      → Holds (Grown rule b) (on_added added rest)
  on_added-Grown rule b (ok b') rest h k = h
  on_added-Grown rule b (err c) rest h k = k
  on_added-Grown rule b panicked rest h k = tt

  match_decls-Grown :
      (rule : InstRule) (file : Str) (decls : List Decl) (b : RuleBundle)
      → Holds (Grown rule b) (match_decls t rule file decls b)
  unfolding match_decls
  match_decls-Grown rule file [] b = omega arith
  match_decls-Grown (struct_rule r) file (gen_decl tok specs ∷ decls) b =
      let rest = match_decls-Grown (struct_rule r) file decls b in
      Holds-after (Grown (struct_rule r) b) (match_struct_decl (gen_decl tok specs) r.struct_type) _
        λ m.
          Holds-if (Grown (struct_rule r) b) m _ _
            (on_added-Grown (struct_rule r) b _ _ (tally-add_file2struct_rule p t.abs b file r)
              rest)
            rest
  match_decls-Grown (func_rule r) file (func_decl f ∷ decls) b =
      let rest = match_decls-Grown (func_rule r) file decls b in
      Holds-after (Grown (func_rule r) b)
        (match_func_decl t.regex (func_decl f) r.function r.receiver_type) _
        λ m.
          Holds-if (Grown (func_rule r) b) m _ _
            (on_added-Grown (func_rule r) b _ _ (tally-add_file2func_rule p t.abs b file r) rest)
            rest
  match_decls-Grown (struct_rule r) file (func_decl f ∷ decls) b =
      match_decls-Grown (struct_rule r) file decls b
  match_decls-Grown (func_rule r) file (gen_decl tok specs ∷ decls) b =
      match_decls-Grown (func_rule r) file decls b
  match_decls-Grown (file_rule r) file (gen_decl tok specs ∷ decls) b =
      match_decls-Grown (file_rule r) file decls b
  match_decls-Grown (file_rule r) file (func_decl f ∷ decls) b =
      match_decls-Grown (file_rule r) file decls b

  abbrev pub Grows : InstRule → Scan → Bool × Scan → Type 0
  Grows rule s (matched, s') = tally p s'.bundle ≡ tally p s.bundle + bit (matched && p rule)

  parse_cached-tally :
      (file : Str) (s : Scan)
      → Holds
          (λ (r : Option File × Scan). tally p r.1.bundle ≡ tally p s.bundle)
          (parse_cached t file s)
  unfolding parse_cached
  parse_cached-tally file s = elim (Option-cases (lookup file s.parsed)) [
    | inl absent ↦
        rw (absent, parse_cached)
          (elim (Option-cases (t.parse_fast file)) [
            | inl e ↦ rw (e, parse_cached) refl
            | inr (tree, e) ↦
                rw (e, parse_cached)
                  (Holds-after (λ (r : Option File × Scan). tally p r.1.bundle ≡ tally p s.bundle)
                    (assert (not (str_eq tree.package_name []))) _
                    λ _. tally-set_package_name p s.bundle tree.package_name)
          ])
    | inr (tree, e) ↦ rw (e, parse_cached) refl
  ]

  match_tree-Grows :
      (rule : InstRule) (file : Str) (s : Scan) → Holds (Grows rule s) (match_tree t rule file s)
  unfolding match_tree
  match_tree-Grows rule file s =
      Holds-bind (λ (r : Option File × Scan). tally p r.1.bundle ≡ tally p s.bundle) (Grows rule s)
        (parse_cached t file s) _ (parse_cached-tally file s)
        λ (tree, s') h. elim (Option-cases tree) [
          | inl e ↦ rw e (omega arith)
          | inr (f, e) ↦ rw e (
              Holds-bind (Grown rule s'.bundle) (Grows rule s)
                (match_decls t rule file f.decls s'.bundle) _
                (match_decls-Grown rule file f.decls s'.bundle) λ (valid, b) g. omega arith)
        ]

  match_kind-Grows :
      (rule : InstRule) (file : Str) (s : Scan) → Holds (Grows rule s) (match_kind t rule file s)
  unfolding match_kind match_file
  match_kind-Grows (file_rule r) file s = elim (Option-cases (t.parse_package file)) [
    | inl e ↦ rw (e, match_file) (omega arith)
    | inr (name, e) ↦
        rw (e, match_file)
          (omega (
            arith,
            tally-set_package_name p (add_file_rule s.bundle r) name,
            tally-add_file_rule p s.bundle r,
          ))
  ]
  match_kind-Grows (func_rule r) file s = match_tree-Grows (func_rule r) file s
  match_kind-Grows (struct_rule r) file s = match_tree-Grows (struct_rule r) file s

  pub match_rule-Grows :
      (go_version version file : Str) (rule : InstRule) (s : Scan)
      → Holds (Grows rule s) (match_rule t go_version version file rule s)
  unfolding match_rule
  match_rule-Grows go_version version file rule s =
      let stay : Holds (Grows rule s) (ok (false, s)) = omega arith in
      Holds-after (Grows rule s) (version_matches t version (get_version rule)) _ λ m.
        Holds-if (Grows rule s) (not m) (ok (false, s)) _ stay (
          Holds-after (Grows rule s) (go_version_matches t go_version rule) _
            λ g. Holds-if (Grows rule s) g _ (ok (false, s)) (match_kind-Grows rule file s) stay)

  -- What leaves the list has entered the bundle.
  abbrev pub Moves : List InstRule → Scan → List InstRule × Scan → Type 0
  Moves rules s (kept, s') = tally p s'.bundle + count p kept ≡ tally p s.bundle + count p rules

  pub match_rules-Moves :
      (go_version version file : Str) (rules : List InstRule) (s : Scan)
      → Holds (Moves rules s) (match_rules t go_version version file rules s)
  unfolding match_rules
  match_rules-Moves go_version version file [] s = refl
  match_rules-Moves go_version version file (rule ∷ rules) s =
      Holds-bind (Moves rules s) (Moves (rule ∷ rules) s)
        (match_rules t go_version version file rules s) _
        (match_rules-Moves go_version version file rules s)
        λ (kept, s1) h.
          Holds-bind (Grows rule s1) (Moves (rule ∷ rules) s)
            (match_rule t go_version version file rule s1) _
            (match_rule-Grows go_version version file rule s1) λ (m, s2) g. ground arith

  pub match_files-Moves :
      (modules : List VendorModule) (import_path go_version : Str) (files : List Str)
      (rules : List InstRule) (s : Scan)
      → Holds (Moves rules s) (match_files t modules import_path go_version files rules s)
  unfolding match_files
  match_files-Moves modules import_path go_version [] rules s = refl
  match_files-Moves modules import_path go_version (file ∷ files) rules s =
      Holds-bind (Moves rules s) (Moves rules s) _ _
        (Holds-if (Moves rules s) (has_suffix file (codes ".go")) _ _
          (match_rules-Moves go_version _ file rules s) refl)
        λ (rules', s') h.
          Holds-weaken (Moves rules' s') (Moves rules s) _
            (match_files-Moves modules import_path go_version files rules' s')
            λ (kept, s'') g. omega arith
