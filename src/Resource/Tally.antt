-- ===== src/Resource/Tally.antt =====
-- How many rules of a list, a map or a bundle pass a test. Two bundles with the same counts under
-- every test hold the same rules, whatever the order of the maps.
use opentelemetry_go_auto_in.Base.{
  ℕ, ◌+◌, ◌≡◌, refl, ap, inl, inr, Bool, true, false, Option, none, some, List, [], ◌∷◌, ◌++◌,
  arith, Bool-cases, Option-cases, Holds, Str, str_eq,
}
use opentelemetry_go_auto_in.Base.Dict.{Dict, lookup, insert}
use opentelemetry_go_auto_in.Resource.RuleDef.{
  InstRule, InstFuncRule, InstStructRule, InstFileRule, func_rule, struct_rule, file_rule,
}
use opentelemetry_go_auto_in.Resource.Bundle.{
  RuleBundle, func_key, slice_at, add_rule, add_file2func_rule, add_file2struct_rule, add_file_rule,
  set_package_name, new_rule_bundle,
}

abbrev pub bit : Bool → ℕ
bit true = 1
bit false = 0

module _ {ℓ} {A : Type ℓ} (p : A → Bool) where
  abbrev pub count : List A → ℕ
  count [] = 0
  count (x ∷ xs) = bit (p x) + count xs

  pub count-append : (xs ys : List A) → count (xs ++ ys) ≡ count xs + count ys
  count-append [] ys = omega arith
  count-append (x ∷ xs) ys = omega (arith, count-append xs ys)

module _ {ℓ} {V : Type ℓ} (w : V → ℕ) where
  -- The sum of the values' weights.
  abbrev pub total : Dict V → ℕ
  total [] = 0
  total ((k, v) ∷ m) = w v + total m

  abbrev pub weight : Option V → ℕ
  weight none = 0
  weight (some v) = w v

  pub total-insert :
      (k : Str) (v : V) (m : Dict V) → total (insert k v m) + weight (lookup k m) ≡ total m + w v
  unfolding insert lookup
  total-insert k v [] = omega arith
  total-insert k v ((j, u) ∷ m) = ground (arith, total-insert k v m)

module _ {ℓ} {A : Type ℓ} (p : A → Bool) where
  abbrev pub count2 : Dict (Dict (List A)) → ℕ
  count2 = total (total (count p))

  count-slice_at : (o : Option (List A)) → count p (slice_at o) ≡ weight (count p) o
  count-slice_at none = refl
  count-slice_at (some xs) = refl

  total-insert_first : (k : Str) (r : A) → total (count p) (insert k (r ∷ []) []) ≡ bit (p r)
  unfolding insert
  total-insert_first k r = omega arith

  total-insert_next :
      (k : Str) (r : A) (inner : Dict (List A))
      → total (count p) (insert k (slice_at (lookup k inner) ++ r ∷ []) inner)
        ≡ total (count p) inner + bit (p r)
  total-insert_next k r inner = omega (
    arith,
    total-insert (count p) k (slice_at (lookup k inner) ++ r ∷ []) inner,
    count-append p (slice_at (lookup k inner)) (r ∷ []),
    count-slice_at (lookup k inner),
  )

  -- A rule that is added is one rule more, and the others stay.
  pub count2-add_rule :
      (m : Dict (Dict (List A))) (file k : Str) (r : A)
      → count2 (add_rule m file k r) ≡ count2 m + bit (p r)
  unfolding add_rule
  count2-add_rule m file k r = elim (Option-cases (lookup file m)) [
    | inl absent ↦
        rw (absent, add_rule)
          (omega (
            arith,
            total-insert (total (count p)) file (insert k (r ∷ []) []) m,
            ap (weight (total (count p))) absent,
            total-insert_first k r,
          ))
    | inr (inner, present) ↦
        rw (present, add_rule)
          (omega (
            arith,
            total-insert (total (count p)) file
                (insert k (slice_at (lookup k inner) ++ r ∷ []) inner) m,
            ap (weight (total (count p))) present,
            total-insert_next k r inner,
          ))
  ]

abbrev pub tally : (InstRule → Bool) → RuleBundle → ℕ
tally p b =
    count (λ r. p (file_rule r)) b.file_rules
    + count2 (λ r. p (func_rule r)) b.file2func_rules
    + count2 (λ r. p (struct_rule r)) b.file2struct_rules

module _ (p : InstRule → Bool) where
  pub tally-new_rule_bundle : (import_path : Str) → tally p (new_rule_bundle import_path) ≡ 0
  unfolding new_rule_bundle
  tally-new_rule_bundle import_path = omega arith

  pub tally-set_package_name :
      (b : RuleBundle) (n : Str) → tally p (set_package_name b n) ≡ tally p b
  unfolding set_package_name
  tally-set_package_name b n = refl

  pub tally-add_file_rule :
      (b : RuleBundle) (r : InstFileRule)
      → tally p (add_file_rule b r) ≡ tally p b + bit (p (file_rule r))
  unfolding add_file_rule
  tally-add_file_rule b r = omega (arith, count-append (λ r. p (file_rule r)) b.file_rules (r ∷ []))

  module _ (abs : Str → Option Str) where
    pub tally-add_file2func_rule :
        (b : RuleBundle) (file : Str) (r : InstFuncRule)
        → Holds
            (λ b'. tally p b' ≡ tally p b + bit (p (func_rule r)))
            (add_file2func_rule abs b file r)
    unfolding add_file2func_rule
    tally-add_file2func_rule b file r = elim (Option-cases (abs file)) [
      | inl e ↦ rw e tt
      | inr (f, e) ↦ rw e (elim (Bool-cases (str_eq (func_key r) [])) [
        | inl h ↦ rw h tt
        | inr h ↦ rw h (
            omega
              (arith, count2-add_rule (λ r. p (func_rule r)) b.file2func_rules f (func_key r) r))
      ])
    ]

    pub tally-add_file2struct_rule :
        (b : RuleBundle) (file : Str) (r : InstStructRule)
        → Holds
            (λ b'. tally p b' ≡ tally p b + bit (p (struct_rule r)))
            (add_file2struct_rule abs b file r)
    unfolding add_file2struct_rule
    tally-add_file2struct_rule b file r = elim (Option-cases (abs file)) [
      | inl e ↦ rw e tt
      | inr (f, e) ↦ rw e (elim (Bool-cases (str_eq r.struct_type [])) [
        | inl h ↦ rw h tt
        | inr h ↦ rw h (
            omega (
              arith,
              count2-add_rule (λ r. p (struct_rule r)) b.file2struct_rules f r.struct_type r,
            ))
      ])
    ]
