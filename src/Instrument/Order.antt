-- ===== src/Instrument/Order.antt =====
-- sortFuncRules of tool/instrument/inst_func.go: sort.SliceStable by Order, as the insertion sort
-- that is stable.
use opentelemetry_go_auto_in.Base.{
  ◌+◌, ◌≡◌, refl, ◌∙◌, Bool, List, [], ◌∷◌, arith, if◌then◌else◌, ◌==◌,
}
use opentelemetry_go_auto_in.Base.Int.{ℤ, pos_part, neg_part, ltb_ℤ, ◌≤ℤ◌}
use opentelemetry_go_auto_in.Resource.RuleDef.{InstFuncRule}

-- Before the first rule of a greater order.
unfoldable pub insert_rule : InstFuncRule → List InstFuncRule → List InstFuncRule
insert_rule r [] = r ∷ []
insert_rule r (x ∷ xs) =
    let later = x ∷ insert_rule r xs in if ltb_ℤ x.order r.order then later else r ∷ x ∷ xs

unfoldable pub sort_func_rules : List InstFuncRule → List InstFuncRule
unfolding insert_rule
sort_func_rules [] = []
sort_func_rules (r ∷ rs) = insert_rule r (sort_func_rules rs)

abbrev pub IsOrdered : List InstFuncRule → Type 0
IsOrdered [] = Unit
IsOrdered (r ∷ []) = Unit
IsOrdered (r ∷ s ∷ rs) = (r.order ≤ℤ s.order) × IsOrdered (s ∷ rs)

abbrev pub same_order : ℤ → ℤ → Bool
same_order a b = pos_part a + neg_part b == pos_part b + neg_part a

-- The rules of one order, as they follow each other.
abbrev pub of_order : ℤ → List InstFuncRule → List InstFuncRule
of_order k [] = []
of_order k (r ∷ rs) = let rest = of_order k rs in if same_order r.order k then r ∷ rest else rest

insert_rule-IsOrdered :
    (r : InstFuncRule) (rs : List InstFuncRule) → IsOrdered rs → IsOrdered (insert_rule r rs)
unfolding insert_rule
insert_rule-IsOrdered r [] h = tt
insert_rule-IsOrdered r (x ∷ []) h = ground arith
insert_rule-IsOrdered r (x ∷ y ∷ xs) h = ground (arith, insert_rule-IsOrdered r (y ∷ xs) h.1)

of_order-insert_rule :
    (k : ℤ) (r : InstFuncRule) (rs : List InstFuncRule)
    → of_order k (insert_rule r rs) ≡ of_order k (r ∷ rs)
unfolding insert_rule
of_order-insert_rule k r [] = refl
of_order-insert_rule k r (x ∷ xs) = ground (arith, of_order-insert_rule k r xs)

sort_func_rules-IsOrdered : (rs : List InstFuncRule) → IsOrdered (sort_func_rules rs)
unfolding sort_func_rules
sort_func_rules-IsOrdered [] = tt
sort_func_rules-IsOrdered (r ∷ rs) = insert_rule-IsOrdered r _ (sort_func_rules-IsOrdered rs)

of_order-sort_func_rules :
    (k : ℤ) (rs : List InstFuncRule) → of_order k (sort_func_rules rs) ≡ of_order k rs
unfolding sort_func_rules
of_order-sort_func_rules k [] = refl
of_order-sort_func_rules k (r ∷ rs) =
    of_order-insert_rule k r (sort_func_rules rs) ∙ (simp (of_order-sort_func_rules k rs))

-- The rules of a function come out in ascending order, and those of one order are the same rules
-- in the same sequence as before: none is lost or added, and the sort is stable.
pub sort_func_rules_stable :
    (rs : List InstFuncRule)
    → IsOrdered (sort_func_rules rs) × ((k : ℤ) → of_order k (sort_func_rules rs) ≡ of_order k rs)
sort_func_rules_stable rs = (sort_func_rules-IsOrdered rs, λ k. of_order-sort_func_rules k rs)
