-- ===== src/Samples/Instrumenting.antt =====
-- The theorems on the order of a function's rules at two rules.
use opentelemetry_go_auto_in.Instrument.CompileArgs.{
  RuleProcessor, replace_compile_arg, try_relocated, replace_compile_arg-try_relocated,
}
use opentelemetry_go_auto_in.Instrument.Optimize.{
  keep, optimize_block, optimize_jump, remove_on_enter, flatten_unless_skip, flatten_tjump,
  remove_decl,
}
use opentelemetry_go_auto_in.Instrument.Optimize.Rounds.{seen}
use opentelemetry_go_auto_in.Instrument.Optimize.Sound.{optimize_block-around}
use opentelemetry_go_auto_in.Base.{
  map, NoPanic, if◌then◌else◌, some, ℕ, ◌≡◌, refl, Bool, false, Option, none, List, [], ◌∷◌,
  Outcome, ok, Str, codes, str_eq, true, ◌++◌, has_prefix,
}
use opentelemetry_go_auto_in.Base.Int.{ℤ, pos, negsuc}
use opentelemetry_go_auto_in.Resource.RuleDef.{InstFuncRule, InstFileRule}
use opentelemetry_go_auto_in.Preprocess.Backup.{FileSystem, whole}
use opentelemetry_go_auto_in.Instrument.Order.{
  insert_rule, sort_func_rules, IsOrdered, of_order, sort_func_rules_stable,
}
use opentelemetry_go_auto_in.Instrument.Body.{Block, plain_block, apply_func_rules}
use opentelemetry_go_auto_in.Instrument.Body.Nesting.{
  around, built, exec, apply_func_rules-built, enter, exit, stmt, call, apply_func_rules-around,
}

abbrev rule_of_order : ℤ → InstFuncRule
rule_of_order k = record {
  base = record { path = codes "hooks"; version = []; go_version = []; import_path = codes "fmt" };
  function = codes "Println";
  receiver_type = [];
  order = k;
  use_raw = false;
  on_enter = codes "before";
  on_exit = codes "after";
}

abbrev rules : List InstFuncRule
rules = rule_of_order (pos 1) ∷ rule_of_order (negsuc 0) ∷ []

sort_func_rules_stable_example :
    IsOrdered (sort_func_rules rules)
    × ((k : ℤ) → of_order k (sort_func_rules rules) ≡ of_order k rules)
sort_func_rules_stable_example = sort_func_rules_stable rules

abbrev never : InstFuncRule → Bool
never r = false

abbrev generated : InstFuncRule → Outcome (Unit {0})
generated r = ok tt

abbrev no_snippet : Str → Option (List ℕ)
no_snippet s = none

apply_func_rules-around_example :
    (body : Block) × (apply_func_rules generated no_snippet rules (plain_block (7 ∷ [])) ≡ ok body)
    × (call never body
        ≡ enter (rule_of_order (negsuc 0))
          ∷ enter (rule_of_order (pos 1))
          ∷ stmt 7
          ∷ exit (rule_of_order (pos 1))
          ∷ exit (rule_of_order (negsuc 0))
          ∷ [])
unfolding sort_func_rules insert_rule
apply_func_rules-around_example =
    apply_func_rules-around never generated no_snippet rules (7 ∷ []) (unfold str_eq in refl)

-- Every path is absolute; "b" is the argument to replace.
abbrev as_it_is : Str → Option Str
as_it_is path = some path

abbrev is_b : Str → Bool
is_b path = str_eq path (codes "b")

replace_compile_arg-try_relocated_example :
    (rp : RuleProcessor) × (replace_compile_arg as_it_is
        (codes "n")
        is_b
        (record { compile_args = codes "a" ∷ codes "b" ∷ codes "b" ∷ []; relocated = [] })
      ≡ ok rp)
    × (rp.compile_args ≡ codes "a" ∷ codes "n" ∷ codes "b" ∷ [])
    × ((name : Str)
        → try_relocated rp name ≡ (
            if str_eq (codes "b") name
            then codes "n"
            else try_relocated (record { compile_args = []; relocated = [] }) name))
replace_compile_arg-try_relocated_example =
    replace_compile_arg-try_relocated as_it_is (codes "n") is_b (codes "a" ∷ []) (codes "b" ∷ [])
      (codes "b") (codes "b") [] ((codes "a", refl, unfold str_eq in refl), tt) refl
      (unfold str_eq in refl)

-- A rule with an exit hook alone, and one with an enter hook alone that does not skip.
abbrev exit_only : InstFuncRule
exit_only = record (rule_of_order (pos 1)) { on_enter = [] }

abbrev enter_only : InstFuncRule
enter_only = record (rule_of_order (pos 2)) { on_exit = [] }

abbrev context_made : InstFuncRule → Outcome (Unit {0})
context_made r = ok tt

abbrev no_mention : InstFuncRule → Outcome Bool
no_mention r = ok false

abbrev trampoline_name : InstFuncRule → Str
trampoline_name r = r.function

abbrev instrumented : Block
instrumented = built never generated no_snippet (exit_only ∷ enter_only ∷ []) (7 ∷ [])

instrumented_ok :
    apply_func_rules generated no_snippet (exit_only ∷ enter_only ∷ []) (plain_block (7 ∷ []))
    ≡ ok instrumented
unfolding sort_func_rules insert_rule
instrumented_ok =
    apply_func_rules-built never generated no_snippet (exit_only ∷ enter_only ∷ []) (7 ∷ [])
      (unfold str_eq in refl)

optimize_block-around_example :
    NoPanic
      (λ (p : Block × List Str).
        seen (call never p.0)
        ≡ seen (around never (sort_func_rules (exit_only ∷ enter_only ∷ [])) (map stmt (7 ∷ []))))
      (optimize_block trampoline_name context_made no_mention keep instrumented
        (codes "Println" ∷ []))
optimize_block-around_example =
    optimize_block-around never trampoline_name context_made no_mention (λ r s. cc) (λ r. tt)
      (λ r. tt) generated no_snippet (exit_only ∷ enter_only ∷ []) (7 ∷ []) (codes "Println" ∷ [])
      instrumented (unfold str_eq in refl) instrumented_ok

-- The optimised body of the two rules: the enter trampoline and one deferred call are gone.
optimized :
    (result : Block × List Str) × (optimize_block trampoline_name context_made no_mention keep
        instrumented
        (codes "Println" ∷ [])
      ≡ ok result)
    × (call never result.0 ≡ enter enter_only ∷ stmt 7 ∷ exit exit_only ∷ [])
unfolding optimize_block optimize_jump remove_on_enter flatten_unless_skip flatten_tjump remove_decl
    exec str_eq sort_func_rules insert_rule
optimized = (_, refl, refl)

-- A file rule, whose file is copied to the directory "w/".
abbrev file_rule_of : Str → InstFileRule
file_rule_of name = record {
  base = (rule_of_order (pos 0)).base;
  file_name = name;
  replace = false;
}

abbrev same_name : Str → Str
same_name name = name

abbrev in_w : Str → Str
in_w name = codes "w/" ++ name

abbrev is_in_w : Str → Bool
is_in_w p = has_prefix p (codes "w/")

abbrev two_files : FileSystem
two_files = record {
  content = λ p. some (codes "package p");
  writing = λ p. whole;
  makes_dirs = true;
}
