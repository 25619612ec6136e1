-- ===== src/Samples/Trampolines.antt =====
-- The theorems on the generated trampolines at a method `func (s *T) f(n int, vs ...T) (err error)`.
use opentelemetry_go_auto_in.Base.{
  ◌≡◌, refl, ℕ, Bool, true, false, List, [], ◌∷◌, arith, Outcome, ok, Str, codes, str_eq,
}
use opentelemetry_go_auto_in.Base.Int.{pos}
use opentelemetry_go_auto_in.Resource.RuleDef.{InstFuncRule}
use opentelemetry_go_auto_in.Instrument.Signature.{
  add_call_context, GoType, ident, interface_type, ellipsis, pointer, Field, FuncType, Arg,
  enter_args, exit_args, rectify_types, build_trampoline_type, name_return_values, param_traits,
}
use opentelemetry_go_auto_in.Instrument.Signature.Typed.{
  seen_inside, context_of, asked, FitAll, trampoline_calls_fit,
}
use opentelemetry_go_auto_in.Instrument.Signature.Hooks.{variables}
use opentelemetry_go_auto_in.Instrument.CallContext.{
  Value, value, Memory, store, get_value, set_value,
}
use opentelemetry_go_auto_in.Instrument.CallContext.ReadBack.{
  clauses, pointers, set_value-get_value,
}
use opentelemetry_go_auto_in.Instrument.Template.{Generated, template}
use opentelemetry_go_auto_in.Instrument.Trampoline.{generate_trampoline}
use opentelemetry_go_auto_in.Instrument.Trampoline.{make_name}
use opentelemetry_go_auto_in.Instrument.Trampoline.Shape.{
  entering, exiting, methods_of, Mirrors, generate_trampoline-entering,
}

abbrev field : Str → GoType → Field
field x t = record { names = x ∷ []; typ = t }

abbrev int : GoType
int = ident (codes "int")

abbrev method : FuncType
method = record {
  recv = field (codes "s") (pointer (ident (codes "T"))) ∷ [];
  params = field (codes "n") int ∷ field (codes "vs") (ellipsis (ident (codes "T"))) ∷ [];
  results = record { names = []; typ = ident (codes "error") } ∷ [];
}

abbrev name_at : ℕ → Str
name_at i = codes "retVal"

abbrev named : FuncType
named = record method { results = name_return_values name_at 0 method.results }

trampoline_calls_fit_example :
    ((args : List Arg) × (enter_args named ≡ ok args)
      × FitAll
          (seen_inside (build_trampoline_type true named))
          args
          (asked (rectify_types true named)))
    × FitAll
        (context_of (codes "x") ∷ seen_inside named.results)
        (exit_args (codes "x") named)
        (asked (rectify_types false named))
trampoline_calls_fit_example =
    trampoline_calls_fit name_at (codes "x") method (λ i. unfold str_eq in refl)
      (codes "s", refl, unfold str_eq in refl)
      (unfold str_eq in (((λ p. cc), refl), (((λ p. cc), refl), tt))) (unfold str_eq in (refl, tt))

-- `n` is the second variable, at address 1; the third is of type `interface{}`.
abbrev any_param : FuncType
any_param = record method {
  params = field (codes "n") int ∷ field (codes "v") (interface_type 0) ∷ [];
}

abbrev slots : List (GoType × ℕ)
slots = (pointer (ident (codes "T")), 0) ∷ (int, 1) ∷ (interface_type 0, 2) ∷ []

abbrev accepts : GoType → Value → Bool
accepts t v = true

abbrev memory : Memory
memory a = value a

set_value-get_value_example :
    (set_value accepts (clauses true any_param) 1 (value 9) (pointers slots) memory
      ≡ ok (pointers slots, store 1 (value 9) memory))
    × (get_value (clauses true any_param) 1 (pointers slots) (store 1 (value 9) memory)
        ≡ ok (value 9))
    × (get_value (clauses true any_param) 0 (pointers slots) (store 1 (value 9) memory)
        ≡ get_value (clauses true any_param) 0 (pointers slots) memory)
set_value-get_value_example =
    set_value-get_value accepts true any_param slots refl 1 0 int (pointer (ident (codes "T"))) 1 0
      (value 9) memory refl refl refl refl refl refl (omega arith)

abbrev rule : InstFuncRule
rule = record {
  base = record { path = codes "hooks"; version = []; go_version = []; import_path = codes "pkg" };
  function = codes "f";
  receiver_type = codes "*T";
  order = pos 0;
  use_raw = false;
  on_enter = codes "before";
  on_exit = codes "after";
}

abbrev call_context_param : Field
call_context_param = field (codes "call") (ident (codes "CallContext"))

abbrev enter_hook_fields : List Field
enter_hook_fields =
    field (codes "s") (interface_type 0)
    ∷ field (codes "n") int
    ∷ field (codes "vs") (ellipsis (ident (codes "T")))
    ∷ []

abbrev exit_hook_fields : List Field
exit_hook_fields = field (codes "err") (ident (codes "error")) ∷ []

abbrev get_hook_func : Bool → Outcome (List Field)
get_hook_func true = ok (call_context_param ∷ enter_hook_fields)
get_hook_func false = ok (call_context_param ∷ exit_hook_fields)

abbrev quote : Str → Str
quote s = s

abbrev named_method : FuncType
named_method = record method { results = field (codes "retVal0") (ident (codes "error")) ∷ [] }

generate_trampoline-entering_example :
    (args results : List Arg) × (params result_params : List Field) × Mirrors enter_hook_fields
      (build_trampoline_type true named_method)
      params
    × Mirrors exit_hook_fields (build_trampoline_type false named_method) result_params
    × FitAll (variables true named_method) args (asked (add_call_context params))
    × FitAll (variables false named_method) results (asked (add_call_context result_params))
    × (g : Generated) × (generate_trampoline quote
          (codes "f")
          (codes "pkg")
          named_method
          rule
          (codes "x")
          true
          get_hook_func
          []
          template
        ≡ ok g)
    × (g.enter
        ≡ entering quote
            (codes "f")
            (codes "pkg")
            named_method
            rule
            (codes "x")
            get_hook_func
            []
            args)
    × (g.exit
        ≡ exiting quote
            (codes "f")
            (codes "pkg")
            named_method
            rule
            (codes "x")
            get_hook_func
            []
            results)
    × (g.hooks
        ≡ (codes "before", add_call_context params)
          ∷ (codes "after", add_call_context result_params)
          ∷ [])
    × (g.context_type ≡ codes "CallContextImplx")
    × (g.methods ≡ methods_of (codes "CallContextImplx"))
generate_trampoline-entering_example =
    generate_trampoline-entering quote (codes "f") (codes "pkg") named_method rule (codes "x")
      get_hook_func [] (unfold str_eq in refl) (unfold str_eq in refl) call_context_param
      call_context_param enter_hook_fields exit_hook_fields refl refl refl refl
      (unfold param_traits in (refl, (λ p. refl), (refl, (λ p. refl), (refl, (λ p. cc), tt))))
      (unfold param_traits in (refl, (λ p. refl), tt))
      (unfold str_eq in (((λ p. cc), refl), (((λ p. cc), refl), (((λ p. cc), refl), tt))))
      (unfold str_eq in (((λ p. cc), refl), tt)) (unfold str_eq make_name in refl)
      (unfold str_eq make_name in refl)
