-- ===== src/Instrument/Trampoline/Shape.antt =====
-- What generateTrampoline of tool/instrument/trampoline.go makes of tool/instrument/template.go.
use opentelemetry_go_auto_in.Base.{
  ◌≡◌, refl, inl, inr, any, Bool-cases, Bool, true, false, none, some, List, [], ◌∷◌, ◌++◌, map,
  Outcome, ok, ◌>>=◌, if◌then◌else◌, Str, codes, str_eq,
}
use opentelemetry_go_auto_in.Resource.RuleDef.{InstFuncRule}
use opentelemetry_go_auto_in.Instrument.Signature.{
  Field, FuncType, Arg, ParamTrait, get_names, rectify_types, param_traits, build_trampoline_type,
  on_enter_args, on_exit_args, hook_params, any_typed, add_call_context, interface_type,
  is_interface_type, is_ellipsis,
}
use opentelemetry_go_auto_in.Instrument.Signature.Typed.{FitAll, asked, AllNamed}
use opentelemetry_go_auto_in.Instrument.Signature.Hooks.{Agree, variables, hook_calls_fit}
use opentelemetry_go_auto_in.Instrument.Template.{
  string_lit, composite_lit, TrampolineStmt, recover_as, new_context, assign, call_hook,
  return_context, Trampoline, Method, template, template_methods, context_impl, Generated,
  materialize_template, materialize_decls, on_enter_name, on_exit_name, enter_placeholder,
  exit_placeholder,
}
use opentelemetry_go_auto_in.Instrument.Trampoline.{
  implement_call_context, rename_func, make_name, insert_at, replenish_stmt, replenish_call_context,
  call_on_enter_hook, call_on_exit_hook, call_hook_func, declare_hook, generate_trampoline,
  context_values,
}

-- The bodies of the trampolines, with the literal of the hook's name and the type of the context.
abbrev enter_start : Str → Str → List TrampolineStmt
enter_start literal t =
    recover_as literal
    ∷ new_context t
    ∷ assign none (codes "Params") (composite_lit [] ∷ [])
    ∷ assign none (codes "FuncName") (string_lit (codes "\"\"") ∷ [])
    ∷ assign none (codes "PackageName") (string_lit (codes "\"\"") ∷ [])
    ∷ return_context
    ∷ []

abbrev exit_start : Str → Str → List TrampolineStmt
exit_start literal t =
    recover_as literal ∷ assign (some t) (codes "ReturnVals") (composite_lit [] ∷ []) ∷ []

abbrev pub methods_of : Str → List Method
methods_of t = map (λ m. record { name = m; recv_type = t }) template_methods

abbrev instance_of : Str → Generated
instance_of suffix =
    let t = context_impl ++ suffix in
    record {
      context_type = t;
      methods = methods_of t;
      enter = record { name = on_enter_name; params = []; body = enter_start enter_placeholder t };
      exit = record { name = on_exit_name; params = []; body = exit_start exit_placeholder t };
      hooks = [];
    }

implemented_template :
    (suffix : Str)
    → (materialize_template template >>= λ m. implement_call_context suffix m)
      ≡ ok (instance_of suffix)
unfolding materialize_template implement_call_context materialize_decls str_eq
implemented_template suffix = refl

-- The parameters with which a hook is declared, given its own and those of the function: they have
-- the function's names, and the function's types but where the hook's own is an interface.
abbrev pub Mirrors : List Field → List Field → List Field → Type 0
Mirrors [] [] [] = Unit
Mirrors (h ∷ hs) (f ∷ fs) (p ∷ ps) =
    (p.names ≡ f.names)
    × (p.typ ≡ (if is_interface_type h.typ then interface_type 0 else f.typ))
    × Mirrors hs fs ps
Mirrors hs fs ps = ⊥

Mirrors-any_typed :
    (hs fs : List Field)
    → Agree (param_traits hs) fs
    → Mirrors hs fs (any_typed fs (param_traits hs))
unfolding param_traits
Mirrors-any_typed [] [] a = tt
Mirrors-any_typed [] (f ∷ fs) a = absurd a
Mirrors-any_typed (h ∷ hs) [] a = absurd a
Mirrors-any_typed (h ∷ hs) (f ∷ fs) (v, i, a) = elim (Bool-cases (is_interface_type h.typ)) [
  | inl e ↦ rw e (refl, refl, Mirrors-any_typed hs fs a)
  | inr e ↦ rw e (refl, refl, Mirrors-any_typed hs fs a)
]

module _ (quote : Str → Str) (function package_name : Str) (raw : FuncType) (rule : InstFuncRule)
    (suffix : Str) (get_hook_func : Bool → Outcome (List Field)) (target_functions : List Str) where
  -- The type of the call context.
  abbrev pub context : Str
  context = context_impl ++ suffix

  -- The enter trampoline that calls its hook with the arguments, just before it returns.
  abbrev pub entering : List Arg → Trampoline
  entering args = record {
    name = make_name suffix function true;
    params = rectify_types true raw;
    body =
        recover_as (quote rule.on_enter)
        ∷ new_context context
        ∷ assign none (codes "Params") (composite_lit (get_names (rectify_types true raw)) ∷ [])
        ∷ assign none (codes "FuncName") (string_lit (quote function) ∷ [])
        ∷ assign none (codes "PackageName") (string_lit (quote package_name) ∷ [])
        ∷ call_hook rule.on_enter args
        ∷ return_context
        ∷ [];
  }

  -- The exit trampoline that calls its hook with the arguments, once the context has the results.
  abbrev pub exiting : List Arg → Trampoline
  exiting args = record {
    name = make_name suffix function false;
    params = rectify_types false raw;
    body =
        recover_as (quote rule.on_exit)
        ∷ assign (some context) (codes "ReturnVals")
            (composite_lit (context_values false (rectify_types false raw)) ∷ [])
        ∷ call_hook rule.on_exit args
        ∷ [];
  }

  enter_called :
      (traits : List ParamTrait) (args : List Arg)
      → on_enter_args true traits (rectify_types true raw) ≡ ok args
      → call_on_enter_hook quote function package_name raw rule suffix true get_hook_func
          target_functions traits
          (record {
            name = make_name suffix function true;
            params = rectify_types true raw;
            body = enter_start (quote rule.on_enter) context;
          })
        ≡ ok (entering args)
  unfolding call_on_enter_hook insert_at replenish_call_context replenish_stmt str_eq
  enter_called traits args h = rw h refl

  exit_called :
      (traits : List ParamTrait) (args : List Arg)
      → on_exit_args true traits (rectify_types false raw) ≡ ok args
      → call_on_exit_hook quote function package_name raw rule suffix true get_hook_func
          target_functions traits
          (record {
            name = make_name suffix function false;
            params = rectify_types false raw;
            body = exit_start (quote rule.on_exit) context;
          })
        ≡ ok (exiting args)
  unfolding call_on_exit_hook insert_at replenish_call_context replenish_stmt str_eq
  exit_called traits args h = rw h refl

  -- The functions of the target file once the template is in it, with the hooks declared so far.
  abbrev pub used : List Str → List Str
  used hooks =
      target_functions
      ++ (map (λ m. m.name) (methods_of context)
          ++ (make_name suffix function true ∷ make_name suffix function false ∷ hooks))

  abbrev context_trait : Field → ParamTrait
  context_trait f = record {
    is_varadic = is_ellipsis f.typ;
    is_interface_any = is_interface_type f.typ;
  }

  abbrev start : Generated
  start = record {
    context_type = context;
    methods = methods_of context;
    enter = record {
      name = make_name suffix function true;
      params = rectify_types true raw;
      body = enter_start (quote rule.on_enter) context;
    };
    exit = record {
      name = make_name suffix function false;
      params = rectify_types false raw;
      body = exit_start (quote rule.on_exit) context;
    };
    hooks = [];
  }

  abbrev hook_func : Bool → Generated → Outcome Generated
  hook_func =
      call_hook_func quote function package_name raw rule suffix true get_hook_func target_functions

  enter_hooked :
      (context_param : Field) (fields : List Field) (args : List Arg) (params : List Field)
      → get_hook_func true ≡ ok (context_param ∷ fields)
      → hook_params true raw (param_traits (context_param ∷ fields)) true ≡ ok params
      → on_enter_args true (param_traits (context_param ∷ fields)) (rectify_types true raw)
        ≡ ok args
      → any (str_eq rule.on_enter) (used []) ≡ false
      → hook_func true start
        ≡ ok (record start { enter = entering args; hooks = (rule.on_enter, params) ∷ [] })
  unfolding call_hook_func declare_hook
  enter_hooked context_param fields args params found declared called free =
      let traits = param_traits (context_param ∷ fields) in
      rw found (rw declared (rw (enter_called traits args called) (rw free refl)))

  exit_hooked :
      (context_param : Field) (fields : List Field) (args enter_args : List Arg)
      (params enter_params : List Field)
      → get_hook_func false ≡ ok (context_param ∷ fields)
      → hook_params true raw (param_traits (context_param ∷ fields)) false ≡ ok params
      → on_exit_args true (param_traits (context_param ∷ fields)) (rectify_types false raw)
        ≡ ok args
      → any (str_eq rule.on_exit) (used (rule.on_enter ∷ [])) ≡ false
      → let hooks : List (Str × List Field) = (rule.on_enter, enter_params) ∷ [] in
        hook_func false (record start { enter = entering enter_args; hooks = hooks })
        ≡ ok (record start {
          enter = entering enter_args;
          exit = exiting args;
          hooks = (rule.on_enter, enter_params) ∷ (rule.on_exit, params) ∷ [];
        })
  unfolding call_hook_func declare_hook
  exit_hooked context_param fields args enter_args params enter_params found declared called free =
      let traits = param_traits (context_param ∷ fields) in
      rw found (rw declared (rw (exit_called traits args called) (rw free refl)))

  generated_start :
      str_eq rule.on_enter [] ≡ false
      → str_eq rule.on_exit [] ≡ false
      → generate_trampoline quote function package_name raw rule suffix true get_hook_func
          target_functions template
        ≡ (hook_func true start >>= λ g. hook_func false g)
  unfolding generate_trampoline materialize_template implement_call_context materialize_decls
      rename_func str_eq
  generated_start on_enter on_exit = rw on_enter (rw on_exit refl)

  -- A rule names a function and has an enter hook and an exit hook, which are found and agree with
  -- the function's parameters and results, all of which have names, none blank; no function of the
  -- file has the name of a hook. Then generating succeeds. Each hook is declared with the call
  -- context and a parameter for each of the function's (or of its results), of the same names, and of
  -- type interface{} where the hook's own is that and else of the function's type. The enter
  -- trampoline has the name that the jump calls, puts its parameters, the function's name and the
  -- package's into a new call context, calls the hook with arguments that fit that declaration, one
  -- for each parameter, and returns; the exit trampoline puts the results into the call context that
  -- it is given and then calls its hook alike. Both name the one type whose methods are generated.
  pub generate_trampoline-entering :
      (on_enter : str_eq rule.on_enter [] ≡ false)
      → (on_exit : str_eq rule.on_exit [] ≡ false) → (enter_context exit_context : Field)
      → (enter_fields exit_fields : List Field)
      → get_hook_func true ≡ ok (enter_context ∷ enter_fields)
      → get_hook_func false ≡ ok (exit_context ∷ exit_fields)
      → is_interface_type enter_context.typ ≡ false
      → is_interface_type exit_context.typ ≡ false
      → Agree (param_traits enter_fields) (build_trampoline_type true raw)
      → Agree (param_traits exit_fields) (build_trampoline_type false raw)
      → AllNamed (build_trampoline_type true raw)
      → AllNamed (build_trampoline_type false raw)
      → any (str_eq rule.on_enter) (used []) ≡ false
      → any (str_eq rule.on_exit) (used (rule.on_enter ∷ [])) ≡ false
      → (args results : List Arg) × (params result_params : List Field) × Mirrors enter_fields
          (build_trampoline_type true raw)
          params
        × Mirrors exit_fields (build_trampoline_type false raw) result_params
        × FitAll (variables true raw) args (asked (add_call_context params))
        × FitAll (variables false raw) results (asked (add_call_context result_params))
        × (g : Generated) × (generate_trampoline quote function package_name raw rule suffix true
              get_hook_func target_functions template
            ≡ ok g)
        × (g.enter ≡ entering args)
        × (g.exit ≡ exiting results)
        × (g.hooks
            ≡ (rule.on_enter, add_call_context params)
              ∷ (rule.on_exit, add_call_context result_params)
              ∷ [])
        × (g.context_type ≡ context)
        × (g.methods ≡ methods_of context)
  unfolding param_traits
  generate_trampoline-entering on_enter on_exit enter_context exit_context enter_fields exit_fields
        found found' plain plain' agree agree' named named' free free' =
      let (args, called, declared, fit) =
        hook_calls_fit true raw (context_trait enter_context) (param_traits enter_fields) plain
          agree named in
      let (results, called', declared', fit') =
        hook_calls_fit false raw (context_trait exit_context) (param_traits exit_fields) plain'
          agree' named' in
      let params = any_typed (build_trampoline_type true raw) (param_traits enter_fields) in
      let result_params = any_typed (build_trampoline_type false raw) (param_traits exit_fields) in
      let entered =
        enter_hooked enter_context enter_fields args (add_call_context params) found declared called
          free in
      let exited =
        exit_hooked exit_context exit_fields results args (add_call_context result_params)
          (add_call_context params) found' declared' called' free' in
      (
        args,
        results,
        params,
        result_params,
        Mirrors-any_typed enter_fields (build_trampoline_type true raw) agree,
        Mirrors-any_typed exit_fields (build_trampoline_type false raw) agree',
        fit,
        fit',
        record start {
          enter = entering args;
          exit = exiting results;
          hooks =
              (rule.on_enter, add_call_context params)
              ∷ (rule.on_exit, add_call_context result_params)
              ∷ [];
        },
        rw (generated_start on_enter on_exit) (rw entered exited),
        refl,
        refl,
        refl,
        refl,
        refl,
      )
