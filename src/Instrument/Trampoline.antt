-- ===== src/Instrument/Trampoline.antt =====
-- tool/instrument/trampoline.go, generateTrampoline: the declarations that tool/instrument/template.go
-- lists, specialised to a rule and a function. The bodies of the methods of the call context are in
-- CallContext.
pub mod Shape
use opentelemetry_go_auto_in.Base.{
  ℕ, zero, suc, ◌-◌, Bool, true, false, not, Option, none, some, List, [], ◌∷◌, ◌++◌, map, any,
  length, ltb, if◌then◌else◌, Outcome, ok, err, panicked, ◌>>=◌, ◌>>◌, assert, Code, Str, codes,
  str_eq,
}
use opentelemetry_go_auto_in.Resource.RuleDef.{InstFuncRule}
use opentelemetry_go_auto_in.Instrument.Signature.{
  Field, FuncType, Arg, ParamTrait, get_names, rectify_types, param_traits, on_enter_args,
  on_exit_args, hook_params,
}
use opentelemetry_go_auto_in.Instrument.Template.{
  Rhs, string_lit, composite_lit, TrampolineStmt, recover_as, new_context, assign, call_hook,
  Trampoline, Method, TemplateDecl, context_impl, on_enter_name, on_exit_name, enter_placeholder,
  exit_placeholder, Generated, is_empty, materialize_template,
}

-- implementCallContext: where the template's type is named, the suffix is added.
abbrev add_suffix : Str → Str → Str
add_suffix suffix t = if str_eq t context_impl then t ++ suffix else t

abbrev suffix_stmt : Str → TrampolineStmt → TrampolineStmt
suffix_stmt suffix (new_context t) = new_context (add_suffix suffix t)
suffix_stmt suffix (assign (some t) f rhs) = assign (some (add_suffix suffix t)) f rhs
suffix_stmt suffix s = s

abbrev suffix_body : Str → Trampoline → Trampoline
suffix_body suffix f = record f { body = map (suffix_stmt suffix) f.body }

abbrev pub suffix_method : Str → Method → Method
suffix_method suffix m = record m { recv_type = m.recv_type ++ suffix }

unfoldable pub implement_call_context : Str → Generated → Outcome Generated
implement_call_context suffix g =
    assert (str_eq g.context_type context_impl)
    >> ok (record g {
      context_type = g.context_type ++ suffix;
      methods = map (suffix_method suffix) g.methods;
      enter = suffix_body suffix g.enter;
      exit = suffix_body suffix g.exit;
    })

-- makeName
unfoldable pub make_name : Str → Str → Bool → Str
make_name suffix function on_enter =
    (if on_enter then on_enter_name else on_exit_name) ++ (codes "_" ++ (function ++ suffix))

abbrev name_hook : Str → Str → TrampolineStmt → TrampolineStmt
name_hook placeholder literal (recover_as s) =
    recover_as (if str_eq s placeholder then literal else s)
name_hook placeholder literal s = s

-- insertAt
unfoldable pub insert_at : List TrampolineStmt → TrampolineStmt → ℕ → Outcome (List TrampolineStmt)
insert_at stmts s zero = ok (s ∷ stmts)
insert_at [] s (suc index) = panicked
insert_at (t ∷ stmts) s (suc index) = insert_at stmts s index >>= λ stmts'. ok (t ∷ stmts')

-- `len(rhs) == 1` with the type of its expression, on both sides of the type switch.
abbrev replace_literal : Str → List Rhs → Option (List Rhs)
replace_literal text (string_lit s ∷ []) = some (string_lit text ∷ [])
replace_literal text _ = none

abbrev add_elements : List Str → List Rhs → Option (List Rhs)
add_elements names (composite_lit elems ∷ []) = some (composite_lit (elems ++ names) ∷ [])
add_elements names _ = none

abbrev behind_first : List Str → List Str
behind_first [] = []
behind_first (x ∷ xs) = xs

-- The names that replenishCallContext adds: all but the first for an exit trampoline.
abbrev context_values : Bool → List Field → List Str
context_values true params = get_names params
context_values false params = behind_first (get_names params)

-- `quote` is strconv.Quote. The parameters of the next definitions are the function's name, its
-- package's, and its type; the rule and its random suffix; whether the rule names the function
-- exactly; the parameters of the hook that getHookFunc finds; the function declarations of the
-- target file.
module _ (quote : Str → Str) (function package_name : Str) (raw : FuncType) (rule : InstFuncRule)
    (suffix : Str) (exact : Bool) (get_hook_func : Bool → Outcome (List Field))
    (target_functions : List Str) where
  -- renameFunc
  unfoldable pub rename_func : Generated → Generated
  unfolding make_name
  rename_func g = record g {
    enter = record g.enter {
      name = make_name suffix function true;
      body = map (name_hook enter_placeholder (quote rule.on_enter)) g.enter.body;
    };
    exit = record g.exit {
      name = make_name suffix function false;
      body = map (name_hook exit_placeholder (quote rule.on_exit)) g.exit.body;
    };
  }

  abbrev optional :
      Option TrampolineStmt → Option (List TrampolineStmt) → Option (List TrampolineStmt)
  optional (some s) (some rest) = some (s ∷ rest)
  optional _ _ = none

  abbrev assigned : Option Str → Str → Option (List Rhs) → Option TrampolineStmt
  assigned t f none = none
  assigned t f (some rhs) = some (assign t f rhs)

  -- replenishCallContext on a statement; `none` where it returns false.
  unfoldable pub replenish_stmt : Bool → List Str → TrampolineStmt → Outcome (Option TrampolineStmt)
  replenish_stmt on_enter names (assign t f rhs) =
      if str_eq f (codes "FuncName")
      then (assert on_enter >> ok (assigned t f (replace_literal (quote function) rhs)))
      else if str_eq f (codes "PackageName")
      then (assert on_enter >> ok (assigned t f (replace_literal (quote package_name) rhs)))
      else ok (assigned t f (add_elements names rhs))
  replenish_stmt on_enter names s = ok (some s)

  -- The loop; a body that is left half done is lost with the error of callHookFunc.
  unfoldable pub replenish_call_context :
      Bool → List Str → List TrampolineStmt → Outcome (Option (List TrampolineStmt))
  unfolding replenish_stmt
  replenish_call_context on_enter names [] = ok (some [])
  replenish_call_context on_enter names (s ∷ stmts) = replenish_stmt on_enter names s >>= λ found.
      elim found [
        | none ↦ ok none
        | some s' ↦
            replenish_call_context on_enter names stmts >>= λ rest. ok (optional (some s') rest)
      ]

  -- makeOnXName
  abbrev pub make_on_x_name : Bool → Str
  make_on_x_name on_enter = if on_enter then rule.on_enter else rule.on_exit

  abbrev first_of : Str × List Field → Str
  first_of (name, params) = name

  abbrev pub function_names : Generated → List Str
  function_names g =
      target_functions
      ++ (map (λ m. m.name) g.methods ++ (g.enter.name ∷ g.exit.name ∷ map first_of g.hooks))

  -- The end of addHookFuncVar.
  unfoldable pub declare_hook : Str → List Field → Generated → Generated
  declare_hook hook params g =
      if any (str_eq hook) (function_names g)
      then g
      else record g { hooks = g.hooks ++ (hook, params) ∷ [] }

  abbrev replenished : Option (List TrampolineStmt) → Outcome (List TrampolineStmt)
  replenished none = err Code.instrument
  replenished (some body) = ok body

  -- callOnEnterHook with replenishCallContext, on the enter trampoline; the call of the hook goes in
  -- front of the last statement.
  unfoldable pub call_on_enter_hook : List ParamTrait → Trampoline → Outcome Trampoline
  unfolding insert_at replenish_call_context
  call_on_enter_hook traits f = do
    args ← on_enter_args exact traits f.params
    assert (not (is_empty f.body))
    called ← insert_at f.body (call_hook rule.on_enter args) (length f.body - 1)
    found ← replenish_call_context true (context_values true f.params) called
    body ← replenished found
    ok (record f { body = body })

  -- callOnExitHook with replenishCallContext; the call of the hook goes to the end.
  unfoldable pub call_on_exit_hook : List ParamTrait → Trampoline → Outcome Trampoline
  unfolding insert_at replenish_call_context
  call_on_exit_hook traits f = do
    args ← on_exit_args exact traits f.params
    called ← insert_at f.body (call_hook rule.on_exit args) (length f.body)
    found ← replenish_call_context false (context_values false f.params) called
    body ← replenished found
    ok (record f { body = body })

  -- callHookFunc
  unfoldable pub call_hook_func : Bool → Generated → Outcome Generated
  unfolding declare_hook call_on_enter_hook call_on_exit_hook
  call_hook_func true g = do
    target ← get_hook_func true
    params ← hook_params exact raw (param_traits target) true
    enter ← call_on_enter_hook (param_traits target) g.enter
    ok (record (declare_hook rule.on_enter params g) { enter = enter })
  call_hook_func false g = do
    target ← get_hook_func false
    params ← hook_params exact raw (param_traits target) false
    exit ← call_on_exit_hook (param_traits target) g.exit
    ok (record (declare_hook rule.on_exit params g) { exit = exit })

  -- rectifyTypes
  abbrev rectify_all : Generated → Generated
  rectify_all g = record g {
    enter = record g.enter { params = rectify_types true raw };
    exit = record g.exit { params = rectify_types false raw };
  }

  unfoldable pub generate_trampoline : List TemplateDecl → Outcome Generated
  unfolding materialize_template implement_call_context rename_func call_hook_func
  generate_trampoline decls = do
    materialized ← materialize_template decls
    implemented ← implement_call_context suffix materialized
    assert (ltb 4 (length implemented.methods))
    let g : Generated = rectify_all (rename_func implemented)
    entered ← (if str_eq rule.on_enter [] then ok g else call_hook_func true g)
    (if str_eq rule.on_exit [] then ok entered else call_hook_func false entered)
