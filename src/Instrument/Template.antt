-- ===== src/Instrument/Template.antt =====
-- tool/instrument/template.go as a list of declarations, and materializeTemplate of
-- tool/instrument/trampoline.go, which reads it. A trampoline is kept as its name, its parameters
-- and the statements of its body.
use opentelemetry_go_auto_in.Base.{
  ℕ, Bool, true, false, not, Option, none, some, List, [], ◌∷◌, ◌++◌, map, if◌then◌else◌, Outcome,
  ok, panicked, ◌>>=◌, ◌>>◌, assert, Str, codes, str_eq,
}
use opentelemetry_go_auto_in.Instrument.Signature.{Field, Arg}

-- The right side of an assignment: a string literal as it is spelled, a composite literal with the
-- names among its elements, or another expression.
pub data Rhs : Type 0 where
  string_lit : Str → Rhs
  composite_lit : List Str → Rhs
  other_rhs : ℕ → Rhs

-- The statements of a trampoline. `recover_as s` is the deferred function that names the hook by the
-- literal s, `new_context T` is `callContext := &T{}`, `assign T f es` the assignment of es to the
-- field f of `callContext`, or of `callContext.(*T)`, and `call_hook f args` is
-- `if f != nil { f(args) }`.
pub data TrampolineStmt : Type 0 where
  recover_as new_context : Str → TrampolineStmt
  assign : Option Str → Str → List Rhs → TrampolineStmt
  call_hook : Str → List Arg → TrampolineStmt
  return_context : TrampolineStmt

pub record Trampoline : Type 0 where
  pub name : Str
  pub params : List Field
  pub body : List TrampolineStmt

-- A method of the call context, by its name and the type of its receiver.
pub record Method : Type 0 where
  pub name : Str
  pub recv_type : Str

pub data TemplateDecl : Type 0 where
  type_decl var_decl : Str → TemplateDecl
  method_decl : Method → TemplateDecl
  func_decl : Trampoline → TemplateDecl

abbrev pub context_impl : Str
context_impl = codes "CallContextImpl"

abbrev pub template_methods : List Str
template_methods =
    codes "SetSkipCall"
    ∷ codes "IsSkipCall"
    ∷ codes "SetData"
    ∷ codes "GetData"
    ∷ codes "GetKeyData"
    ∷ codes "SetKeyData"
    ∷ codes "HasKeyData"
    ∷ codes "GetParam"
    ∷ codes "SetParam"
    ∷ codes "GetReturnVal"
    ∷ codes "SetReturnVal"
    ∷ codes "GetFuncName"
    ∷ codes "GetPackageName"
    ∷ []

abbrev pub on_enter_name : Str
on_enter_name = codes "OtelOnEnterTrampoline"

abbrev pub on_exit_name : Str
on_exit_name = codes "OtelOnExitTrampoline"

abbrev pub enter_placeholder : Str
enter_placeholder = codes "\"OtelOnEnterNamePlaceholder\""

abbrev pub exit_placeholder : Str
exit_placeholder = codes "\"OtelOnExitNamePlaceholder\""

-- template.go
abbrev pub template : List TemplateDecl
template =
    type_decl context_impl
    ∷ (map (λ m. method_decl (record { name = m; recv_type = context_impl })) template_methods
        ++ var_decl (codes "OtelGetStackImpl")
          ∷ var_decl (codes "OtelPrintStackImpl")
          ∷ func_decl (record {
            name = on_enter_name;
            params = [];
            body =
                recover_as enter_placeholder
                ∷ new_context context_impl
                ∷ assign none (codes "Params") (composite_lit [] ∷ [])
                ∷ assign none (codes "FuncName") (string_lit (codes "\"\"") ∷ [])
                ∷ assign none (codes "PackageName") (string_lit (codes "\"\"") ∷ [])
                ∷ return_context
                ∷ [];
          })
          ∷ func_decl (record {
            name = on_exit_name;
            params = [];
            body =
                recover_as exit_placeholder
                ∷ assign (some context_impl) (codes "ReturnVals") (composite_lit [] ∷ [])
                ∷ [];
          })
          ∷ [])

-- The fields of the RuleProcessor that materializeTemplate fills. The declarations but for the
-- variables are added to the target file too, where the later steps change them in place.
pub record Materialized : Type 0 where
  pub var_decls : List Str
  pub call_ctx_methods : List Method
  pub call_ctx_decl : Option Str
  pub on_enter_hook : Option Trampoline
  pub on_exit_hook : Option Trampoline

abbrev nothing : Materialized
nothing = record {
  var_decls = [];
  call_ctx_methods = [];
  call_ctx_decl = none;
  on_enter_hook = none;
  on_exit_hook = none;
}

abbrev add_function : Trampoline → Materialized → Materialized
add_function f m =
    if str_eq f.name on_enter_name
    then record m { on_enter_hook = some f }
    else if str_eq f.name on_exit_name
    then record m { on_exit_hook = some f }
    else m

-- The loop of materializeTemplate.
unfoldable pub materialize_decls : List TemplateDecl → Materialized → Outcome Materialized
materialize_decls [] m = ok m
materialize_decls (type_decl t ∷ ds) m = materialize_decls ds (record m { call_ctx_decl = some t })
materialize_decls (var_decl x ∷ ds) m =
    materialize_decls ds (record m { var_decls = m.var_decls ++ x ∷ [] })
materialize_decls (method_decl f ∷ ds) m =
    assert (str_eq f.recv_type context_impl)
    >> materialize_decls ds (record m { call_ctx_methods = m.call_ctx_methods ++ f ∷ [] })
materialize_decls (func_decl f ∷ ds) m = materialize_decls ds (add_function f m)

-- What generateTrampoline makes for a function: the type of the call context and its methods, the
-- two trampolines, and the hooks that it declares.
pub record Generated : Type 0 where
  pub context_type : Str
  pub methods : List Method
  pub enter : Trampoline
  pub exit : Trampoline
  pub hooks : List (Str × List Field)

abbrev not_nil {ℓ} : {A : Type ℓ} → Option A → Outcome A
not_nil none = panicked
not_nil (some a) = ok a

abbrev pub is_empty {ℓ} : {A : Type ℓ} → List A → Bool
is_empty [] = true
is_empty (x ∷ xs) = false

-- materializeTemplate, whose asserts give the fields.
unfoldable pub materialize_template : List TemplateDecl → Outcome Generated
unfolding materialize_decls
materialize_template decls = do
  m ← materialize_decls decls nothing
  context_type ← not_nil m.call_ctx_decl
  assert (not (is_empty m.var_decls))
  enter ← not_nil m.on_enter_hook
  exit ← not_nil m.on_exit_hook
  ok (record {
    context_type = context_type;
    methods = m.call_ctx_methods;
    enter = enter;
    exit = exit;
    hooks = [];
  })
