-- ===== src/Instrument/Signature.antt =====
-- tool/instrument/trampoline.go and the part of insertTJump in tool/instrument/inst_func.go that
-- builds the calls of the trampolines: the parameter lists of the trampolines, the arguments they
-- get from the jump, and those that they hand to the hooks.
pub mod Typed
pub mod Hooks
use opentelemetry_go_auto_in.Base.{
  ℕ, ◌+◌, Bool, true, false, List, [], ◌∷◌, ◌++◌, map, if◌then◌else◌, Outcome, ok, err, panicked,
  ◌>>=◌, Code, Str, codes,
}

-- The type expressions that the generator tells apart: `interface_type` is the literal
-- `interface{...}`, numbered by its methods with 0 for none, `other` every expression that it only
-- copies.
pub data GoType : Type 0 where
  ident : Str → GoType
  interface_type other : ℕ → GoType
  ellipsis array pointer : GoType → GoType

-- dst.Field: several names may share a type.
pub record Field : Type 0 where
  pub names : List Str
  pub typ : GoType

-- The receiver, the parameters and the results of a function; Recv and Results may be nil, which
-- the code treats like empty lists.
pub record FuncType : Type 0 where
  pub recv : List Field
  pub params : List Field
  pub results : List Field

-- An expression of a call: `&x`, `*x`, `*x...` or `x`.
pub data Arg : Type 0 where
  address_of dereference_of spread name : Str → Arg

-- Its index, which nothing reads, is left out.
pub record ParamTrait : Type 0 where
  pub is_varadic : Bool
  pub is_interface_any : Bool

abbrev pub is_interface_type : GoType → Bool
is_interface_type (interface_type n) = true
is_interface_type _ = false

abbrev pub is_ellipsis : GoType → Bool
is_ellipsis (ellipsis t) = true
is_ellipsis _ = false

abbrev pub desugar_type : GoType → GoType
desugar_type (ellipsis t) = array t
desugar_type t = t

abbrev pub get_names : List Field → List Str
get_names [] = []
get_names (f ∷ fs) = f.names ++ get_names fs

-- `HasReceiver` with `Recv.List[0]`.
abbrev pub receiver : List Field → List Field
receiver [] = []
receiver (f ∷ fs) = f ∷ []

abbrev pub call_context_name : Str
call_context_name = codes "callContext"

abbrev pub build_trampoline_type : Bool → FuncType → List Field
build_trampoline_type true raw = receiver raw.recv ++ raw.params
build_trampoline_type false raw = raw.results

abbrev pub add_call_context : List Field → List Field
add_call_context fields =
    record { names = call_context_name ∷ []; typ = ident (codes "CallContext") } ∷ fields

abbrev rectify_field : Field → Field
rectify_field f = record f { typ = pointer (desugar_type f.typ) }

-- rectifyTypes: the parameters of the enter trampoline (true) and of the exit trampoline.
unfoldable pub rectify_types : Bool → FuncType → List Field
rectify_types true raw = map rectify_field (build_trampoline_type true raw)
rectify_types false raw = add_call_context (map rectify_field (build_trampoline_type false raw))

-- `Names[0]`, out of range for a receiver without a name.
abbrev first_name : List Str → Outcome (List Arg)
first_name [] = panicked
first_name (x ∷ xs) = ok (address_of x ∷ [])

abbrev receiver_args : List Field → Outcome (List Arg)
receiver_args [] = ok []
receiver_args (f ∷ fs) = first_name f.names

-- insertTJump: the arguments of the enter trampoline, and those of the exit trampoline for a
-- random `suffix`.
unfoldable pub enter_args : FuncType → Outcome (List Arg)
enter_args raw =
    receiver_args raw.recv >>= λ args. ok (args ++ map address_of (get_names raw.params))

unfoldable pub exit_args : Str → FuncType → List Arg
exit_args suffix raw = name (call_context_name ++ suffix) ∷ map address_of (get_names raw.results)

-- getHookParamTraits, for the parameters of the hook.
unfoldable pub param_traits : List Field → List ParamTrait
param_traits [] = []
param_traits (f ∷ fs) =
    record { is_varadic = is_ellipsis f.typ; is_interface_any = is_interface_type f.typ }
    ∷ param_traits fs

abbrev hook_arg : ParamTrait → Str → Arg
hook_arg trait x = if trait.is_varadic then spread x else dereference_of x

-- The loops of callOnEnterHook and callOnExitHook over the fields behind the call context. A trait
-- that is missing is an index out of range.
unfoldable pub hook_args : List ParamTrait → List Field → Outcome (List Arg)
hook_args traits [] = ok []
hook_args [] (f ∷ fs) = panicked
hook_args (trait ∷ traits) (f ∷ fs) =
    hook_args traits fs >>= λ args. ok (map (hook_arg trait) f.names ++ args)

abbrev same_length : {A B : Type 0} → List A → List B → Bool
same_length [] [] = true
same_length (x ∷ xs) (y ∷ ys) = same_length xs ys
same_length _ _ = false

-- callOnEnterHook, on the parameters of the enter trampoline: the arguments of the hook. `exact`
-- says that the rule names the function, so that the hook has its parameters.
unfoldable pub on_enter_args : Bool → List ParamTrait → List Field → Outcome (List Arg)
unfolding hook_args
on_enter_args false traits params = ok (name call_context_name ∷ [])
on_enter_args true [] params = panicked
on_enter_args true (trait ∷ traits) params =
    if same_length traits params
    then (hook_args traits params >>= λ args. ok (name call_context_name ∷ args))
    else panicked

-- callOnExitHook; the first parameter is the call context, which has a trait.
unfoldable pub on_exit_args : Bool → List ParamTrait → List Field → Outcome (List Arg)
unfolding hook_args
on_exit_args exact [] [] = ok []
on_exit_args exact (trait ∷ traits) [] = if exact then panicked else ok []
on_exit_args false traits (f ∷ fs) = ok (name call_context_name ∷ [])
on_exit_args true [] (f ∷ fs) = panicked
on_exit_args true (trait ∷ traits) (f ∷ fs) =
    if same_length traits fs
    then (hook_args traits fs >>= λ args. ok (name call_context_name ∷ args))
    else panicked

-- rectifyAnyType, for parameters and traits of the same number.
abbrev pub any_typed : List Field → List ParamTrait → List Field
any_typed (f ∷ fs) (trait ∷ traits) =
    (if trait.is_interface_any then record f { typ = interface_type 0 } else f)
    ∷ any_typed fs traits
any_typed fields _ = fields

unfoldable pub rectify_any_type : List Field → List ParamTrait → Outcome (List Field)
rectify_any_type params traits =
    if same_length params traits then ok (any_typed params traits) else err Code.internal

-- addHookFuncVar: the parameters with which the hook is declared in the target file.
unfoldable pub hook_params : Bool → FuncType → List ParamTrait → Bool → Outcome (List Field)
unfolding rectify_any_type
hook_params exact raw traits on_enter =
    if exact
    then rectify_any_type (add_call_context (build_trampoline_type on_enter raw)) traits
    else ok (add_call_context [])

-- nameReturnValues; `name_at` is the name "retVal%d" of a number.
unfoldable pub name_return_values : (ℕ → Str) → ℕ → List Field → List Field
name_return_values name_at idx [] = []
name_return_values name_at idx (f ∷ fs) = elim f.names [
  | [] ↦ record f { names = name_at idx ∷ [] } ∷ name_return_values name_at (idx + 1) fs
  | x ∷ xs ↦ f ∷ name_return_values name_at idx fs
]
