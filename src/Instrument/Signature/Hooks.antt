-- ===== src/Instrument/Signature/Hooks.antt =====
-- The calls of the hooks that tool/instrument/trampoline.go puts into the trampolines, against the
-- declarations that addHookFuncVar adds for the hooks.
use opentelemetry_go_auto_in.Base.{
  any, arith, str_eq, if◌then◌else◌, sym, ap, subst, ◌∙◌, ◌≡◌, refl, Bool, true, false, ◌⊎◌, inl,
  inr, List, [], ◌∷◌, ◌++◌, map, Outcome, ok, Str, ◌≢◌,
}
use opentelemetry_go_auto_in.Instrument.Signature.{
  GoType, ident, interface_type, other, ellipsis, array, pointer, Field, FuncType, Arg,
  dereference_of, spread, name, ParamTrait, is_ellipsis, desugar_type, call_context_name,
  build_trampoline_type, rectify_types, rectify_field, on_enter_args, on_exit_args, hook_args,
  hook_arg, hook_params, rectify_any_type, any_typed, same_length, add_call_context, receiver,
}
use opentelemetry_go_auto_in.Instrument.Signature.Typed.{
  is_blank, In, Declares, one_each, asked, asked_by, AllNamed, Fits, FitAll, FitAll-append,
}

-- Where the traits are those of a hook that has a parameter for each field, variadic where the
-- function's is.
abbrev pub Agree : List ParamTrait → List Field → Type 0
Agree [] [] = Unit
Agree (trait ∷ traits) (f ∷ fs) =
    (trait.is_varadic ≡ is_ellipsis f.typ)
    × (trait.is_interface_any ≡ true → is_ellipsis f.typ ≡ false)
    × Agree traits fs
Agree traits fs = ⊥

same_length-Agree :
    (traits : List ParamTrait) (g : Field → Field) (fs : List Field)
    → Agree traits fs
    → same_length traits (map g fs) ≡ true
same_length-Agree [] g [] h = refl
same_length-Agree [] g (f ∷ fs) h = absurd h
same_length-Agree (t ∷ traits) g [] h = absurd h
same_length-Agree (t ∷ traits) g (f ∷ fs) (v, a, h) = same_length-Agree traits g fs h

length-Agree :
    (traits : List ParamTrait) (fs : List Field) → Agree traits fs → same_length fs traits ≡ true
length-Agree [] [] h = refl
length-Agree [] (f ∷ fs) h = absurd h
length-Agree (t ∷ traits) [] h = absurd h
length-Agree (t ∷ traits) (f ∷ fs) (v, a, h) = length-Agree traits fs h

-- The type that the hook's declaration gives a field.
abbrev declared : ParamTrait → GoType → GoType
declared trait t = if trait.is_interface_any then interface_type 0 else t

ellipsis_cases : (t : GoType) → ((s : GoType) × (t ≡ ellipsis s)) ⊎ (is_ellipsis t ≡ false)
ellipsis_cases (ellipsis s) = inl (s, refl)
ellipsis_cases (ident x) = inr refl
ellipsis_cases (interface_type n) = inr refl
ellipsis_cases (other n) = inr refl
ellipsis_cases (array t) = inr refl
ellipsis_cases (pointer t) = inr refl

desugar_plain : (t : GoType) → is_ellipsis t ≡ false → desugar_type t ≡ t
desugar_plain (ellipsis s) h = cc
desugar_plain (ident x) h = refl
desugar_plain (interface_type n) h = refl
desugar_plain (other n) h = refl
desugar_plain (array t) h = refl
desugar_plain (pointer t) h = refl

variadic_fits :
    (env : List Field) (v a : Bool) (s : GoType) (x : Str)
    → v ≡ true
    → (a ≡ true → true ≡ false)
    → Declares env x (pointer (array s))
    → Fits env
        (if v then spread x else dereference_of x)
        (if a then interface_type 0 else ellipsis s)
variadic_fits env v true s x e h d =
    let impossible : true ≡ false = h refl in absurd (cc impossible)
variadic_fits env v false s x e h d = rw e (s, refl, d)

plain_fits :
    (env : List Field) (v a : Bool) (t : GoType) (x : Str)
    → v ≡ false
    → Declares env x (pointer t)
    → Fits env (if v then spread x else dereference_of x) (if a then interface_type 0 else t)
plain_fits env v true t x e d = rw e (t, inr refl, d)
plain_fits env v false t x e d = rw e (t, inl refl, d)

hook_arg_fits :
    (env : List Field) (trait : ParamTrait) (t : GoType) (x : Str)
    → trait.is_varadic ≡ is_ellipsis t
    → (trait.is_interface_any ≡ true → is_ellipsis t ≡ false)
    → Declares env x (pointer (desugar_type t))
    → Fits env (hook_arg trait x) (declared trait t)
hook_arg_fits env trait t x v a d = elim (ellipsis_cases t) [
  | inl (s, e) ↦
      subst (λ u. Fits env (hook_arg trait x) (declared trait u)) (sym e)
        (variadic_fits env trait.is_varadic trait.is_interface_any s x (v ∙ ap is_ellipsis e)
          (λ any. sym (ap is_ellipsis e) ∙ a any)
          (subst (λ u. Declares env x (pointer (desugar_type u))) e d))
  | inr e ↦
      plain_fits env trait.is_varadic trait.is_interface_any t x (v ∙ e)
        (subst (λ u. Declares env x (pointer u)) (desugar_plain t e) d)
]

field_fits :
    (env : List Field) (trait : ParamTrait) (t : GoType) (xs : List Str)
    → trait.is_varadic ≡ is_ellipsis t
    → (trait.is_interface_any ≡ true → is_ellipsis t ≡ false)
    → any is_blank xs ≡ false
    → ((x : Str) → In x xs → Declares env x (pointer (desugar_type t)))
    → FitAll env (map (hook_arg trait) xs) (one_each (declared trait t) xs)
field_fits env trait t [] v a b h = tt
field_fits env trait t (x ∷ xs) v a b h = (
  hook_arg_fits env trait t x v a (h x (inl (refl, ground (arith, b)))),
  field_fits env trait t xs v a (ground (arith, b)) (λ y i. h y (inr i)),
)

asked_by-one_each : (t : GoType) (xs : List Str) → xs ≢ [] → asked_by t xs ≡ one_each t xs
asked_by-one_each t [] named = absurd (named refl)
asked_by-one_each t (x ∷ xs) named = refl

asked-any_typed :
    (trait : ParamTrait) (traits : List ParamTrait) (f : Field) (fs : List Field)
    → f.names ≢ []
    → asked (any_typed (f ∷ fs) (trait ∷ traits))
      ≡ one_each (declared trait f.typ) f.names ++ asked (any_typed fs traits)
asked-any_typed trait traits f fs named =
    elim trait.is_interface_any
      as (λ b.
        asked_by (if b then record f { typ = interface_type 0 } else f).typ
            (if b then record f { typ = interface_type 0 } else f).names
          ++ asked (any_typed fs traits)
        ≡ one_each (if b then interface_type 0 else f.typ) f.names ++ asked (any_typed fs traits)) [
          | true ↦ rw (asked_by-one_each (interface_type 0) f.names named) refl
          | false ↦ rw (asked_by-one_each f.typ f.names named) refl
        ]

hook_args_fit :
    (env : List Field) (traits : List ParamTrait) (fs : List Field)
    → Agree traits fs
    → AllNamed fs
    → ((x : Str) (t : GoType) → Declares (map rectify_field fs) x t → Declares env x t)
    → (args : List Arg) × (hook_args traits (map rectify_field fs) ≡ ok args)
      × FitAll env args (asked (any_typed fs traits))
unfolding hook_args
hook_args_fit env [] [] h all k = ([], refl, tt)
hook_args_fit env [] (f ∷ fs) h all k = absurd h
hook_args_fit env (trait ∷ traits) [] h all k = absurd h
hook_args_fit env (trait ∷ traits) (f ∷ fs) (v, a, h) (named, all) k =
    let (args, found, fit) = hook_args_fit env traits fs h all (λ x t d. k x t (inr d)) in
    let first : List Arg = map (hook_arg trait) f.names in
    (
      first ++ args,
      rw found refl,
      subst (FitAll env (first ++ args)) (sym (asked-any_typed trait traits f fs named.0)) (
          FitAll-append env first args _ _
            (field_fits env trait f.typ f.names v a named.1 (λ x i. k x _ (inl (refl, i)))) fit),
    )

-- The variables of a trampoline: the call context beside the rectified parameters.
abbrev pub variables : Bool → FuncType → List Field
variables on_enter raw = add_call_context (map rectify_field (build_trampoline_type on_enter raw))

abbrev pub hook_call : Bool → List ParamTrait → FuncType → Outcome (List Arg)
hook_call true traits raw = on_enter_args true traits (rectify_types true raw)
hook_call false traits raw = on_exit_args true traits (rectify_types false raw)

hook_call_ok :
    (on_enter : Bool) (raw : FuncType) (context : ParamTrait) (traits : List ParamTrait)
    (args : List Arg)
    → Agree traits (build_trampoline_type on_enter raw)
    → hook_args traits (map rectify_field (build_trampoline_type on_enter raw)) ≡ ok args
    → hook_call on_enter (context ∷ traits) raw ≡ ok (name call_context_name ∷ args)
unfolding rectify_types on_enter_args on_exit_args
hook_call_ok true raw context traits args h found =
    rw (same_length-Agree traits rectify_field (receiver raw.recv ++ raw.params) h) (rw found refl)
hook_call_ok false raw context traits args h found =
    rw (same_length-Agree traits rectify_field raw.results h) (rw found refl)

hook_params_ok :
    (on_enter : Bool) (raw : FuncType) (context : ParamTrait) (traits : List ParamTrait)
    → context.is_interface_any ≡ false
    → Agree traits (build_trampoline_type on_enter raw)
    → hook_params true raw (context ∷ traits) on_enter
      ≡ ok (add_call_context (any_typed (build_trampoline_type on_enter raw) traits))
unfolding hook_params rectify_any_type
hook_params_ok on_enter raw context traits e h =
    rw (length-Agree traits (build_trampoline_type on_enter raw) h) (rw e refl)

-- The hook that a rule names for a function gets the call context and then each receiver, parameter
-- or result, in the order and with the types with which it is declared, for a function whose
-- receiver, parameters and results have names that are not blank and a hook with a parameter for each of them, which
-- is variadic where the function's is, and may be an `interface{}` otherwise.
pub hook_calls_fit :
    (on_enter : Bool) (raw : FuncType) (context : ParamTrait) (traits : List ParamTrait)
    → context.is_interface_any ≡ false
    → Agree traits (build_trampoline_type on_enter raw)
    → AllNamed (build_trampoline_type on_enter raw)
    → let params = add_call_context (any_typed (build_trampoline_type on_enter raw) traits) in
      (args : List Arg) × (hook_call on_enter (context ∷ traits) raw ≡ ok args)
      × (hook_params true raw (context ∷ traits) on_enter ≡ ok params)
      × FitAll (variables on_enter raw) args (asked params)
hook_calls_fit on_enter raw context traits e h all =
    let fields : List Field = build_trampoline_type on_enter raw in
    let (args, found, fit) =
      hook_args_fit (variables on_enter raw) traits fields h all (λ x t d. inr d) in
    (
      name call_context_name ∷ args,
      hook_call_ok on_enter raw context traits args h found,
      hook_params_ok on_enter raw context traits e h,
      (inl (refl, inl (refl, unfold str_eq in refl)), fit),
    )
