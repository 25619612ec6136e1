-- ===== src/Instrument/Signature/Typed.antt =====
-- The calls that tool/instrument/trampoline.go generates, against Go's rule for the arguments of a
-- call.
use opentelemetry_go_auto_in.Base.{
  Bool, any, arith, str_eq, ℕ, ◌+◌, ◌≡◌, refl, true, false, ◌⊎◌, inl, inr, List, [], ◌∷◌, ◌++◌, map,
  ok, ◌>>=◌, Str, codes, All, ◌≢◌,
}
use opentelemetry_go_auto_in.Instrument.Signature.{
  GoType, ident, interface_type, other, ellipsis, array, pointer, Field, FuncType, Arg, address_of,
  dereference_of, spread, name, desugar_type, get_names, receiver, call_context_name,
  build_trampoline_type, rectify_types, rectify_field, enter_args, receiver_args, exit_args,
  name_return_values,
}

-- The blank identifier, which is no variable: neither its address nor its value can be taken.
abbrev pub is_blank : Str → Bool
is_blank x = str_eq x (codes "_")

-- Where x is a variable and one of the names.
abbrev pub In : Str → List Str → Type 0
In x [] = ⊥
In x (y ∷ ys) = ((y ≡ x) × (is_blank y ≡ false)) ⊎ In x ys

-- Where the fields give x the type t.
abbrev pub Declares : List Field → Str → GoType → Type 0
Declares [] x t = ⊥
Declares (f ∷ fs) x t = ((f.typ ≡ t) × In x f.names) ⊎ Declares fs x t

abbrev pub one_each : GoType → List Str → List GoType
one_each t [] = []
one_each t (x ∷ xs) = t ∷ one_each t xs

-- The types that a parameter list asks for: one for each name, and one for a field without a name.
abbrev pub asked_by : GoType → List Str → List GoType
asked_by t [] = t ∷ []
asked_by t (x ∷ xs) = one_each t (x ∷ xs)

abbrev pub asked : List Field → List GoType
asked [] = []
asked (f ∷ fs) = asked_by f.typ f.names ++ asked fs

-- Where no name is blank.
abbrev pub NoBlank : List Field → Type 0
NoBlank fs = All (λ f. any is_blank f.names ≡ false) fs

-- Where every field has a name, and none is blank.
abbrev pub AllNamed : List Field → Type 0
AllNamed fs = All (λ f. (f.names ≢ []) × (any is_blank f.names ≡ false)) fs

-- The type of a parameter in the body of its function: that of a variadic one is a slice.
abbrev pub as_seen : GoType → GoType
as_seen (ident x) = ident x
as_seen (interface_type n) = interface_type n
as_seen (other n) = other n
as_seen (ellipsis t) = array t
as_seen (array t) = array t
as_seen (pointer t) = pointer t

as_seen-desugar_type : (t : GoType) → as_seen t ≡ desugar_type t
as_seen-desugar_type (ident x) = refl
as_seen-desugar_type (interface_type n) = refl
as_seen-desugar_type (other n) = refl
as_seen-desugar_type (ellipsis t) = refl
as_seen-desugar_type (array t) = refl
as_seen-desugar_type (pointer t) = refl

-- The fields as the body of the function sees them.
abbrev pub seen_inside : List Field → List Field
seen_inside [] = []
seen_inside (f ∷ fs) = record f { typ = as_seen f.typ } ∷ seen_inside fs

-- The variable that holds the call context beside the function's own.
abbrev pub context_of : Str → Field
context_of suffix = record {
  names = (call_context_name ++ suffix) ∷ [];
  typ = ident (codes "CallContext");
}

-- Where the argument may be passed for a parameter of that type. A literal `interface{}` takes any.
abbrev pub Fits : List Field → Arg → GoType → Type 0
Fits env (address_of x) t = (s : GoType) × (t ≡ pointer s) × Declares env x s
Fits env (dereference_of x) t =
    (s : GoType) × ((s ≡ t) ⊎ (t ≡ interface_type 0)) × Declares env x (pointer s)
Fits env (spread x) t = (s : GoType) × (t ≡ ellipsis s) × Declares env x (pointer (array s))
Fits env (name x) t = Declares env x t

abbrev pub FitAll : List Field → List Arg → List GoType → Type 0
FitAll env [] [] = Unit
FitAll env (a ∷ args) (t ∷ ts) = Fits env a t × FitAll env args ts
FitAll env args ts = ⊥

pub FitAll-append :
    (env : List Field) (args bs : List Arg) (ts us : List GoType)
    → FitAll env args ts
    → FitAll env bs us
    → FitAll env (args ++ bs) (ts ++ us)
FitAll-append env [] bs [] us h k = k
FitAll-append env [] bs (t ∷ ts) us h k = absurd h
FitAll-append env (a ∷ args) bs [] us h k = absurd h
FitAll-append env (a ∷ args) bs (t ∷ ts) us (h, hs) k = (h, FitAll-append env args bs ts us hs k)

addresses_of :
    (env : List Field) (xs : List Str) (t : GoType)
    → any is_blank xs ≡ false
    → ((x : Str) → In x xs → Declares env x t)
    → FitAll env (map address_of xs) (one_each (pointer t) xs)
addresses_of env [] t b h = tt
addresses_of env (x ∷ xs) t b h = (
  (t, refl, h x (inl (refl, ground (arith, b)))),
  addresses_of env xs t (ground (arith, b)) (λ y i. h y (inr i)),
)

addresses_of_field :
    (env : List Field) (xs : List Str) (t : GoType)
    → (xs ≢ []) × (any is_blank xs ≡ false)
    → ((x : Str) → In x xs → Declares env x t)
    → FitAll env (map address_of xs) (asked_by (pointer t) xs)
addresses_of_field env [] t named h = absurd (named.0 refl)
addresses_of_field env (x ∷ xs) t named h = addresses_of env (x ∷ xs) t named.1 h

map-append : (f : Str → Arg) (xs ys : List Str) → map f (xs ++ ys) ≡ map f xs ++ map f ys
map-append f [] ys = refl
map-append f (x ∷ xs) ys = rw (map-append f xs ys)

addresses_of_fields :
    (env : List Field) (fs : List Field)
    → AllNamed fs
    → ((x : Str) (t : GoType) → Declares (seen_inside fs) x t → Declares env x t)
    → FitAll env (map address_of (get_names fs)) (asked (map rectify_field fs))
addresses_of_fields env [] all h = tt
addresses_of_fields env (f ∷ fs) (named, all) h =
    rw (map-append address_of f.names (get_names fs)) (
      FitAll-append env (map address_of f.names) (map address_of (get_names fs)) _ _
        (addresses_of_field env f.names (desugar_type f.typ) named
          (λ x i. h x _ (inl (as_seen-desugar_type f.typ, i))))
        (addresses_of_fields env fs all (λ x t d. h x t (inr d))))

-- Where the receiver, if there is one, has a name that is not blank.
abbrev pub IsReceiver : List Field → Type 0
IsReceiver [] = Unit
IsReceiver (f ∷ fs) = (x : Str) × (f.names ≡ x ∷ []) × (is_blank x ≡ false)

enter_fits :
    (recv params : List Field)
    → IsReceiver recv
    → AllNamed params
    → (args : List Arg) × ((receiver_args recv >>= λ first.
          ok (first ++ map address_of (get_names params)))
        ≡ ok args)
      × FitAll
          (seen_inside (receiver recv ++ params))
          args
          (asked (map rectify_field (receiver recv ++ params)))
enter_fits [] params h all = (
  map address_of (get_names params),
  refl,
  addresses_of_fields (seen_inside params) params all (λ x t d. d),
)
enter_fits (f ∷ fs) params (x, e, b) all = rw e (
  address_of x ∷ map address_of (get_names params),
  refl,
  (
    (desugar_type f.typ, refl, inl (as_seen-desugar_type f.typ, inl (refl, b))),
    addresses_of_fields (record { names = x ∷ []; typ = as_seen f.typ } ∷ seen_inside params) params
        all (λ y t d. inr d),
  ),
)

names_cases : (xs : List Str) → (xs ≡ []) ⊎ ((y : Str) × (ys : List Str) × (xs ≡ y ∷ ys))
names_cases [] = inl refl
names_cases (x ∷ xs) = inr (x, xs, refl)

named_results :
    (name_at : ℕ → Str) (i : ℕ) (fs : List Field)
    → ((j : ℕ) → is_blank (name_at j) ≡ false)
    → NoBlank fs
    → AllNamed (name_return_values name_at i fs)
unfolding name_return_values
named_results name_at i [] n b = tt
named_results name_at i (f ∷ fs) n (b, bs) = elim (names_cases f.names) [
  | inl e ↦ rw e (((λ p. cc), ground (arith, n i)), named_results name_at (i + 1) fs n bs)
  | inr (x, xs, e) ↦
      let here : f.names ≢ [] = (λ p. cc) in rw e ((here, b), named_results name_at i fs n bs)
]

-- Of a function whose receiver and parameters have names, and none of whose names is blank, the
-- receiver and the parameters are passed to the enter trampoline, and the call context with the
-- results that nameReturnValues has named to the exit trampoline, as the parameter lists of the
-- trampolines ask for them; a variadic parameter is passed as the address of a slice.
pub trampoline_calls_fit :
    (name_at : ℕ → Str) (suffix : Str) (raw : FuncType)
    → ((i : ℕ) → is_blank (name_at i) ≡ false)
    → IsReceiver raw.recv
    → AllNamed raw.params
    → NoBlank raw.results
    → let named = record raw { results = name_return_values name_at 0 raw.results } in
      ((args : List Arg) × (enter_args named ≡ ok args)
        × FitAll
            (seen_inside (build_trampoline_type true named))
            args
            (asked (rectify_types true named)))
      × FitAll
          (context_of suffix ∷ seen_inside named.results)
          (exit_args suffix named)
          (asked (rectify_types false named))
unfolding enter_args rectify_types exit_args
trampoline_calls_fit name_at suffix raw n h all b =
    let results = name_return_values name_at 0 raw.results in
    let env = context_of suffix ∷ seen_inside results in
    (
      enter_fits raw.recv raw.params h all,
      (
        inl (refl, inl (refl, unfold str_eq in refl)),
        addresses_of_fields env results (named_results name_at 0 raw.results n b) (λ x t d. inr d),
      ),
    )
