-- ===== src/Instrument/CallContext/ReadBack.antt =====
-- What a hook reads and writes through the generated methods of its call context, in terms of the
-- variables of the instrumented function.
use opentelemetry_go_auto_in.Base.{
  ℕ, zero, suc, ◌+◌, ◌≡◌, refl, sym, ap, subst, ◌∙◌, ◌≢◌, ◌⊎◌, inl, inr, Bool, true, false, some,
  List, [], ◌∷◌, ◌++◌, if◌then◌else◌, ok, panicked, get_elem?, ◌==◌, arith, Str, str_eq_refl,
  Bool-cases,
}
use opentelemetry_go_auto_in.Instrument.Signature.{
  GoType, ident, interface_type, other, ellipsis, array, pointer, Field, FuncType,
  is_interface_type, desugar_type,
}
use opentelemetry_go_auto_in.Instrument.Signature.Typed.{one_each}
use opentelemetry_go_auto_in.Instrument.CallContext.{
  CaseClause, Access, through, element, value_clause, name_clauses, names_after, field_clauses,
  param_clauses, return_val_clauses, Value, nil, address, value, Memory, store, same_type, nth,
  set_nth, find_clause, get_by, get_value, set_value, is_nil,
}

-- The types of the variables whose addresses the list of the call context holds.
abbrev pub slot_types : List Field → List GoType
slot_types [] = []
slot_types (f ∷ fs) = one_each (desugar_type f.typ) f.names ++ slot_types fs

-- The receiver takes one place.
abbrev pub param_types : FuncType → List GoType
param_types raw = elim raw.recv [
  | [] ↦ slot_types raw.params
  | f ∷ fs ↦ f.typ ∷ slot_types raw.params
]

abbrev numbered : ℕ → List GoType → List CaseClause
numbered idx [] = []
numbered idx (t ∷ ts) = value_clause idx t ∷ numbered (idx + 1) ts

numbered_names :
    (idx : ℕ) (t : GoType) (xs : List Str) (ts : List GoType)
    → name_clauses idx t xs ++ numbered (names_after idx xs) ts ≡ numbered idx (one_each t xs ++ ts)
numbered_names idx t [] ts = refl
numbered_names idx t (x ∷ xs) ts = rw (numbered_names (idx + 1) t xs ts) refl

numbered_fields : (idx : ℕ) (fs : List Field) → field_clauses idx fs ≡ numbered idx (slot_types fs)
numbered_fields idx [] = refl
numbered_fields idx (f ∷ fs) =
    rw (numbered_fields (names_after idx f.names) fs)
      (numbered_names idx (desugar_type f.typ) f.names (slot_types fs))

numbered_params :
    (recv params : List Field)
    → (elim recv [
      | [] ↦ field_clauses 0 params
      | f ∷ fs ↦ value_clause 0 f.typ ∷ field_clauses 1 params
    ])
      ≡ numbered 0 (elim recv [ [] ↦ slot_types params | f ∷ fs ↦ f.typ ∷ slot_types params ])
numbered_params [] params = numbered_fields 0 params
numbered_params (f ∷ fs) params = rw (numbered_fields 1 params) refl

abbrev access_of : GoType → Access
access_of t = if is_interface_type t then element else through t

find_clause-numbered :
    (idx i : ℕ) (ts : List GoType) (t : GoType)
    → get_elem? ts i ≡ some t
    → find_clause (idx + i) (numbered idx ts) ≡ some (access_of t)
find_clause-numbered idx i [] t h = cc
find_clause-numbered idx zero (u ∷ ts) t h = let same : u ≡ t = cc in rw same (ground arith)
find_clause-numbered idx (suc i) (u ∷ ts) t h =
    let ih : find_clause ((idx + 1) + i) (numbered (idx + 1) ts) ≡ some (access_of t) =
      find_clause-numbered (idx + 1) i ts t h in
    let moved : (idx + 1) + i ≡ idx + suc i = omega arith in
    let ih' : find_clause (idx + suc i) (numbered (idx + 1) ts) ≡ some (access_of t) =
      subst (λ k. find_clause k (numbered (idx + 1) ts) ≡ some (access_of t)) moved ih in
    let apart : (idx == idx + suc i) ≡ false = ground arith in rw apart ih'

same_type_refl : (t : GoType) → same_type t t ≡ true
same_type_refl (ident x) = str_eq_refl x
same_type_refl (interface_type m) = ground arith
same_type_refl (other m) = ground arith
same_type_refl (ellipsis t) = same_type_refl t
same_type_refl (array t) = same_type_refl t
same_type_refl (pointer t) = same_type_refl t

-- The variables of the function, in the order of the list: their types and where they are.
abbrev pub types : List (GoType × ℕ) → List GoType
types [] = []
types ((t, a) ∷ slots) = t ∷ types slots

-- What the trampoline fills the list with.
abbrev pub pointers : List (GoType × ℕ) → List Value
pointers [] = []
pointers ((t, a) ∷ slots) = address t a ∷ pointers slots

types_at :
    (slots : List (GoType × ℕ)) (i : ℕ) (t : GoType) (a : ℕ)
    → get_elem? slots i ≡ some (t, a)
    → get_elem? (types slots) i ≡ some t
types_at [] i t a h = cc
types_at ((u, b) ∷ slots) zero t a h = cc
types_at ((u, b) ∷ slots) (suc i) t a h = types_at slots i t a h

nth-pointers :
    (slots : List (GoType × ℕ)) (i : ℕ) (t : GoType) (a : ℕ)
    → get_elem? slots i ≡ some (t, a)
    → nth i (pointers slots) ≡ ok (address t a)
nth-pointers [] i t a h = cc
nth-pointers ((u, b) ∷ slots) zero t a h = cc
nth-pointers ((u, b) ∷ slots) (suc i) t a h = nth-pointers slots i t a h

set_nth-nth :
    (i : ℕ) (v w : Value) (vs : List Value)
    → nth i vs ≡ ok w
    → (vs' : List Value) × (set_nth i v vs ≡ ok vs') × (nth i vs' ≡ ok v)
set_nth-nth i v w [] h = cc
set_nth-nth zero v w (x ∷ vs) h = (v ∷ vs, refl, refl)
set_nth-nth (suc i) v w (x ∷ vs) h =
    let (vs', e, r) = set_nth-nth i v w vs h in (x ∷ vs', rw e refl, r)

found_at :
    (clauses : List CaseClause) (slots : List (GoType × ℕ)) (i : ℕ) (t : GoType) (a : ℕ)
    → clauses ≡ numbered 0 (types slots)
    → get_elem? slots i ≡ some (t, a)
    → find_clause i clauses ≡ some (access_of t)
found_at clauses slots i t a e h =
    let found : find_clause (0 + i) (numbered 0 (types slots)) ≡ some (access_of t) =
      find_clause-numbered 0 i (types slots) t (types_at slots i t a h) in
    let moved : 0 + i ≡ i = omega arith in
    rw e (subst (λ k. find_clause k (numbered 0 (types slots)) ≡ some (access_of t)) moved found)

get_through :
    (slots : List (GoType × ℕ)) (i : ℕ) (t : GoType) (a : ℕ) (mem : Memory)
    → get_elem? slots i ≡ some (t, a)
    → get_by (through t) i (pointers slots) mem ≡ ok (mem a)
get_through slots i t a mem h = rw (nth-pointers slots i t a h) (rw (same_type_refl t) refl)

get_value_at :
    (clauses : List CaseClause) (slots : List (GoType × ℕ)) (i : ℕ) (t : GoType) (a : ℕ)
    (mem : Memory)
    → clauses ≡ numbered 0 (types slots)
    → is_interface_type t ≡ false
    → get_elem? slots i ≡ some (t, a)
    → get_value clauses i (pointers slots) mem ≡ ok (mem a)
unfolding get_value
get_value_at clauses slots i t a mem e plain h =
    rw (get_value, found_at clauses slots i t a e h) (rw plain (get_through slots i t a mem h))

set_value_element :
    (accepts : GoType → Value → Bool) (cs : List CaseClause) (i : ℕ) (v : Value)
    (list list' : List Value) (mem : Memory)
    → find_clause i cs ≡ some element
    → set_nth i v list ≡ ok list'
    → set_value accepts cs i v list mem ≡ ok (list', mem)
unfolding set_value
set_value_element accepts cs i nil list list' mem found put = rw put refl
set_value_element accepts cs i (address t a) list list' mem found put = rw found (rw put refl)
set_value_element accepts cs i (value n) list list' mem found put = rw found (rw put refl)

get_value_nil :
    (cs : List CaseClause) (i : ℕ) (t : GoType) (list : List Value) (mem : Memory)
    → find_clause i cs ≡ some (access_of t)
    → nth i list ≡ ok nil
    → get_value cs i list mem ≡ (if is_interface_type t then ok nil else panicked)
unfolding get_value
get_value_nil cs i t list mem found read = elim (Bool-cases (is_interface_type t)) [
  | inl any ↦ rw (get_value, found) (rw any read)
  | inr plain ↦ rw (get_value, found) (rw plain (rw read refl))
]

nil_lost :
    (accepts : GoType → Value → Bool) (cs : List CaseClause) (slots : List (GoType × ℕ)) (i : ℕ)
    (t : GoType) (a : ℕ) (mem : Memory)
    → find_clause i cs ≡ some (access_of t)
    → get_elem? slots i ≡ some (t, a)
    → (list : List Value) × (set_value accepts cs i nil (pointers slots) mem ≡ ok (list, mem))
      × (get_value cs i list mem ≡ (if is_interface_type t then ok nil else panicked))
unfolding set_value
nil_lost accepts cs slots i t a mem found h =
    let (list, put, read) =
      set_nth-nth i nil (address t a) (pointers slots) (nth-pointers slots i t a h) in
    (list, rw put refl, get_value_nil cs i t list mem found read)

-- The methods for the receiver and the parameters (true), and for the results.
abbrev pub clauses : Bool → FuncType → List CaseClause
clauses true raw = param_clauses raw
clauses false raw = return_val_clauses raw

abbrev pub listed_types : Bool → FuncType → List GoType
listed_types true raw = param_types raw
listed_types false raw = slot_types raw.results

clauses-numbered :
    (on_enter : Bool) (raw : FuncType) (slots : List (GoType × ℕ))
    → types slots ≡ listed_types on_enter raw
    → clauses on_enter raw ≡ numbered 0 (types slots)
unfolding param_clauses return_val_clauses
clauses-numbered true raw slots e = rw e (numbered_params raw.recv raw.params)
clauses-numbered false raw slots e = rw e (numbered_fields 0 raw.results)

module _ (accepts : GoType → Value → Bool) (on_enter : Bool) (raw : FuncType)
    (slots : List (GoType × ℕ)) (e : types slots ≡ listed_types on_enter raw) where
  -- The call context of a trampoline holds the addresses of the variables of the function, and the
  -- generated setter and getter of an index are called. A value that is not nil and has the type of
  -- the variable, where that is no literal interface, is stored into the variable itself; the
  -- getter then returns it, and the getter of another
  -- variable, no literal interface either, returns what it did.
  pub set_value-get_value :
      (i j : ℕ) (t u : GoType) (a b : ℕ) (v : Value) (mem : Memory)
      → get_elem? slots i ≡ some (t, a)
      → is_interface_type t ≡ false
      → is_nil v ≡ false
      → accepts t v ≡ true
      → get_elem? slots j ≡ some (u, b)
      → is_interface_type u ≡ false
      → a ≢ b
      → (set_value accepts (clauses on_enter raw) i v (pointers slots) mem
          ≡ ok (pointers slots, store a v mem))
        × (get_value (clauses on_enter raw) i (pointers slots) (store a v mem) ≡ ok v)
        × (get_value (clauses on_enter raw) j (pointers slots) (store a v mem)
            ≡ get_value (clauses on_enter raw) j (pointers slots) mem)
  unfolding set_value
  set_value-get_value i j t u a b v mem h plain some_value typed k plain' apart =
      let cs = clauses on_enter raw in
      let from : cs ≡ numbered 0 (types slots) = clauses-numbered on_enter raw slots e in
      let found = found_at cs slots i t a from h in
      let here : store a v mem a ≡ v = ground arith in
      let away : store a v mem b ≡ mem b = ground arith in
      (
        rw some_value (
            rw found
              (rw plain (rw (nth-pointers slots i t a h) (rw (same_type_refl t) (rw typed refl))))),
        get_value_at cs slots i t a (store a v mem) from plain h ∙ ap ok here,
        get_value_at cs slots j u b (store a v mem) from plain' k
            ∙ ap ok away
            ∙ sym (get_value_at cs slots j u b mem from plain' k),
      )

  -- A nil value, and any value for a variable whose type is a literal interface, is put in the place
  -- of the address: no variable of the function changes. The getter then returns the value for an
  -- interface, and for another type it panics.
  pub set_value_lost :
      (i : ℕ) (t : GoType) (a : ℕ) (v : Value) (mem : Memory)
      → get_elem? slots i ≡ some (t, a)
      → (is_interface_type t ≡ true) ⊎ (v ≡ nil)
      → (list : List Value) × (set_value accepts (clauses on_enter raw) i v (pointers slots) mem
          ≡ ok (list, mem))
        × (get_value (clauses on_enter raw) i list mem
            ≡ (if is_interface_type t then ok v else panicked))
  unfolding set_value get_value
  set_value_lost i t a v mem h cause =
      let cs = clauses on_enter raw in
      let found = found_at cs slots i t a (clauses-numbered on_enter raw slots e) h in
      let (list, put, read) =
        set_nth-nth i v (address t a) (pointers slots) (nth-pointers slots i t a h) in
      elim cause [
        | inl any ↦ (
          list,
          set_value_element accepts cs i v (pointers slots) list mem
              (found ∙ ap (λ b. some (if b then element else through t)) any) put,
          rw (get_value, found) (rw any read),
        )
        | inr gone ↦
            subst
              (λ u.
                (list : List Value) × (set_value accepts cs i u (pointers slots) mem
                  ≡ ok (list, mem))
                × (get_value cs i list mem ≡ (if is_interface_type t then ok u else panicked)))
              (sym gone) (nil_lost accepts cs slots i t a mem found h)
      ]
