-- ===== src/Instrument/CallContext.antt =====
-- tool/instrument/trampoline.go, rewriteCallContextImpl: the cases that are generated for GetParam,
-- SetParam, GetReturnVal and SetReturnVal of the CallContextImpl of a function, and what those
-- methods of tool/instrument/template.go do with them when a hook calls them.
pub mod ReadBack
use opentelemetry_go_auto_in.Base.{
  ℕ, zero, ◌+◌, Bool, true, false, Option, none, some, List, [], ◌∷◌, ◌++◌, if◌then◌else◌, Outcome,
  ok, panicked, ◌>>=◌, ◌>>◌, assert, suc, ◌==◌, Str, str_eq,
}
use opentelemetry_go_auto_in.Instrument.Signature.{
  GoType, ident, interface_type, other, ellipsis, array, pointer, Field, FuncType,
  is_interface_type, desugar_type,
}

-- The statement of a case, for the list Params or ReturnVals: `through t` reads or writes
-- `*(list[index].(*t))`, `element` the entry `list[index]` itself.
pub data Access : Type 0 where
  through : GoType → Access
  element : Access

pub record CaseClause : Type 0 where
  pub index : ℕ
  pub access : Access

-- setValue and getValue, which differ in the statement around the same expression.
abbrev pub value_clause : ℕ → GoType → CaseClause
value_clause idx t = record {
  index = idx;
  access = (if is_interface_type t then element else through t);
}

-- `for range param.Names`
abbrev pub name_clauses : ℕ → GoType → List Str → List CaseClause
name_clauses idx t [] = []
name_clauses idx t (x ∷ xs) = value_clause idx t ∷ name_clauses (idx + 1) t xs

abbrev names_after : ℕ → List Str → ℕ
names_after idx [] = idx
names_after idx (x ∷ xs) = names_after (idx + 1) xs

abbrev pub field_clauses : ℕ → List Field → List CaseClause
field_clauses idx [] = []
field_clauses idx (f ∷ fs) =
    name_clauses idx (desugar_type f.typ) f.names ++ field_clauses (names_after idx f.names) fs

-- The cases of SetParam and of GetParam, and those of SetReturnVal and of GetReturnVal: the four
-- switch statements, two by two with the same indices and types.
unfoldable pub param_clauses : FuncType → List CaseClause
param_clauses raw = elim raw.recv [
  | [] ↦ field_clauses 0 raw.params
  | f ∷ fs ↦ value_clause 0 f.typ ∷ field_clauses 1 raw.params
]

unfoldable pub return_val_clauses : FuncType → List CaseClause
return_val_clauses raw = field_clauses 0 raw.results

-- A value of type interface{}: the nil interface, a pointer to a variable of that type, or another
-- value by its number.
pub data Value : Type 0 where
  nil : Value
  address : GoType → ℕ → Value
  value : ℕ → Value

abbrev pub is_nil : Value → Bool
is_nil nil = true
is_nil _ = false

-- The contents of the variables.
abbrev pub Memory : Type 0
Memory = ℕ → Value

abbrev pub store : ℕ → Value → Memory → Memory
store a v mem b = if a == b then v else mem b

abbrev pub same_type : GoType → GoType → Bool
same_type (ident x) (ident y) = str_eq x y
same_type (interface_type m) (interface_type n) = m == n
same_type (other m) (other n) = m == n
same_type (ellipsis t) (ellipsis u) = same_type t u
same_type (array t) (array u) = same_type t u
same_type (pointer t) (pointer u) = same_type t u
same_type _ _ = false

-- The type assertion `v.(*t)`.
abbrev pub as_pointer : GoType → Value → Outcome ℕ
as_pointer t nil = panicked
as_pointer t (value n) = panicked
as_pointer t (address u a) = if same_type u t then ok a else panicked

abbrev pub nth : ℕ → List Value → Outcome Value
nth i [] = panicked
nth zero (v ∷ vs) = ok v
nth (suc i) (v ∷ vs) = nth i vs

abbrev pub set_nth : ℕ → Value → List Value → Outcome (List Value)
set_nth i v [] = panicked
set_nth zero v (w ∷ vs) = ok (v ∷ vs)
set_nth (suc i) v (w ∷ vs) = set_nth i v vs >>= λ vs'. ok (w ∷ vs')

abbrev pub find_clause : ℕ → List CaseClause → Option Access
find_clause i [] = none
find_clause i (c ∷ cs) = if c.index == i then some c.access else find_clause i cs

abbrev get_by : Access → ℕ → List Value → Memory → Outcome Value
get_by element i list mem = nth i list
get_by (through t) i list mem = nth i list >>= λ p. as_pointer t p >>= λ a. ok (mem a)

-- GetParam and GetReturnVal.
unfoldable pub get_value : List CaseClause → ℕ → List Value → Memory → Outcome Value
get_value clauses i list mem = elim (find_clause i clauses) [
  | none ↦ ok nil
  | some access ↦ get_by access i list mem
]

-- `accepts t v` is whether the type assertion `v.(t)` of a non-pointer type succeeds.
module _ (accepts : GoType → Value → Bool) where
  abbrev set_by : Access → ℕ → Value → List Value → Memory → Outcome (List Value × Memory)
  set_by element i v list mem = set_nth i v list >>= λ list'. ok (list', mem)
  set_by (through t) i v list mem =
      nth i list >>= λ p. as_pointer t p >>= λ a. assert (accepts t v) >> ok (list, store a v mem)

  -- SetParam and SetReturnVal.
  unfoldable pub set_value :
      List CaseClause → ℕ → Value → List Value → Memory → Outcome (List Value × Memory)
  set_value clauses i v list mem =
      if is_nil v
      then (set_nth i nil list >>= λ list'. ok (list', mem))
      else elim (find_clause i clauses) [
        | none ↦ ok (list, mem)
        | some access ↦ set_by access i v list mem
      ]
