-- ===== src/Instrumenter/Suppressor/Decide.antt =====
-- When a span is suppressed.
use opentelemetry_go_auto_in.Base.{
  ◌≡◌, refl, sym, ap, subst, ◌≢◌, ◌↔◌, inl, inr, Bool, true, false, ◌||◌, Option, none, some, List,
  [], ◌∷◌, ◌++◌, arith, if◌then◌else◌, Bool-cases, any, all, All, Str, str_eq, eq_of_str_eq,
  str_eq_iff,
}
use opentelemetry_go_auto_in.Base.Dict.{Dict, lookup}
use opentelemetry_go_auto_in.Instrumenter.Scopes.{
  SpanKind, server, client, kind_eq, scope_key_table, kind_key_table, http_server_key,
  rpc_server_key,
}
use opentelemetry_go_auto_in.Instrumenter.Suppressor.{
  scope_key, key_should_suppress, should_suppress, sem_conv, strategy_from_env, create,
  distinct_keys, build_span_suppressor,
}

-- Under a named scope the keys must all be the key of the scope.
key_should_suppress_iff :
    (keys : List Str) (name : Str)
    → name ≢ []
    → (key_should_suppress keys (some name) ≡ true) ↔ All (λ key. key ≡ scope_key name) keys
unfolding key_should_suppress
key_should_suppress_iff [] name h = (λ e. tt, λ e. refl)
key_should_suppress_iff (key ∷ keys) name h =
    let ih = key_should_suppress_iff keys name h in
    let key_iff = str_eq_iff key (scope_key name) in
    let name_iff = str_eq_iff name [] in
    (λ e. ground (arith, ih, key_iff, name_iff), λ e. ground (arith, ih, key_iff, name_iff))

-- No key stands twice.
abbrev Distinct : List Str → Type 0
Distinct [] = Unit
Distinct (x ∷ xs) = (any (λ k. str_eq k x) xs ≡ false) × Distinct xs

any-append :
    (xs : List Str) (key x : Str)
    → any (λ k. str_eq k x) xs ≡ false
    → str_eq key x ≡ false
    → any (λ k. str_eq k x) (xs ++ key ∷ []) ≡ false
any-append [] key x h n = rw n
any-append (y ∷ xs) key x h n = ground (arith, any-append xs key x)

Distinct-append :
    (xs : List Str) (key : Str)
    → Distinct xs
    → any (λ k. str_eq k key) xs ≡ false
    → Distinct (xs ++ key ∷ [])
Distinct-append [] key d h = (refl, tt)
Distinct-append (x ∷ xs) key d h = (
  any-append xs key x d.0 (ground (arith, str_eq_iff x key, str_eq_iff key x)),
  Distinct-append xs key d.1 (ground arith),
)

distinct_keys-Distinct :
    (seen : List Str) (extractors : List (Option Str))
    → Distinct seen
    → Distinct (distinct_keys seen extractors)
unfolding distinct_keys
distinct_keys-Distinct seen [] d = d
distinct_keys-Distinct seen (none ∷ extractors) d = distinct_keys-Distinct seen extractors d
distinct_keys-Distinct seen (some key ∷ extractors) d =
    elim (Bool-cases (any (λ k. str_eq k key) seen)) [
      | inl old ↦ rw old (distinct_keys-Distinct seen extractors d)
      | inr new ↦
          rw new
            (distinct_keys-Distinct (seen ++ key ∷ []) extractors (Distinct-append seen key d new))
    ]

only_one :
    (x : Str) (keys : List Str)
    → Distinct keys
    → All (λ key. key ≡ x) keys
    → keys ≢ []
    → keys ≡ x ∷ []
only_one x [] d h n = absurd (n refl)
only_one x (a ∷ []) d h n = rw h.0
only_one x (a ∷ b ∷ rest) d h n = absurd (ground (arith, str_eq_iff b a, h.0, h.1.0, d.0))

create-sem_conv_iff :
    (keys : List Str) (name : Str) (kind : SpanKind)
    → Distinct keys
    → name ≢ []
    → (should_suppress (create sem_conv keys) (some name) kind ≡ true)
      ↔ (keys ≡ scope_key name ∷ [])
unfolding create should_suppress
create-sem_conv_iff [] name kind d h = (λ e. cc, λ e. cc)
create-sem_conv_iff (key ∷ keys) name kind d h =
    let iff = key_should_suppress_iff (key ∷ keys) name h in
    (
      λ e. only_one (scope_key name) (key ∷ keys) d (iff.0 e) (λ q. cc),
      λ e. iff.1 (subst (All (λ k. k ≡ scope_key name)) (sym e) (refl, tt)),
    )

-- Under the default strategy, below a parent span of the SDK with a named scope, an instrumenter
-- suppresses its span exactly when its extractors provide one span key between them and that is
-- the key of the parent's scope.
pub build_span_suppressor_iff :
    (env : Str) (extractors : List (Option Str)) (name : Str) (kind : SpanKind)
    → strategy_from_env env ≡ sem_conv
    → name ≢ []
    → (should_suppress (build_span_suppressor env extractors) (some name) kind ≡ true)
      ↔ (distinct_keys [] extractors ≡ scope_key name ∷ [])
unfolding build_span_suppressor
build_span_suppressor_iff env extractors name kind e h = rw e (
    create-sem_conv_iff (distinct_keys [] extractors) name kind
      (distinct_keys-Distinct [] extractors tt) h)

-- What passes a check over the entries of a table passes it where it is looked up.
lookup-all {ℓ} :
    {V : Type ℓ} (p : Str → V → Bool) (m : Dict V) (k : Str) (v : V)
    → all (λ (e : Str × V). p e.0 e.1) m ≡ true
    → lookup k m ≡ some v
    → p k v ≡ true
unfolding lookup
lookup-all p [] k v h e = cc
lookup-all p ((j, u) ∷ m) k v h e = elim (Bool-cases (str_eq j k)) [
  | inl same ↦ ground (arith, eq_of_str_eq j k same)
  | inr other ↦ lookup-all p m k v (ground arith) (ground arith)
]

-- The kind that a span key speaks of.
abbrev pub kind_of : Str → SpanKind
kind_of key = if str_eq key http_server_key || str_eq key rpc_server_key then server else client

abbrev is_kind : Option SpanKind → SpanKind → Bool
is_kind none kind = false
is_kind (some k) kind = kind_eq k kind

kind_eq_sound : (a b : SpanKind) → kind_eq a b ≡ true → a ≡ b
kind_eq_sound a b h = ground arith

is_kind_sound : (o : Option SpanKind) (kind : SpanKind) → is_kind o kind ≡ true → o ≡ some kind
is_kind_sound none kind h = cc
is_kind_sound (some k) kind h = ap some (kind_eq_sound k kind h)

tables_agree :
    all (λ (e : Str × Str). is_kind (lookup e.0 kind_key_table) (kind_of e.1)) scope_key_table
    ≡ true
unfolding scope_key_table kind_key_table lookup str_eq
tables_agree = refl

-- The two tables agree: every scope that has a span key also has a span kind, the server kind
-- where the key is a server's and the client kind elsewhere.
pub scope_key_table-kind :
    (name key : Str)
    → lookup name scope_key_table ≡ some key
    → lookup name kind_key_table ≡ some (kind_of key)
scope_key_table-kind name key e = is_kind_sound (lookup name kind_key_table) (kind_of key) (
    lookup-all (λ name key. is_kind (lookup name kind_key_table) (kind_of key)) scope_key_table name
      key tables_agree e)
