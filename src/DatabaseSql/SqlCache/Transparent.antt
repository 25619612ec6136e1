-- ===== src/DatabaseSql/SqlCache/Transparent.antt =====
-- The cache of pkg/rules/databasesql tells of a statement what parsing it again would tell, whatever
-- was evicted.
use mathlib.Core.List.{Permᴰ}
use opentelemetry_go_auto_in.Base.{
  ℕ, ◌≡◌, refl, sym, subst, ◌∙◌, ◌≢◌, ◌⊎◌, inl, inr, false, Option, none, some, List, [], ◌∷◌, map,
  ◌==◌, ==_iff, Bool-cases, Option-cases, Str, All, arith,
}
use opentelemetry_go_auto_in.Base.Dict.{Dict}
use opentelemetry_go_auto_in.DatabaseSql.Statement.{Statement, extract_collection}
use opentelemetry_go_auto_in.DatabaseSql.SqlCache.{
  SqlMeta, LruCache, extract_sql_metadata, get_collection, get_params, params_from, params_in,
  parsed_params,
}

none-ne-some {ℓ} : {A : Type ℓ} {a : A} → none ≢ some a
none-ne-some e = cc

some-injective {ℓ} : {A : Type ℓ} {a b : A} → some a ≡ some b → a ≡ b
some-injective e = cc

ne_of_== : (h k : ℕ) → (h == k) ≡ false → h ≢ k
ne_of_== h k e = ground arith

-- An order in which Go may go through a map
abbrev pub Fair : (Dict Str → List Str) → Type 0
Fair order = (d : Dict Str) → Permᴰ (map (λ (e : Str × Str). e.1) d) (order d)

-- A use of the cache
pub data CacheUse : Type 0 where
  metadata : Str → Str → CacheUse
  collection : Str → CacheUse
  parameters : (Dict Str → List Str) → Str → CacheUse

module _ (Param : Type 0) (lru : LruCache Param) (hash : Str → ℕ) (parse : Str → Option Statement)
    (decimal : ℕ → Str) (of_string : Str → Param) where
  abbrev Cache : Type 0
  Cache = lru.Cache

  abbrev pub use_cache : CacheUse → lru.Cache → lru.Cache
  use_cache (metadata sql op) c =
      extract_sql_metadata Param lru hash parse decimal of_string sql op c
  use_cache (collection sql) c = (get_collection Param lru hash parse decimal of_string sql c).1
  use_cache (parameters order sql) c =
      (get_params Param lru hash parse decimal of_string order sql c).1

  abbrev pub use_all : List CacheUse → lru.Cache → lru.Cache
  use_all [] c = c
  use_all (a ∷ accesses) c = use_all accesses (use_cache a c)

  module _ (Used : Str → Type 0) where
    -- The statements of an access are among those of the program.
    abbrev pub IsUsed : CacheUse → Type 0
    IsUsed (metadata sql op) = Used sql
    IsUsed (collection sql) = Used sql
    IsUsed (parameters order sql) = Used sql × Fair order

    -- Parameters that are those of the statement, in some order
    abbrev pub ParamsOf : Str → List Param → Type 0
    ParamsOf sql params =
        (order : Dict Str → List Str) × Fair order
        × (params ≡ parsed_params Param lru hash parse decimal of_string order sql)

    abbrev Describes : ℕ → SqlMeta Param → Type 0
    Describes h meta =
        (sql : Str) × Used sql
        × (hash sql ≡ h)
        × (meta.collection ≡ extract_collection parse sql)
        × ((meta.params ≡ []) ⊎ ParamsOf sql meta.params)

    -- What is in the cache describes a statement of that hash.
    abbrev Sound : lru.Cache → Type 0
    Sound c = (h : ℕ) (meta : SqlMeta Param) → lru.entry h c ≡ some meta → Describes h meta

    Sound-new : Sound lru.new
    Sound-new h meta e = absurd (none-ne-some (sym (lru.entry_new h) ∙ e))

    Sound-get : (h : ℕ) (c : Cache) → Sound c → Sound (lru.get h c).1
    Sound-get h c s k meta e = s k meta (sym (lru.entry_get h k c) ∙ e)

    Sound-put :
        (h : ℕ) (meta : SqlMeta Param) (c : Cache)
        → Describes h meta
        → Sound c
        → Sound (lru.put h meta c)
    Sound-put h meta c d s k meta' e = elim (Bool-cases (h == k)) [
      | inl same ↦
          subst (λ j. lru.entry j (lru.put h meta c) ≡ some meta' → Describes j meta')
            ((==_iff h k).0 same)
            (λ e'. subst (Describes h) (some-injective (sym (lru.entry_add h meta c) ∙ e')) d) e
      | inr other ↦ elim (lru.entry_add_other h k meta c (ne_of_== h k other)) [
        | inl evicted ↦ absurd (none-ne-some (sym evicted ∙ e))
        | inr kept ↦ s k meta' (sym kept ∙ e)
      ]
    ]

    Sound-metadata :
        (sql op : Str) (c : Cache)
        → Used sql
        → Sound c
        → Sound (extract_sql_metadata Param lru hash parse decimal of_string sql op c)
    unfolding extract_sql_metadata
    Sound-metadata sql op c u s = elim (Bool-cases (lru.has (hash sql) c)) [
      | inl found ↦ rw found s
      | inr absent ↦ rw absent (Sound-put (hash sql) _ c (sql, u, refl, refl, inl refl) s)
    ]

    module _ (distinct : (s t : Str) → Used s → Used t → hash s ≡ hash t → s ≡ t) where
      -- What the cache holds under the hash of a statement is of that statement.
      found_of :
          (sql : Str) (c : Cache) (meta : SqlMeta Param)
          → Used sql
          → Sound c
          → (lru.get (hash sql) c).0 ≡ some meta
          → (meta.collection ≡ extract_collection parse sql)
            × ((meta.params ≡ []) ⊎ ParamsOf sql meta.params)
      found_of sql c meta u s e =
          let (sql', u', h, coll, ps) = s (hash sql) meta (sym (lru.get_entry (hash sql) c) ∙ e) in
          subst
            (λ t.
              (meta.collection ≡ extract_collection parse t)
              × ((meta.params ≡ []) ⊎ ParamsOf t meta.params))
            (distinct sql' sql u' u h) (coll, ps)

      get_collection-extract_collection :
          (sql : Str) (c : Cache)
          → Used sql
          → Sound c
          → (get_collection Param lru hash parse decimal of_string sql c).0
            ≡ extract_collection parse sql
      unfolding get_collection
      get_collection-extract_collection sql c u s = elim (Option-cases (lru.get (hash sql) c).0) [
        | inl absent ↦ rw absent refl
        | inr (meta, found) ↦ rw found (found_of sql c meta u s found).0
      ]

      params_in-Sound :
          (order : Dict Str → List Str) (sql : Str) (meta : SqlMeta Param) (params : List Param)
          (c : Cache)
          → Used sql
          → Fair order
          → meta.collection ≡ extract_collection parse sql
          → (params ≡ []) ⊎ ParamsOf sql params
          → Sound c
          → let (params', c') =
              params_in Param lru hash parse decimal of_string order sql meta params c in
            ParamsOf sql params' × Sound c'
      params_in-Sound order sql meta [] c u f coll ps s =
          ((order, f, refl), Sound-put (hash sql) _ c (sql, u, refl, coll, inr (order, f, refl)) s)
      params_in-Sound order sql meta (p ∷ rest) c u f coll (inl e) s = cc
      params_in-Sound order sql meta (p ∷ rest) c u f coll (inr ps) s = (ps, s)

      -- Parameters that are found or parsed, and a cache that stays sound.
      params_from-Sound :
          (order : Dict Str → List Str) (sql : Str) (found : Option (SqlMeta Param)) (c c' : Cache)
          → Used sql
          → Fair order
          → Sound c
          → Sound c'
          → (lru.get (hash sql) c).0 ≡ found
          → let (params, c2) =
              params_from Param lru hash parse decimal of_string order sql found c' in
            ParamsOf sql params × Sound c2
      params_from-Sound order sql none c c' u f s s' e = ((order, f, refl), s')
      params_from-Sound order sql (some meta) c c' u f s s' e =
          let (coll, ps) = found_of sql c meta u s e in
          params_in-Sound order sql meta meta.params c' u f coll ps s'

      get_params-Sound :
          (order : Dict Str → List Str) (sql : Str) (c : Cache)
          → Used sql
          → Fair order
          → Sound c
          → let (params, c') = get_params Param lru hash parse decimal of_string order sql c in
            ParamsOf sql params × Sound c'
      unfolding get_params
      get_params-Sound order sql c u f s =
          params_from-Sound order sql (lru.get (hash sql) c).0 c (lru.get (hash sql) c).1 u f s
            (Sound-get (hash sql) c s) refl

      Sound-use_cache : (a : CacheUse) (c : Cache) → IsUsed a → Sound c → Sound (use_cache a c)
      unfolding get_collection
      Sound-use_cache (metadata sql op) c u s = Sound-metadata sql op c u s
      Sound-use_cache (collection sql) c u s = Sound-get (hash sql) c s
      Sound-use_cache (parameters order sql) c u s = (get_params-Sound order sql c u.0 u.1 s).1

      Sound-use_all :
          (accesses : List CacheUse) (c : Cache)
          → All IsUsed accesses
          → Sound c
          → Sound (use_all accesses c)
      Sound-use_all [] c u s = s
      Sound-use_all (a ∷ accesses) c u s =
          Sound-use_all accesses (use_cache a c) u.1 (Sound-use_cache a c u.0 s)

      -- For statements of a program no two of which have the same hash: after any sequence of uses
      -- of the cache for them, whatever it evicted, getCollection gives the collection that parsing
      -- the statement gives, and getParams the values of its parameters in some order.
      pub use_all_transparent :
          (accesses : List CacheUse) (sql : Str) (order : Dict Str → List Str)
          → All IsUsed accesses
          → Used sql
          → Fair order
          → let c = use_all accesses lru.new in
            ((get_collection Param lru hash parse decimal of_string sql c).0
              ≡ extract_collection parse sql)
            × ParamsOf sql (get_params Param lru hash parse decimal of_string order sql c).0
      use_all_transparent accesses sql order used u f =
          let s = Sound-use_all accesses lru.new used Sound-new in
          (
            get_collection-extract_collection sql (use_all accesses lru.new) u s,
            (get_params-Sound order sql (use_all accesses lru.new) u f s).0,
          )
