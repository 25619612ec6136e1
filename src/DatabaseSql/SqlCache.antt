-- ===== src/DatabaseSql/SqlCache.antt =====
-- pkg/rules/databasesql/sqlcache.go, and the functions of databasesql_extractor.go that use it: what
-- is known of a statement, kept under the hash of its text.
pub mod Transparent
use opentelemetry_go_auto_in.Base.{
  ℕ, ◌≡◌, ◌≢◌, ◌⊎◌, Bool, true, false, Option, none, some, List, [], ◌∷◌, map, if◌then◌else◌, Str,
}
use opentelemetry_go_auto_in.Base.Dict.{Dict}
use opentelemetry_go_auto_in.DatabaseSql.Statement.{
  Statement, extract_collection, extract_sql_params,
}

module _ (Param : Type 0) where
  pub record SqlMeta : Type 0 where
    pub stmt : Str
    pub operation : Str
    pub collection : Str
    pub params : List Param

  abbrev pub is_some : Option SqlMeta → Bool
  is_some none = false
  is_some (some meta) = true

  -- The cache of github.com/hashicorp/golang-lru: Add puts a value under a key, and may evict
  -- others; Get and Contains find a value that is there, and Get may reorder them.
  pub record LruCache : Type 1 where
    pub Cache : Type 0
    pub new : Cache
    pub get : ℕ → Cache → Option SqlMeta × Cache
    pub put : ℕ → SqlMeta → Cache → Cache
    pub has : ℕ → Cache → Bool
    -- The value under a key
    pub entry : ℕ → Cache → Option SqlMeta
    pub entry_new : (h : ℕ) → entry h new ≡ none
    pub get_entry : (h : ℕ) (c : Cache) → (get h c).0 ≡ entry h c
    pub entry_get : (h k : ℕ) (c : Cache) → entry k (get h c).1 ≡ entry k c
    pub has_entry : (h : ℕ) (c : Cache) → has h c ≡ is_some (entry h c)
    pub entry_add : (h : ℕ) (meta : SqlMeta) (c : Cache) → entry h (put h meta c) ≡ some meta
    pub entry_add_other :
        (h k : ℕ) (meta : SqlMeta) (c : Cache)
        → h ≢ k
        → (entry k (put h meta c) ≡ none) ⊎ (entry k (put h meta c) ≡ entry k c)

  -- `hash` is xxhash.Sum64String, `parse` is sqlparser.Parse, `of_string` puts a string into an
  -- interface.
  module _ (lru : LruCache) (hash : Str → ℕ) (parse : Str → Option Statement) (decimal : ℕ → Str)
      (of_string : Str → Param) where
    open lru use {Cache, get, put, has}

    -- The methods of SQLMetaCache
    abbrev pub cache_get : Str → lru.Cache → Option SqlMeta × lru.Cache
    cache_get sql c = get (hash sql) c

    abbrev pub cache_add : Str → SqlMeta → lru.Cache → lru.Cache
    cache_add sql meta c = put (hash sql) meta c

    abbrev pub cache_contains : Str → lru.Cache → Bool
    cache_contains sql c = has (hash sql) c

    -- extractSQLMetadata, of a request's text and operation
    unfoldable pub extract_sql_metadata : Str → Str → lru.Cache → lru.Cache
    extract_sql_metadata sql op c =
        let meta : SqlMeta = record {
          stmt = sql;
          operation = op;
          collection = extract_collection parse sql;
          params = [];
        } in
        if cache_contains sql c then c else cache_add sql meta c

    abbrev pub collection_from : Str → Option SqlMeta → Str
    collection_from sql none = extract_collection parse sql
    collection_from sql (some meta) = meta.collection

    unfoldable pub get_collection : Str → lru.Cache → Str × lru.Cache
    get_collection sql c = let (found, c') = cache_get sql c in (collection_from sql found, c')

    -- The values of the map, in the order that `order` gives them; Go leaves the order open.
    abbrev pub parsed_params : (Dict Str → List Str) → Str → List Param
    parsed_params order sql = map of_string (order (extract_sql_params parse decimal sql))

    -- `if found && len(meta.params) > 0`, of an entry that was found, and the update behind it
    abbrev pub params_in :
        (Dict Str → List Str) → Str → SqlMeta → List Param → lru.Cache → List Param × lru.Cache
    params_in order sql meta [] c =
        let params = parsed_params order sql in
        (params, cache_add sql (record meta { params = params }) c)
    params_in order sql meta (p ∷ ps) c = (p ∷ ps, c)

    abbrev pub params_from :
        (Dict Str → List Str) → Str → Option SqlMeta → lru.Cache → List Param × lru.Cache
    params_from order sql none c = (parsed_params order sql, c)
    params_from order sql (some meta) c = params_in order sql meta meta.params c

    unfoldable pub get_params : (Dict Str → List Str) → Str → lru.Cache → List Param × lru.Cache
    get_params order sql c = let (found, c') = cache_get sql c in params_from order sql found c'
