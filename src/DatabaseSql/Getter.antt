-- ===== src/DatabaseSql/Getter.antt =====
-- pkg/rules/databasesql/databasesql_otel_instrumenter.go: what a request tells the extractors of
-- Semconv/Db, at a state of the cache.
use mathlib.Core.List.{append-nil, append_assoc}
use opentelemetry_go_auto_in.Base.{
  ℕ, ◌≡◌, Bool, false, ◌||◌, Option, none, List, [], ◌∷◌, ◌++◌, if◌then◌else◌, Str, codes, str_eq,
  All,
}
use opentelemetry_go_auto_in.Base.Int.{pos}
use opentelemetry_go_auto_in.Base.Dict.{Dict}
use opentelemetry_go_auto_in.Semconv.Attribute.{
  KeyValue, string_attr, db_system_name_key, db_query_text_key, db_operation_name_key,
  server_address_key, db_collection_name_key,
}
use opentelemetry_go_auto_in.Semconv.Db.{DbClientAttrsGetter, db_client_on_end, db_common_on_end}
use opentelemetry_go_auto_in.DatabaseSql.Calls.{DatabaseSqlRequest}
use opentelemetry_go_auto_in.DatabaseSql.Statement.{Statement, extract_collection}
use opentelemetry_go_auto_in.DatabaseSql.SqlCache.{LruCache, get_collection, get_params}
use opentelemetry_go_auto_in.DatabaseSql.SqlCache.Transparent.{
  CacheUse, metadata, use_all, IsUsed, Fair, use_all_transparent,
}

unfoldable pub system_of : Str → Str
system_of driver =
    if str_eq driver (codes "mysql")
    then codes "mysql"
    else if str_eq driver (codes "postgres") || str_eq driver (codes "postgresql")
    then codes "postgresql"
    else codes "database"

module _ (itoa : ℕ → Str) (experimental : Bool) (Ctx Response Param : Type 0) (show : Param → Str)
    (lru : LruCache Param) (hash : Str → ℕ) (parse : Str → Option Statement)
    (of_string : Str → Param) (order : Dict Str → List Str) where
  abbrev Request : Type 0
  Request = DatabaseSqlRequest Ctx Param

  -- GetParameters
  abbrev pub parameters_of : List Param → Str → lru.Cache → List Param
  parameters_of [] sql c = (get_params Param lru hash parse itoa of_string order sql c).0
  parameters_of (p ∷ params) sql c = p ∷ params

  -- databaseSqlAttrsGetter, its methods called with that cache
  abbrev pub getter_at :
      lru.Cache
      → DbClientAttrsGetter itoa experimental Ctx (DatabaseSqlRequest Ctx Param) Response Param show
  getter_at c = record {
    get_system = λ r. system_of r.driver_name;
    get_server_address = λ r. r.endpoint;
    get_db_namespace = λ r. [];
    get_batch_size = λ r. pos 0;
    get_statement = λ r. r.sql;
    get_operation = λ r. r.op_type;
    get_collection = λ r. (get_collection Param lru hash parse itoa of_string r.sql c).0;
    get_parameters = λ r. parameters_of r.params r.sql c;
  }

  -- The cache that the extractor finds at the end of a request: GetStatement, which it calls first,
  -- has put what is known of the statement into it.
  abbrev pub cache_at_end : List CacheUse → DatabaseSqlRequest Ctx Param → lru.Cache
  cache_at_end accesses r =
      use_all Param lru hash parse itoa of_string (accesses ++ metadata r.sql r.op_type ∷ [])
        lru.new

module _ (itoa : ℕ → Str) (Ctx Response Param : Type 0) (show : Param → Str) (lru : LruCache Param)
    (hash : Str → ℕ) (parse : Str → Option Statement) (of_string : Str → Param)
    (order : Dict Str → List Str) (Used : Str → Type 0) where
  All-append-IsUsed :
      (accesses : List CacheUse) (sql op : Str)
      → All (IsUsed Param lru hash parse itoa of_string Used) accesses
      → Used sql
      → All (IsUsed Param lru hash parse itoa of_string Used) (accesses ++ metadata sql op ∷ [])
  All-append-IsUsed [] sql op a u = (u, tt)
  All-append-IsUsed (x ∷ accesses) sql op a u = (a.0, All-append-IsUsed accesses sql op a.1 u)

  -- For statements of a program no two of which have the same hash, with the experimental
  -- attributes off: after any sequence of uses of the cache, the attributes that the span of a
  -- request gets at its end are the system of its driver, its text, its operation, its endpoint and
  -- the collection that parsing the text gives, behind those it had.
  pub database_sql_on_end :
      (distinct : (s t : Str) → Used s → Used t → hash s ≡ hash t → s ≡ t)
      (accesses : List CacheUse) (r : DatabaseSqlRequest Ctx Param) (attrs : List KeyValue)
      (ctx : Ctx) (response : Response) (error : Option Str)
      → Fair order
      → All (IsUsed Param lru hash parse itoa of_string Used) accesses
      → Used r.sql
      → db_client_on_end itoa false Ctx
          (DatabaseSqlRequest Ctx Param)
          Response
          Param
          show
          (getter_at itoa false Ctx Response Param show lru hash parse of_string order (
            cache_at_end itoa false Ctx Response Param show lru hash parse of_string order accesses
              r))
          none
          attrs
          ctx
          r
          response
          error
        ≡ (
          attrs
              ++ (string_attr db_system_name_key (system_of r.driver_name)
                  ∷ string_attr db_query_text_key r.sql
                  ∷ string_attr db_operation_name_key r.op_type
                  ∷ string_attr server_address_key r.endpoint
                  ∷ string_attr db_collection_name_key (extract_collection parse r.sql)
                  ∷ []),
          ctx,
        )
  unfolding db_client_on_end db_common_on_end str_eq
  database_sql_on_end distinct accesses r attrs ctx response error f used u =
      let known =
        use_all_transparent Param lru hash parse itoa of_string Used distinct
          (accesses ++ metadata r.sql r.op_type ∷ []) r.sql order
          (All-append-IsUsed accesses r.sql r.op_type used u) u f in
      rw known.0 (simp (append-nil, append_assoc))
