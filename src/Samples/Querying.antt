-- ===== src/Samples/Querying.antt =====
-- The theorems on package databasesql at concrete statements.
use mathlib.Core.List.Permᴰ
use opentelemetry_go_auto_in.Base.{
  ℕ, ◌≡◌, refl, sym, ap, ◌∙◌, ◌≢◌, ◌⊎◌, inl, inr, true, false, Option, none, some, List, [], ◌∷◌,
  ◌++◌, map, arith, ◌==◌, ==_iff, Bool-cases, if◌then◌else◌, length, ok, Str, codes, str_eq,
}
use opentelemetry_go_auto_in.Base.Dict.{Dict}
use opentelemetry_go_auto_in.Semconv.Attribute.{
  string_attr, db_system_name_key, db_query_text_key, db_operation_name_key, server_address_key,
  db_collection_name_key,
}
use opentelemetry_go_auto_in.Semconv.Db.{db_client_on_end}
use opentelemetry_go_auto_in.DatabaseSql.Dsn.{
  Url, parse_mysql, parse_dsn, AddressIn, parse_mysql-AddressIn,
}
use opentelemetry_go_auto_in.DatabaseSql.Calls.{
  Handle, SqlStmt, DatabaseSqlRequest, CallData, no_data, or_empty,
}
use opentelemetry_go_auto_in.DatabaseSql.Hooks.{
  before_open, after_open, before_prepare_context, after_prepare_context, before_stmt_exec_context,
  after_stmt_exec_context,
}
use opentelemetry_go_auto_in.DatabaseSql.Hooks.Sessions.{request, one_span, open_prepare_exec}
use opentelemetry_go_auto_in.DatabaseSql.Hooks.Balance.{tx_commit, calls, Balanced, calls-Balanced}
use opentelemetry_go_auto_in.DatabaseSql.Statement.{
  aliased_table_expr, Statement, select_stmt, extract_collection,
}
use opentelemetry_go_auto_in.DatabaseSql.SqlCache.{
  SqlMeta, LruCache, is_some, get_collection, get_params,
}
use opentelemetry_go_auto_in.DatabaseSql.SqlCache.Transparent.{
  CacheUse, metadata, Fair, use_all, ParamsOf, use_all_transparent,
}
use opentelemetry_go_auto_in.DatabaseSql.Getter.{
  system_of, getter_at, cache_at_end, database_sql_on_end,
}

abbrev local_dsn : Str
local_dsn = codes "root:pw@tcp(127.0.0.1:3306)/test"

parse_mysql-AddressIn_example :
    (r : Option Str) × (parse_mysql local_dsn ≡ ok r) × AddressIn local_dsn r
parse_mysql-AddressIn_example = parse_mysql-AddressIn local_dsn

-- A context is a number, which starting a span makes odd.
abbrev started : ℕ → DatabaseSqlRequest ℕ Str → ℕ
started ctx req = 7

abbrev no_url : Str → Option Url
no_url s = none

abbrev empty_db : Handle
empty_db = record { endpoint = []; driver_name = []; dsn = [] }

abbrev empty_stmt : SqlStmt
empty_stmt = record { data_map = none; dsn = [] }

abbrev by_id : Str
by_id = codes "SELECT * FROM users WHERE id = ?"

open_prepare_exec_example :
    (addr : Option Str) × (opened : CallData ℕ Str) × (parse_dsn no_url (codes "mysql") local_dsn
      ≡ ok addr)
    × (before_open ℕ Str true started no_url (codes "mysql") local_dsn no_data ≡ ok opened)
    × (let db' = after_open ℕ Str true started opened (some empty_db) in
        let kept = before_prepare_context ℕ Str true started db' by_id no_data in
        let stmt' = after_prepare_context ℕ Str true started kept (some empty_stmt) in
        let (d, log) =
          before_stmt_exec_context ℕ Str true started stmt' 1 (codes "3" ∷ []) no_data in
        log ++ after_stmt_exec_context ℕ Str true started d none
        ≡ one_span ℕ Str started 1
            (request ℕ Str started by_id
              (or_empty ℕ Str addr)
              (codes "mysql")
              local_dsn
              (codes "3" ∷ []))
            none)
open_prepare_exec_example =
    open_prepare_exec ℕ Str started no_url (codes "mysql") local_dsn by_id (codes "3" ∷ []) 1 none
      empty_db empty_stmt

calls-Balanced_example : Balanced ℕ Str started (some (codes "boom")) (
    calls ℕ Str true started 0
      (some empty_db)
      (some empty_db)
      none
      by_id
      []
      1
      (some (codes "boom"))
      tx_commit)
calls-Balanced_example =
    calls-Balanced ℕ Str started true 0 (some empty_db) empty_db none by_id [] 1
      (some (codes "boom")) tx_commit

-- A cache that holds one entry
abbrev One : Type 0
One = Option (ℕ × SqlMeta Str)

abbrev one_entry : ℕ → One → Option (SqlMeta Str)
one_entry h none = none
one_entry h (some (k, meta)) = if k == h then some meta else none

one_entry_add : (h : ℕ) (meta : SqlMeta Str) → one_entry h (some (h, meta)) ≡ some meta
one_entry_add h meta = rw ((==_iff h h).1 refl) refl

one_entry_other : (h k : ℕ) (meta : SqlMeta Str) → h ≢ k → one_entry k (some (h, meta)) ≡ none
one_entry_other h k meta ne = elim (Bool-cases (h == k)) [
  | inl same ↦ absurd (ne ((==_iff h k).0 same))
  | inr other ↦ rw other refl
]

abbrev one_cache : LruCache Str
one_cache = record {
  Cache = One;
  new = none;
  get = λ h c. (one_entry h c, c);
  put = λ h meta c. some (h, meta);
  has = λ h c. is_some Str (one_entry h c);
  entry = one_entry;
  entry_new = λ h. refl;
  get_entry = λ h c. refl;
  entry_get = λ h k c. refl;
  has_entry = λ h c. refl;
  entry_add = λ h meta c. one_entry_add h meta;
  entry_add_other = λ h k meta c ne. inl (one_entry_other h k meta ne);
}

-- The program runs two statements, which differ in their length.
abbrev users_query : Str
users_query = codes "select name from users"

abbrev orders_query : Str
orders_query = codes "select id from orders"

abbrev Ours : Str → Type 0
Ours s = (s ≡ users_query) ⊎ (s ≡ orders_query)

Ours-distinct : (s t : Str) → Ours s → Ours t → length s ≡ length t → s ≡ t
Ours-distinct s t (inl a) (inl b) h = cc
Ours-distinct s t (inl a) (inr b) h =
    let e : length users_query ≡ length orders_query = sym (ap length a) ∙ h ∙ ap length b in
    absurd (omega (arith, e))
Ours-distinct s t (inr a) (inl b) h =
    let e : length orders_query ≡ length users_query = sym (ap length a) ∙ h ∙ ap length b in
    absurd (omega (arith, e))
Ours-distinct s t (inr a) (inr b) h = cc

abbrev parse_ours : Str → Option Statement
parse_ours s =
    if str_eq s users_query
    then some (select_stmt (aliased_table_expr (some (codes "users")) ∷ []) none)
    else some (select_stmt (aliased_table_expr (some (codes "orders")) ∷ []) none)

abbrev digits_of : ℕ → Str
digits_of n = codes "0"

abbrev same : Str → Str
same s = s

abbrev in_order : Dict Str → List Str
in_order d = map (λ (e : Str × Str). e.1) d

in_order-Fair : Fair in_order
in_order-Fair d = Permᴰ.refl (in_order d)

abbrev uses : List CacheUse
uses = metadata users_query (codes "select") ∷ metadata orders_query (codes "select") ∷ []

use_all_transparent_example :
    let c = use_all Str one_cache length parse_ours digits_of same uses one_cache.new in
    ((get_collection Str one_cache length parse_ours digits_of same users_query c).0
      ≡ extract_collection parse_ours users_query)
    × ParamsOf Str one_cache length parse_ours digits_of same Ours users_query
        (get_params Str one_cache length parse_ours digits_of same in_order users_query c).0
use_all_transparent_example =
    use_all_transparent Str one_cache length parse_ours digits_of same Ours Ours-distinct uses
      users_query in_order (inl refl, (inr refl, tt)) (inl refl) in_order-Fair

abbrev users_request : DatabaseSqlRequest ℕ Str
users_request = record {
  op_type = codes "select";
  sql = users_query;
  endpoint = codes "db:3306";
  driver_name = codes "mysql";
  dsn = local_dsn;
  params = [];
}

database_sql_on_end_example :
    db_client_on_end digits_of false ℕ
      (DatabaseSqlRequest ℕ Str)
      ℕ
      Str
      same
      (getter_at digits_of false ℕ ℕ Str same one_cache length parse_ours same in_order (
        cache_at_end digits_of false ℕ ℕ Str same one_cache length parse_ours same in_order uses
          users_request))
      none
      []
      1
      users_request
      2
      none
    ≡ (
      string_attr db_system_name_key (system_of (codes "mysql"))
          ∷ string_attr db_query_text_key users_query
          ∷ string_attr db_operation_name_key (codes "select")
          ∷ string_attr server_address_key (codes "db:3306")
          ∷ string_attr db_collection_name_key (extract_collection parse_ours users_query)
          ∷ [],
      1,
    )
database_sql_on_end_example =
    database_sql_on_end digits_of ℕ ℕ Str same one_cache length parse_ours same in_order Ours
      Ours-distinct uses users_request [] 1 2 none in_order-Fair (inl refl, (inr refl, tt))
      (inl refl)
