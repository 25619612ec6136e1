-- ===== src/DatabaseSql/Hooks/Sessions.antt =====
-- The hooks of pkg/rules/databasesql/setup.go in sequence, from sql.Open to the spans of a statement.
use opentelemetry_go_auto_in.Base.{
  ◌≡◌, refl, true, inl, inr, Option, none, some, List, [], ◌∷◌, ◌++◌, Bool-cases, ok, Str, codes,
  str_eq, ◌||◌,
}
use opentelemetry_go_auto_in.Base.Dict.{lookup, insert}
use opentelemetry_go_auto_in.DatabaseSql.Dsn.{Url, parse_dsn, parse_postgres, parse_mysql-AddressIn}
use opentelemetry_go_auto_in.DatabaseSql.Calls.{
  Handle, SqlStmt, DatabaseSqlRequest, CallData, no_data, strings, Call, start_call, end_call,
  cal_op, or_empty, handle_data, instrument_start, instrument_end, end_after, fill_handle,
  fill_stmt, keep_prepared,
}
use opentelemetry_go_auto_in.DatabaseSql.Hooks.{
  stmt_field, before_open, after_open, before_prepare_context, after_prepare_context,
  before_stmt_exec_context, after_stmt_exec_context, before_tx_stmt_context, after_tx_stmt_context,
  start_on_stmt,
}

parse_dsn-returns :
    (parse_url : Str → Option Url) (driver dsn : Str)
    → (addr : Option Str) × (parse_dsn parse_url driver dsn ≡ ok addr)
unfolding parse_dsn
parse_dsn-returns parse_url driver dsn = elim (Bool-cases (str_eq driver (codes "mysql"))) [
  | inl mysql ↦ let (r, e, f) = parse_mysql-AddressIn dsn in (r, rw (mysql, e) refl)
  | inr other ↦
      elim (Bool-cases (str_eq driver (codes "postgres") || str_eq driver (codes "postgresql"))) [
        | inl postgres ↦ (parse_postgres parse_url dsn, rw (other, postgres) refl)
        | inr unknown ↦ (none, rw (other, unknown) refl)
      ]
]

module _ (Ctx Param : Type 0) (started : Ctx → DatabaseSqlRequest Ctx Param → Ctx) where
  abbrev pub request : Str → Str → Str → Str → List Param → DatabaseSqlRequest Ctx Param
  request query endpoint driver dsn args = record {
    op_type = cal_op Ctx Param query;
    sql = query;
    endpoint = endpoint;
    driver_name = driver;
    dsn = dsn;
    params = args;
  }

  -- The events of one span
  abbrev pub one_span : Ctx → DatabaseSqlRequest Ctx Param → Option Str → List (Call Ctx Param)
  one_span ctx req error = start_call ctx req ∷ end_call (started ctx req) req error ∷ []

  -- With the hooks enabled, for any driver name, data source name and query: sql.Open, preparing
  -- the query on the database that it returns, and executing the prepared statement makes one span,
  -- of a request with that query and its first word, the address that parseDSN finds, or the empty
  -- string, the driver name, the data source name and the arguments; the span is ended in the
  -- context that it was started with. Parsing the data source name does not panic.
  pub open_prepare_exec :
      (parse_url : Str → Option Url) (driver dsn query : Str) (args : List Param) (ctx : Ctx)
      (error : Option Str) (db : Handle) (stmt : SqlStmt)
      → (addr : Option Str) × (opened : CallData Ctx Param) × (parse_dsn parse_url driver dsn
          ≡ ok addr)
        × (before_open Ctx Param true started parse_url driver dsn no_data ≡ ok opened)
        × (let db' = after_open Ctx Param true started opened (some db) in
            let kept = before_prepare_context Ctx Param true started db' query no_data in
            let stmt' = after_prepare_context Ctx Param true started kept (some stmt) in
            let (d, log) = before_stmt_exec_context Ctx Param true started stmt' ctx args no_data in
            log ++ after_stmt_exec_context Ctx Param true started d error
            ≡ one_span ctx (request query (or_empty Ctx Param addr) driver dsn args) error)
  unfolding before_open fill_handle keep_prepared fill_stmt start_on_stmt instrument_start end_after
      instrument_end lookup str_eq
  open_prepare_exec parse_url driver dsn query args ctx error db stmt =
      let (addr, e) = parse_dsn-returns parse_url driver dsn in
      let kept : Handle = record {
        endpoint = or_empty Ctx Param addr;
        driver_name = driver;
        dsn = dsn;
      } in
      (addr, strings (handle_data Ctx Param kept), e, rw e refl, refl)

  -- A statement that tx.StmtContext returns: the hooks copy the endpoint and the driver of the
  -- original, but neither its query nor its data source name, so whatever the original, the span of
  -- its execution is of an empty query, with no operation and the data source name the new
  -- statement had before.
  pub tx_stmt_loses_query :
      (stmt returned : SqlStmt) (args : List Param) (ctx : Ctx) (error : Option Str)
      → let kept = before_tx_stmt_context Ctx Param true started (some stmt) no_data in
        let stmt' = after_tx_stmt_context Ctx Param true started kept (some returned) in
        let (d, log) = before_stmt_exec_context Ctx Param true started stmt' ctx args no_data in
        log ++ after_stmt_exec_context Ctx Param true started d error
        ≡ one_span ctx
            (request []
              (stmt_field Ctx Param true started stmt (codes "endpoint"))
              (stmt_field Ctx Param true started stmt (codes "driver"))
              returned.dsn
              args)
            error
  unfolding before_tx_stmt_context after_tx_stmt_context start_on_stmt instrument_start end_after
      instrument_end lookup insert str_eq
  tx_stmt_loses_query stmt returned args ctx error = refl
