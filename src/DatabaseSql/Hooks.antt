-- ===== src/DatabaseSql/Hooks.antt =====
-- pkg/rules/databasesql/setup.go: the hooks that run before and after the methods of package
-- database/sql, and what they leave in its handles and in the call.
pub mod Sessions
pub mod Balance
use opentelemetry_go_auto_in.Base.{
  Bool, true, false, Option, none, some, List, [], ◌∷◌, if◌then◌else◌, Outcome, ok, ◌>>=◌, Str,
  codes, split,
}
use opentelemetry_go_auto_in.Base.Dict.{Dict, lookup, insert}
use opentelemetry_go_auto_in.DatabaseSql.Dsn.{Url, parse_dsn}
use opentelemetry_go_auto_in.DatabaseSql.Calls.{
  DatabaseSqlRequest, SqlStmt, Handle, no_data, strings, db_request, CallData, Call, or_empty,
  handle_data, instrument_end, instrument_start, start_on, end_after, keep_handle, keep_prepared,
  fill_handle, fill_stmt,
}

module _ (Ctx Param : Type 0) (enabled : Bool)
    (started : Ctx → DatabaseSqlRequest Ctx Param → Ctx) where
  -- sql.Open
  module _ (parse_url : Str → Option Url) where
    unfoldable pub before_open : Str → Str → CallData Ctx Param → Outcome (CallData Ctx Param)
    before_open driver dsn d =
        let kept = parse_dsn parse_url driver dsn >>= λ addr. ok (
          strings (
            handle_data Ctx Param
              (record { endpoint = or_empty Ctx Param addr; driver_name = driver; dsn = dsn }))) in
        if enabled then kept else ok d

  abbrev pub after_open : CallData Ctx Param → Option Handle → Option Handle
  after_open = fill_handle Ctx Param enabled started

  -- sql.DB
  abbrev pub before_ping_context :
      Option Handle → Ctx → CallData Ctx Param → CallData Ctx Param × List (Call Ctx Param)
  before_ping_context db ctx = start_on Ctx Param enabled started db ctx (codes "ping") []

  abbrev pub after_ping_context : CallData Ctx Param → Option Str → List (Call Ctx Param)
  after_ping_context = end_after Ctx Param enabled started

  abbrev pub before_prepare_context : Option Handle → Str → CallData Ctx Param → CallData Ctx Param
  before_prepare_context = keep_prepared Ctx Param enabled started

  abbrev pub after_prepare_context : CallData Ctx Param → Option SqlStmt → Option SqlStmt
  after_prepare_context = fill_stmt Ctx Param enabled started

  abbrev pub before_exec_context :
      Option Handle
      → Ctx
      → Str
      → List Param
      → CallData Ctx Param
      → CallData Ctx Param × List (Call Ctx Param)
  before_exec_context = start_on Ctx Param enabled started

  abbrev pub after_exec_context : CallData Ctx Param → Option Str → List (Call Ctx Param)
  after_exec_context = end_after Ctx Param enabled started

  abbrev pub before_query_context :
      Option Handle
      → Ctx
      → Str
      → List Param
      → CallData Ctx Param
      → CallData Ctx Param × List (Call Ctx Param)
  before_query_context = start_on Ctx Param enabled started

  abbrev pub after_query_context : CallData Ctx Param → Option Str → List (Call Ctx Param)
  after_query_context = end_after Ctx Param enabled started

  abbrev pub before_tx :
      Option Handle → Ctx → CallData Ctx Param → CallData Ctx Param × List (Call Ctx Param)
  before_tx db ctx = start_on Ctx Param enabled started db ctx (codes "START TRANSACTION") []

  -- The transaction gets the request's fields; without one the hook returns at once.
  unfoldable pub after_tx :
      CallData Ctx Param → Option Handle → Option Str → Option Handle × List (Call Ctx Param)
  unfolding instrument_end
  after_tx d none error = (none, [])
  after_tx no_data (some tx) error = (some tx, [])
  after_tx (strings m) (some tx) error = (some tx, [])
  after_tx (db_request req ctx) (some tx) error =
      if enabled
      then (
        some (record { endpoint = req.endpoint; driver_name = req.driver_name; dsn = req.dsn }),
        instrument_end Ctx Param (db_request req ctx) error,
      )
      else (some tx, [])

  -- sql.Conn
  abbrev pub before_conn : Option Handle → CallData Ctx Param → CallData Ctx Param
  before_conn = keep_handle Ctx Param enabled started

  abbrev pub after_conn : CallData Ctx Param → Option Handle → Option Handle
  after_conn = fill_handle Ctx Param enabled started

  abbrev pub before_conn_ping_context :
      Option Handle → Ctx → CallData Ctx Param → CallData Ctx Param × List (Call Ctx Param)
  before_conn_ping_context conn ctx = start_on Ctx Param enabled started conn ctx (codes "ping") []

  abbrev pub after_conn_ping_context : CallData Ctx Param → Option Str → List (Call Ctx Param)
  after_conn_ping_context = end_after Ctx Param enabled started

  abbrev pub before_conn_prepare_context :
      Option Handle → Str → CallData Ctx Param → CallData Ctx Param
  before_conn_prepare_context = keep_prepared Ctx Param enabled started

  abbrev pub after_conn_prepare_context : CallData Ctx Param → Option SqlStmt → Option SqlStmt
  after_conn_prepare_context = fill_stmt Ctx Param enabled started

  abbrev pub before_conn_exec_context :
      Option Handle
      → Ctx
      → Str
      → List Param
      → CallData Ctx Param
      → CallData Ctx Param × List (Call Ctx Param)
  before_conn_exec_context = start_on Ctx Param enabled started

  abbrev pub after_conn_exec_context : CallData Ctx Param → Option Str → List (Call Ctx Param)
  after_conn_exec_context = end_after Ctx Param enabled started

  abbrev pub before_conn_query_context :
      Option Handle
      → Ctx
      → Str
      → List Param
      → CallData Ctx Param
      → CallData Ctx Param × List (Call Ctx Param)
  before_conn_query_context = start_on Ctx Param enabled started

  abbrev pub after_conn_query_context : CallData Ctx Param → Option Str → List (Call Ctx Param)
  after_conn_query_context = end_after Ctx Param enabled started

  abbrev pub before_conn_tx :
      Option Handle → Ctx → CallData Ctx Param → CallData Ctx Param × List (Call Ctx Param)
  before_conn_tx conn ctx =
      start_on Ctx Param enabled started conn ctx (codes "START TRANSACTION") []

  -- It leaves the transaction as it is.
  abbrev pub after_conn_tx : CallData Ctx Param → Option Str → List (Call Ctx Param)
  after_conn_tx = end_after Ctx Param enabled started

  -- sql.Tx
  abbrev pub before_tx_prepare_context :
      Option Handle → Str → CallData Ctx Param → CallData Ctx Param
  before_tx_prepare_context = keep_prepared Ctx Param enabled started

  abbrev pub after_tx_prepare_context : CallData Ctx Param → Option SqlStmt → Option SqlStmt
  after_tx_prepare_context = fill_stmt Ctx Param enabled started

  -- stmt.Data[k], of a map that may be nil
  abbrev pub stmt_field : SqlStmt → Str → Str
  stmt_field s k = elim s.data_map [ none ↦ [] | some m ↦ or_empty Ctx Param (lookup k m) ]

  unfoldable pub before_tx_stmt_context : Option SqlStmt → CallData Ctx Param → CallData Ctx Param
  before_tx_stmt_context none d = d
  before_tx_stmt_context (some s) d =
      let kept : Handle = record {
        endpoint = stmt_field s (codes "endpoint");
        driver_name = stmt_field s (codes "driver");
        dsn = s.dsn;
      } in
      if enabled then strings (handle_data Ctx Param kept) else d

  -- `if v, ok := data[k]; ok { stmt.Data[k] = v }`
  abbrev pub copy_field : Str → Dict Str → Dict Str → Dict Str
  copy_field k from to = elim (lookup k from) [ none ↦ to | some v ↦ insert k v to ]

  unfoldable pub after_tx_stmt_context : CallData Ctx Param → Option SqlStmt → Option SqlStmt
  after_tx_stmt_context d none = none
  after_tx_stmt_context (strings m) (some s) =
      let located = copy_field (codes "endpoint") m [] in
      let driven = copy_field (codes "driver") m located in
      some (if enabled then record s { data_map = some (copy_field (codes "dsn") m driven) } else s)
  after_tx_stmt_context no_data (some s) = some s
  after_tx_stmt_context (db_request req ctx) (some s) = some s

  abbrev pub before_tx_exec_context :
      Option Handle
      → Ctx
      → Str
      → List Param
      → CallData Ctx Param
      → CallData Ctx Param × List (Call Ctx Param)
  before_tx_exec_context = start_on Ctx Param enabled started

  abbrev pub after_tx_exec_context : CallData Ctx Param → Option Str → List (Call Ctx Param)
  after_tx_exec_context = end_after Ctx Param enabled started

  abbrev pub before_tx_query_context :
      Option Handle
      → Ctx
      → Str
      → List Param
      → CallData Ctx Param
      → CallData Ctx Param × List (Call Ctx Param)
  before_tx_query_context = start_on Ctx Param enabled started

  abbrev pub after_tx_query_context : CallData Ctx Param → Option Str → List (Call Ctx Param)
  after_tx_query_context = end_after Ctx Param enabled started

  -- `background` is context.Background().
  module _ (background : Ctx) where
    abbrev pub before_tx_commit :
        Option Handle → CallData Ctx Param → CallData Ctx Param × List (Call Ctx Param)
    before_tx_commit tx = start_on Ctx Param enabled started tx background (codes "COMMIT") []

    abbrev pub before_tx_rollback :
        Option Handle → CallData Ctx Param → CallData Ctx Param × List (Call Ctx Param)
    before_tx_rollback tx = start_on Ctx Param enabled started tx background (codes "ROLLBACK") []

  abbrev pub after_tx_commit : CallData Ctx Param → Option Str → List (Call Ctx Param)
  after_tx_commit = end_after Ctx Param enabled started

  abbrev pub after_tx_rollback : CallData Ctx Param → Option Str → List (Call Ctx Param)
  after_tx_rollback = end_after Ctx Param enabled started

  -- sql.Stmt: the fields are empty where Data is nil.
  abbrev pub stmt_dsn : SqlStmt → Str
  stmt_dsn s = elim s.data_map [ none ↦ [] | some m ↦ s.dsn ]

  unfoldable pub start_on_stmt :
      Option SqlStmt
      → Ctx
      → List Param
      → CallData Ctx Param
      → CallData Ctx Param × List (Call Ctx Param)
  start_on_stmt none ctx args d = (d, [])
  start_on_stmt (some s) ctx args d =
      if enabled
      then instrument_start Ctx Param enabled started ctx (stmt_field s (codes "sql"))
          (stmt_field s (codes "endpoint")) (stmt_field s (codes "driver")) (stmt_dsn s) args
      else (d, [])

  abbrev pub before_stmt_exec_context :
      Option SqlStmt
      → Ctx
      → List Param
      → CallData Ctx Param
      → CallData Ctx Param × List (Call Ctx Param)
  before_stmt_exec_context = start_on_stmt

  abbrev pub after_stmt_exec_context : CallData Ctx Param → Option Str → List (Call Ctx Param)
  after_stmt_exec_context = end_after Ctx Param enabled started

  abbrev pub before_stmt_query_context :
      Option SqlStmt
      → Ctx
      → List Param
      → CallData Ctx Param
      → CallData Ctx Param × List (Call Ctx Param)
  before_stmt_query_context = start_on_stmt

  abbrev pub after_stmt_query_context : CallData Ctx Param → Option Str → List (Call Ctx Param)
  after_stmt_query_context = end_after Ctx Param enabled started
