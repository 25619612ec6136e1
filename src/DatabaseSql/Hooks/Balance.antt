-- ===== src/DatabaseSql/Hooks/Balance.antt =====
-- The spans of pkg/rules/databasesql/setup.go: what the two hooks of an operation start and end.
use opentelemetry_go_auto_in.Base.{
  ◌≡◌, refl, Bool, true, false, ◌⊎◌, inl, inr, Option, none, some, List, [], ◌∷◌, ◌++◌, Str, codes,
}
use opentelemetry_go_auto_in.DatabaseSql.Calls.{
  Handle, SqlStmt, DatabaseSqlRequest, CallData, no_data, Call, start_call, start_on,
  instrument_start, instrument_end, end_after,
}
use opentelemetry_go_auto_in.DatabaseSql.Hooks.{
  start_on_stmt, before_ping_context, after_ping_context, before_exec_context, after_exec_context,
  before_query_context, after_query_context, before_tx, after_tx, before_conn_ping_context,
  after_conn_ping_context, before_conn_exec_context, after_conn_exec_context,
  before_conn_query_context, after_conn_query_context, before_conn_tx, after_conn_tx,
  before_tx_exec_context, after_tx_exec_context, before_tx_query_context, after_tx_query_context,
  before_tx_commit, after_tx_commit, before_tx_rollback, after_tx_rollback,
  before_stmt_exec_context, after_stmt_exec_context, before_stmt_query_context,
  after_stmt_query_context,
}
use opentelemetry_go_auto_in.DatabaseSql.Hooks.Sessions.{request, one_span}

-- The operations whose hooks call the instrumenter: those of sql.DB, sql.Conn, sql.Tx and sql.Stmt
pub data Operation : Type 0 where
  ping exec query begin_tx : Operation
  conn_ping conn_exec conn_query conn_begin_tx : Operation
  tx_exec tx_query tx_commit tx_rollback : Operation
  stmt_exec stmt_query : Operation

module _ (Ctx Param : Type 0) (enabled : Bool) (started : Ctx → DatabaseSqlRequest Ctx Param → Ctx)
    (background : Ctx) (handle tx : Option Handle) (stmt : Option SqlStmt) (text : Str)
    (args : List Param) (ctx : Ctx) (error : Option Str) where
  -- The hook before the operation, on a handle or a statement, which may be nil
  abbrev pub before : Operation → CallData Ctx Param × List (Call Ctx Param)
  before ping = before_ping_context Ctx Param enabled started handle ctx no_data
  before exec = before_exec_context Ctx Param enabled started handle ctx text args no_data
  before query = before_query_context Ctx Param enabled started handle ctx text args no_data
  before begin_tx = before_tx Ctx Param enabled started handle ctx no_data
  before conn_ping = before_conn_ping_context Ctx Param enabled started handle ctx no_data
  before conn_exec = before_conn_exec_context Ctx Param enabled started handle ctx text args no_data
  before conn_query =
      before_conn_query_context Ctx Param enabled started handle ctx text args no_data
  before conn_begin_tx = before_conn_tx Ctx Param enabled started handle ctx no_data
  before tx_exec = before_tx_exec_context Ctx Param enabled started handle ctx text args no_data
  before tx_query = before_tx_query_context Ctx Param enabled started handle ctx text args no_data
  before tx_commit = before_tx_commit Ctx Param enabled started background handle no_data
  before tx_rollback = before_tx_rollback Ctx Param enabled started background handle no_data
  before stmt_exec = before_stmt_exec_context Ctx Param enabled started stmt ctx args no_data
  before stmt_query = before_stmt_query_context Ctx Param enabled started stmt ctx args no_data

  -- The hook behind it, with what the other left in the call; `tx` is what db.BeginTx returned.
  abbrev pub after : Operation → CallData Ctx Param → List (Call Ctx Param)
  after ping d = after_ping_context Ctx Param enabled started d error
  after exec d = after_exec_context Ctx Param enabled started d error
  after query d = after_query_context Ctx Param enabled started d error
  after begin_tx d = (after_tx Ctx Param enabled started d tx error).1
  after conn_ping d = after_conn_ping_context Ctx Param enabled started d error
  after conn_exec d = after_conn_exec_context Ctx Param enabled started d error
  after conn_query d = after_conn_query_context Ctx Param enabled started d error
  after conn_begin_tx d = after_conn_tx Ctx Param enabled started d error
  after tx_exec d = after_tx_exec_context Ctx Param enabled started d error
  after tx_query d = after_tx_query_context Ctx Param enabled started d error
  after tx_commit d = after_tx_commit Ctx Param enabled started d error
  after tx_rollback d = after_tx_rollback Ctx Param enabled started d error
  after stmt_exec d = after_stmt_exec_context Ctx Param enabled started d error
  after stmt_query d = after_stmt_query_context Ctx Param enabled started d error

  abbrev pub calls : Operation → List (Call Ctx Param)
  calls op = let (d, log) = before op in log ++ after op d

module _ (Ctx Param : Type 0) (started : Ctx → DatabaseSqlRequest Ctx Param → Ctx) where
  -- Nothing, or one span that is started and then ended in the context that starting it gave.
  abbrev pub Balanced : Option Str → List (Call Ctx Param) → Type 0
  Balanced error log =
      (log ≡ [])
      ⊎ ((ctx : Ctx) × (req : DatabaseSqlRequest Ctx Param) × (log
            ≡ one_span Ctx Param started ctx req error))

  start_on-Balanced :
      (enabled : Bool) (handle : Option Handle) (ctx : Ctx) (text : Str) (args : List Param)
      (error : Option Str)
      → let (d, log) = start_on Ctx Param enabled started handle ctx text args no_data in
        Balanced error (log ++ end_after Ctx Param enabled started d error)
  unfolding start_on instrument_start end_after instrument_end
  start_on-Balanced true none ctx text args error = inl refl
  start_on-Balanced false none ctx text args error = inl refl
  start_on-Balanced true (some h) ctx text args error = inr (ctx, _, refl)
  start_on-Balanced false (some h) ctx text args error = inl refl

  start_on_stmt-Balanced :
      (enabled : Bool) (stmt : Option SqlStmt) (ctx : Ctx) (args : List Param) (error : Option Str)
      → let (d, log) = start_on_stmt Ctx Param enabled started stmt ctx args no_data in
        Balanced error (log ++ end_after Ctx Param enabled started d error)
  unfolding start_on_stmt instrument_start end_after instrument_end
  start_on_stmt-Balanced true none ctx args error = inl refl
  start_on_stmt-Balanced false none ctx args error = inl refl
  start_on_stmt-Balanced true (some s) ctx args error = inr (ctx, _, refl)
  start_on_stmt-Balanced false (some s) ctx args error = inl refl

  begin_tx-Balanced :
      (enabled : Bool) (handle : Option Handle) (tx : Handle) (ctx : Ctx) (error : Option Str)
      → let (d, log) = before_tx Ctx Param enabled started handle ctx no_data in
        Balanced error (log ++ (after_tx Ctx Param enabled started d (some tx) error).1)
  unfolding start_on instrument_start after_tx instrument_end
  begin_tx-Balanced true none tx ctx error = inl refl
  begin_tx-Balanced false none tx ctx error = inl refl
  begin_tx-Balanced true (some h) tx ctx error = inr (ctx, _, refl)
  begin_tx-Balanced false (some h) tx ctx error = inl refl

  -- For every operation of a database, a connection, a transaction or a statement with hooks that
  -- call the instrumenter, be its handle nil or not, the hooks enabled or not, and whether or not
  -- it fails: either no span is started and none ended, or one is started and then that one is
  -- ended with the operation's error; of db.BeginTx this is said where it returns a transaction.
  pub calls-Balanced :
      (enabled : Bool) (background : Ctx) (handle : Option Handle) (tx : Handle)
      (stmt : Option SqlStmt) (text : Str) (args : List Param) (ctx : Ctx) (error : Option Str)
      (op : Operation)
      → Balanced error
          (calls Ctx Param enabled started background handle (some tx) stmt text args ctx error op)
  calls-Balanced enabled background handle tx stmt text args ctx error op =
      let on = start_on-Balanced enabled handle in
      let statement = start_on_stmt-Balanced enabled stmt ctx args error in
      elim op
        as (λ k. Balanced error (
          calls Ctx Param enabled started background handle (some tx) stmt text args ctx error k)) [
            | ping ↦ on ctx (codes "ping") [] error
            | exec ↦ on ctx text args error
            | query ↦ on ctx text args error
            | begin_tx ↦ begin_tx-Balanced enabled handle tx ctx error
            | conn_ping ↦ on ctx (codes "ping") [] error
            | conn_exec ↦ on ctx text args error
            | conn_query ↦ on ctx text args error
            | conn_begin_tx ↦ on ctx (codes "START TRANSACTION") [] error
            | tx_exec ↦ on ctx text args error
            | tx_query ↦ on ctx text args error
            | tx_commit ↦ on background (codes "COMMIT") [] error
            | tx_rollback ↦ on background (codes "ROLLBACK") [] error
            | stmt_exec ↦ statement
            | stmt_query ↦ statement
          ]

  -- When the hooks are enabled and BeginTx of a database returns no transaction, its span is
  -- started and never ended.
  pub begin_tx_fails :
      (background : Ctx) (db : Handle) (stmt : Option SqlStmt) (text : Str) (args : List Param)
      (ctx : Ctx) (error : Option Str)
      → calls Ctx Param true started background (some db) none stmt text args ctx error begin_tx
        ≡ start_call ctx (
            request Ctx Param started
              (codes "START TRANSACTION")
              db.endpoint
              db.driver_name
              db.dsn
              [])
          ∷ []
  unfolding start_on instrument_start after_tx
  begin_tx_fails background db stmt text args ctx error = refl
