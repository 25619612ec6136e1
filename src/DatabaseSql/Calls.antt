-- ===== src/DatabaseSql/Calls.antt =====
-- pkg/rules/databasesql/setup.go: the requests, what the hooks leave in a call, and the steps that
-- the hooks share. The instrumenter is outside: its Start and End are the events of a log, and
-- `started` is the context that Start returns.
use opentelemetry_go_auto_in.Base.{
  Bool, Option, none, some, List, [], ◌∷◌, if◌then◌else◌, Str, codes, split,
}
use opentelemetry_go_auto_in.Base.Dict.{Dict, lookup}

-- The fields that the struct rules add to sql.DB, sql.Conn and sql.Tx
pub record Handle : Type 0 where
  pub endpoint : Str
  pub driver_name : Str
  pub dsn : Str

-- And to sql.Stmt: Data, which is nil at first, and DSN
pub record SqlStmt : Type 0 where
  pub data_map : Option (Dict Str)
  pub dsn : Str

module _ (Ctx Param : Type 0) where
  pub record DatabaseSqlRequest : Type 0 where
    pub op_type : Str
    pub sql : Str
    pub endpoint : Str
    pub driver_name : Str
    pub dsn : Str
    pub params : List Param

  -- What call.SetData stored: a map of strings, or the map with the request and its context.
  pub data CallData : Type 0 where
    no_data : CallData
    strings : Dict Str → CallData
    db_request : DatabaseSqlRequest → Ctx → CallData

  -- The calls of the instrumenter
  pub data Call : Type 0 where
    start_call : Ctx → DatabaseSqlRequest → Call
    end_call : Ctx → DatabaseSqlRequest → Option Str → Call

  -- m[k], the empty string where the map lacks it
  abbrev pub or_empty : Option Str → Str
  or_empty none = []
  or_empty (some s) = s

  -- `if ok { field = value }`
  abbrev pub or_keep : Str → Option Str → Str
  or_keep old none = old
  or_keep old (some s) = s

  -- sqls[0] of the split, which is never empty
  abbrev pub first_of : List Str → Str
  first_of [] = []
  first_of (s ∷ rest) = s

  unfoldable pub cal_op : Str → Str
  cal_op query = first_of (split query 32)

  abbrev pub handle_data : Handle → Dict Str
  handle_data h =
      (codes "endpoint", h.endpoint) ∷ (codes "driver", h.driver_name) ∷ (codes "dsn", h.dsn) ∷ []

  abbrev pub prepared_data : Str → Handle → Dict Str
  prepared_data query h =
      (codes "endpoint", h.endpoint)
      ∷ (codes "sql", query)
      ∷ (codes "driver", h.driver_name)
      ∷ (codes "dsn", h.dsn)
      ∷ []

  abbrev pub set_handle : Dict Str → Handle → Handle
  set_handle m h = record {
    endpoint = or_keep h.endpoint (lookup (codes "endpoint") m);
    driver_name = or_keep h.driver_name (lookup (codes "driver") m);
    dsn = or_keep h.dsn (lookup (codes "dsn") m);
  }

  unfoldable pub instrument_end : CallData → Option Str → List Call
  instrument_end no_data error = []
  instrument_end (strings m) error = []
  instrument_end (db_request req ctx) error = end_call ctx req error ∷ []

  module _ (enabled : Bool) (started : Ctx → DatabaseSqlRequest → Ctx) where
    unfoldable pub instrument_start :
        Ctx → Str → Str → Str → Str → List Param → CallData × List Call
    instrument_start ctx query endpoint driver dsn args =
        let req : DatabaseSqlRequest = record {
          op_type = cal_op query;
          sql = query;
          endpoint = endpoint;
          driver_name = driver;
          dsn = dsn;
          params = args;
        } in
        (db_request req (started ctx req), start_call ctx req ∷ [])

    -- A hook before an operation on a handle, which may be nil: the guards, and instrumentStart.
    unfoldable pub start_on :
        Option Handle → Ctx → Str → List Param → CallData → CallData × List Call
    start_on none ctx query args d = (d, [])
    start_on (some h) ctx query args d =
        if enabled then instrument_start ctx query h.endpoint h.driver_name h.dsn args else (d, [])

    -- A hook after an operation: its guard, and instrumentEnd.
    unfoldable pub end_after : CallData → Option Str → List Call
    unfolding instrument_end
    end_after d error = if enabled then instrument_end d error else []

    -- A hook that only keeps the handle's fields for the one after the operation
    unfoldable pub keep_handle : Option Handle → CallData → CallData
    keep_handle none d = d
    keep_handle (some h) d = if enabled then strings (handle_data h) else d

    unfoldable pub keep_prepared : Option Handle → Str → CallData → CallData
    keep_prepared none query d = d
    keep_prepared (some h) query d = if enabled then strings (prepared_data query h) else d

    -- The handle that an operation returned gets what was kept.
    unfoldable pub fill_handle : CallData → Option Handle → Option Handle
    fill_handle d none = none
    fill_handle (strings m) (some h) = some (if enabled then set_handle m h else h)
    fill_handle no_data (some h) = some h
    fill_handle (db_request req ctx) (some h) = some h

    unfoldable pub fill_stmt : CallData → Option SqlStmt → Option SqlStmt
    fill_stmt d none = none
    fill_stmt (strings m) (some s) =
        let filled : Dict Str =
          (codes "endpoint", or_empty (lookup (codes "endpoint") m))
          ∷ (codes "sql", or_empty (lookup (codes "sql") m))
          ∷ (codes "driver", or_empty (lookup (codes "driver") m))
          ∷ [] in
        some (
          if enabled
          then record { data_map = some filled; dsn = or_empty (lookup (codes "dsn") m) }
          else s)
    fill_stmt no_data (some s) = some s
    fill_stmt (db_request req ctx) (some s) = some s
