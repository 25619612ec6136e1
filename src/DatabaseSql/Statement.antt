-- ===== src/DatabaseSql/Statement.antt =====
-- pkg/rules/databasesql/databasesql_extractor.go: the collection and the parameters of a statement.
-- The parser is outside, and gives of a statement what the type switches below read.
use opentelemetry_go_auto_in.Base.{
  ℕ, suc, ◌+◌, Bool, true, Option, none, some, List, [], ◌∷◌, ◌++◌, ltb, if◌then◌else◌, length,
  get_elem?, Str, codes, str_eq,
}
use opentelemetry_go_auto_in.Base.Dict.{Dict, insert}

-- An element of sqlparser.TableExprs: an aliased one, with its name where it is a TableName
pub data TableExpr : Type 0 where
  aliased_table_expr : Option Str → TableExpr
  other_table_expr : TableExpr

-- sqlparser.Expr: comparisons with their operator, AND, OR, columns, and literals, of which it is
-- said whether they are strings
pub data Expr : Type 0 where
  comparison_expr : Str → Expr → Expr → Expr
  and_expr or_expr : Expr → Expr → Expr
  col_name : Str → Expr
  sql_val : Bool → Str → Expr
  other_expr : Expr

-- What sqlparser.Parse returns; the rows of an insertion where they are Values
pub data Statement : Type 0 where
  select_stmt : List TableExpr → Option Expr → Statement
  update_stmt : List TableExpr → List (Str × Expr) → Option Expr → Statement
  insert_stmt : Str → List Str → Option (List (List Expr)) → Statement
  delete_stmt : List TableExpr → Option Expr → Statement
  other_stmt : Statement

unfoldable pub get_table_name : List TableExpr → Str
get_table_name [] = []
get_table_name (aliased_table_expr (some name) ∷ exprs) = name
get_table_name (aliased_table_expr none ∷ exprs) = get_table_name exprs
get_table_name (other_table_expr ∷ exprs) = get_table_name exprs

abbrev pub collection_of : Option Statement → Str
collection_of none = []
collection_of (some (select_stmt tables condition)) = get_table_name tables
collection_of (some (update_stmt tables exprs condition)) = get_table_name tables
collection_of (some (insert_stmt table columns rows)) = table
collection_of (some (delete_stmt tables condition)) = get_table_name tables
collection_of (some other_stmt) = []

-- `column = 'text'`
abbrev pub add_comparison : Str → Expr → Expr → Dict Str → Dict Str
add_comparison operator (col_name column) (sql_val true text) values =
    if str_eq operator (codes "=") then insert column text values else values
add_comparison operator left right values = values

unfoldable pub extract_conditions : Expr → Dict Str → Dict Str
extract_conditions (comparison_expr operator left right) values =
    add_comparison operator left right values
extract_conditions (and_expr left right) values =
    extract_conditions right (extract_conditions left values)
extract_conditions (or_expr left right) values =
    extract_conditions right (extract_conditions left values)
extract_conditions (col_name column) values = values
extract_conditions (sql_val is_text text) values = values
extract_conditions other_expr values = values

abbrev pub where_params : Option Expr → Dict Str → Dict Str
where_params none values = values
where_params (some condition) values = extract_conditions condition values

abbrev pub add_assignment : Str → Expr → Dict Str → Dict Str
add_assignment column (sql_val true text) values = insert column text values
add_assignment column expr values = values

unfoldable pub assignment_params : List (Str × Expr) → Dict Str → Dict Str
assignment_params [] values = values
assignment_params ((column, expr) ∷ exprs) values =
    assignment_params exprs (add_assignment column expr values)

-- `if j >= len(columns) { continue }`
abbrev pub add_cell : Str → Option Str → Expr → Dict Str → Dict Str
add_cell suffix none expr values = values
add_cell suffix (some column) expr values = add_assignment (column ++ suffix) expr values

-- The cells of a row from number `j` on
unfoldable pub row_params : Str → List Str → ℕ → List Expr → Dict Str → Dict Str
row_params suffix columns j [] values = values
row_params suffix columns j (expr ∷ row) values =
    row_params suffix columns (suc j) row (add_cell suffix (get_elem? columns j) expr values)

-- `decimal` is %d.
module _ (decimal : ℕ → Str) where
  -- "_row1" and so on, where there are several rows
  abbrev pub row_suffix : Bool → ℕ → Str
  row_suffix several i = if several then codes "_row" ++ decimal (i + 1) else []

  unfoldable pub rows_params : Bool → List Str → ℕ → List (List Expr) → Dict Str → Dict Str
  rows_params several columns i [] values = values
  rows_params several columns i (row ∷ rows) values =
      rows_params several columns (suc i) rows
        (row_params (row_suffix several i) columns 0 row values)

  -- extractSQLParams; of a statement that cannot be parsed it returns a nil map.
  abbrev pub params_of : Option Statement → Dict Str
  params_of none = []
  params_of (some (select_stmt tables condition)) = where_params condition []
  params_of (some (update_stmt tables exprs condition)) =
      where_params condition (assignment_params exprs [])
  params_of (some (insert_stmt table columns none)) = []
  params_of (some (insert_stmt table columns (some rows))) =
      rows_params (ltb 1 (length rows)) columns 0 rows []
  params_of (some (delete_stmt tables condition)) = where_params condition []
  params_of (some other_stmt) = []

-- sqlparser.Parse, `none` for an error
module _ (parse : Str → Option Statement) where
  unfoldable pub extract_collection : Str → Str
  extract_collection query = collection_of (parse query)

  unfoldable pub extract_sql_params : (ℕ → Str) → Str → Dict Str
  extract_sql_params decimal query = params_of decimal (parse query)
