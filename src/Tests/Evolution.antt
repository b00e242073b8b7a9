-- ===== src/Tests/Evolution.antt =====
-- Runs of lance/evolution.go: an expression is added, and a reader that is nil.
use lance_go.Base.{ℕ, ◌+◌, true, false, none, some, String, [], ◌∷◌}
use lance_go.Errors.{Result, ok}
use lance_go.Errors.Ffi.{background}
use lance_go.Handle.{open_handle}
use lance_go.Evolution.{
  NamedExpr, AddColumnsSpec, AddColumns, add_columns_sql, add_columns_from_reader,
  add_columns_all_nulls,
}
use lance_go.Evolution.Run.{sql_sent, Given, columns_added}
use lance_go.Tests.Config.{outside, thread}

abbrev send : AddColumnsSpec → Result String
send spec = ok "{}"

abbrev native_add : AddColumns ℕ ℕ ℕ
native_add p spec rdr schema t n = (0, tt, n + 1)

abbrev doubled : NamedExpr
doubled = record { name = "twice"; sql = "x * 2" }

columns_added_example :
    let (res, after) =
      add_columns_sql outside send native_add background
        (open_handle 3)
        0
        (doubled ∷ [])
        []
        10
        thread in
    let (res', after') =
      add_columns_from_reader outside send native_add background (open_handle 3) 0 none 10 thread in
    let (res'', after'') =
      add_columns_all_nulls outside send native_add background (open_handle 3) 0 (some 4) thread in
    Given outside send native_add background
      (open_handle 3)
      0
      true
      (sql_sent (doubled ∷ []) [] 10)
      none
      none
      thread
      res
      after
    × Given outside send native_add background
        (open_handle 3)
        0
        false
        (record { kind = "reader"; expressions = []; read_columns = []; batch_size = 10 })
        none
        none
        thread
        res'
        after'
    × Given outside send native_add background
        (open_handle 3)
        0
        true
        (record { kind = "all_nulls"; expressions = []; read_columns = []; batch_size = 0 })
        none
        (some 4)
        thread
        res''
        after''
columns_added_example =
    columns_added outside send native_add background (open_handle 3) 0 (doubled ∷ []) [] 10 none
      (some 4) thread
