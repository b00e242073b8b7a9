-- ===== src/Stream/Methods.antt =====
-- The readers of a delta, of a query in SQL, of a fragment and of a partition of an index.
use lance_go.Base.{ℕ, Bool, true, Option, some, String, List, [], ◌∷◌}
use lance_go.Base.Int.{ℤ}
use lance_go.Errors.{wrap, text, Result, ok, err}
use lance_go.Errors.Ffi.{Ctx, World, Native}
use lance_go.Reader.{ArrowLib, Event, Reader}
use lance_go.Handle.{Handle, After}
use lance_go.Config.{Giving, marshal_error}
use lance_go.Maintenance.{DeltaConfig}
use lance_go.Stream.{StreamOut, Logged, stream_op}

-- `sqlConfig`
pub record SqlConfig : Type 0 where
  pub table_name : String
  pub with_row_id : Bool
  pub with_row_addr : Bool

-- The methods of `SQLBuilder` that return it.
pub data SqlSetting : Type 0 where
  table_name : String → SqlSetting
  with_row_id with_row_addr : SqlSetting

-- A chain of methods.
unfoldable pub set_sqls : List SqlSetting → SqlConfig → SqlConfig
set_sqls [] cfg = cfg
set_sqls (table_name t ∷ ss) cfg = set_sqls ss (record cfg { table_name = t })
set_sqls (with_row_id ∷ ss) cfg = set_sqls ss (record cfg { with_row_id = true })
set_sqls (with_row_addr ∷ ss) cfg = set_sqls ss (record cfg { with_row_addr = true })

-- `fragmentScanConfig`; encoding/json leaves out an empty list or text, a nil pointer, a 0 and false.
pub record FragmentScanConfig : Type 0 where
  pub columns : List String
  pub predicate : String
  pub limit : Option ℤ
  pub offset : Option ℤ
  pub with_row_id : Bool
  pub with_row_address : Bool
  pub batch_size : ℕ
  pub scan_in_order : Option Bool

-- The methods of `FragmentScanner` that return it.
pub data FragmentScanSetting : Type 0 where
  columns : List String → FragmentScanSetting
  filter : String → FragmentScanSetting
  limit offset : ℤ → FragmentScanSetting
  with_row_id with_row_address : FragmentScanSetting
  batch_size : ℕ → FragmentScanSetting
  scan_in_order : Bool → FragmentScanSetting

unfoldable pub set_fragment_scan : FragmentScanSetting → FragmentScanConfig → FragmentScanConfig
set_fragment_scan (columns cs) cfg = record cfg { columns = cs }
set_fragment_scan (filter f) cfg = record cfg { predicate = f }
set_fragment_scan (limit n) cfg = record cfg { limit = some n }
set_fragment_scan (offset n) cfg = record cfg { offset = some n }
set_fragment_scan with_row_id cfg = record cfg { with_row_id = true }
set_fragment_scan with_row_address cfg = record cfg { with_row_address = true }
set_fragment_scan (batch_size n) cfg = record cfg { batch_size = n }
set_fragment_scan (scan_in_order b) cfg = record cfg { scan_in_order = some b }

-- What `marshalOptions` gives.
abbrev pub marshalled : Result String → Result String
marshalled (ok s) = ok s
marshalled (err e) = err (marshal_error e)

module _ {N S A B C : Type 0} (lib : Native N) (arrow : ArrowLib S A B) (zeroed : StreamOut S C)
    (c : Ctx) (h : Handle) (locks : ℕ) where
  -- `DeltaBuilder.rows`, with the kind that native code knows, what it is called, and the two words
  -- together.
  unfoldable pub delta_rows :
      (DeltaConfig → Result String)
      → (ℕ → String → ℕ → Giving N (StreamOut S C))
      → ℕ
      → String
      → String
      → DeltaConfig
      → World (Logged N (Event A B))
      → Result (Reader S A B × C) × After (Logged N (Event A B))
  delta_rows send native kind what delta_what cfg =
      stream_op lib arrow zeroed c "dataset" (λ e. wrap "lance: delta %s: %w" (text what ∷ []) e)
        delta_what h locks (marshalled (send cfg)) (λ p s. native p s kind)

  -- `InsertedRows`
  unfoldable pub inserted_rows :
      (DeltaConfig → Result String)
      → (ℕ → String → ℕ → Giving N (StreamOut S C))
      → DeltaConfig
      → World (Logged N (Event A B))
      → Result (Reader S A B × C) × After (Logged N (Event A B))
  inserted_rows send native = delta_rows send native 0 "inserted rows" "delta inserted rows"

  -- `UpdatedRows`
  unfoldable pub updated_rows :
      (DeltaConfig → Result String)
      → (ℕ → String → ℕ → Giving N (StreamOut S C))
      → DeltaConfig
      → World (Logged N (Event A B))
      → Result (Reader S A B × C) × After (Logged N (Event A B))
  updated_rows send native = delta_rows send native 1 "updated rows" "delta updated rows"

  -- `UpsertedRows`
  unfoldable pub upserted_rows :
      (DeltaConfig → Result String)
      → (ℕ → String → ℕ → Giving N (StreamOut S C))
      → DeltaConfig
      → World (Logged N (Event A B))
      → Result (Reader S A B × C) × After (Logged N (Event A B))
  upserted_rows send native = delta_rows send native 2 "upserted rows" "delta upserted rows"

  -- `SQLBuilder.Reader`, with its query.
  unfoldable pub sql_reader :
      (SqlConfig → Result String)
      → (ℕ → String → String → Giving N (StreamOut S C))
      → String
      → SqlConfig
      → World (Logged N (Event A B))
      → Result (Reader S A B × C) × After (Logged N (Event A B))
  sql_reader send native query cfg =
      stream_op lib arrow zeroed c "dataset" (λ e. wrap "lance: sql: %w" [] e) "sql" h locks
        (marshalled (send cfg)) (λ p. native p query)

  -- `FragmentScanner.Reader`
  unfoldable pub fragment_reader :
      (FragmentScanConfig → Result String)
      → (ℕ → String → Giving N (StreamOut S C))
      → FragmentScanConfig
      → World (Logged N (Event A B))
      → Result (Reader S A B × C) × After (Logged N (Event A B))
  fragment_reader send native cfg =
      stream_op lib arrow zeroed c "fragment" (λ e. wrap "lance: fragment scan: %w" [] e)
        "fragment scan" h locks (marshalled (send cfg)) native

  -- `ReadIndexPartition`
  unfoldable pub read_index_partition :
      (ℕ → String → ℕ → Bool → Giving N (StreamOut S C))
      → String
      → ℕ
      → Bool
      → World (Logged N (Event A B))
      → Result (Reader S A B × C) × After (Logged N (Event A B))
  read_index_partition native name partition with_vector =
      stream_op lib arrow zeroed c "dataset"
        (λ e. wrap "lance: read index partition %q: %w" (text name ∷ []) e) "index partition" h
        locks (ok name) (λ p s. native p s partition with_vector)
