-- ===== src/Evolution.antt =====
-- Adding, dropping, altering and merging columns, of lance/evolution.go.
pub mod Run
use lance_go.Base.{
  ℕ, ◌+◌, Bool, Option, none, some, String, List, [], ◌∷◌, map, is_some, if◌then◌else◌,
}
use lance_go.Errors.{GoError, leaf, wrap, Leaf, Result, ok, err}
use lance_go.Errors.Ffi.{Ctx, World, Native}
use lance_go.Handle.{Handle, After, dataset_op}
use lance_go.Ledger.{Ledger, same_error, prepare_and_ask, ask}
use lance_go.Config.{Giving, unstarted, marshal_error}

-- `NamedExpr`: the name of a column, and its expression in SQL.
pub record NamedExpr : Type 0 where
  pub name : String
  pub sql : String

-- `ColumnAlteration`, which is sent as `columnAlterationJSON`, field by field.
pub record ColumnAlteration : Type 0 where
  pub path : String
  pub rename : String
  pub nullable : Option Bool
  pub data_type : String

-- `addColumnsSpec`; encoding/json leaves out an empty list and a 0.
pub record AddColumnsSpec : Type 0 where
  pub kind : String
  pub expressions : List (String × String)
  pub read_columns : List String
  pub batch_size : ℕ

-- A native call that takes over an exported stream and an exported schema, where they are not NULL.
abbrev pub AddColumns : Type 0 → Type 0 → Type 0 → Type 0
AddColumns N R C = ℕ → String → Option R → Option C → Giving N (Unit {0})

abbrev pub exports_of : {A : Type 0} → Option A → ℕ
exports_of none = 0
exports_of (some a) = 1

abbrev pub invalid : {N A : Type 0} → String → ℕ → World N → Result A × After N
invalid shape locks w = (err (wrap shape [] (leaf Leaf.invalid_argument)), unstarted locks w)

-- The loop of `AddColumnsSQL`.
unfoldable pub sql_spec : List NamedExpr → List String → ℕ → AddColumnsSpec
sql_spec exprs read_columns batch_size = record {
  kind = "sql";
  expressions = map (λ e. (NamedExpr.name e, NamedExpr.sql e)) exprs;
  read_columns = read_columns;
  batch_size = batch_size;
}

module _ {N R C : Type 0} (lib : Native N) (send : AddColumnsSpec → Result String)
    (native : AddColumns N R C) (c : Ctx) (ds : Handle) (locks : ℕ) where
  -- `addColumns`, over types of record readers and of schemas; a nil reader or schema is none.
  unfoldable pub add_columns :
      AddColumnsSpec → Option R → Option C → World (Ledger N) → Result (Unit {0}) × After (Ledger N)
  add_columns spec rdr schema w = elim (send spec) [
    | err e ↦ (err (marshal_error e), unstarted locks w)
    | ok sent ↦
        dataset_op "add columns" c ds locks
          (prepare_and_ask lib (exports_of rdr + exports_of schema) tt (λ u. u) same_error c
            (ok sent) (λ p s. native p s rdr schema))
          w
  ]

  -- `AddColumnsSQL`
  unfoldable pub add_columns_sql :
      List NamedExpr → List String → ℕ → World (Ledger N) → Result (Unit {0}) × After (Ledger N)
  add_columns_sql [] read_columns batch_size w =
      invalid "lance: add columns: no expressions given: %w" locks w
  add_columns_sql (e ∷ es) read_columns batch_size w =
      add_columns (sql_spec (e ∷ es) read_columns batch_size) none none w

  -- `AddColumnsFromReader`
  unfoldable pub add_columns_from_reader :
      Option R → ℕ → World (Ledger N) → Result (Unit {0}) × After (Ledger N)
  add_columns_from_reader none batch_size w =
      invalid "lance: add columns: reader must not be nil: %w" locks w
  add_columns_from_reader (some rdr) batch_size w =
      add_columns
        (record { kind = "reader"; expressions = []; read_columns = []; batch_size = batch_size })
        (some rdr) none w

  -- `AddColumnsAllNulls`
  unfoldable pub add_columns_all_nulls :
      Option C → World (Ledger N) → Result (Unit {0}) × After (Ledger N)
  add_columns_all_nulls none w = invalid "lance: add columns: schema must not be nil: %w" locks w
  add_columns_all_nulls (some schema) w =
      add_columns
        (record { kind = "all_nulls"; expressions = []; read_columns = []; batch_size = 0 }) none
        (some schema) w

module _ {N : Type 0} (lib : Native N) (c : Ctx) (ds : Handle) (locks : ℕ) where
  -- `DropColumns`
  unfoldable pub drop_columns :
      (ℕ → List String → Giving N (Unit {0}))
      → List String
      → World (Ledger N)
      → Result (Unit {0}) × After (Ledger N)
  drop_columns native [] w = invalid "lance: drop columns: no columns given: %w" locks w
  drop_columns native (col ∷ cols) w =
      dataset_op "drop columns" c ds locks
        (prepare_and_ask lib 0 tt (λ u. u) same_error c (ok (col ∷ cols)) native) w

  -- `AlterColumns`
  unfoldable pub alter_columns :
      (List ColumnAlteration → Result String)
      → (ℕ → String → Giving N (Unit {0}))
      → List ColumnAlteration
      → World (Ledger N)
      → Result (Unit {0}) × After (Ledger N)
  alter_columns send native [] w = invalid "lance: alter columns: no alterations given: %w" locks w
  alter_columns send native (a ∷ alts) w = elim (send (a ∷ alts)) [
    | err e ↦ (err (marshal_error e), unstarted locks w)
    | ok sent ↦
        dataset_op "alter columns" c ds locks
          (prepare_and_ask lib 0 tt (λ u. u) same_error c (ok sent) native) w
  ]

  -- `Merge`, with the names of the columns to join on; a nil reader is none.
  unfoldable pub merge :
      {R : Type 0}
      → (ℕ → String → String → R → Giving N (Unit {0}))
      → Option R
      → String
      → String
      → World (Ledger N)
      → Result (Unit {0}) × After (Ledger N)
  merge native none left_on right_on w = invalid "lance: merge: reader must not be nil: %w" locks w
  merge native (some rdr) left_on right_on w =
      dataset_op "merge" c ds locks
        (prepare_and_ask lib 1 tt (λ u. u) same_error c (ok rdr)
          (λ p r. native p left_on right_on r))
        w
