-- ===== src/Evolution/Run.antt =====
-- What the column changes of lance/evolution.go do with their arguments, and with their exports.
use lance_go.Base.{
  map, ap, Bool, true, false, is_some, ℕ, ◌+◌, ◌≡◌, refl, inl, inr, Option, none, some, String,
  List, [], ◌∷◌,
}
use lance_go.Errors.{GoError, Leaf, errors_is, Result, ok, err, Result-cases}
use lance_go.Errors.Ffi.{Ctx, World, Native}
use lance_go.Handle.{Handle, After, error_of}
use lance_go.Handle.Run.{named}
use lance_go.Ledger.{Ledger, same_error}
use lance_go.Ledger.Asked.{Consulted, Consulted-handle_op}
use lance_go.Config.{Giving, unstarted, marshal_error}
use lance_go.Evolution.{
  NamedExpr, AddColumnsSpec, AddColumns, exports_of, sql_spec, add_columns, add_columns_sql,
  add_columns_from_reader, add_columns_all_nulls, merge,
}

-- The pairs of names and expressions that are to be sent.
abbrev pub pairs_of : List NamedExpr → List (String × String)
pairs_of [] = []
pairs_of (e ∷ es) = (e.name, e.sql) ∷ pairs_of es

abbrev pub sql_sent : List NamedExpr → List String → ℕ → AddColumnsSpec
sql_sent exprs cols batch = record {
  kind = "sql";
  expressions = pairs_of exprs;
  read_columns = cols;
  batch_size = batch;
}

pairs_of_lem :
    (exprs : List NamedExpr) → pairs_of exprs ≡ map (λ e. (NamedExpr.name e, NamedExpr.sql e)) exprs
pairs_of_lem [] = refl
pairs_of_lem (e ∷ es) = ap (λ ps. (e.name, e.sql) ∷ ps) (pairs_of_lem es)

sql_spec_lem :
    (exprs : List NamedExpr) (cols : List String) (batch : ℕ)
    → sql_sent exprs cols batch ≡ sql_spec exprs cols batch
unfolding sql_spec
sql_spec_lem exprs cols batch = rw (pairs_of_lem exprs) refl

module _ {N R C : Type 0} (lib : Native N) (send : AddColumnsSpec → Result String)
    (native : AddColumns N R C) (c : Ctx) (ds : Handle) (locks : ℕ) where
  -- How an addition of columns ends that sends this spec, reader and schema: the spec cannot be
  -- encoded; or it is one operation of the dataset, with a native call that takes over what is given.
  pub data Added (spec : AddColumnsSpec) (rdr : Option R) (schema : Option C) (w : World (Ledger N))
      (res : Result (Unit {0})) (after : After (Ledger N)) : Type 0 where
    unencoded :
        (e : GoError)
        → send spec ≡ err e
        → res ≡ err (marshal_error e)
        → after ≡ unstarted locks w
        → Added spec rdr schema w res after
    added :
        (s : String)
        → send spec ≡ ok s
        → after.held_locks ≡ locks
        → after.span_ends ≡ error_of res ∷ []
        → Consulted lib c
            (exports_of rdr + exports_of schema)
            tt
            (λ u. u)
            same_error
            ds
            locks
            (ok s)
            (λ p s'. native p s' rdr schema)
            w
            (named "add columns")
            res
            after.world
        → Added spec rdr schema w res after

  Added-add_columns :
      (spec : AddColumnsSpec) (rdr : Option R) (schema : Option C) (w : World (Ledger N))
      → let (res, after) = add_columns lib send native c ds locks spec rdr schema w in
        Added spec rdr schema w res after
  unfolding add_columns
  Added-add_columns spec rdr schema w = elim (Result-cases (send spec)) [
    | inr (e, bad) ↦ rw (add_columns, bad) (unencoded e bad refl refl)
    | inl (s, good) ↦
        let (unlocked, ended, run) =
          Consulted-handle_op lib c (exports_of rdr + exports_of schema) tt (λ u. u) same_error ds
            locks (ok s) (λ p s'. native p s' rdr schema) w "dataset" "add columns" in
        rw (add_columns, good) (added s good unlocked ended run)
  ]

  -- With nothing given the change is an invalid argument, and nothing is touched; else it is an
  -- addition of columns.
  pub data Given (is_given : Bool) (spec : AddColumnsSpec) (rdr : Option R) (schema : Option C)
      (w : World (Ledger N)) (res : Result (Unit {0})) (after : After (Ledger N)) : Type 0 where
    nothing :
        (e : GoError)
        → is_given ≡ false
        → res ≡ err e
        → errors_is e Leaf.invalid_argument ≡ true
        → after ≡ unstarted locks w
        → Given is_given spec rdr schema w res after
    something :
        is_given ≡ true
        → Added spec rdr schema w res after
        → Given is_given spec rdr schema w res after

  abbrev pub any_given : List NamedExpr → Bool
  any_given [] = false
  any_given (e ∷ es) = true

  sql_added :
      (exprs : List NamedExpr) (cols : List String) (batch : ℕ) (w : World (Ledger N))
      → let (res, after) = add_columns_sql lib send native c ds locks exprs cols batch w in
        Given (any_given exprs) (sql_spec exprs cols batch) none none w res after
  unfolding add_columns_sql errors_is
  sql_added [] cols batch w = nothing _ refl refl refl refl
  sql_added (e ∷ es) cols batch w =
      something refl (Added-add_columns (sql_spec (e ∷ es) cols batch) none none w)

  reader_added :
      (rdr : Option R) (batch : ℕ) (w : World (Ledger N))
      → let (res, after) = add_columns_from_reader lib send native c ds locks rdr batch w in
        Given
          (is_some rdr)
          (record { kind = "reader"; expressions = []; read_columns = []; batch_size = batch })
          rdr
          none
          w
          res
          after
  unfolding add_columns_from_reader errors_is
  reader_added none batch w = nothing _ refl refl refl refl
  reader_added (some r) batch w = something refl (Added-add_columns _ (some r) none w)

  nulls_added :
      (schema : Option C) (w : World (Ledger N))
      → let (res, after) = add_columns_all_nulls lib send native c ds locks schema w in
        Given
          (is_some schema)
          (record { kind = "all_nulls"; expressions = []; read_columns = []; batch_size = 0 })
          none
          schema
          w
          res
          after
  unfolding add_columns_all_nulls errors_is
  nulls_added none w = nothing _ refl refl refl refl
  nulls_added (some s) w = something refl (Added-add_columns _ none (some s) w)

  -- `AddColumnsSQL` without expressions, `AddColumnsFromReader` with a nil reader, and
  -- `AddColumnsAllNulls` with a nil schema are ErrInvalidArgument, and take no lock and call nothing.
  -- Each of them otherwise sends its own spec, all expressions in their order with their names, and
  -- fails untouched if that cannot be encoded; or is one operation of the dataset, which exports just
  -- the reader or the schema that it was given, and whose lock and span are given back.
  pub columns_added :
      (exprs : List NamedExpr) (cols : List String) (batch : ℕ) (rdr : Option R) (schema : Option C)
      (w : World (Ledger N))
      → let (res, after) = add_columns_sql lib send native c ds locks exprs cols batch w in
        let (res', after') = add_columns_from_reader lib send native c ds locks rdr batch w in
        let (res'', after'') = add_columns_all_nulls lib send native c ds locks schema w in
        Given (any_given exprs) (sql_sent exprs cols batch) none none w res after
        × Given
            (is_some rdr)
            (record { kind = "reader"; expressions = []; read_columns = []; batch_size = batch })
            rdr
            none
            w
            res'
            after'
        × Given
            (is_some schema)
            (record { kind = "all_nulls"; expressions = []; read_columns = []; batch_size = 0 })
            none
            schema
            w
            res''
            after''
  columns_added exprs cols batch rdr schema w = (
    rw (sql_spec_lem exprs cols batch) (sql_added exprs cols batch w),
    reader_added rdr batch w,
    nulls_added schema w,
  )

module _ {N R : Type 0} (lib : Native N) (c : Ctx) (ds : Handle) (locks : ℕ)
    (native : ℕ → String → String → R → Giving N (Unit {0})) (left_on right_on : String)
    (w : World (Ledger N)) where
  -- A `Merge` of a reader that is not nil exports its stream just once, when the dataset is let
  -- through; a guard that stops the native call leaves it with no owner, and else native code takes
  -- it over. The lock and the span are given back.
  pub merge_leaves :
      (rdr : R)
      → let (res, after) = merge lib c ds locks native (some rdr) left_on right_on w in
        (after.held_locks ≡ locks)
        × (after.span_ends ≡ error_of res ∷ [])
        × Consulted lib c 1 tt
            (λ u. u)
            same_error
            ds
            locks
            (ok rdr)
            (λ p r. native p left_on right_on r)
            w
            (named "merge")
            res
            after.world
  unfolding merge
  merge_leaves rdr =
      Consulted-handle_op lib c 1 tt (λ u. u) same_error ds locks (ok rdr)
        (λ p r. native p left_on right_on r) w "dataset" "merge"
