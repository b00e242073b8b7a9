-- ===== src/Hooks/Columns.antt =====
-- `AddColumnsUDF` of lance/hooks.go.
use lance_go.Base.{
  ℕ, ◌≡◌, refl, inl, inr, Option, none, some, String, List, [], ◌∷◌, arith, Option-cases,
}
use lance_go.Errors.{leaf, wrap, Leaf, Result, ok, err}
use lance_go.Errors.Ffi.{Ctx, World, Native, ffi_call}
use lance_go.Plugin.{Registry, register_plugin, release_plugin}
use lance_go.Plugin.Loan.{
  IsSame, HasRoom, Lends-register_plugin, IsSame-release_plugin, HasRoom-register_plugin,
  Lends-IsSame,
}
use lance_go.Handle.{Handle, After, dataset_op, error_of}
use lance_go.Handle.Run.{handle_op_leaves}

-- `udfOptions`, over a type of checkpoint stores.
pub record UdfOptions (K : Type 0) : Type 0 where
  pub read_columns : List String
  pub batch_size : ℕ
  pub checkpoint : Option K

-- The constructors of `UDFOption`; a nil store is none.
pub data UdfOption (K : Type 0) : Type 0 where
  with_udf_read_columns : List String → UdfOption K
  with_udf_batch_size : ℕ → UdfOption K
  with_udf_checkpoint : Option K → UdfOption K

abbrev pub no_udf_options : {K : Type 0} → UdfOptions K
no_udf_options = record { read_columns = []; batch_size = 0; checkpoint = none }

abbrev pub apply_udf : {K : Type 0} → List (UdfOption K) → UdfOptions K → UdfOptions K
apply_udf [] o = o
apply_udf (with_udf_read_columns columns ∷ opts) o =
    apply_udf opts (record o { read_columns = columns })
apply_udf (with_udf_batch_size n ∷ opts) o = apply_udf opts (record o { batch_size = n })
apply_udf (with_udf_checkpoint store ∷ opts) o = apply_udf opts (record o { checkpoint = store })

module _ {N K M Q C : Type 0} (lib : Native N)
    (native : Registry Q → ℕ → C → ℕ → Option String → ℕ → ℕ → Option ℕ → N → ℕ × N)
    (marshal : List String → Result String) (udf_adapter : M → Q) (store_adapter : K → Q) where
  -- The native call, with the registry that its callbacks find and the handles of the two plugins.
  abbrev columns_call :
      Ctx
      → C
      → UdfOptions K
      → Option String
      → Registry Q
      → ℕ
      → ℕ
      → ℕ
      → World N
      → Result (Unit {0}) × World N
  columns_call c schema o options plugins udf store p w =
      let (e, w') = ffi_call lib c (native plugins p schema udf options o.batch_size store) w in
      (elim e [ none ↦ ok tt | some why ↦ err why ], w')

  -- The function that `AddColumnsUDF` runs on the dataset.
  unfoldable pub columns_op :
      Ctx → C → UdfOptions K → Registry Q → ℕ → ℕ → ℕ → World N → Result (Unit {0}) × World N
  columns_op c schema o plugins udf store p w = elim o.read_columns [
    | [] ↦ columns_call c schema o none plugins udf store p w
    | column ∷ columns ↦ elim (marshal o.read_columns) [
      | err e ↦ (err (wrap "marshal options: %w" [] e), w)
      | ok options ↦ columns_call c schema o (some options) plugins udf store p w
    ]
  ]

  abbrev columns_run :
      Ctx
      → Handle
      → ℕ
      → C
      → UdfOptions K
      → World N
      → Registry Q
      → ℕ
      → ℕ
      → Result (Unit {0}) × After N
  columns_run c ds locks schema o w plugins udf store =
      dataset_op "add columns udf" c ds locks (columns_op c schema o plugins udf store) w

  -- Behind the registration of the mapper: that of the checkpoint store, if there is one.
  unfoldable pub columns_stored :
      Ctx
      → Handle
      → ℕ
      → C
      → UdfOptions K
      → World N
      → ℕ
      → Registry Q
      → (Result (Unit {0}) × After N) × Registry Q
  columns_stored c ds locks schema o w udf plugins = elim o.checkpoint [
    | none ↦ (columns_run c ds locks schema o w plugins udf 0, plugins)
    | some k ↦
        let (store, plugins') = register_plugin (store_adapter k) plugins in
        (columns_run c ds locks schema o w plugins' udf store, release_plugin store plugins')
  ]

  -- `AddColumnsUDF`; with no mapper it does not get to the dataset.
  unfoldable pub add_columns_udf :
      Ctx
      → Handle
      → ℕ
      → C
      → Option M
      → List (UdfOption K)
      → World N
      → Registry Q
      → (Result (Unit {0}) × Option (After N)) × Registry Q
  add_columns_udf c ds locks schema none opts w plugins = (
    (err (wrap "lance: udf mapper must not be nil: %w" [] (leaf Leaf.invalid_argument)), none),
    plugins,
  )
  add_columns_udf c ds locks schema (some fn) opts w plugins =
      let (udf, plugins') = register_plugin (udf_adapter fn) plugins in
      let ((res, after), plugins'') =
        columns_stored c ds locks schema (apply_udf opts no_udf_options) w udf plugins' in
      ((res, some after), release_plugin udf plugins'')

  -- What the operation on the dataset leaves: its lock as before, and a span that ended once.
  abbrev IsDone : ℕ → Result (Unit {0}) × After N → Type 0
  IsDone locks (res, after) = (after.held_locks ≡ locks) × (after.span_ends ≡ error_of res ∷ [])

  pub data Stored (locks : ℕ) (r : Registry Q) (out : (Result (Unit {0}) × After N) × Registry Q)
      : Type 0 where
    stored : IsDone locks out.0 → IsSame r out.1 → Stored locks r out

  columns_stored-Stored :
      (c : Ctx) (ds : Handle) (locks : ℕ) (schema : C) (o : UdfOptions K) (w : World N) (udf : ℕ)
      (r : Registry Q)
      → HasRoom 1 r
      → Stored locks r (columns_stored c ds locks schema o w udf r)
  unfolding columns_stored
  columns_stored-Stored c ds locks schema o w udf r room = elim (Option-cases o.checkpoint) [
    | inl bare ↦
        let (held, ended, _) =
          handle_op_leaves "dataset" "add columns udf" c ds locks (columns_op c schema o r udf 0)
            w in
        let eq : columns_stored c ds locks schema o w udf r
            ≡ (columns_run c ds locks schema o w r udf 0, r) =
          simp (columns_stored, bare) in
        rw eq (stored (held, ended) (λ k. refl))
    | inr (k, wanted) ↦
        let (store, r') = register_plugin (store_adapter k) r in
        let (held, ended, _) =
          handle_op_leaves "dataset" "add columns udf" c ds locks
            (columns_op c schema o r' udf store) w in
        let eq : columns_stored c ds locks schema o w udf r
            ≡ (columns_run c ds locks schema o w r' udf store, release_plugin store r') =
          simp (columns_stored, wanted) in
        rw eq (
          stored (held, ended)
            (IsSame-release_plugin store (store_adapter k) r r'
              (Lends-register_plugin (store_adapter k) r room)))
  ]

  -- With a mapper, and with a valid registry that has two handles left, `AddColumnsUDF` gives
  -- back the dataset's lock and ends its span once, with the error that it returns, and every
  -- plugin handle then stands for what it stood for, whether the operation succeeds or fails at
  -- any point and with a checkpoint store or without.
  pub add_columns_udf_leaves :
      (c : Ctx) (ds : Handle) (locks : ℕ) (schema : C) (fn : M) (opts : List (UdfOption K))
      (w : World N) (r : Registry Q)
      → HasRoom 2 r
      → let ((res, after), r') = add_columns_udf c ds locks schema (some fn) opts w r in
        (a : After N) × (after ≡ some a)
        × (a.held_locks ≡ locks)
        × (a.span_ends ≡ error_of res ∷ [])
        × IsSame r r'
  unfolding add_columns_udf
  add_columns_udf_leaves c ds locks schema fn opts w r room =
      let (udf, r') = register_plugin (udf_adapter fn) r in
      let lent = Lends-register_plugin (udf_adapter fn) r (room.0, omega arith) in
      let more = HasRoom-register_plugin 1 (udf_adapter fn) r room in
      elim (columns_stored-Stored c ds locks schema (apply_udf opts no_udf_options) w udf r' more) [
        | stored (held, ended) same ↦ (
          _,
          refl,
          held,
          ended,
          IsSame-release_plugin udf (udf_adapter fn) r _
              (Lends-IsSame udf (udf_adapter fn) r r' _ lent same),
        )
      ]
