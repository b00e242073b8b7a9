-- ===== src/Index/Manage.antt =====
-- Making, prewarming, optimising and dropping the indices of a dataset, of lance/index.go.
use lance_go.Base.{ℕ, Bool, true, false, Option, none, some, String, List, [], ◌∷◌, ◌+◌}
use lance_go.Base.Int.{ℤ}
use lance_go.Errors.{wrap, Result, ok, err}
use lance_go.Errors.Ffi.{Ctx, World, Native}
use lance_go.Json.{Doc, bool, object, empty, field}
use lance_go.Handle.{Handle, After, dataset_op}
use lance_go.Ledger.{Ledger, same_error, ask, prepare_and_ask, fetch}
use lance_go.Open.{Storage}
use lance_go.Transaction.{Memory}
use lance_go.Config.{Giving}
use lance_go.Evolution.{exports_of}
use lance_go.Index.{IndexConfig, index_params, index_type_name}

-- `IndexInfo`, over a type of times.
pub record IndexInfo (T : Type 0) : Type 0 where
  pub name : String
  pub uuid : String
  pub fields : List ℤ
  pub dataset_version : ℕ
  pub index_version : ℤ
  pub created_at : Option T

-- `indexOptions`
pub record IndexOptions : Type 0 where
  pub name : String
  pub replace : Bool

-- The constructors of `IndexOption`.
pub data IndexOption : Type 0 where
  with_index_name : String → IndexOption
  with_replace : Bool → IndexOption

-- The loop over the options of `CreateIndex`.
unfoldable pub apply_index_options : List IndexOption → IndexOptions → IndexOptions
apply_index_options [] o = o
apply_index_options (with_index_name n ∷ os) o = apply_index_options os (record o { name = n })
apply_index_options (with_replace b ∷ os) o = apply_index_options os (record o { replace = b })

abbrev pub no_index_options : IndexOptions
no_index_options = record { name = ""; replace = false }

-- The arguments of the native builders: the column, the type, the parameters as JSON or an empty
-- text, and the two Arrow arrays, each of which may be NULL.
pub record BuildArgs (A : Type 0) : Type 0 where
  pub column : String
  pub type_name : String
  pub params : String
  pub centroids : Option A
  pub codebook : Option A

-- The parameters of a configuration, as they are sent: no document at all is an empty text.
unfoldable pub params_text :
    {F : Type 0}
    → (F → Bool)
    → (ℤ → String)
    → (Doc F → Result String)
    → IndexConfig F
    → Result String
params_text nonzero shown send cfg = elim (index_params nonzero shown cfg) [
  | err e ↦ err e
  | ok none ↦ ok ""
  | ok (some doc) ↦ elim (send doc) [
    | err e ↦ err (wrap "marshal index params: %w" [] e)
    | ok s ↦ ok s
  ]
]

module _ {N F A : Type 0} (lib : Native N) (nonzero : F → Bool) (shown : ℤ → String)
    (send : Doc F → Result String) (quoted : String → String → String) (c : Ctx) (ds : Handle)
    (locks : ℕ) where
  -- `CreateIndex`, with what package fmt makes of the verb and the quoted column; the native function
  -- gets the name of the index, which may be empty, and whether to replace one, and takes over the
  -- arrays.
  unfoldable pub create_index :
      (ℕ → BuildArgs A → String → Bool → Giving N (Unit {0}))
      → String
      → IndexConfig F
      → Option A
      → Option A
      → List IndexOption
      → World (Ledger N)
      → Result (Unit {0}) × After (Ledger N)
  create_index native column cfg centroids codebook opts w =
      let o = apply_index_options opts no_index_options in
      dataset_op (quoted "create index on" column) c ds locks
        (prepare_and_ask lib (exports_of centroids + exports_of codebook) tt (λ u. u) same_error c
          (params_text nonzero shown send cfg)
          (λ p params.
            native p
              (record {
                column = column;
                type_name = index_type_name cfg;
                params = params;
                centroids = centroids;
                codebook = codebook;
              })
              o.name o.replace))
        w

-- `optimizeConfig`; a nil number is none.
pub record OptimizeConfig : Type 0 where
  pub num_indices_to_merge : Option ℤ
  pub index_names : List String
  pub retrain : Bool
  pub transaction_properties : Storage

-- The constructors of `OptimizeOption`.
pub data OptimizeOption : Type 0 where
  with_merge_indices : ℤ → OptimizeOption
  with_index_names : List String → OptimizeOption
  with_retrain : OptimizeOption
  with_optimize_transaction_properties : Storage → OptimizeOption

-- The loop over the options of `OptimizeIndices`.
unfoldable pub apply_optimize_options : List OptimizeOption → OptimizeConfig → OptimizeConfig
apply_optimize_options [] cfg = cfg
apply_optimize_options (with_merge_indices n ∷ os) cfg =
    apply_optimize_options os (record cfg { num_indices_to_merge = some n })
apply_optimize_options (with_index_names ns ∷ os) cfg =
    apply_optimize_options os (record cfg { index_names = ns })
apply_optimize_options (with_retrain ∷ os) cfg =
    apply_optimize_options os (record cfg { retrain = true })
apply_optimize_options (with_optimize_transaction_properties m ∷ os) cfg =
    apply_optimize_options os (record cfg { transaction_properties = m })

abbrev pub no_optimize_options : OptimizeConfig
no_optimize_options = record {
  num_indices_to_merge = none;
  index_names = [];
  retrain = false;
  transaction_properties = [];
}

-- `IndexCriteria`; encoding/json leaves out an empty text and false.
pub record IndexCriteria : Type 0 where
  pub for_column : String
  pub has_name : String
  pub must_support_fts : Bool
  pub must_support_exact_equality : Bool

-- `IndexDescription`
pub record IndexDescription (T : Type 0) : Type 0 where
  pub name : String
  pub index_type : String
  pub type_url : String
  pub rows_indexed : ℕ
  pub field_ids : List ℤ
  pub details : String
  pub total_size_bytes : Option ℕ
  pub segments : List (IndexInfo T)

-- `PrewarmFTS.prewarmOptions`
unfoldable pub prewarm_options : {F : Type 0} → Bool → Doc F
prewarm_options with_position =
    field "fts" (object (field "with_position" (bool with_position) empty)) empty

abbrev pub framed_as : {A : Type 0} → String → Result A → Result A
framed_as shape (ok a) = ok a
framed_as shape (err e) = err (wrap shape [] e)

module _ {N : Type 0} (lib : Native N) (quoted : String → String → String) (c : Ctx) (ds : Handle)
    (locks : ℕ) where
  -- `DropIndex`
  unfoldable pub drop_index :
      (ℕ → String → Giving N (Unit {0}))
      → String
      → World (Ledger N)
      → Result (Unit {0}) × After (Ledger N)
  drop_index native name w =
      dataset_op (quoted "drop index" name) c ds locks
        (λ p. ask lib 0 tt (λ u. u) same_error c (native p name)) w

  -- `OptimizeIndices`
  unfoldable pub optimize_indices :
      (OptimizeConfig → Result String)
      → (ℕ → String → Giving N (Unit {0}))
      → List OptimizeOption
      → World (Ledger N)
      → Result (Unit {0}) × After (Ledger N)
  optimize_indices send native opts w =
      dataset_op "optimize indices" c ds locks
        (prepare_and_ask lib 0 tt (λ u. u) same_error c
          (framed_as "marshal options: %w" (send (apply_optimize_options opts no_optimize_options)))
          native)
        w

  -- `PrewarmIndex`
  unfoldable pub prewarm_index :
      (ℕ → String → Giving N (Unit {0}))
      → String
      → World (Ledger N)
      → Result (Unit {0}) × After (Ledger N)
  prewarm_index native name w =
      dataset_op (quoted "prewarm index" name) c ds locks
        (λ p. ask lib 0 tt (λ u. u) same_error c (native p name)) w

  -- `PrewarmIndexWithOptions`, of `PrewarmFTS`.
  unfoldable pub prewarm_index_with_options :
      {F : Type 0}
      → (Doc F → Result String)
      → (ℕ → String → String → Giving N (Unit {0}))
      → String
      → Bool
      → World (Ledger N)
      → Result (Unit {0}) × After (Ledger N)
  prewarm_index_with_options send native name with_position w =
      dataset_op (quoted "prewarm index" name) c ds locks
        (prepare_and_ask lib 0 tt (λ u. u) same_error c
          (framed_as "marshal prewarm options: %w" (send (prewarm_options with_position)))
          (λ p. native p name))
        w

  -- `RemapIndex`
  unfoldable pub remap_index :
      (ℕ → String → String → Giving N (Unit {0}))
      → String
      → String
      → World (Ledger N)
      → Result (Unit {0}) × After (Ledger N)
  remap_index native column name w =
      dataset_op (quoted "remap index on" column) c ds locks
        (λ p. ask lib 0 tt (λ u. u) same_error c (native p column name)) w

module _ {N : Type 0} (lib : Native N) (mem : Memory N) (quoted : String → String → String)
    (c : Ctx) (ds : Handle) (locks : ℕ) where
  -- `IndexStatistics`, which gives the string as it is.
  unfoldable pub index_statistics :
      (ℕ → String → Giving N (Option ℕ))
      → String
      → World (Ledger N)
      → Result String × After (Ledger N)
  index_statistics native name w =
      dataset_op (quoted "index statistics for" name) c ds locks
        (λ p. fetch lib mem 0 (λ s. ok s) same_error same_error c (native p name)) w
