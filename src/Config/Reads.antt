-- ===== src/Config/Reads.antt =====
-- The methods of `Dataset` in lance/config.go that read, count and check, and `ListDetachedManifests`
-- of lance/transaction.go.
use lance_go.Base.{ℕ, Bool, Option, String, List}
use lance_go.Errors.{Result}
use lance_go.Errors.Ffi.{Ctx, World, Native}
use lance_go.Handle.{Handle, After}
use lance_go.Ledger.{Ledger}
use lance_go.Open.{Storage}
use lance_go.Transaction.{Memory}
use lance_go.Config.{
  CacheStats, DatasetPaths, FieldStatistics, Giving, json_op, do_op, count_op, test_op,
}

-- `DetachedManifest`
pub record DetachedManifest : Type 0 where
  pub version : ℕ
  pub path : String
  pub size : Option ℕ

-- What encoding/json reads from the native answers, over a type of floats.
pub record Decodes (F : Type 0) : Type 0 where
  pub storage : String → Result Storage
  pub cache_stats : String → Result (CacheStats F)
  pub paths : String → Result DatasetPaths
  pub data_stats : String → Result (List FieldStatistics)
  pub manifests : String → Result (List DetachedManifest)

-- The native functions, of the pointer of the dataset.
pub record ReadLib (N : Type 0) : Type 0 where
  pub config : ℕ → Giving N (Option ℕ)
  pub storage_options : ℕ → Giving N (Option ℕ)
  pub metadata : ℕ → Giving N (Option ℕ)
  pub cache_stats : ℕ → Giving N (Option ℕ)
  pub paths : ℕ → Giving N (Option ℕ)
  pub data_stats : ℕ → Giving N (Option ℕ)
  pub list_detached_manifests : ℕ → Giving N (Option ℕ)
  pub count_deleted_rows : ℕ → Giving N ℕ
  pub is_stale : ℕ → Giving N Bool
  pub has_successor_version : ℕ → Giving N Bool
  pub num_small_files : ℕ → ℕ → Giving N ℕ
  pub truncate_table : ℕ → Option ℕ → N → ℕ × N
  pub validate : ℕ → Option ℕ → N → ℕ × N
  pub migrate_manifest_paths_v2 : ℕ → Option ℕ → N → ℕ × N

module _ {N F : Type 0} (lib : Native N) (native : ReadLib N) (mem : Memory N) (json : Decodes F)
    (c : Ctx) (ds : Handle) (locks : ℕ) where
  -- `Config`
  unfoldable pub config : World (Ledger N) → Result (Storage) × After (Ledger N)
  config = json_op lib mem c "config" "config" json.storage ds locks native.config

  -- `StorageOptions`
  unfoldable pub storage_options : World (Ledger N) → Result (Storage) × After (Ledger N)
  storage_options =
      json_op lib mem c "storage options" "storage options" json.storage ds locks
        native.storage_options

  -- `Metadata`
  unfoldable pub metadata : World (Ledger N) → Result (Storage) × After (Ledger N)
  metadata = json_op lib mem c "metadata" "metadata" json.storage ds locks native.metadata

  -- `CacheStats`
  unfoldable pub cache_stats : World (Ledger N) → Result (CacheStats F) × After (Ledger N)
  cache_stats =
      json_op lib mem c "cache stats" "cache stats" json.cache_stats ds locks native.cache_stats

  -- `Paths`
  unfoldable pub paths : World (Ledger N) → Result (DatasetPaths) × After (Ledger N)
  paths = json_op lib mem c "paths" "paths" json.paths ds locks native.paths

  -- `DataStats`
  unfoldable pub data_stats : World (Ledger N) → Result (List FieldStatistics) × After (Ledger N)
  data_stats =
      json_op lib mem c "data stats" "data stats" json.data_stats ds locks native.data_stats

  -- `ListDetachedManifests`
  unfoldable pub list_detached_manifests :
      World (Ledger N) → Result (List DetachedManifest) × After (Ledger N)
  list_detached_manifests =
      json_op lib mem c "list detached manifests" "list detached manifests" json.manifests ds locks
        native.list_detached_manifests

module _ {N : Type 0} (lib : Native N) (native : ReadLib N) (c : Ctx) (ds : Handle)
    (locks : ℕ) where
  -- `CountDeletedRows`
  unfoldable pub count_deleted_rows : World (Ledger N) → Result ℕ × After (Ledger N)
  count_deleted_rows = count_op lib c "count deleted rows" ds locks native.count_deleted_rows

  -- `IsStale`
  unfoldable pub is_stale : World (Ledger N) → Result Bool × After (Ledger N)
  is_stale = test_op lib c "is stale" ds locks native.is_stale

  -- `HasSuccessorVersion`
  unfoldable pub has_successor_version : World (Ledger N) → Result Bool × After (Ledger N)
  has_successor_version =
      test_op lib c "has successor version" ds locks native.has_successor_version

  -- `NumSmallFiles`
  unfoldable pub num_small_files : ℕ → World (Ledger N) → Result ℕ × After (Ledger N)
  num_small_files max_rows_per_group =
      count_op lib c "num small files" ds locks (λ p. native.num_small_files p max_rows_per_group)

  -- `TruncateTable`
  unfoldable pub truncate_table : World (Ledger N) → Result (Unit {0}) × After (Ledger N)
  truncate_table = do_op lib c "truncate table" ds locks native.truncate_table

  -- `Validate`
  unfoldable pub validate : World (Ledger N) → Result (Unit {0}) × After (Ledger N)
  validate = do_op lib c "validate" ds locks native.validate

  -- `MigrateManifestPathsV2`
  unfoldable pub migrate_manifest_paths_v2 : World (Ledger N) → Result (Unit {0}) × After (Ledger N)
  migrate_manifest_paths_v2 =
      do_op lib c "migrate manifest paths v2" ds locks native.migrate_manifest_paths_v2
