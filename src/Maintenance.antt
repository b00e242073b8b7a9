-- ===== src/Maintenance.antt =====
-- Compaction, cleanup and deltas, of lance/maintenance.go and lance/delta.go, and the planning of a
-- compaction of lance/distributed.go.
pub mod Sent
use lance_go.Base.{ℕ, Bool, Option, none, some, String, List, [], ◌∷◌, ◌==◌, if◌then◌else◌}
use lance_go.Base.Int.{ℤ}
use lance_go.Errors.{GoError, wrap, Result, ok, err}
use lance_go.Errors.Ffi.{Ctx, World, Native}
use lance_go.Handle.{Handle, After, dataset_op}
use lance_go.Ledger.{Ledger, same_error, fetch}
use lance_go.Open.{Storage}
use lance_go.Transaction.{Memory}
use lance_go.Write.{whole_seconds}
use lance_go.Config.{Giving, RemovalStats, unstarted, marshal_error}
use lance_go.Index.Manage.{framed_as}

-- `CompactionOptions`, over a type of floats.
pub record CompactionOptions (F : Type 0) : Type 0 where
  pub target_rows_per_fragment : ℕ
  pub max_rows_per_group : ℕ
  pub max_bytes_per_file : Option ℕ
  pub materialize_deletions : Option Bool
  pub materialize_deletions_threshold : Option F
  pub num_threads : Option ℕ
  pub batch_size : Option ℕ
  pub defer_index_remap : Option Bool

-- `compactionOptionsJSON`; encoding/json leaves out what is none.
pub record CompactionOptionsJson (F : Type 0) : Type 0 where
  pub target_rows_per_fragment : Option ℕ
  pub max_rows_per_group : Option ℕ
  pub max_bytes_per_file : Option ℕ
  pub materialize_deletions : Option Bool
  pub materialize_deletions_threshold : Option F
  pub num_threads : Option ℕ
  pub batch_size : Option ℕ
  pub defer_index_remap : Option Bool

-- `planCompactionOptionsJSON`
pub record PlanOptionsJson (F : Type 0) : Type 0 where
  pub target_rows_per_fragment : Option ℕ
  pub max_rows_per_group : Option ℕ
  pub max_bytes_per_file : Option ℕ
  pub materialize_deletions : Option Bool
  pub materialize_deletions_threshold : Option F
  pub num_threads : Option ℕ
  pub batch_size : Option ℕ

abbrev pub unless_zero : ℕ → Option ℕ
unless_zero n = if n == 0 then none else some n

-- `toJSON`
unfoldable pub to_json : {F : Type 0} → CompactionOptions F → CompactionOptionsJson F
to_json o = record {
  target_rows_per_fragment = unless_zero o.target_rows_per_fragment;
  max_rows_per_group = unless_zero o.max_rows_per_group;
  max_bytes_per_file = o.max_bytes_per_file;
  materialize_deletions = o.materialize_deletions;
  materialize_deletions_threshold = o.materialize_deletions_threshold;
  num_threads = o.num_threads;
  batch_size = o.batch_size;
  defer_index_remap = o.defer_index_remap;
}

-- `planJSON`
unfoldable pub plan_json : {F : Type 0} → CompactionOptions F → PlanOptionsJson F
plan_json o =
    let full = to_json o in
    record {
      target_rows_per_fragment = full.target_rows_per_fragment;
      max_rows_per_group = full.max_rows_per_group;
      max_bytes_per_file = full.max_bytes_per_file;
      materialize_deletions = full.materialize_deletions;
      materialize_deletions_threshold = full.materialize_deletions_threshold;
      num_threads = full.num_threads;
      batch_size = full.batch_size;
    }

-- `CompactionMetrics`
pub record CompactionMetrics : Type 0 where
  pub fragments_removed : ℕ
  pub fragments_added : ℕ
  pub files_removed : ℕ
  pub files_added : ℕ

-- `CompactionPlan`; a task is its payload.
pub record CompactionPlan : Type 0 where
  pub tasks : List String
  pub read_version : ℕ
  pub raw : String

-- `cleanupConfig`; encoding/json leaves out a nil pointer.
pub record CleanupConfig : Type 0 where
  pub older_than_seconds : ℤ
  pub delete_unverified : Option Bool
  pub error_if_tagged_old_versions : Option Bool

-- The constructors of `CleanupOption`.
pub data CleanupOption : Type 0 where
  with_delete_unverified with_error_if_tagged_old_versions : Bool → CleanupOption

-- The loop over the options of `CleanupOldVersions`.
unfoldable pub apply_cleanup : List CleanupOption → CleanupConfig → CleanupConfig
apply_cleanup [] cfg = cfg
apply_cleanup (with_delete_unverified b ∷ os) cfg =
    apply_cleanup os (record cfg { delete_unverified = some b })
apply_cleanup (with_error_if_tagged_old_versions b ∷ os) cfg =
    apply_cleanup os (record cfg { error_if_tagged_old_versions = some b })

-- The configuration that is sent, for a duration in nanoseconds.
unfoldable pub cleanup_config : ℤ → List CleanupOption → CleanupConfig
cleanup_config older_than opts = apply_cleanup opts (record {
  older_than_seconds = whole_seconds older_than;
  delete_unverified = none;
  error_if_tagged_old_versions = none;
})

-- `deltaConfig`; a date is its text.
pub record DeltaConfig : Type 0 where
  pub compared_against_version : Option ℕ
  pub begin_version : Option ℕ
  pub end_version : Option ℕ
  pub begin_date : String
  pub end_date : String

-- The methods of `DeltaBuilder` that return it, over a type of times.
pub data DeltaSetting (T : Type 0) : Type 0 where
  compared_against_version from_version to_version : ℕ → DeltaSetting T
  from_date to_date : T → DeltaSetting T

-- A chain of methods, with what package time makes of a date in UTC.
unfoldable pub set_deltas :
    {T : Type 0} → (T → String) → List (DeltaSetting T) → DeltaConfig → DeltaConfig
set_deltas format [] cfg = cfg
set_deltas format (compared_against_version v ∷ ss) cfg =
    set_deltas format ss (record cfg { compared_against_version = some v })
set_deltas format (from_version v ∷ ss) cfg =
    set_deltas format ss (record cfg { begin_version = some v })
set_deltas format (to_version v ∷ ss) cfg =
    set_deltas format ss (record cfg { end_version = some v })
set_deltas format (from_date t ∷ ss) cfg =
    set_deltas format ss (record cfg { begin_date = format t })
set_deltas format (to_date t ∷ ss) cfg = set_deltas format ss (record cfg { end_date = format t })

-- `TransactionInfo`
pub record TransactionInfo : Type 0 where
  pub read_version : ℕ
  pub uuid : String
  pub operation : String
  pub tag : String
  pub properties : Storage

module _ {N : Type 0} (lib : Native N) (mem : Memory N) (c : Ctx) (ds : Handle) (locks : ℕ) where
  -- What `CompactFiles`, `CleanupOldVersions` and `PlanCompaction` share: the options are encoded
  -- before `datasetOp`, and the native answer is read.
  unfoldable pub options_op :
      {A : Type 0}
      → String
      → (GoError → GoError)
      → (String → Result A)
      → Result String
      → (ℕ → String → Giving N (Option ℕ))
      → World (Ledger N)
      → Result A × After (Ledger N)
  options_op verb framed decode (err e) native w = (err (marshal_error e), unstarted locks w)
  options_op verb framed decode (ok sent) native w =
      dataset_op verb c ds locks (λ p. fetch lib mem 0 decode same_error framed c (native p sent)) w

  -- `CompactFiles`
  unfoldable pub compact_files :
      {F : Type 0}
      → (CompactionOptionsJson F → Result String)
      → (String → Result CompactionMetrics)
      → (ℕ → String → Giving N (Option ℕ))
      → CompactionOptions F
      → World (Ledger N)
      → Result CompactionMetrics × After (Ledger N)
  compact_files send decode native o =
      options_op "compact files" (λ e. wrap "decode compaction metrics: %w" [] e) decode
        (send (to_json o)) native

  -- `CleanupOldVersions`
  unfoldable pub cleanup_old_versions :
      (CleanupConfig → Result String)
      → (String → Result RemovalStats)
      → (ℕ → String → Giving N (Option ℕ))
      → ℤ
      → List CleanupOption
      → World (Ledger N)
      → Result RemovalStats × After (Ledger N)
  cleanup_old_versions send decode native older_than opts =
      options_op "cleanup old versions" (λ e. wrap "decode removal stats: %w" [] e) decode
        (send (cleanup_config older_than opts)) native

  -- `PlanCompaction` of lance/distributed.go.
  unfoldable pub plan_compaction :
      {F : Type 0}
      → (PlanOptionsJson F → Result String)
      → (String → Result CompactionPlan)
      → (ℕ → String → Giving N (Option ℕ))
      → CompactionOptions F
      → World (Ledger N)
      → Result CompactionPlan × After (Ledger N)
  plan_compaction send decode native o =
      options_op "plan compaction" (λ e. wrap "decode compaction plan: %w" [] e) decode
        (send (plan_json o)) native

  -- `DeltaBuilder.Transactions`
  unfoldable pub delta_transactions :
      (DeltaConfig → Result String)
      → (String → Result (List TransactionInfo))
      → (ℕ → String → Giving N (Option ℕ))
      → DeltaConfig
      → World (Ledger N)
      → Result (List TransactionInfo) × After (Ledger N)
  delta_transactions send decode native cfg w =
      dataset_op "delta transactions" c ds locks
        (λ p v. elim (framed_as "marshal delta spec: %w" (send cfg)) [
          | err e ↦ (err e, v)
          | ok s ↦
              fetch lib mem 0 decode same_error (λ e. wrap "decode delta transactions: %w" [] e) c
                (native p s) v
        ])
        w
