-- ===== src/Mutation/Merge.antt =====
-- `MergeInsertBuilder` of lance/mutation.go.
use lance_go.Base.{◌++◌, ℕ, Bool, Option, none, some, String, List, [], ◌∷◌}
use lance_go.Base.Int.{ℤ}
use lance_go.Errors.{GoError, wrap, Result, ok, err}
use lance_go.Errors.Ffi.{Ctx, World, Native}
use lance_go.Handle.{Handle, hand_op}
use lance_go.Ledger.{Ledger, send_and_fetch}
use lance_go.Transaction.{Memory}
use lance_go.Config.{Giving}
use lance_go.Mutation.{Metered, retry_timeout_ms, counted}

-- The values of the fields WhenMatched and WhenNotMatchedBySource: a string, or a map of one entry.
pub data When : Type 0 where
  keyword : String → When
  when_if : String → String → When

-- `mergeInsertConfig`
pub record MergeConfig : Type 0 where
  pub on : List String
  pub when_matched : Option When
  pub when_not_matched : String
  pub when_not_matched_by_source : Option When
  pub conflict_retries : Option ℕ
  pub retry_timeout_ms : ℕ
  pub source_dedupe_behavior : String
  pub use_index : Option Bool
  pub commit_retries : Option ℕ
  pub skip_auto_cleanup : Option Bool

-- `MergeInsert`
unfoldable pub merge_insert : List String → MergeConfig
merge_insert keys = record {
  on = keys;
  when_matched = none;
  when_not_matched = "";
  when_not_matched_by_source = none;
  conflict_retries = none;
  retry_timeout_ms = 0;
  source_dedupe_behavior = "";
  use_index = none;
  commit_retries = none;
  skip_auto_cleanup = none;
}

-- The methods of the builder that return it; a duration is in nanoseconds.
pub data MergeSetting : Type 0 where
  when_matched_update_all when_matched_delete when_matched_fail when_matched_do_nothing :
      MergeSetting
  when_matched_update_if : String → MergeSetting
  when_not_matched_insert_all when_not_matched_do_nothing : MergeSetting
  when_not_matched_by_source_keep when_not_matched_by_source_delete : MergeSetting
  when_not_matched_by_source_delete_if : String → MergeSetting
  conflict_retries commit_retries : ℕ → MergeSetting
  retry_timeout : ℤ → MergeSetting
  source_dedupe : String → MergeSetting
  use_index skip_auto_cleanup : Bool → MergeSetting

unfoldable pub set_merge : MergeSetting → MergeConfig → MergeConfig
set_merge when_matched_update_all cfg = record cfg { when_matched = some (keyword "update_all") }
set_merge when_matched_delete cfg = record cfg { when_matched = some (keyword "delete") }
set_merge when_matched_fail cfg = record cfg { when_matched = some (keyword "fail") }
set_merge when_matched_do_nothing cfg = record cfg { when_matched = some (keyword "do_nothing") }
set_merge (when_matched_update_if e) cfg = record cfg {
  when_matched = some (when_if "update_if" e);
}
set_merge when_not_matched_insert_all cfg = record cfg { when_not_matched = "insert_all" }
set_merge when_not_matched_do_nothing cfg = record cfg { when_not_matched = "do_nothing" }
set_merge when_not_matched_by_source_keep cfg = record cfg {
  when_not_matched_by_source = some (keyword "keep");
}
set_merge when_not_matched_by_source_delete cfg = record cfg {
  when_not_matched_by_source = some (keyword "delete");
}
set_merge (when_not_matched_by_source_delete_if e) cfg = record cfg {
  when_not_matched_by_source = some (when_if "delete_if" e);
}
set_merge (conflict_retries n) cfg = record cfg { conflict_retries = some n }
set_merge (commit_retries n) cfg = record cfg { commit_retries = some n }
set_merge (retry_timeout d) cfg = record cfg { retry_timeout_ms = retry_timeout_ms d }
set_merge (source_dedupe b) cfg = record cfg { source_dedupe_behavior = b }
set_merge (use_index b) cfg = record cfg { use_index = some b }
set_merge (skip_auto_cleanup b) cfg = record cfg { skip_auto_cleanup = some b }

-- A chain of methods.
unfoldable pub set_merges : List MergeSetting → MergeConfig → MergeConfig
set_merges [] cfg = cfg
set_merges (s ∷ ss) cfg = set_merges ss (set_merge s cfg)

-- `MergeStats`
pub record MergeStats : Type 0 where
  pub num_inserted_rows : ℕ
  pub num_updated_rows : ℕ
  pub num_deleted_rows : ℕ
  pub num_attempts : ℕ
  pub bytes_written : ℕ
  pub num_files_written : ℕ
  pub num_skipped_duplicates : ℕ

abbrev pub no_stats : MergeStats
no_stats = record {
  num_inserted_rows = 0;
  num_updated_rows = 0;
  num_deleted_rows = 0;
  num_attempts = 0;
  bytes_written = 0;
  num_files_written = 0;
  num_skipped_duplicates = 0;
}

abbrev pub stats_or_zero : Result MergeStats → MergeStats
stats_or_zero (ok s) = s
stats_or_zero (err e) = no_stats

-- The deferred records of `Execute`, the first one first.
unfoldable pub recorded_stats : MergeStats → List (String × ℤ)
recorded_stats s =
    counted "inserted" s.num_inserted_rows
    ++ counted "updated" s.num_updated_rows
    ++ counted "deleted" s.num_deleted_rows
    ++ counted "bytes" s.bytes_written

abbrev pub merge_refused : GoError → GoError
merge_refused e = wrap "lance: merge insert: %w" [] e

abbrev pub merge_framed : GoError → GoError
merge_framed e = wrap "lance: decode merge stats: %w" [] e

-- `Execute`, over a type of record readers; the stream of the reader is exported for the call.
unfoldable pub execute_merge :
    {N R : Type 0}
    → Native N
    → Memory N
    → (String → Result MergeStats)
    → (MergeConfig → Result String)
    → (ℕ → String → R → Giving N (Option ℕ))
    → Ctx
    → Handle
    → ℕ
    → MergeConfig
    → R
    → World (Ledger N)
    → Result MergeStats × Metered (Ledger N)
execute_merge lib mem decode send native c ds locks cfg rdr w =
    let (res, after) =
      hand_op c ds locks
        (send_and_fetch lib mem 1 decode merge_refused merge_framed c (send cfg)
          (λ p s. native p s rdr))
        w in
    (res, record { after = after; recorded = recorded_stats (stats_or_zero res) })
