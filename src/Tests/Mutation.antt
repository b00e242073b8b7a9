-- ===== src/Tests/Mutation.antt =====
-- Runs of lance/mutation.go: a delete, and a merge-insert with its numbers.
use lance_go.Base.{none, ℕ, ◌+◌, ◌≡◌, Option, some, String, [], ◌∷◌, arith}
use lance_go.Base.Int.{pos, negsuc}
use lance_go.Errors.{Result, ok}
use lance_go.Errors.Ffi.{background}
use lance_go.Handle.{open_handle, error_of}
use lance_go.Ledger.Served.{Served}
use lance_go.Ledger.Settled.{Spared}
use lance_go.Config.{Giving}
use lance_go.Mutation.{delete_rows, retry_timeout_ms, UpdateSpec, UpdateOptions}
use lance_go.Mutation.Merge.{
  MergeConfig, MergeStats, merge_insert, execute_merge, merge_refused, merge_framed,
}
use lance_go.Mutation.Timeout.{Sent, retry_timeout_ms_bounds}
use lance_go.Mutation.Run.{Deleted, delete_rows_leaves, execute_merge_leaves}
use lance_go.Tests.Config.{outside, memory, thread}

retry_timeout_ms_bounds_example : Sent (negsuc 1999999) (retry_timeout_ms (negsuc 1999999))
retry_timeout_ms_bounds_example =
    retry_timeout_ms_bounds (negsuc 1999999) (omega arith, omega arith)

abbrev decode_rows : String → Result ℕ
decode_rows shown = ok 4

abbrev native_delete : ℕ → String → Giving ℕ (Option ℕ)
native_delete p predicate t n = (0, some 100, n + 1)

delete_rows_leaves_example :
    let (res, m) =
      delete_rows outside memory decode_rows background
        (open_handle 3)
        0
        "id > 3"
        native_delete
        thread in
    (m.after.held_locks ≡ 0)
    × (m.after.span_ends ≡ error_of res ∷ [])
    × Deleted outside memory decode_rows background
        (open_handle 3)
        0
        "id > 3"
        native_delete
        thread
        res
        m.after.world
delete_rows_leaves_example =
    delete_rows_leaves outside memory decode_rows background (open_handle 3) 0 "id > 3"
      native_delete thread

abbrev stats : MergeStats
stats = record {
  num_inserted_rows = 2;
  num_updated_rows = 1;
  num_deleted_rows = 0;
  num_attempts = 1;
  bytes_written = 640;
  num_files_written = 1;
  num_skipped_duplicates = 0;
}

abbrev decode_stats : String → Result MergeStats
decode_stats shown = ok stats

abbrev send : MergeConfig → Result String
send cfg = ok "{}"

abbrev native_merge : ℕ → String → ℕ → Giving ℕ (Option ℕ)
native_merge p options rdr t n = (0, some 100, n + rdr)

execute_merge_leaves_example :
    let (res, m) =
      execute_merge outside memory decode_stats send native_merge background
        (open_handle 3)
        0
        (merge_insert ("id" ∷ []))
        9
        thread in
    (m.after.held_locks ≡ 0)
    × (m.after.span_ends ≡ error_of res ∷ [])
    × Served outside memory background 1 decode_stats merge_refused merge_framed
        (open_handle 3)
        (ok "{}")
        (λ p s. native_merge p s 9)
        thread
        res
        m.after.world
    × Spared thread m.after.world
execute_merge_leaves_example =
    execute_merge_leaves outside memory decode_stats send native_merge background (open_handle 3) 0
      (merge_insert ("id" ∷ [])) 9 thread

abbrev spec : UpdateSpec
spec = record {
  set = ("x", "x + 1") ∷ [];
  where_predicate = "id > 3";
  conflict_retries = none;
  retry_timeout = pos 0;
}

abbrev send_update : UpdateOptions → Result String
send_update options = ok "{}"
