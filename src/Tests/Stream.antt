-- ===== src/Tests/Stream.antt =====
-- Runs of the queries that give a reader: a stream of two batches.
use lance_go.Base.{ℕ, ◌+◌, ◌≡◌, Bool, false, none, some, String, []}
use lance_go.Errors.{ok}
use lance_go.Errors.Ffi.{World, background}
use lance_go.Handle.{open_handle}
use lance_go.Ledger.{same_error}
use lance_go.Ledger.Settled.{Spared}
use lance_go.Reader.{Event}
use lance_go.Config.{Giving}
use lance_go.Stream.{StreamOut, Logged, ended_on_error, stream_op}
use lance_go.Stream.Owned.{Streamed, stream_op-Streamed}
use lance_go.Tests.Config.{outside, thread_of}
use lance_go.Tests.Reader.{counted}

abbrev zeroed : StreamOut (ℕ × Bool) String
zeroed = record { moved = none; errno = 0; imported = ok "" }

abbrev native_query : ℕ → String → Giving ℕ (StreamOut (ℕ × Bool) String)
native_query p options t n =
    (0, record { moved = some (2, false); errno = 0; imported = ok "id" }, n + 1)

abbrev thread : World (Logged ℕ (Event ℕ ℕ))
thread = thread_of (record { inner = 5; events = [] })

stream_op-Streamed_example :
    let (res, after) =
      stream_op outside counted zeroed background "dataset" same_error "delta"
        (open_handle 3)
        0
        (ok "{}")
        native_query
        thread in
    (after.held_locks ≡ 0)
    × (after.span_ends ≡ ended_on_error res)
    × Spared thread after.world
    × Streamed outside counted zeroed background same_error "delta"
        (open_handle 3)
        (ok "{}")
        native_query
        thread
        res
        after.world
stream_op-Streamed_example =
    stream_op-Streamed outside counted zeroed background same_error "delta" "dataset"
      (open_handle 3) 0 (ok "{}") native_query thread
