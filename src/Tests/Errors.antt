-- ===== src/Tests/Errors.antt =====
-- Runs of lance/errors.go: a native library that counts its calls, and contexts.
use lance_go.Base.{
  ℕ, ◌+◌, ◌≡◌, refl, ◌↔◌, true, false, Option, none, some, [], ◌==◌, ltb, if◌then◌else◌,
}
use lance_go.Errors.{Leaf, code_ok, code_cancelled}
use lance_go.Errors.Ffi.{Native, Ctx, World, ffi_call, seen_token, Passes, ffi_call-nil_iff}
use lance_go.Errors.Watcher.{
  State, start, stop, join, clear, free, close_stopped, started, goes, closed, stopping, joined,
  cleared, freed, cancel_before_free, Reached,
}

-- The state counts the calls; it is inside the runtime at 99.
abbrev counting : Native ℕ
counting = record { in_tokio = λ n. n == 99; last_code = λ n. n; last_message = λ n. none }

-- A context that is cancelled at time 2.
abbrev cancelled_soon : Ctx
cancelled_soon = record { done = true; err = λ t. if ltb t 2 then none else some Leaf.ctx_canceled }

abbrev thread : World ℕ
thread = record {
  native = 5;
  now = 0;
  locks = 1;
  thread_token = none;
  live_tokens = [];
  next_token = 7;
}

-- A native function that sees its token and gives up.
abbrev gives_up : Option ℕ → ℕ → ℕ × ℕ
gives_up token n = (elim token [ none ↦ code_ok | some t ↦ code_cancelled ], n + 1)

ffi_call-nil_iff_example : ((ffi_call counting cancelled_soon gives_up thread).0 ≡ none) ↔ (
    Passes counting cancelled_soon thread
    × ((gives_up (seen_token counting cancelled_soon thread) 5).0 ≡ code_ok))
ffi_call-nil_iff_example = ffi_call-nil_iff counting cancelled_soon gives_up thread

-- A call that is not cancelled: the caller stops the watcher, waits for it, and cleans up.
abbrev after_free : State
after_free = record { caller = freed; watcher = closed; in_slot = false; touched_freed = false }

quiet_run : Reached after_free
quiet_run =
    goes (free (record start { caller = cleared; watcher = closed; in_slot = false }) refl) (
      goes (clear (record start { caller = joined; watcher = closed }) refl) (
        goes (join (record start { caller = stopping; watcher = closed }) refl refl) (
          goes (close_stopped (record start { caller = stopping }) refl refl)
            (goes (stop start refl) started))))

cancel_before_free_example : after_free.touched_freed ≡ false
cancel_before_free_example = cancel_before_free {s = after_free} quiet_run
