-- ===== src/Config/Answers.antt =====
-- The operations of lance/config.go that read a native answer: when they succeed, and what they leave.
use lance_go.Base.{ℕ, ◌≡◌, ◌↔◌, Option, none, some, String, [], ◌∷◌}
use lance_go.Errors.{GoError, wrap, text, Result, ok}
use lance_go.Errors.Ffi.{Ctx, World, Native}
use lance_go.Handle.{Handle, error_of}
use lance_go.Ledger.{Ledger, same_error, fetch_op}
use lance_go.Ledger.Ops.{
  Answered, Gives, Answered-fetch_op, fetch_op_restores, fetch_op-ok, fetch_op-Gives,
}
use lance_go.Ledger.Settled.{Spared, Spared-IsRestored}
use lance_go.Transaction.{Memory}
use lance_go.Config.{Giving, json_op, get_json}

module _ {N A : Type 0} (lib : Native N) (mem : Memory N) (c : Ctx) (verb what : String)
    (decode : String → Result A) (ds : Handle) (locks : ℕ) (f : ℕ → Giving N (Option ℕ))
    (w : World (Ledger N)) where
  abbrev pub json_error : GoError → GoError
  json_error e = wrap "decode %s: %w" (text what ∷ []) e

  -- A getter that reads a native answer by `getJSON` succeeds with a value exactly when its context is
  -- live at the start, the dataset is open, both guards of `ffiCall` let the call through, the native
  -- function returns OK, and encoding/json reads the string that it gives as that value.
  pub json_op-ok_iff :
      (a : A)
      → ((json_op lib mem c verb what decode ds locks f w).0 ≡ ok a) ↔ (
          (p : ℕ) × (c.err w.now ≡ none)
          × (ds.ptr ≡ some p)
          × Gives lib mem c 0 decode same_error json_error f w p a)
  unfolding json_op get_json fetch_op
  json_op-ok_iff a = (
    λ good.
        let (p, live, there, gives, store) =
          fetch_op-ok lib mem c 0 decode same_error json_error "dataset" verb ds locks f w a good in
        (p, live, there, gives),
    λ (p, live, there, gives).
        fetch_op-Gives lib mem c 0 decode same_error json_error "dataset" verb ds locks f w a p live
          there gives,
  )

  -- On every way out of a getter that reads a native answer by `getJSON`, the lock of the dataset is
  -- given back and the span has ended once, with the error that is returned. It makes no call, and
  -- fails; or makes one: that is stopped by a guard or fails in native code, which is then an error,
  -- with no string given back; or it gives a string, which is read and given back once, whether it
  -- can be decoded or not. On a thread with an empty cancel slot that slot is empty again, and the pin
  -- and the cancel tokens of the thread are as before.
  pub json_op_answers :
      let (res, after) = json_op lib mem c verb what decode ds locks f w in
      (after.held_locks ≡ locks)
      × (after.span_ends ≡ error_of res ∷ [])
      × Answered lib mem c 0 decode same_error json_error verb ds f w res after.world
      × Spared w after.world
  unfolding json_op get_json fetch_op
  json_op_answers =
      let (unlocked, ended, run) =
        Answered-fetch_op lib mem c 0 decode same_error json_error "dataset" verb ds locks f w in
      (
        unlocked,
        ended,
        run,
        Spared-IsRestored w _ (
            fetch_op_restores lib mem c 0 decode same_error json_error "dataset" verb ds locks f w),
      )
