-- ===== src/Version/Run.antt =====
-- What the operations of lance/version.go and lance/branch.go give and leave.
use lance_go.Base.{ℕ, ◌≡◌, true, Option, none, some, String, [], ◌∷◌, arith}
use lance_go.Errors.{GoError, Leaf, errors_is, Result, ok, err, wrap, text}
use lance_go.Errors.Ffi.{Ctx, World, tick, Native}
use lance_go.Json.{Doc}
use lance_go.Handle.{Handle, handle_op, check_open, error_of}
use lance_go.Ledger.{Ledger, prepare_and_ask}
use lance_go.Ledger.Asked.{Consulted, Consulted-hand_op, ask_hand_op_restores}
use lance_go.Ledger.Settled.{IsRestored}
use lance_go.Config.{Giving}
use lance_go.Version.{checkout, marshal_ref, invalid_ref, zero_ref, mutate, marshal_tag_ref}
use lance_go.Version.Branch.{append, append_refused}

-- Two results with the same value, or with errors that are the same sentinels.
pub data SameOutcome {A : Type 0} : Result A → Result A → Type 0 where
  same_value : (a : A) → SameOutcome (ok a) (ok a)
  same_sentinels :
      (e e' : GoError)
      → ((t : Leaf) → errors_is e t ≡ errors_is e' t)
      → SameOutcome (err e) (err e')

module _ {N F : Type 0} (lib : Native N) (send : Doc F → Result String) (c : Ctx) (ds : Handle)
    (locks : ℕ) (w : World (Ledger N)) (p : ℕ) where
  -- Under a live context, on an open dataset: a `Checkout` of the zero reference, and the creation or
  -- update of a tag with it, is ErrInvalidArgument, and native code is not called.
  pub zero_ref_refused :
      (verb tag : String) (native : ℕ → String → Giving N ℕ)
      (native_tag : ℕ → String → Option String → Giving N (Unit {0}))
      → c.err w.now ≡ none
      → ds.ptr ≡ some p
      → let (res, after) = checkout send lib c ds locks native zero_ref w in
        let (res', after') = mutate send lib c ds locks verb tag (some zero_ref) native_tag w in
        ((e : GoError) × (res ≡ err e) × (errors_is e Leaf.invalid_argument ≡ true))
        × (after.world ≡ tick w)
        × ((e' : GoError) × (res' ≡ err e') × (errors_is e' Leaf.invalid_argument ≡ true))
        × (after'.world ≡ tick w)
  unfolding checkout mutate marshal_tag_ref marshal_ref handle_op check_open prepare_and_ask
      errors_is
  zero_ref_refused verb tag native native_tag live there =
      rw (live, handle_op, check_open)
        (rw (there, handle_op, check_open)
          (
            (wrap "lance: %s: %w" (text "checkout" ∷ []) invalid_ref, ground arith, ground arith),
            ground arith,
            (wrap "lance: %s: %w" (text verb ∷ []) invalid_ref, ground arith, ground arith),
            ground arith,
          ))

module _ {N R : Type 0} (lib : Native N) (c : Ctx) (ds : Handle) (locks : ℕ)
    (native : ℕ → R → Giving N (Unit {0})) (rdr : R) (w : World (Ledger N)) where
  -- An `Append` gives back the lock of the dataset, and its span has ended once, with the error. It is
  -- not let through, and exports no stream; or it exports the stream of the reader and makes one
  -- native call: a guard stops it, and the stream is left with no owner; or native code takes it over,
  -- and reports an error or none. On a thread with an empty cancel slot that slot is empty again, and
  -- the pin and the cancel tokens of the thread are as before.
  pub append_leaves :
      w.thread_token ≡ none
      → let (res, after) = append lib c ds locks native rdr w in
        (after.held_locks ≡ locks)
        × (after.span_ends ≡ error_of res ∷ [])
        × Consulted lib c 1 tt
            (λ u. u)
            append_refused
            ds
            locks
            (ok rdr)
            native
            w
            (λ r. r)
            res
            after.world
        × IsRestored w after.world
  unfolding append
  append_leaves clear =
      let (unlocked, ended, run) =
        Consulted-hand_op lib c 1 tt (λ u. u) append_refused ds locks (ok rdr) native w in
      (
        unlocked,
        ended,
        run,
        ask_hand_op_restores lib c 1 tt (λ u. u) append_refused ds locks (ok rdr) native w clear,
      )
