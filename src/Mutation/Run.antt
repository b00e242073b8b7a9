-- ===== src/Mutation/Run.antt =====
-- What `Delete`, `Update` and a merge-insert of lance/mutation.go do and leave.
use lance_go.Base.{ℕ, ◌≡◌, refl, inl, inr, true, false, Option, String, [], ◌∷◌, Bool-cases}
use lance_go.Errors.{Result, ok, err}
use lance_go.Errors.Ffi.{Ctx, World, Native}
use lance_go.Json.{same_text}
use lance_go.Handle.{Handle, error_of}
use lance_go.Ledger.{Ledger}
use lance_go.Ledger.Served.{Served, Served-hand_op, hand_op_restores}
use lance_go.Ledger.Settled.{Spared, Spared-IsRestored}
use lance_go.Open.{Storage}
use lance_go.Transaction.{Memory}
use lance_go.Config.{Giving}
use lance_go.Mutation.{
  delete_rows, update_options, UpdateSpec, UpdateOptions, no_predicate, no_set, delete_refused,
  delete_framed, update_refused, update_framed,
}
use lance_go.Mutation.Merge.{MergeConfig, MergeStats, execute_merge, merge_refused, merge_framed}

module _ {N : Type 0} (lib : Native N) (mem : Memory N) (decode : String → Result ℕ) (c : Ctx)
    (ds : Handle) (locks : ℕ) where
  -- How a `Delete` ends: with an empty predicate it is refused, and nothing is touched.
  pub data Deleted (predicate : String) (f : ℕ → String → Giving N (Option ℕ))
      (w : World (Ledger N)) (res : Result ℕ) (v : World (Ledger N)) : Type 0 where
    no_rows_named :
        same_text predicate "" ≡ true → res ≡ err no_predicate → v ≡ w → Deleted predicate f w res v
    rows_named :
        same_text predicate "" ≡ false
        → Served lib mem c 0 decode delete_refused delete_framed ds (ok predicate) f w res v
        → Deleted predicate f w res v

  -- A `Delete` with an empty predicate is an invalid argument, and touches neither the thread nor
  -- native code. Any other is not let through, which is an error; or it makes one native call, with
  -- the predicate: that is stopped by a guard, fails, or gives a string, which is read and given back
  -- once. On every way out the lock is given back and the span has ended once, with the error.
  pub delete_rows_leaves :
      (predicate : String) (f : ℕ → String → Giving N (Option ℕ)) (w : World (Ledger N))
      → let (res, m) = delete_rows lib mem decode c ds locks predicate f w in
        (m.after.held_locks ≡ locks)
        × (m.after.span_ends ≡ error_of res ∷ [])
        × Deleted predicate f w res m.after.world
  unfolding delete_rows
  delete_rows_leaves predicate f w = elim (Bool-cases (same_text predicate "")) [
    | inl blank ↦ rw (delete_rows, blank) (refl, refl, no_rows_named blank refl refl)
    | inr given ↦
        let (unlocked, ended, run) =
          Served-hand_op lib mem c 0 decode delete_refused delete_framed ds locks (ok predicate) f
            w in
        rw (delete_rows, given) (unlocked, ended, rows_named given run)
  ]

  -- How an `Update` ends: without a column to set it is refused, and nothing is touched.
  pub data Updated (send : UpdateOptions → Result String) (spec : UpdateSpec)
      (f : ℕ → String → Giving N (Option ℕ)) (w : World (Ledger N)) (res : Result ℕ)
      (v : World (Ledger N)) : Type 0 where
    nothing_set : spec.set ≡ [] → res ≡ err no_set → v ≡ w → Updated send spec f w res v
    some_set :
        (s : String × String) (ss : Storage)
        → spec.set ≡ s ∷ ss
        → Served lib mem c 0 decode update_refused update_framed ds
            (send (update_options spec))
            f
            w
            res
            v
        → Updated send spec f w res v

module _ {N R : Type 0} (lib : Native N) (mem : Memory N) (decode : String → Result MergeStats)
    (send : MergeConfig → Result String) (native : ℕ → String → R → Giving N (Option ℕ)) (c : Ctx)
    (ds : Handle) (locks : ℕ) (cfg : MergeConfig) (rdr : R) (w : World (Ledger N)) where
  -- On every way out of the `Execute` of a merge-insert the lock is given back and the span has ended
  -- once, with the error. It is not let through, or its options cannot be encoded, each of which is an
  -- error with no stream exported; or it exports the stream and makes one native call, with the
  -- options and the stream: a guard stops it, and the stream is left with no owner; or native code
  -- takes the stream over, and fails or gives a string, which is read and given back once. On a
  -- thread with an empty cancel slot that slot is empty again, and the pin and the cancel tokens of
  -- the thread are as before.
  pub execute_merge_leaves :
      let (res, m) = execute_merge lib mem decode send native c ds locks cfg rdr w in
      (m.after.held_locks ≡ locks)
      × (m.after.span_ends ≡ error_of res ∷ [])
      × Served lib mem c 1 decode merge_refused merge_framed ds
          (send cfg)
          (λ p s. native p s rdr)
          w
          res
          m.after.world
      × Spared w m.after.world
  unfolding execute_merge
  execute_merge_leaves =
      let (unlocked, ended, run) =
        Served-hand_op lib mem c 1 decode merge_refused merge_framed ds locks (send cfg)
          (λ p s. native p s rdr) w in
      (
        unlocked,
        ended,
        run,
        Spared-IsRestored w _ (
            hand_op_restores lib mem c 1 decode merge_refused merge_framed ds locks (send cfg)
              (λ p s. native p s rdr) w),
      )
