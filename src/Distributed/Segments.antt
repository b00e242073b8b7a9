-- ===== src/Distributed/Segments.antt =====
-- The native buffers and the nil segments of lance/distributed.go.
use lance_go.Base.{
  Bool, true, false, Bool-cases, ℕ, ◌≡◌, ◌≢◌, refl, ◌↔◌, inl, inr, Option, none, some, String, List,
  [], ◌∷◌, ◌++◌, arith,
}
use lance_go.Errors.{GoError, Result, ok, err, Result-cases}
use lance_go.Errors.Ffi.{Ctx, World, tick, Native}
use lance_go.Handle.{Handle, error_of}
use lance_go.Handle.Run.{handle_op_leaves, handle_op-ok_iff}
use lance_go.Ledger.{Ledger, with_state, exporting}
use lance_go.Ledger.Settled.{Reaches, native_result, stopped, failed, worked, Called-lem}
use lance_go.Transaction.{Memory, Store, TransactionOut, nothing_out, go_bytes_free}
use lance_go.Transaction.Receive.{handed_out}
use lance_go.Config.{Giving}
use lance_go.Distributed.{
  IndexMetadata, receive_segment, segment_call, segment_blobs, MayPanic, panicked, no_segments,
  merge_body, merge_index_segments,
}

module _ {N V : Type 0} (mem : Memory N) (decode : String → Result V) where
  freed-receive_segment :
      (e : Option GoError) (out : TransactionOut) (s : Store N)
      → (receive_segment mem decode e out s).1.freed ≡ handed_out out ++ s.freed
  unfolding receive_segment go_bytes_free
  freed-receive_segment e out s = ground arith

  module _ (lib : Native N) (c : Ctx) (k : ℕ) (f : Giving N TransactionOut) where
    -- What becomes of the native buffers and of the exports of a call for a segment.
    pub data SegmentCall (w : World (Ledger N)) (res : Result (IndexMetadata V)) (l : Ledger N)
        : Type 0 where
      unsent :
          (e : GoError)
          → res ≡ err e
          → (¬ Reaches lib c w)
          → l.store.freed ≡ w.native.store.freed
          → l.live_exports ≡ (exporting k w).native.live_exports
          → SegmentCall w res l
      refused :
          (e : GoError)
          → res ≡ err e
          → Reaches lib c w
          → (native_result lib c f w).0 ≢ 0
          → l.store.freed ≡ handed_out (native_result lib c f w).1 ++ w.native.store.freed
          → l.live_exports ≡ w.native.live_exports
          → SegmentCall w res l
      answered :
          Reaches lib c w
          → (native_result lib c f w).0 ≡ 0
          → l.store.freed ≡ handed_out (native_result lib c f w).1 ++ w.native.store.freed
          → l.live_exports ≡ w.native.live_exports
          → SegmentCall w res l

    -- A native call that builds or merges a segment is stopped by a guard, with nothing given back
    -- and its exports left with no owner; or it is made and takes them over, and then the buffer and
    -- the string that it hands out are given back once each, whether it fails, its answer cannot be
    -- read, or all goes well. A call that native code fails is an error.
    pub segment_call_frees :
        (w : World (Ledger N))
        → let (res, v) = segment_call mem decode lib c k f w in SegmentCall w res v.native
    unfolding segment_call receive_segment
    segment_call_frees w = elim (Called-lem lib c k nothing_out f w) [
      | stopped why bad blocked out same ↦
          rw (segment_call, bad, out, same) (unsent why refl blocked refl refl)
      | failed why bad passes code out same ↦
          rw (segment_call, bad, out, same)
            (refused why refl passes code
              (freed-receive_segment (some why) (native_result lib c f w).1
                (with_state (native_result lib c f w).2 w.native).store)
              refl)
      | worked fine passes code out same ↦
          rw (segment_call, fine, out, same)
            (answered passes code
              (freed-receive_segment none (native_result lib c f w).1
                (with_state (native_result lib c f w).2 w.native).store)
              refl)
    ]

-- Is one of the segments nil?
abbrev pub any_nil : {V : Type 0} → List (Option (IndexMetadata V)) → Bool
any_nil [] = false
any_nil (none ∷ ss) = true
any_nil (some s ∷ ss) = any_nil ss

segment_blobs-none :
    {V : Type 0} (ss : List (Option (IndexMetadata V)))
    → any_nil ss ≡ true
    → segment_blobs ss ≡ none
unfolding segment_blobs
segment_blobs-none [] h = absurd cc
segment_blobs-none (none ∷ ss) h = refl
segment_blobs-none (some s ∷ ss) h = rw (segment_blobs-none ss h) refl

segment_blobs-some :
    {V : Type 0} (ss : List (Option (IndexMetadata V)))
    → any_nil ss ≡ false
    → (bs : List (List ℕ)) × (segment_blobs ss ≡ some bs)
unfolding segment_blobs
segment_blobs-some [] h = ([], refl)
segment_blobs-some (none ∷ ss) h = absurd cc
segment_blobs-some (some s ∷ ss) h = let (bs, e) = segment_blobs-some ss h in (s.pb ∷ bs, rw e refl)

module _ {N V : Type 0} (mem : Memory N) (decode : String → Result V) (lib : Native N) (c : Ctx)
    (ds : Handle) (locks : ℕ) (native : ℕ → List (List ℕ) → Giving N TransactionOut)
    (w : World (Ledger N)) where
  merge_body_panics :
      (ss : List (Option (IndexMetadata V))) (p : ℕ) (v : World (Ledger N))
      → any_nil ss ≡ true
      → (merge_body mem decode lib c native ss p v).0 ≡ ok panicked
  unfolding merge_body
  merge_body_panics ss p v nil = rw (merge_body, segment_blobs-none ss nil) refl

  merge_body_returns :
      (ss : List (Option (IndexMetadata V))) (p : ℕ) (v : World (Ledger N))
      → any_nil ss ≡ false
      → (merge_body mem decode lib c native ss p v).0 ≢ ok panicked
  unfolding merge_body
  merge_body_returns ss p v whole e =
      let (bs, some_blobs) = segment_blobs-some ss whole in
      elim (Result-cases (segment_call mem decode lib c 0 (native p bs) v).0) [
        | inl (m, good) ↦ absurd (ground arith)
        | inr (why, bad) ↦ absurd (ground arith)
      ]

  -- `MergeIndexSegments` panics exactly when one of its segments is nil, its context is live at the
  -- start, and the dataset is open. It gives the lock back and ends its span once then too.
  pub merge_index_segments-panicked_iff :
      (ss : List (Option (IndexMetadata V)))
      → let (res, after) = merge_index_segments mem decode lib c ds locks native ss w in
        (after.held_locks ≡ locks)
        × (after.span_ends ≡ error_of res ∷ [])
        × ((res ≡ ok panicked)
            ↔ ((any_nil ss ≡ true) × (c.err w.now ≡ none) × (p : ℕ) × (ds.ptr ≡ some p)))
  unfolding merge_index_segments
  merge_index_segments-panicked_iff [] =
      let body : ℕ → World (Ledger N) → Result (MayPanic (IndexMetadata V)) × World (Ledger N) =
        λ p v. (err no_segments, v) in
      let (unlocked, ended, _) =
        handle_op_leaves "dataset" "merge index segments" c ds locks body w in
      (
        unlocked,
        ended,
        (
          λ e.
              let (p, runs, given) =
                (handle_op-ok_iff "dataset" "merge index segments" c ds locks body w panicked).0
                  e in
              absurd cc,
          λ (nil, live, p, there). absurd cc,
        ),
      )
  merge_index_segments-panicked_iff (s ∷ ss) =
      let body = merge_body mem decode lib c native (s ∷ ss) in
      let (unlocked, ended, _) =
        handle_op_leaves "dataset" "merge index segments" c ds locks body w in
      let succeeds = handle_op-ok_iff "dataset" "merge index segments" c ds locks body w panicked in
      (
        unlocked,
        ended,
        (
          λ e.
              let (p, (live, there), given) = succeeds.0 e in
              elim (Bool-cases (any_nil (s ∷ ss))) [
                | inl nil ↦ (nil, live, p, there)
                | inr whole ↦ absurd (merge_body_returns (s ∷ ss) p (tick w) whole given)
              ],
          λ (nil, live, p, there).
              succeeds.1 (p, (live, there), merge_body_panics (s ∷ ss) p (tick w) nil),
        ),
      )
