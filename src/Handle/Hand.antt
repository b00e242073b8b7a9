-- ===== src/Handle/Hand.antt =====
-- How an operation of a dataset ends that does not use `datasetOp` (lance/mutation.go and
-- lance/branch.go).
use lance_go.Base.{ℕ, ◌≡◌, inl, inr, none, some, [], ◌∷◌, arith, Option-cases}
use lance_go.Errors.{GoError, Leaf, leaf, wrap, text, Result, err}
use lance_go.Errors.Ffi.{Ctx, World, tick}
use lance_go.Handle.{Handle, hand_op, check_open, error_of}
use lance_go.Handle.Run.{Opens}

-- It is not let through, and the thread has only looked at the context; or its function has run once,
-- on the pointer of the dataset, and gave the result.
pub data HandRun {N A : Type 0} (c : Ctx) (h : Handle) (f : ℕ → World N → Result A × World N)
    (w : World N) (res : Result A) (v : World N) : Type 0 where
  unopened : (e : GoError) → (¬ Opens c h w) → res ≡ err e → v ≡ tick w → HandRun c h f w res v
  ran :
      (p : ℕ)
      → c.err w.now ≡ none
      → h.ptr ≡ some p
      → res ≡ (f p (tick w)).0
      → v ≡ (f p (tick w)).1
      → HandRun c h f w res v

module _ {N A : Type 0} (c : Ctx) (h : Handle) (locks : ℕ) (f : ℕ → World N → Result A × World N)
    (w : World N) where
  pub HandRun-hand_op :
      let (res, after) = hand_op c h locks f w in
      (after.held_locks ≡ locks)
      × (after.span_ends ≡ error_of res ∷ [])
      × HandRun c h f w res after.world
  unfolding hand_op check_open
  HandRun-hand_op = elim (Option-cases (c.err w.now)) [
    | inr (l, dead) ↦ (
      ground arith,
      ground arith,
      unopened (leaf l) (λ (p, live, there). absurd cc) (ground arith) (ground arith),
    )
    | inl live ↦ elim (Option-cases h.ptr) [
      | inl shut ↦ (
        ground arith,
        ground arith,
        unopened (wrap "lance: %s is closed: %w" (text "dataset" ∷ []) (leaf Leaf.invalid_argument))
            (λ (p, _, there). absurd cc) (ground arith) (ground arith),
      )
      | inr (p, there) ↦
          (ground arith, ground arith, ran p live there (ground arith) (ground arith))
    ]
  ]
