-- ===== src/Handle/Run.antt =====
-- When an operation on a handle runs, what it gives, and what it leaves.
use lance_go.Base.{
  ℕ, ◌≡◌, refl, ◌↔◌, ◌⊎◌, inl, inr, Option, none, some, String, [], ◌∷◌, arith, Option-cases,
}
use lance_go.Errors.{GoError, Leaf, leaf, errors_is, Result, ok, err, Result-cases, wrap, text}
use lance_go.Errors.Ffi.{Ctx, World, tick, Native, Passes, seen_token}
use lance_go.Errors.Out.{ffi_call_out-ok}
use lance_go.Handle.{Handle, handle_op, check_open, error_of, open_handle, Selector, take_blobs}

-- A handle is opened at the cost of one look at the context, with an error or a pointer.
pub check_open-cases :
    {N : Type 0} (kind : String) (c : Ctx) (h : Handle) (w : World N)
    → let (res, v) = check_open kind c h w in
      (v ≡ tick w) × (((p : ℕ) × (res ≡ ok p)) ⊎ ((e : GoError) × (res ≡ err e)))
unfolding check_open
check_open-cases kind c h w = elim (Option-cases (c.err w.now)) [
  | inr (l, dead) ↦ (ground arith, inr (leaf l, ground arith))
  | inl live ↦ elim (Option-cases h.ptr) [
    | inl shut ↦ (
      ground arith,
      inr (
        wrap "lance: %s is closed: %w" (text kind ∷ []) (leaf Leaf.invalid_argument),
        ground arith,
      ),
    )
    | inr (p, there) ↦ (ground arith, inl (p, ground arith))
  ]
]

-- An operation on the handle is let through, with its pointer.
abbrev pub Opens : {N : Type 0} → Ctx → Handle → World N → Type 0
Opens c h w = (p : ℕ) × (c.err w.now ≡ none) × (h.ptr ≡ some p)

pub check_open-ok :
    {N : Type 0} (kind : String) (c : Ctx) (h : Handle) (w : World N) (p : ℕ)
    → (check_open kind c h w).0 ≡ ok p
    → (c.err w.now ≡ none) × (h.ptr ≡ some p)
unfolding check_open
check_open-ok kind c h w p e = elim (Option-cases (c.err w.now)) [
  | inr (l, dead) ↦ absurd (ground arith)
  | inl live ↦ elim (Option-cases h.ptr) [
    | inl shut ↦ absurd (ground arith)
    | inr (q, there) ↦ (live, ground arith)
  ]
]

pub check_open-err :
    {N : Type 0} (kind : String) (c : Ctx) (h : Handle) (w : World N) (e : GoError)
    → (check_open kind c h w).0 ≡ err e
    → (¬ Opens c h w)
unfolding check_open
check_open-err kind c h w e bad (p, live, there) = ground arith

module _ {N A : Type 0} (kind verb : String) (c : Ctx) (h : Handle) (locks : ℕ)
    (f : ℕ → World N → Result A × World N) (w : World N) where
  -- The operation is let through with the pointer p.
  abbrev pub Runs : ℕ → Type 0
  Runs p = (c.err w.now ≡ none) × (h.ptr ≡ some p)

  -- The operation succeeds exactly when the context is live at its start, the handle is open, and
  -- its function succeeds with that result on the handle's pointer.
  pub handle_op-ok_iff :
      (a : A)
      → ((handle_op kind verb c h locks f w).0 ≡ ok a)
        ↔ ((p : ℕ) × Runs p × ((f p (tick w)).0 ≡ ok a))
  unfolding handle_op check_open
  handle_op-ok_iff a = (
    λ e. elim (Option-cases (c.err w.now)) [
      | inr (l, dead) ↦ absurd (ground arith)
      | inl live ↦ elim (Option-cases h.ptr) [
        | inl shut ↦ absurd (ground arith)
        | inr (p, there) ↦ (p, (live, there), ground arith)
      ]
    ],
    λ (p, r, e). ground arith,
  )

  -- On every way out the handle's lock is given back and the span has ended once, with the error
  -- that is returned; and the function has run once, on the handle's pointer, or not at all, in
  -- which case the thread has only looked at the context.
  pub handle_op_leaves :
      let (res, after) = handle_op kind verb c h locks f w in
      (after.held_locks ≡ locks)
      × (after.span_ends ≡ error_of res ∷ [])
      × (((p : ℕ) × Runs p × (after.world ≡ (f p (tick w)).1))
          ⊎ ((e : GoError) × (error_of res ≡ some e) × (after.world ≡ tick w)))
  unfolding handle_op check_open
  handle_op_leaves = elim (Option-cases (c.err w.now)) [
    | inr (l, dead) ↦ (ground arith, ground arith, inr (leaf l, ground arith, ground arith))
    | inl live ↦ elim (Option-cases h.ptr) [
      | inl shut ↦ (
        ground arith,
        ground arith,
        inr (
          wrap "lance: %s is closed: %w" (text kind ∷ []) (leaf Leaf.invalid_argument),
          ground arith,
          ground arith,
        ),
      )
      | inr (p, there) ↦ elim (Result-cases (f p (tick w)).0) [
        | inr (e, bad) ↦ (ground arith, ground arith, inl (p, (live, there), ground arith))
        | inl (a, good) ↦ (ground arith, ground arith, inl (p, (live, there), ground arith))
      ]
    ]
  ]

  -- An error of the function comes back as one that wraps it: it is the same sentinels.
  pub handle_op_error :
      (p : ℕ) (e : GoError)
      → Runs p
      → (f p (tick w)).0 ≡ err e
      → (e' : GoError) × ((handle_op kind verb c h locks f w).0 ≡ err e')
        × ((t : Leaf) → errors_is e' t ≡ errors_is e t)
  unfolding handle_op check_open errors_is
  handle_op_error p e r q = (wrap "lance: %s: %w" (text verb ∷ []) e, ground arith, λ t. refl)

-- The verb of an operation stands before an error of its function.
abbrev pub named : {A : Type 0} → String → Result A → Result A
named verb (ok a) = ok a
named verb (err e) = err (wrap "lance: %s: %w" (text verb ∷ []) e)

-- How an operation on a handle ends, with the thread: it is not let through, and the thread has only
-- looked at the context; or its function has run once, on the handle's pointer.
pub data HandleRun {N A : Type 0} (verb : String) (c : Ctx) (h : Handle)
    (f : ℕ → World N → Result A × World N) (w : World N) (res : Result A) (v : World N)
    : Type 0 where
  unopened :
      (e : GoError) → (¬ Opens c h w) → res ≡ err e → v ≡ tick w → HandleRun verb c h f w res v
  ran :
      (p : ℕ)
      → c.err w.now ≡ none
      → h.ptr ≡ some p
      → res ≡ named verb (f p (tick w)).0
      → v ≡ (f p (tick w)).1
      → HandleRun verb c h f w res v

pub HandleRun-handle_op :
    {N A : Type 0} (kind verb : String) (c : Ctx) (h : Handle) (locks : ℕ)
    (f : ℕ → World N → Result A × World N) (w : World N)
    → let (res, after) = handle_op kind verb c h locks f w in HandleRun verb c h f w res after.world
unfolding handle_op check_open
HandleRun-handle_op kind verb c h locks f w = elim (Option-cases (c.err w.now)) [
  | inr (l, dead) ↦ unopened (leaf l) (λ (p, live, there). absurd cc) (ground arith) (ground arith)
  | inl live ↦ elim (Option-cases h.ptr) [
    | inl shut ↦
        unopened (wrap "lance: %s is closed: %w" (text kind ∷ []) (leaf Leaf.invalid_argument))
          (λ (p, _, there). absurd cc) (ground arith) (ground arith)
    | inr (p, there) ↦ elim (Result-cases (f p (tick w)).0) [
      | inr (e, bad) ↦ ran p live there (ground arith) (ground arith)
      | inl (a, good) ↦ ran p live there (ground arith) (ground arith)
    ]
  ]
]

-- A blob take on an open dataset, under a context that is live before the native call, outside the
-- native runtime, whose spec can be encoded, gives the list that native code hands out, if that
-- reports no error; the list is open.
pub take_blobs-ok :
    {N : Type 0} (lib : Native N) (marshal : String → Selector → Result String)
    (native_take : ℕ → String → Option ℕ → N → ℕ × ℕ × N) (c : Ctx) (h : Handle) (locks : ℕ)
    (column spec : String) (sel : Selector) (w : World N) (p out : ℕ) (n : N)
    → c.err w.now ≡ none
    → h.ptr ≡ some p
    → Passes lib c (tick w)
    → marshal column sel ≡ ok spec
    → native_take p spec (seen_token lib c (tick w)) w.native ≡ (0, out, n)
    → (take_blobs lib marshal native_take c h locks column sel w).0 ≡ ok (open_handle out)
unfolding take_blobs
take_blobs-ok lib marshal native_take c h locks column spec sel w p out n live there pass enc call =
    let (e, o, st) = ffi_call_out-ok lib c 0 out (native_take p spec) (tick w) n pass call in
    (handle_op-ok_iff "dataset" "take blobs" c h locks _ w (open_handle out)).1
      (p, (live, there), rw enc (rw (e, o) refl))
