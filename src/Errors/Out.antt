-- ===== src/Errors/Out.antt =====
-- A call by `ffiCall` of lance/errors.go that also fills in out parameters of its caller.
use lance_go.Base.{
  ap, ℕ, ◌≡◌, ◌⊎◌, inl, inr, Option, none, some, Option-cases, Bool-cases, [], arith,
}
use lance_go.Errors.{GoError, wrap, leaf, Leaf}
use lance_go.Errors.Ffi.{
  ffi_call-nil_iff, ffi_call_native, ffi_call_restores, Native, Ctx, World, ffi_call, Passes,
  seen_token,
}

-- The thread with its out parameters beside the native state.
abbrev with_native : {A B : Type 0} → B → World A → World B
with_native b w = record {
  native = b;
  now = w.now;
  locks = w.locks;
  thread_token = w.thread_token;
  live_tokens = w.live_tokens;
  next_token = w.next_token;
}

module _ {N X : Type 0} where
  abbrev beside : Native N → Native (N × X)
  beside lib = record {
    in_tokio = λ m. lib.in_tokio m.0;
    last_code = λ m. lib.last_code m.0;
    last_message = λ m. lib.last_message m.0;
  }

  -- The out parameters start as `x`.
  unfoldable pub ffi_call_out :
      Native N → Ctx → X → (Option ℕ → N → ℕ × X × N) → World N → Option GoError × X × World N
  ffi_call_out lib c x f w =
      let (e, v) =
        ffi_call (beside lib) c (λ t m. let (rc, y, n) = f t m.0 in (rc, (n, y)))
          (with_native (w.native, x) w) in
      (e, v.native.1, with_native v.native.0 v)

  -- A call that passes the guards and returns OK gives what it wrote.
  pub ffi_call_out-ok :
      (lib : Native N) (c : Ctx) (x y : X) (f : Option ℕ → N → ℕ × X × N) (w : World N) (n : N)
      → Passes lib c w
      → f (seen_token lib c w) w.native ≡ (0, y, n)
      → let (e, out, v) = ffi_call_out lib c x f w in (e ≡ none) × (out ≡ y) × (v.native ≡ n)
  unfolding ffi_call_out ffi_call
  ffi_call_out-ok lib c x y f w n p h = (ground arith, ground arith, ground arith)

  -- The error is nil and the out parameters and the native state are what the native function gave
  -- with its OK; or there is an error, and the native state is that or untouched.
  pub ffi_call_out-cases :
      (lib : Native N) (c : Ctx) (x : X) (f : Option ℕ → N → ℕ × X × N) (w : World N)
      → let (e, out, v) = ffi_call_out lib c x f w in
        let (rc, y, n) = f (seen_token lib c w) w.native in
        ((e ≡ none) × (rc ≡ 0) × (out ≡ y) × (v.native ≡ n))
        ⊎ (((er : GoError) × (e ≡ some er)) × ((v.native ≡ n) ⊎ (v.native ≡ w.native)))
  unfolding ffi_call_out
  ffi_call_out-cases lib c x f w =
      let g : Option ℕ → N × X → ℕ × (N × X) = λ t m. let (rc, y, n) = f t m.0 in (rc, (n, y)) in
      let u : World (N × X) = with_native (w.native, x) w in
      elim (Option-cases (ffi_call (beside lib) c g u).0) [
        | inl fine ↦ elim (ffi_call_native (beside lib) c g u) [
          | inl (passes, same) ↦ inl (
            fine,
            ((ffi_call-nil_iff (beside lib) c g u).0 fine).1,
            ap (λ (m : N × X). m.1) same,
            ap (λ (m : N × X). m.0) same,
          )
          | inr (same, why) ↦ absurd (elim why [ inl e ↦ cc | inr (l, _, e) ↦ cc ])
        ]
        | inr (er, bad) ↦ elim (ffi_call_native (beside lib) c g u) [
          | inl (passes, same) ↦ inr ((er, bad), inl (ap (λ (m : N × X). m.0) same))
          | inr (same, why) ↦ inr ((er, bad), inr (ap (λ (m : N × X). m.0) same))
        ]
      ]

  pub ffi_call_out_restores :
      (lib : Native N) (c : Ctx) (x : X) (f : Option ℕ → N → ℕ × X × N) (w : World N)
      → w.thread_token ≡ none
      → let v = (ffi_call_out lib c x f w).2 in
        (v.locks ≡ w.locks) × (v.thread_token ≡ none) × (v.live_tokens ≡ w.live_tokens)
  unfolding ffi_call_out
  ffi_call_out_restores lib c x f w h =
      ffi_call_restores (beside lib) c _ (with_native (w.native, x) w) h

  -- The call reaches native code, which fills in the out parameters; or a guard stops it, and they
  -- stay as they were.
  pub ffi_call_out_reached :
      (lib : Native N) (c : Ctx) (x : X) (f : Option ℕ → N → ℕ × X × N) (w : World N)
      → let (e, out, v) = ffi_call_out lib c x f w in
        (Passes lib c w × (out ≡ (f (seen_token lib c w) w.native).1))
        ⊎ ((¬ Passes lib c w) × (out ≡ x) × (er : GoError) × (e ≡ some er))
  unfolding ffi_call_out ffi_call
  ffi_call_out_reached lib c x f w = elim (Bool-cases (lib.in_tokio w.native)) [
    | inl inside ↦ inr (
      λ (out, live). absurd (ground arith),
      ground arith,
      wrap "%w" [] (leaf Leaf.reentrant_call),
      ground arith,
    )
    | inr outside ↦ elim (Option-cases (c.err w.now)) [
      | inl live ↦ inl ((outside, live), ground arith)
      | inr (l, dead) ↦ inr (λ (out, live). absurd cc, ground arith, leaf l, ground arith)
    ]
  ]

  -- A call that passes the guards leaves the native state as the native function does.
  pub ffi_call_out_native :
      (lib : Native N) (c : Ctx) (x : X) (f : Option ℕ → N → ℕ × X × N) (w : World N)
      → Passes lib c w
      → (ffi_call_out lib c x f w).2.native ≡ (f (seen_token lib c w) w.native).2
  unfolding ffi_call_out ffi_call
  ffi_call_out_native lib c x f w p = ground arith

  -- A guard that stops the call leaves the native state alone.
  pub ffi_call_out_untouched :
      (lib : Native N) (c : Ctx) (x : X) (f : Option ℕ → N → ℕ × X × N) (w : World N)
      → (¬ Passes lib c w)
      → (ffi_call_out lib c x f w).2.native ≡ w.native
  unfolding ffi_call_out ffi_call
  ffi_call_out_untouched lib c x f w blocked = elim (Bool-cases (lib.in_tokio w.native)) [
    | inl inside ↦ ground arith
    | inr outside ↦ elim (Option-cases (c.err w.now)) [
      | inl live ↦ absurd (blocked (outside, live))
      | inr (l, dead) ↦ ground arith
    ]
  ]
