-- ===== src/Ledger/Settled.antt =====
-- How the calls of Ledger.antt end: what they give back, which exports they leave, and the thread.
use lance_go.Base.{
  Option-cases, ℕ, ◌+◌, ◌-◌, ◌≡◌, ◌≢◌, ap, ◌∙◌, inl, inr, Option, none, some, List, [], ◌∷◌, arith,
}
use lance_go.Errors.{GoError}
use lance_go.Errors.Ffi.{Ctx, World, Native, Passes, seen_token}
use lance_go.Errors.Out.{
  ffi_call_out, ffi_call_out-ok, ffi_call_out-cases, ffi_call_out_reached, ffi_call_out_native,
  ffi_call_out_restores, ffi_call_out_untouched,
}
use lance_go.Transaction.{Freed, string_freed}
use lance_go.Ledger.{Ledger, over_ledger, with_state, with_exports, taking_over, exporting}

-- A string that native code handed out, as it is given back.
abbrev pub handed : Option ℕ → List Freed
handed none = []
handed (some a) = string_freed a ∷ []

-- The pin of the thread and its cancel tokens are as before.
abbrev pub IsRestored : {N : Type 0} → World N → World N → Type 0
IsRestored w v = (v.locks ≡ w.locks) × (v.thread_token ≡ none) × (v.live_tokens ≡ w.live_tokens)

-- The thread is as before, if its cancel slot was empty.
pub data Spared {N : Type 0} (w v : World N) : Type 0 where
  occupied : (t : ℕ) → w.thread_token ≡ some t → Spared w v
  spared : w.thread_token ≡ none → IsRestored w v → Spared w v

pub Spared-IsRestored :
    {N : Type 0} (w v : World N) → (w.thread_token ≡ none → IsRestored w v) → Spared w v
Spared-IsRestored w v restores = elim (Option-cases w.thread_token) [
  | inl clear ↦ spared clear (restores clear)
  | inr (t, full) ↦ occupied t full
]

module _ {N : Type 0} (lib : Native N) (c : Ctx) where
  -- Both guards of `ffiCall` let the call through.
  abbrev pub Reaches : World (Ledger N) → Type 0
  Reaches w = Passes (over_ledger lib) c w

  -- What the native function does on the thread `w`.
  abbrev pub native_result :
      {X : Type 0} → (Option ℕ → N → ℕ × X × N) → World (Ledger N) → ℕ × X × N
  native_result f w = f (seen_token (over_ledger lib) c w) w.native.store.native

  -- How a call goes on the thread `w`, for which `k` exports were made: a guard stops it, and the
  -- exports have no owner; or native code reports an error; or it succeeds with `out`.
  pub data Called {X : Type 0} (k : ℕ) (x : X) (f : Option ℕ → N → ℕ × X × N) (w : World (Ledger N))
      (e : Option GoError) (out : X) (l : Ledger N) : Type 0 where
    stopped :
        (why : GoError)
        → e ≡ some why
        → (¬ Reaches w)
        → out ≡ x
        → l ≡ (exporting k w).native
        → Called k x f w e out l
    failed :
        (why : GoError)
        → e ≡ some why
        → Reaches w
        → (native_result f w).0 ≢ 0
        → out ≡ (native_result f w).1
        → l ≡ with_state (native_result f w).2 w.native
        → Called k x f w e out l
    worked :
        e ≡ none
        → Reaches w
        → (native_result f w).0 ≡ 0
        → out ≡ (native_result f w).1
        → l ≡ with_state (native_result f w).2 w.native
        → Called k x f w e out l

  pub Called-lem :
      {X : Type 0} (k : ℕ) (x : X) (f : Option ℕ → N → ℕ × X × N) (w : World (Ledger N))
      → let (e, out, v) = ffi_call_out (over_ledger lib) c x (taking_over k f) (exporting k w) in
        Called k x f w e out v.native
  Called-lem {X} k x f w =
      let big = over_ledger lib in
      let g : Option ℕ → Ledger N → ℕ × X × Ledger N = taking_over k f in
      let u : World (Ledger N) = exporting k w in
      let settle : with_exports (w.native.live_exports + k - k)
            (with_state (native_result f w).2 w.native)
          ≡ with_state (native_result f w).2 w.native =
        ap (λ m. with_exports m (with_state (native_result f w).2 w.native)) (omega arith) in
      let r : ℕ × X × Ledger N = g (seen_token big c u) u.native in
      elim (ffi_call_out_reached big c x g u) [
        | inr (blocked, out, why, bad) ↦
            stopped why bad blocked out (ffi_call_out_untouched big c x g u blocked)
        | inl (passes, out) ↦
            let after = ffi_call_out_native big c x g u passes ∙ settle in
            elim (ffi_call_out-cases big c x g u) [
              | inl (fine, zero, same, native) ↦ worked fine passes zero out after
              | inr ((why, bad), native) ↦
                  failed why bad passes
                    (λ z.
                      let good =
                        ffi_call_out-ok big c x r.1 g u r.2 passes
                          (ap (λ (m : ℕ). (m, r.1, r.2)) z) in
                      cc (good.0, bad))
                    out after
            ]
      ]

  -- Whatever the call does, the thread is as before.
  pub call_restores :
      {X : Type 0} (k : ℕ) (x : X) (f : Option ℕ → N → ℕ × X × N) (w : World (Ledger N))
      → w.thread_token ≡ none
      → IsRestored w (ffi_call_out (over_ledger lib) c x (taking_over k f) (exporting k w)).2
  call_restores k x f w clear =
      ffi_call_out_restores (over_ledger lib) c x (taking_over k f) (exporting k w) clear
