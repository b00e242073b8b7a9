-- ===== src/Errors/Ffi.antt =====
-- `ffiCall` and `lastError` of lance/errors.go: one call of the native library, with its thread,
-- its cancel token and the error that it reports.
use lance_go.Base.{
  ℕ, ◌+◌, ◌-◌, ◌≡◌, ◌⊎◌, inl, inr, ◌↔◌, Bool, false, Option, none, some, String, List, [], ◌∷◌,
  arith, ◌==◌, if◌then◌else◌, Option-cases, Bool-cases,
}
use lance_go.Errors.{GoError, leaf, wrap, Leaf, text, code_to_sentinel, code_ok, code_cancelled}

-- What the native library answers when it is asked about the thread.
pub record Native (N : Type 0) : Type 0 where
  pub in_tokio : N → Bool
  pub last_code : N → ℕ
  pub last_message : N → Option String

-- A context: whether `Done()` gives a channel, and what its `Err()` is at each moment.
pub record Ctx : Type 0 where
  pub done : Bool
  pub err : ℕ → Option Leaf

abbrev pub background : Ctx
background = record { done = false; err = λ _. none }

-- The calling thread beside the native state. `now` moves on with each look at a context.
pub record World (N : Type 0) : Type 0 where
  pub native : N
  pub now : ℕ
  pub locks : ℕ
  pub thread_token : Option ℕ
  pub live_tokens : List ℕ
  pub next_token : ℕ

abbrev free_token : ℕ → List ℕ → List ℕ
free_token t [] = []
free_token t (u ∷ us) = if t == u then us else u ∷ free_token t us

module _ {N : Type 0} where
  abbrev pub tick : World N → World N
  tick w = record w { now = w.now + 1 }

  abbrev lock : World N → World N
  lock w = record w { locks = w.locks + 1 }

  abbrev unlock : World N → World N
  unlock w = record w { locks = w.locks - 1 }

  -- `lance_cancel_token_new` and `lance_thread_set_cancel_token`, if the context can be cancelled.
  abbrev install : Ctx → World N → World N
  install c w =
      if c.done
      then record w {
        thread_token = some w.next_token;
        live_tokens = w.next_token ∷ w.live_tokens;
        next_token = w.next_token + 1;
      }
      else w

  -- The deferred clean-up, which clears the thread's slot and frees the token.
  abbrev uninstall : Ctx → ℕ → World N → World N
  uninstall c t w =
      if c.done
      then record w { thread_token = none; live_tokens = free_token t w.live_tokens }
      else w

module _ {N : Type 0} (lib : Native N) where
  abbrev message : N → String
  message n = elim (lib.last_message n) [ none ↦ "unknown error" | some m ↦ m ]

  pub last_error : N → Option GoError
  last_error n =
      if lib.last_code n == code_ok
      then none
      else some (wrap "%w: %s" (text (message n) ∷ []) (leaf (code_to_sentinel (lib.last_code n))))

  -- The error for a return code, after the call.
  pub outcome : Ctx → ℕ → World N → Option GoError × World N
  unfolding last_error
  outcome c rc w =
      if rc == code_ok
      then (none, w)
      else if rc == code_cancelled
      then elim (c.err w.now) [
        | some e ↦ (some (leaf e), tick w)
        | none ↦ (some (wrap "%w" [] (leaf Leaf.canceled)), tick w)
      ]
      else elim (last_error w.native) [
        | some e ↦ (some e, w)
        | none ↦ (some (leaf Leaf.internal), w)
      ]

  -- The part behind the two guards: the token, the call, its outcome, the clean-up.
  pub guarded_call : Ctx → (Option ℕ → N → ℕ × N) → World N → Option GoError × World N
  unfolding outcome
  guarded_call c f w =
      let u = install c w in
      let (rc, n) = f u.thread_token u.native in
      let (e, v) = outcome c rc (record u { native = n }) in (e, uninstall c w.next_token v)

  -- `ffiCall`. `none` is the nil error; `f` gets the token that stands in the thread's slot.
  unfoldable pub ffi_call : Ctx → (Option ℕ → N → ℕ × N) → World N → Option GoError × World N
  unfolding guarded_call
  ffi_call c f w =
      if lib.in_tokio w.native
      then (some (wrap "%w" [] (leaf Leaf.reentrant_call)), unlock (lock w))
      else elim (c.err w.now) [
        | some e ↦ (some (leaf e), unlock (tick (lock w)))
        | none ↦ let (e, v) = guarded_call c f (tick (lock w)) in (e, unlock v)
      ]

  -- A thread with an empty cancel slot comes back with an empty slot, the pin count that it had,
  -- and no cancel token of the call left alive, on every path.
  pub ffi_call_restores :
      (c : Ctx) (f : Option ℕ → N → ℕ × N) (w : World N)
      → w.thread_token ≡ none
      → let v = (ffi_call c f w).1 in
        (v.locks ≡ w.locks) × (v.thread_token ≡ none) × (v.live_tokens ≡ w.live_tokens)
  unfolding ffi_call
  ffi_call_restores c f w h = ground arith

  -- The token that the native call finds in the thread's slot.
  abbrev pub seen_token : Ctx → World N → Option ℕ
  seen_token c w = if c.done then some w.next_token else w.thread_token

  -- Both guards let the call through.
  abbrev pub Passes : Ctx → World N → Type 0
  Passes c w = (lib.in_tokio w.native ≡ false) × (c.err w.now ≡ none)

  -- The error is nil exactly when the calling thread is outside the native runtime, the context has
  -- no error at that moment, and the native function returns ERROR_CODE_OK.
  pub ffi_call-nil_iff :
      (c : Ctx) (f : Option ℕ → N → ℕ × N) (w : World N)
      → ((ffi_call c f w).0 ≡ none) ↔ (Passes c w × ((f (seen_token c w) w.native).0 ≡ code_ok))
  unfolding ffi_call
  ffi_call-nil_iff c f w = (λ h. ground arith, λ h. ground arith)

  -- Behind the guards the native state is what the one native call leaves; a guard that stops the
  -- call leaves the native state alone and gives a reentrancy error or the context's own error.
  pub ffi_call_native :
      (c : Ctx) (f : Option ℕ → N → ℕ × N) (w : World N)
      → (Passes c w × ((ffi_call c f w).1.native ≡ (f (seen_token c w) w.native).1))
        ⊎ (((ffi_call c f w).1.native ≡ w.native)
            × (((ffi_call c f w).0 ≡ some (wrap "%w" [] (leaf Leaf.reentrant_call)))
                ⊎ ((l : Leaf) × (c.err w.now ≡ some l) × ((ffi_call c f w).0 ≡ some (leaf l)))))
  unfolding ffi_call
  ffi_call_native c f w = elim (Bool-cases (lib.in_tokio w.native)) [
    | inl inside ↦ inr (ground arith, inl (ground arith))
    | inr outside ↦ elim (Option-cases (c.err w.now)) [
      | inl live ↦ inl ((outside, live), ground arith)
      | inr (l, dead) ↦ inr (ground arith, inr (l, dead, ground arith))
    ]
  ]

  -- With a context that is done by the time the native call reports ERROR_CODE_CANCELLED, the error
  -- is the context's; with one that is not, it is ErrCanceled.
  pub ffi_call_cancelled :
      (c : Ctx) (f : Option ℕ → N → ℕ × N) (w : World N)
      → Passes c w
      → (f (seen_token c w) w.native).0 ≡ code_cancelled
      → (ffi_call c f w).0
        ≡ some (elim (c.err (w.now + 1)) [
          | some l ↦ leaf l
          | none ↦ wrap "%w" [] (leaf Leaf.canceled)
        ])
  unfolding ffi_call
  ffi_call_cancelled c f w p h = ground arith
