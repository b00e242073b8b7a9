-- ===== src/Write/Locked.antt =====
-- `Write` (lance/dataset.go) behind the registration of its callback: what it leaves of the session's
-- mutex, the thread, the plugins and the stream that it exports.
use lance_go.Base.{
  ◌∷◌, ℕ, ◌+◌, ◌-◌, ◌≡◌, refl, ap, ◌∙◌, ◌⊎◌, inl, inr, Option, none, some, String, [], is_some,
  ◌||◌, if◌then◌else◌, arith, Option-cases,
}
use lance_go.Base.Int.{ℤ}
use lance_go.Errors.{GoError, leaf, wrap, Leaf, Result, err}
use lance_go.Errors.Ffi.{Ctx, World, Native, Passes}
use lance_go.Errors.Out.{ffi_call_out, ffi_call_out_restores, ffi_call_out_reached}
use lance_go.Handle.{Handle}
use lance_go.Write.{WriteConfig}
use lance_go.Write.Run.{WriteEnv, WriteLib, taking, write_stream, write_locked}

-- The session's mutex, the pin of the thread and its cancel tokens are as before.
abbrev pub IsRestored : {N Q : Type 0} → WriteEnv N Q → WriteEnv N Q → Type 0
IsRestored env after =
    (after.session_locks ≡ env.session_locks)
    × (after.world.locks ≡ env.world.locks)
    × (after.world.thread_token ≡ none)
    × (after.world.live_tokens ≡ env.world.live_tokens)

module _ {N G Q R : Type 0} (lib : Native N) (native : WriteLib N R)
    (marshal : WriteConfig G → Result String) (adapter : G → Q) (shown : ℤ → String) (c : Ctx) where
  -- No session is wanted, or it is open.
  abbrev pub HasSession : WriteConfig G → Type 0
  HasSession cfg =
      (cfg.session ≡ none) ⊎ ((s : Handle) × (p : ℕ) × (cfg.session ≡ some s) × (s.ptr ≡ some p))

  -- What becomes of the exported stream, in a write that starts on the thread `w` with `n` streams
  -- that nobody has taken over and ends with `n'`.
  pub data Exported (cfg : WriteConfig G) (w : World N) (n : ℕ) (res : Result Handle) (n' : ℕ)
      : Type 0 where
    unsent : (e : GoError) → res ≡ err e → (¬ HasSession cfg) → n' ≡ n → Exported cfg w n res n'
    taken : HasSession cfg → Passes lib c w → n' ≡ n → Exported cfg w n res n'
    left :
        (e : GoError)
        → res ≡ err e
        → HasSession cfg
        → (¬ Passes lib c w)
        → n' ≡ n + 1
        → Exported cfg w n res n'

  -- The call by `ffiCall` that is made with a plugin handle, if any is made.
  pub data Visited (h : ℕ) (env : WriteEnv N Q) (res : Result Handle) (after : WriteEnv N Q)
      : Type 0 where
    unvisited : (e : GoError) → res ≡ err e → after.calls ≡ env.calls → Visited h env res after
    visited : after.calls ≡ (h, env.plugins) ∷ env.calls → Visited h env res after

  module _ (uri : String) (rdr : R) (cfg : WriteConfig G) (options : String) where
    abbrev native_call : ℕ → ℕ → WriteEnv N Q → Option ℕ → N → ℕ × (ℕ × ℕ) × N
    native_call session h env =
        taking
          (if is_some cfg.session || is_some cfg.progress
            then native.dataset_write_with_session rdr uri options cfg.storage session h
            else native.dataset_write rdr uri options cfg.storage)
          (env.live_exports + 1)

    Exported-write_stream :
        (session h : ℕ) (env : WriteEnv N Q)
        → HasSession cfg
        → let (res, after) =
            write_stream lib native marshal adapter shown c uri rdr cfg options session h env in
          Exported cfg env.world env.live_exports res after.live_exports
    unfolding write_stream
    Exported-write_stream session h env ready =
        elim (ffi_call_out_reached lib c (0, env.live_exports + 1) (native_call session h env)
          env.world) [
            | inl (passes, out) ↦
                let back : _ ≡ env.live_exports = ap (λ (o : ℕ × ℕ). o.1) out ∙ omega arith in
                elim (Option-cases
                  (ffi_call_out lib c (0, env.live_exports + 1) (native_call session h env)
                    env.world).0) [
                      | inl fine ↦ rw (write_stream, fine) (taken ready passes back)
                      | inr (e, bad) ↦ rw (write_stream, bad) (taken ready passes back)
                    ]
            | inr (stopped, out, e, bad) ↦
                rw (write_stream, bad) (left _ refl ready stopped (ap (λ (o : ℕ × ℕ). o.1) out))
          ]

    IsRestored-write_stream :
        (session h : ℕ) (env : WriteEnv N Q)
        → env.world.thread_token ≡ none
        → IsRestored env
            (write_stream lib native marshal adapter shown c uri rdr cfg options session h env).1
    unfolding write_stream
    IsRestored-write_stream session h env clear =
        let (locks, token, live) =
          ffi_call_out_restores lib c (0, env.live_exports + 1) (native_call session h env)
            env.world clear in
        elim (Option-cases
          (ffi_call_out lib c (0, env.live_exports + 1) (native_call session h env) env.world).0) [
            | inl fine ↦ rw (write_stream, fine) (refl, locks, token, live)
            | inr (e, bad) ↦ rw (write_stream, bad) (refl, locks, token, live)
          ]

    plugins-write_stream :
        (session h : ℕ) (env : WriteEnv N Q)
        → (write_stream lib native marshal adapter shown c uri rdr cfg options session h
            env).1.plugins
          ≡ env.plugins
    unfolding write_stream
    plugins-write_stream session h env =
        elim (Option-cases
          (ffi_call_out lib c (0, env.live_exports + 1) (native_call session h env) env.world).0) [
            | inl fine ↦ rw (write_stream, fine) refl
            | inr (e, bad) ↦ rw (write_stream, bad) refl
          ]

    calls-write_stream :
        (session h : ℕ) (env : WriteEnv N Q)
        → (write_stream lib native marshal adapter shown c uri rdr cfg options session h
            env).1.calls
          ≡ (h, env.plugins) ∷ env.calls
    unfolding write_stream
    calls-write_stream session h env =
        elim (Option-cases
          (ffi_call_out lib c (0, env.live_exports + 1) (native_call session h env) env.world).0) [
            | inl fine ↦ rw (write_stream, fine) refl
            | inr (e, bad) ↦ rw (write_stream, bad) refl
          ]

    -- The write in each case of the session.
    abbrev held : WriteEnv N Q → WriteEnv N Q
    held env = record env { session_locks = env.session_locks + 1 }

    abbrev unheld : Result Handle × WriteEnv N Q → Result Handle × WriteEnv N Q
    unheld (res, after) = (res, record after { session_locks = after.session_locks - 1 })

    data Locked (h : ℕ) (env : WriteEnv N Q) (out : Result Handle × WriteEnv N Q) : Type 0 where
      alone :
          cfg.session ≡ none
          → out ≡ write_stream lib native marshal adapter shown c uri rdr cfg options 0 h env
          → Locked h env out
      shut : (e : GoError) → (¬ HasSession cfg) → out ≡ unheld (err e, held env) → Locked h env out
      there :
          (p : ℕ)
          → HasSession cfg
          → out
            ≡ unheld
                (write_stream lib native marshal adapter shown c uri rdr cfg options p h (held env))
          → Locked h env out

    Locked-write_locked :
        (h : ℕ) (env : WriteEnv N Q)
        → Locked h env (write_locked lib native marshal adapter shown c uri rdr cfg options h env)
    unfolding write_locked
    Locked-write_locked h env = elim (Option-cases cfg.session) [
      | inl a ↦ alone a (simp (write_locked, a))
      | inr (s, a) ↦ elim (Option-cases s.ptr) [
        | inl b ↦
            shut (wrap "lance: session is closed: %w" [] (leaf Leaf.invalid_argument))
              (λ ready. elim ready [ inl a' ↦ cc | inr (s', p, a', b') ↦ cc ])
              (simp (write_locked, a, b))
        | inr (p, b) ↦ there p (inr (s, p, a, b)) (simp (write_locked, a, b))
      ]
    ]

    pub Exported-write_locked :
        (h : ℕ) (env : WriteEnv N Q)
        → let (res, after) =
            write_locked lib native marshal adapter shown c uri rdr cfg options h env in
          Exported cfg env.world env.live_exports res after.live_exports
    Exported-write_locked h env = elim (Locked-write_locked h env) [
      | alone a eq ↦ rw eq (Exported-write_stream 0 h env (inl a))
      | shut e not_ready eq ↦ rw eq (unsent e refl not_ready refl)
      | there p ready eq ↦ rw eq (Exported-write_stream p h (held env) ready)
    ]

    pub IsRestored-write_locked :
        (h : ℕ) (env : WriteEnv N Q)
        → env.world.thread_token ≡ none
        → IsRestored env
            (write_locked lib native marshal adapter shown c uri rdr cfg options h env).1
    IsRestored-write_locked h env clear = elim (Locked-write_locked h env) [
      | alone a eq ↦ rw eq (IsRestored-write_stream 0 h env clear)
      | shut e _ eq ↦ rw eq (omega arith, refl, clear, refl)
      | there p _ eq ↦
          let (mutex, locks, token, live) = IsRestored-write_stream p h (held env) clear in
          rw eq (omega arith, locks, token, live)
    ]

    pub plugins-write_locked :
        (h : ℕ) (env : WriteEnv N Q)
        → (write_locked lib native marshal adapter shown c uri rdr cfg options h env).1.plugins
          ≡ env.plugins
    plugins-write_locked h env = elim (Locked-write_locked h env) [
      | alone a eq ↦ rw eq (plugins-write_stream 0 h env)
      | shut e _ eq ↦ rw eq refl
      | there p _ eq ↦ rw eq (plugins-write_stream p h (held env))
    ]

    pub Visited-write_locked :
        (h : ℕ) (env : WriteEnv N Q)
        → let (res, after) =
            write_locked lib native marshal adapter shown c uri rdr cfg options h env in
          Visited h env res after
    Visited-write_locked h env = elim (Locked-write_locked h env) [
      | alone a eq ↦ rw eq (visited (calls-write_stream 0 h env))
      | shut e _ eq ↦ rw eq (unvisited e refl refl)
      | there p _ eq ↦ rw eq (visited (calls-write_stream p h (held env)))
    ]
