-- ===== src/Open/Owned.antt =====
-- What `Open` (lance/dataset.go) leaves behind: the session's mutex, the thread, and the plugin of an
-- object-store cache.
use lance_go.Base.{
  ℕ, ◌≡◌, refl, inl, inr, ◌∙◌, sym, subst, Option, none, some, String, List, arith, Option-cases,
}
use lance_go.Errors.{GoError, leaf, Result, ok, err, Result-cases}
use lance_go.Errors.Ffi.{Ctx, tick, Native, background}
use lance_go.Errors.Out.{ffi_call_out, ffi_call_out_restores}
use lance_go.Plugin.{Registry, register_plugin}
use lance_go.Plugin.Loan.{IsSame, HasRoom, Lends, Lends-register_plugin, IsSame-release_plugin}
use lance_go.Handle.{Handle, open_handle}
use lance_go.Open.{
  OpenConfig, OpenOption, no_options, apply_options, validate, OpenEnv, OpenLib, open_with_session,
  open_native, wrap_object_store_cache, open_dataset,
}

-- The session's mutex, the pin of the thread and its cancel tokens are as before.
abbrev pub IsRestored : {N Q : Type 0} → OpenEnv N Q → OpenEnv N Q → Type 0
IsRestored env after =
    (after.session_locks ≡ env.session_locks)
    × (after.world.locks ≡ env.world.locks)
    × (after.world.thread_token ≡ none)
    × (after.world.live_tokens ≡ env.world.live_tokens)

-- An error and no new plugin; or an open dataset, with a plugin for its cache, if it has one.
pub data Opened {K Q : Type 0} (adapter : K → Q) (cache : Option K) (r : Registry Q)
    (res : Result Handle) (r' : Registry Q) : Type 0 where
  refused : (e : GoError) → res ≡ err e → IsSame r r' → Opened adapter cache r res r'
  bare :
      (p : ℕ)
      → res ≡ ok (open_handle p)
      → cache ≡ none
      → IsSame r r'
      → Opened adapter cache r res r'
  cached :
      (p h : ℕ) (k : K)
      → res ≡ ok (open_handle p)
      → cache ≡ some k
      → Lends h (adapter k) r r'
      → Opened adapter cache r res r'

module _ {N K Q : Type 0} (lib : Native N) (native : OpenLib N)
    (marshal : OpenConfig K → Result String) (adapter : K → Q) where
  plugins-open_native :
      (c : Ctx) (uri : String) (cfg : OpenConfig K) (options : String) (env : OpenEnv N Q)
      → (open_native lib native marshal adapter c uri cfg options env).1.plugins ≡ env.plugins
  unfolding open_native open_with_session
  plugins-open_native c uri cfg options env = elim (Option-cases cfg.session) [
    | inl alone ↦ rw (open_native, alone) refl
    | inr (s, shared) ↦ elim (Option-cases s.ptr) [
      | inl shut ↦ rw (open_native, shared, open_with_session, shut) refl
      | inr (p, there) ↦ rw (open_native, shared, open_with_session, there) refl
    ]
  ]

  IsRestored-open_native :
      (c : Ctx) (uri : String) (cfg : OpenConfig K) (options : String) (env : OpenEnv N Q)
      → env.world.thread_token ≡ none
      → IsRestored env (open_native lib native marshal adapter c uri cfg options env).1
  unfolding open_native open_with_session
  IsRestored-open_native c uri cfg options env clear = elim (Option-cases cfg.session) [
    | inl alone ↦
        let (locks, token, live) =
          ffi_call_out_restores lib c 0 (native.dataset_open uri cfg.storage options) env.world
            clear in
        rw (open_native, alone) (refl, locks, token, live)
    | inr (s, shared) ↦ elim (Option-cases s.ptr) [
      | inl shut ↦
          rw (open_native, shared, open_with_session, shut) (omega arith, refl, clear, refl)
      | inr (p, there) ↦
          let (locks, token, live) =
            ffi_call_out_restores lib c 0
              (native.dataset_open_with_session uri cfg.storage options p) env.world clear in
          rw (open_native, shared, open_with_session, there) (omega arith, locks, token, live)
    ]
  ]

  Opened-wrap :
      (ptr : ℕ) (k : K) (uri : String) (env : OpenEnv N Q)
      → HasRoom 1 env.plugins
      → let (res, after) = wrap_object_store_cache lib native marshal adapter ptr k uri env in
        Opened adapter (some k) env.plugins res after.plugins
  unfolding wrap_object_store_cache
  Opened-wrap ptr k uri env room =
      let (h, plugins) = register_plugin (adapter k) env.plugins in
      let lent = Lends-register_plugin (adapter k) env.plugins room in
      elim (Option-cases
        (ffi_call_out lib background 0 (native.wrap_object_store_cache ptr h) env.world).0) [
          | inl fine ↦ rw (wrap_object_store_cache, fine) (cached _ h k refl refl lent)
          | inr (e, bad) ↦
              rw (wrap_object_store_cache, bad)
                (refused _ refl (IsSame-release_plugin h (adapter k) env.plugins plugins lent))
        ]

  IsRestored-wrap :
      (ptr : ℕ) (k : K) (uri : String) (env : OpenEnv N Q)
      → env.world.thread_token ≡ none
      → IsRestored env (wrap_object_store_cache lib native marshal adapter ptr k uri env).1
  unfolding wrap_object_store_cache
  IsRestored-wrap ptr k uri env clear =
      let (h, plugins) = register_plugin (adapter k) env.plugins in
      let (locks, token, live) =
        ffi_call_out_restores lib background 0 (native.wrap_object_store_cache ptr h) env.world
          clear in
      elim (Option-cases
        (ffi_call_out lib background 0 (native.wrap_object_store_cache ptr h) env.world).0) [
          | inl fine ↦ rw (wrap_object_store_cache, fine) (refl, locks, token, live)
          | inr (e, bad) ↦ rw (wrap_object_store_cache, bad) (refl, locks, token, live)
        ]

  module _ (c : Ctx) (uri : String) (opts : List (OpenOption K)) (env : OpenEnv N Q) where
    Opened-open_dataset :
        HasRoom 1 env.plugins
        → let (res, after) = open_dataset lib native marshal adapter c uri opts env in
          Opened adapter
            (apply_options opts no_options).object_store_cache
            env.plugins
            res
            after.plugins
    unfolding open_dataset
    Opened-open_dataset room =
        let cfg = apply_options opts no_options in
        let env₁ : OpenEnv N Q = record env { world = tick env.world } in
        elim (Option-cases (validate cfg)) [
          | inr (e, bad) ↦ rw (open_dataset, bad) (refused e refl (λ k. refl))
          | inl valid ↦ elim (Option-cases (c.err env.world.now)) [
            | inr (l, dead) ↦ rw (open_dataset, valid, dead) (refused (leaf l) refl (λ k. refl))
            | inl live ↦ elim (Result-cases (marshal cfg)) [
              | inr (e, bad) ↦ rw (open_dataset, valid, live, bad) (refused _ refl (λ k. refl))
              | inl (options, good) ↦
                  let env₂ = (open_native lib native marshal adapter c uri cfg options env₁).1 in
                  let same = plugins-open_native c uri cfg options env₁ in
                  elim (Result-cases
                    (open_native lib native marshal adapter c uri cfg options env₁).0) [
                      | inr (e, bad) ↦
                          rw (open_dataset, valid, live, good, bad)
                            (refused e refl (rw same (λ k. refl)))
                      | inl (p, fine) ↦ elim (Option-cases cfg.object_store_cache) [
                        | inl plain ↦
                            rw (open_dataset, valid, live, good, fine, plain)
                              (bare p refl refl (rw same (λ k. refl)))
                        | inr (k, wanted) ↦
                            let (res, after) =
                              wrap_object_store_cache lib native marshal adapter p k uri env₂ in
                            rw (open_dataset, valid, live, good, fine, wanted)
                              (subst
                                (λ (r : Registry Q). Opened adapter (some k) r res after.plugins)
                                same
                                (Opened-wrap p k uri env₂
                                  (subst (λ (r : Registry Q). HasRoom 1 r) (sym same) room)))
                      ]
                    ]
            ]
          ]
        ]

    IsRestored-open_dataset :
        env.world.thread_token ≡ none
        → IsRestored env (open_dataset lib native marshal adapter c uri opts env).1
    unfolding open_dataset
    IsRestored-open_dataset clear =
        let cfg = apply_options opts no_options in
        let env₁ : OpenEnv N Q = record env { world = tick env.world } in
        elim (Option-cases (validate cfg)) [
          | inr (e, bad) ↦ rw (open_dataset, bad) (refl, refl, clear, refl)
          | inl valid ↦ elim (Option-cases (c.err env.world.now)) [
            | inr (l, dead) ↦ rw (open_dataset, valid, dead) (refl, refl, clear, refl)
            | inl live ↦ elim (Result-cases (marshal cfg)) [
              | inr (e, bad) ↦ rw (open_dataset, valid, live, bad) (refl, refl, clear, refl)
              | inl (options, good) ↦
                  let env₂ = (open_native lib native marshal adapter c uri cfg options env₁).1 in
                  let (locks, pins, token, tokens) =
                    IsRestored-open_native c uri cfg options env₁ clear in
                  elim (Result-cases
                    (open_native lib native marshal adapter c uri cfg options env₁).0) [
                      | inr (e, bad) ↦
                          rw (open_dataset, valid, live, good, bad) (locks, pins, token, tokens)
                      | inl (p, fine) ↦ elim (Option-cases cfg.object_store_cache) [
                        | inl plain ↦
                            rw (open_dataset, valid, live, good, fine, plain)
                              (locks, pins, token, tokens)
                        | inr (k, wanted) ↦
                            let (locks', pins', token', tokens') =
                              IsRestored-wrap p k uri env₂ token in
                            rw (open_dataset, valid, live, good, fine, wanted)
                              (locks' ∙ locks, pins' ∙ pins, token', tokens' ∙ tokens)
                      ]
                    ]
            ]
          ]
        ]

    -- On a thread with an empty cancel slot, and with a valid registry that has a handle left,
    -- `Open` gives back the session's mutex, the pin of the thread and its cancel token on every
    -- way out. It fails, and then every plugin handle stands for what it stood for; or it gives
    -- an open dataset, and then the one plugin that is new is that of its object-store cache, if
    -- one was asked for.
    pub open_dataset_leaves :
        HasRoom 1 env.plugins
        → env.world.thread_token ≡ none
        → let (res, after) = open_dataset lib native marshal adapter c uri opts env in
          IsRestored env after
          × Opened adapter
              (apply_options opts no_options).object_store_cache
              env.plugins
              res
              after.plugins
    open_dataset_leaves room clear = (IsRestored-open_dataset clear, Opened-open_dataset room)
