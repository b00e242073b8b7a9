-- ===== src/Write/Owned.antt =====
-- What `Write` (lance/dataset.go) leaves behind: the session's mutex, the thread, the plugin for
-- progress, and the stream that it exports.
use lance_go.Base.{◌∷◌, ℕ, ◌≡◌, inl, inr, none, some, String, List, Option-cases}
use lance_go.Base.Int.{ℤ}
use lance_go.Errors.{GoError, Result, ok, err}
use lance_go.Errors.Ffi.{Ctx, tick, Native}
use lance_go.Plugin.{Registry, register_plugin, release_plugin}
use lance_go.Plugin.Loan.{HasRoom, Lends, Lends-register_plugin}
use lance_go.Handle.{Handle}
use lance_go.Write.{WriteConfig, WriteOption, created, apply_options}
use lance_go.Write.Run.{WriteEnv, WriteLib, write_locked, write_plugged, write_dataset}
use lance_go.Write.Locked.{Exported, Exported-write_locked}

module _ {N G Q R : Type 0} (lib : Native N) (native : WriteLib N R)
    (marshal : WriteConfig G → Result String) (adapter : G → Q) (shown : ℤ → String) (c : Ctx) where
  -- What a write calls by `ffiCall`: nothing, and then it fails; or one native function, with no plugin; or one, with
  -- the handle under which the registry that it finds has the plugin of the callback for progress,
  -- and all else that it had.
  pub data Attended (cfg : WriteConfig G) (env : WriteEnv N Q) (res : Result Handle)
      (after : WriteEnv N Q) : Type 0 where
    uncalled : (e : GoError) → res ≡ err e → after.calls ≡ env.calls → Attended cfg env res after
    called :
        cfg.progress ≡ none
        → after.calls ≡ (0, env.plugins) ∷ env.calls
        → Attended cfg env res after
    attended :
        (h : ℕ) (fn : G) (plugins : Registry Q)
        → cfg.progress ≡ some fn
        → Lends h (adapter fn) env.plugins plugins
        → after.calls ≡ (h, plugins) ∷ env.calls
        → Attended cfg env res after

  module _ (uri : String) (rdr : R) (cfg : WriteConfig G) (options : String) where
    -- The write in each case of the callback.
    data Plugged (env : WriteEnv N Q) (out : Result Handle × WriteEnv N Q) : Type 0 where
      quiet :
          cfg.progress ≡ none
          → out ≡ write_locked lib native marshal adapter shown c uri rdr cfg options 0 env
          → Plugged env out
      lent :
          (h : ℕ) (fn : G) (plugins : Registry Q)
          → cfg.progress ≡ some fn
          → (HasRoom 1 env.plugins → Lends h (adapter fn) env.plugins plugins)
          → (let (res, after) =
                write_locked lib native marshal adapter shown c uri rdr cfg options h
                  (record env { plugins = plugins }) in
              out ≡ (res, record after { plugins = release_plugin h after.plugins }))
          → Plugged env out

    Plugged-write_plugged :
        (env : WriteEnv N Q)
        → Plugged env (write_plugged lib native marshal adapter shown c uri rdr cfg options env)
    unfolding write_plugged
    Plugged-write_plugged env = elim (Option-cases cfg.progress) [
      | inl a ↦ quiet a (simp (write_plugged, a))
      | inr (fn, a) ↦
          let (h, plugins) = register_plugin (adapter fn) env.plugins in
          lent h fn plugins a (Lends-register_plugin (adapter fn) env.plugins)
            (simp (write_plugged, a))
    ]

    Exported-write_plugged :
        (env : WriteEnv N Q)
        → let (res, after) =
            write_plugged lib native marshal adapter shown c uri rdr cfg options env in
          Exported lib native marshal adapter shown c cfg env.world env.live_exports res
            after.live_exports
    Exported-write_plugged env = elim (Plugged-write_plugged env) [
      | quiet _ eq ↦
          rw eq (Exported-write_locked lib native marshal adapter shown c uri rdr cfg options 0 env)
      | lent h fn plugins _ _ eq ↦ rw eq (
          Exported-write_locked lib native marshal adapter shown c uri rdr cfg options h
            (record env { plugins = plugins }))
    ]

  module _ (uri : String) (rdr : R) (opts : List (WriteOption G)) (env : WriteEnv N Q) where
    -- The stream of a `Write` that starts under a live context, with options that encoding/json
    -- takes, is not exported because the session that it should use is closed; or there is no
    -- such session and both guards of `ffiCall` let the native call through, and native code
    -- takes the stream over; or one of the guards stops that call, and the stream is left
    -- exported with no owner. The write fails in the first case and in the last.
    pub write_dataset_exports :
        (options : String)
        → c.err env.world.now ≡ none
        → marshal (apply_options shown opts (created shown)) ≡ ok options
        → let (res, after) = write_dataset lib native marshal adapter shown c uri rdr opts env in
          Exported lib native marshal adapter shown c
            (apply_options shown opts (created shown))
            (tick env.world)
            env.live_exports
            res
            after.live_exports
    unfolding write_dataset
    write_dataset_exports options live good =
        rw (write_dataset, live, good)
          (Exported-write_plugged uri rdr (apply_options shown opts (created shown)) options
            (record env { world = tick env.world }))
