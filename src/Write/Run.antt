-- ===== src/Write/Run.antt =====
-- `Write` of lance/dataset.go.
use lance_go.Base.{
  ℕ, ◌+◌, ◌-◌, ◌&&◌, ◌||◌, Option, none, some, String, List, [], ◌∷◌, is_some, if◌then◌else◌,
}
use lance_go.Base.Int.{ℤ}
use lance_go.Errors.{GoError, leaf, wrap, Leaf, text, errors_is, Result, ok, err}
use lance_go.Errors.Ffi.{Ctx, World, tick, Native}
use lance_go.Errors.Out.{ffi_call_out}
use lance_go.Json.{same_text}
use lance_go.Plugin.{Registry, register_plugin, release_plugin}
use lance_go.Handle.{Handle, open_handle}
use lance_go.Open.{Storage}
use lance_go.Write.{WriteConfig, WriteOption, write_mode_name, mode_create, created, apply_options}

-- What `Write` works on: the thread, the plugins, how often the session's mutex is held, the exported
-- streams that nobody has taken over, and a log of its calls by `ffiCall`, the newest first: the
-- plugin handle that a call is given, and the registry that it finds.
pub record WriteEnv (N Q : Type 0) : Type 0 where
  pub world : World N
  pub plugins : Registry Q
  pub session_locks : ℕ
  pub live_exports : ℕ
  pub calls : List (ℕ × Registry Q)

-- The native side of `Write`, over a type of record readers: functions of the stream, the URI, the
-- JSON options and the storage options, and of the session and the plugin handle, each 0 if there
-- is none.
pub record WriteLib (N R : Type 0) : Type 0 where
  pub dataset_write : R → String → String → Storage → Option ℕ → N → ℕ × ℕ × N
  pub dataset_write_with_session : R → String → String → Storage → ℕ → ℕ → Option ℕ → N → ℕ × ℕ × N

-- A native function that takes over the stream first.
abbrev pub taking : {N : Type 0} → (Option ℕ → N → ℕ × ℕ × N) → ℕ → Option ℕ → N → ℕ × (ℕ × ℕ) × N
taking f exports t n = let (rc, ptr, n') = f t n in (rc, (ptr, exports - 1), n')

module _ {N G Q R : Type 0} (lib : Native N) (native : WriteLib N R)
    (marshal : WriteConfig G → Result String) (adapter : G → Q) (shown : ℤ → String) where
  -- The error of a native write, with a hint if a dataset that was to be created exists.
  abbrev pub write_error : String → String → String → WriteConfig G → GoError → GoError
  write_error plain_shape hint_shape uri cfg e =
      if same_text cfg.mode (write_mode_name shown mode_create) && errors_is e Leaf.already_exists
      then wrap hint_shape (text uri ∷ []) e
      else wrap plain_shape (text uri ∷ []) e

  -- The export and the native call, with the session's pointer and the plugin handle.
  unfoldable pub write_stream :
      Ctx
      → String
      → R
      → WriteConfig G
      → String
      → ℕ
      → ℕ
      → WriteEnv N Q
      → Result Handle × WriteEnv N Q
  write_stream c uri rdr cfg options session h env =
      let exports = env.live_exports + 1 in
      let with_plugin = is_some cfg.session || is_some cfg.progress in
      let (e, (out, left), w) =
        ffi_call_out lib c (0, exports)
          (taking
            (if with_plugin
              then native.dataset_write_with_session rdr uri options cfg.storage session h
              else native.dataset_write rdr uri options cfg.storage)
            exports)
          env.world in
      let after = record env {
        world = w;
        live_exports = left;
        calls = (h, env.plugins) ∷ env.calls;
      } in
      elim e [
        | none ↦ (ok (open_handle out), after)
        | some why ↦ (
          err (
              if with_plugin
              then write_error "lance: write %q with session: %w"
                  "lance: write %q with session: %w (dataset exists; use WithMode(WriteModeAppend) or WithMode(WriteModeOverwrite))"
                  uri cfg why
              else write_error "lance: write %q: %w"
                  "lance: write %q: %w (dataset exists; use WithMode(WriteModeAppend) or WithMode(WriteModeOverwrite))"
                  uri cfg why),
          after,
        )
      ]

  -- Behind the registration of the callback: the session's mutex, held for the rest of the write.
  unfoldable pub write_locked :
      Ctx → String → R → WriteConfig G → String → ℕ → WriteEnv N Q → Result Handle × WriteEnv N Q
  write_locked c uri rdr cfg options h env = elim cfg.session [
    | none ↦ write_stream c uri rdr cfg options 0 h env
    | some s ↦
        let locked = record env { session_locks = env.session_locks + 1 } in
        let (res, after) : Result Handle × WriteEnv N Q = elim s.ptr [
          | none ↦
              (err (wrap "lance: session is closed: %w" [] (leaf Leaf.invalid_argument)), locked)
          | some p ↦ write_stream c uri rdr cfg options p h locked
        ] in
        (res, record after { session_locks = after.session_locks - 1 })
  ]

  -- Behind `marshalOptions`: the plugin for progress, registered for the rest of the write.
  unfoldable pub write_plugged :
      Ctx → String → R → WriteConfig G → String → WriteEnv N Q → Result Handle × WriteEnv N Q
  write_plugged c uri rdr cfg options env = elim cfg.progress [
    | none ↦ write_locked c uri rdr cfg options 0 env
    | some fn ↦
        let (h, plugins) = register_plugin (adapter fn) env.plugins in
        let (res, after) =
          write_locked c uri rdr cfg options h (record env { plugins = plugins }) in
        (res, record after { plugins = release_plugin h after.plugins })
  ]

  -- `Write`
  unfoldable pub write_dataset :
      Ctx → String → R → List (WriteOption G) → WriteEnv N Q → Result Handle × WriteEnv N Q
  write_dataset c uri rdr opts env =
      let cfg = apply_options shown opts (created shown) in
      let started = record env { world = tick env.world } in
      elim (c.err env.world.now) [
        | some l ↦ (err (leaf l), started)
        | none ↦ elim (marshal cfg) [
          | err e ↦ (err (wrap "lance: marshal options: %w" [] e), started)
          | ok options ↦ write_plugged c uri rdr cfg options started
        ]
      ]
