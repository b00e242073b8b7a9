-- ===== src/Open.antt =====
-- Opening a dataset: the options of `Open` (lance/dataset.go, lance/branch.go, lance/session.go and
-- lance/cache.go), their validation, and `Open` itself.
pub mod Owned
pub mod Valid
use lance_go.Base.{
  ℕ, ◌+◌, ◌-◌, Bool, true, false, ◌&&◌, ◌||◌, Option, none, some, String, List, [], ◌∷◌, is_some,
  if◌then◌else◌,
}
use lance_go.Errors.{GoError, leaf, wrap, Leaf, text, errors_is, Result, ok, err}
use lance_go.Errors.Ffi.{Ctx, World, tick, Native, background}
use lance_go.Errors.Out.{ffi_call_out}
use lance_go.Json.{same_text}
use lance_go.Plugin.{Registry, register_plugin, release_plugin}
use lance_go.Handle.{Handle, open_handle}

-- A map[string]string of the storage layer.
abbrev pub Storage : Type 0
Storage = List (String × String)

-- `openConfig`, over a type of object-store caches; a session is its handle.
pub record OpenConfig (K : Type 0) : Type 0 where
  pub version : Option ℕ
  pub tag : String
  pub branch : String
  pub tag_set : Bool
  pub branch_set : Bool
  pub storage : Storage
  pub session : Option Handle
  pub object_store_cache : Option K

-- The constructors of `OpenOption`, but for `WithObservability`; a nil session or cache is none.
pub data OpenOption (K : Type 0) : Type 0 where
  with_storage_options : Storage → OpenOption K
  with_version : ℕ → OpenOption K
  with_tag with_branch : String → OpenOption K
  with_session : Option Handle → OpenOption K
  with_object_store_cache : Option K → OpenOption K

abbrev invalid : String → Option GoError
invalid shape = some (wrap shape [] (leaf Leaf.invalid_argument))

module _ {K : Type 0} where
  abbrev pub no_options : OpenConfig K
  no_options = record {
    version = none;
    tag = "";
    branch = "";
    tag_set = false;
    branch_set = false;
    storage = [];
    session = none;
    object_store_cache = none;
  }

  abbrev pub apply_option : OpenOption K → OpenConfig K → OpenConfig K
  apply_option (with_storage_options m) cfg = record cfg { storage = m }
  apply_option (with_version v) cfg = record cfg { version = some v }
  apply_option (with_tag t) cfg = record cfg { tag = t; tag_set = true }
  apply_option (with_branch b) cfg = record cfg { branch = b; branch_set = true }
  apply_option (with_session s) cfg = record cfg { session = s }
  apply_option (with_object_store_cache k) cfg = record cfg { object_store_cache = k }

  -- The loop over the options of `Open`.
  abbrev pub apply_options : List (OpenOption K) → OpenConfig K → OpenConfig K
  apply_options [] cfg = cfg
  apply_options (o ∷ os) cfg = apply_options os (apply_option o cfg)

  -- `openConfig.validate`
  unfoldable pub validate : OpenConfig K → Option GoError
  validate cfg =
      if cfg.tag_set && same_text cfg.tag ""
      then invalid "lance: tag must not be empty: %w"
      else if cfg.branch_set && same_text cfg.branch ""
      then invalid "lance: branch must not be empty: %w"
      else if cfg.tag_set && (is_some cfg.version || cfg.branch_set)
      then invalid "lance: WithTag cannot be combined with WithVersion or WithBranch: %w"
      else none

-- What `Open` works on: the thread, the plugins, and how often the session's mutex is held.
pub record OpenEnv (N Q : Type 0) : Type 0 where
  pub world : World N
  pub plugins : Registry Q
  pub session_locks : ℕ

-- The native side of `Open`: functions of the URI, the storage options and the JSON options.
pub record OpenLib (N : Type 0) : Type 0 where
  pub dataset_open : String → Storage → String → Option ℕ → N → ℕ × ℕ × N
  pub dataset_open_with_session : String → Storage → String → ℕ → Option ℕ → N → ℕ × ℕ × N
  pub wrap_object_store_cache : ℕ → ℕ → Option ℕ → N → ℕ × ℕ × N
  pub dataset_close : ℕ → N → N

module _ {N K Q : Type 0} (lib : Native N) (native : OpenLib N)
    (marshal : OpenConfig K → Result String) (adapter : K → Q) where
  -- The error of a native open, with a hint if nothing was found.
  abbrev pub open_error : String → String → String → GoError → GoError
  open_error plain_shape hint_shape uri e =
      if errors_is e Leaf.not_found
      then wrap hint_shape (text uri ∷ []) e
      else wrap plain_shape (text uri ∷ []) e

  -- `openWithSession`
  unfoldable pub open_with_session :
      Ctx → Handle → String → Storage → String → OpenEnv N Q → Result ℕ × OpenEnv N Q
  open_with_session c session uri kv options env =
      let env₁ = record env { session_locks = env.session_locks + 1 } in
      let (res, env₂) : Result ℕ × OpenEnv N Q = elim session.ptr [
        | none ↦ (err (wrap "lance: session is closed: %w" [] (leaf Leaf.invalid_argument)), env₁)
        | some s ↦
            let (e, out, w) =
              ffi_call_out lib c 0 (native.dataset_open_with_session uri kv options s) env₁.world in
            (
              elim e [
                | none ↦ ok out
                | some why ↦ err (
                    open_error "lance: open %q with session: %w"
                      "lance: open %q with session: %w (check the URI, version/tag, and storage options)"
                      uri why)
              ],
              record env₁ { world = w },
            )
      ] in
      (res, record env₂ { session_locks = env₂.session_locks - 1 })

  -- The native open of `Open`, with or without a session.
  unfoldable pub open_native :
      Ctx → String → OpenConfig K → String → OpenEnv N Q → Result ℕ × OpenEnv N Q
  open_native c uri cfg options env = elim cfg.session [
    | some s ↦ open_with_session c s uri cfg.storage options env
    | none ↦
        let (e, out, w) =
          ffi_call_out lib c 0 (native.dataset_open uri cfg.storage options) env.world in
        (
          elim e [
            | none ↦ ok out
            | some why ↦ err (
                open_error "lance: open %q: %w"
                  "lance: open %q: %w (check the URI, version/tag, and storage options)" uri why)
          ],
          record env { world = w },
        )
  ]

  -- `wrapObjectStoreCache`, on a fresh dataset with the pointer `ptr`.
  unfoldable pub wrap_object_store_cache :
      ℕ → K → String → OpenEnv N Q → Result Handle × OpenEnv N Q
  wrap_object_store_cache ptr cache uri env =
      let (h, plugins) = register_plugin (adapter cache) env.plugins in
      let (e, wrapped, w) =
        ffi_call_out lib background 0 (native.wrap_object_store_cache ptr h) env.world in
      let w' = record w { native = native.dataset_close ptr w.native } in
      elim e [
        | some why ↦ (
          err (wrap "lance: wrap object-store cache for %q: %w" (text uri ∷ []) why),
          record env { world = w'; plugins = release_plugin h plugins },
        )
        | none ↦ (ok (open_handle wrapped), record env { world = w'; plugins = plugins })
      ]

  -- `Open`
  unfoldable pub open_dataset :
      Ctx → String → List (OpenOption K) → OpenEnv N Q → Result Handle × OpenEnv N Q
  open_dataset c uri opts env =
      let cfg = apply_options opts no_options in
      elim (validate cfg) [
        | some e ↦ (err e, env)
        | none ↦ elim (c.err env.world.now) [
          | some l ↦ (err (leaf l), record env { world = tick env.world })
          | none ↦ elim (marshal cfg) [
            | err e ↦ (
              err (wrap "lance: marshal options: %w" [] e),
              record env { world = tick env.world },
            )
            | ok options ↦
                let (opened, env₁) =
                  open_native c uri cfg options (record env { world = tick env.world }) in
                elim opened [
                  | err e ↦ (err e, env₁)
                  | ok ptr ↦ elim cfg.object_store_cache [
                    | none ↦ (ok (open_handle ptr), env₁)
                    | some cache ↦ wrap_object_store_cache ptr cache uri env₁
                  ]
                ]
          ]
        ]
      ]
