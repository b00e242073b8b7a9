-- ===== src/Scan/Run.antt =====
-- `queryArray`, `newNative` and the terminal methods `CountRows`, `Explain`, `AnalyzePlan` and
-- `AnalyzeCountPlan` of lance/scanner.go.
use lance_go.Base.{
  ℕ, ◌+◌, ◌-◌, Bool, Option, none, some, String, List, [], ◌∷◌, ◌==◌, if◌then◌else◌,
}
use lance_go.Errors.{wrap, text, Result, ok, err}
use lance_go.Errors.Ffi.{Ctx, World, Native}
use lance_go.Errors.Out.{ffi_call_out}
use lance_go.Plugin.{Registry, register_plugin, release_plugin}
use lance_go.Handle.{Handle, check_open}
use lance_go.Scan.{ScanConfig, Scanner}

-- A query vector as an Arrow array: a copy in C memory, or the caller's own.
pub data QueryArray (F A : Type 0) : Type 0 where
  copied : List F → QueryArray F A
  shared : A → QueryArray F A

-- What a terminal method works on: the thread, the plugins, the read locks of the dataset, and the
-- references to the query array that it holds, without that of the exported copy, which is native
-- code's.
pub record Env (N Q : Type 0) : Type 0 where
  pub world : World N
  pub plugins : Registry Q
  pub read_locks : ℕ
  pub array_refs : ℕ

-- The native scanner. `scanner_close` also gives the plugin handles that it releases, by
-- `go_handle_release`.
pub record ScannerLib (N F A : Type 0) : Type 0 where
  pub scanner_new : ℕ → String → Option (QueryArray F A) → Option ℕ → N → ℕ × ℕ × N
  pub count_rows : ℕ → Option ℕ → N → ℕ × ℕ × N
  pub explain : Bool → ℕ → Option ℕ → N → ℕ × ℕ × N
  pub analyze : ℕ → ℕ → Option ℕ → N → ℕ × ℕ × N
  pub string_at : ℕ → N → String
  pub string_free : ℕ → N → N
  pub scanner_close : ℕ → N → List ℕ × N

module _ {Q : Type 0} where
  abbrev pub release_all : List ℕ → Registry Q → Registry Q
  release_all [] r = r
  release_all (h ∷ hs) r = release_all hs (release_plugin h r)

  -- `if scanStatsHandle != 0 { releasePlugin(scanStatsHandle) }`
  abbrev pub release_if : ℕ → Registry Q → Registry Q
  release_if h r = if h == 0 then r else release_plugin h r

-- The deferred `query.Release()`, if there is a query.
unfoldable pub release_query : {F A : Type 0} → Option (QueryArray F A) → ℕ → ℕ
release_query none refs = refs
release_query (some q) refs = refs - 1

module _ {F A P : Type 0} where
  -- `queryArray`, with the references that the caller holds.
  unfoldable pub query_array : Scanner F A P → ℕ → Option (QueryArray F A) × ℕ
  query_array s refs = elim s.vector_arr [
    | some a ↦ (some (shared a), refs + 1)
    | none ↦ elim s.vector [ none ↦ (none, refs) | some v ↦ (some (copied v), refs + 1) ]
  ]

  -- The registration of a fresh plugin, and the copy of the configuration that names it.
  unfoldable pub attach_stats :
      {Q : Type 0} → (P → Q) → Scanner F A P → Registry Q → ℕ × ScanConfig F × Registry Q
  attach_stats adapter s r = elim s.scan_stats [
    | none ↦ (0, record s.cfg { scan_stats_plugin = 0 }, r)
    | some fn ↦
        let (h, r') = register_plugin (adapter fn) r in
        (h, record s.cfg { scan_stats_plugin = h }, r')
  ]

-- The deferred `lance_scanner_close`.
unfoldable pub close_scanner : {N F A Q : Type 0} → ScannerLib N F A → ℕ → Env N Q → Env N Q
close_scanner scanners sc env =
    let (released, n) = scanners.scanner_close sc env.world.native in
    record env {
      world = record env.world { native = n };
      plugins = release_all released env.plugins;
    }

module _ {N F A P Q : Type 0} (lib : Native N) (scanners : ScannerLib N F A)
    (marshal : ScanConfig F → Result String) (adapter : P → Q) where
  -- `newNative`, behind `checkOpen`, which gave the pointer `p`.
  unfoldable pub open_scanner : Ctx → ℕ → Scanner F A P → Env N Q → Result ℕ × Env N Q
  open_scanner c p s env =
      let (h, cfg, plugins) = attach_stats adapter s env.plugins in
      elim (marshal cfg) [
        | err e ↦ (
          err (wrap "lance: marshal options: %w" [] e),
          record env { plugins = release_if h plugins },
        )
        | ok options ↦
            let (query, refs) = query_array s env.array_refs in
            let (e, out, w) =
              ffi_call_out lib c 0 (scanners.scanner_new p options query) env.world in
            let refs' = release_query query refs in
            elim e [
              | some x ↦ (
                err (wrap "lance: scan: %w" [] x),
                record env { world = w; plugins = release_if h plugins; array_refs = refs' },
              )
              | none ↦ (ok out, record env { world = w; plugins = plugins; array_refs = refs' })
            ]
      ]

  -- `newNative`
  unfoldable pub new_native : Ctx → Handle → Scanner F A P → Env N Q → Result ℕ × Env N Q
  new_native c ds s env = elim s.err [
    | some e ↦ (err e, env)
    | none ↦
        let (opened, w) = check_open "dataset" c ds env.world in
        let env' = record env { world = w; read_locks = env.read_locks + 1 } in
        let (res, after) : Result ℕ × Env N Q = elim opened [
          | err e ↦ (err e, env')
          | ok p ↦ open_scanner c p s env'
        ] in
        (res, record after { read_locks = after.read_locks - 1 })
  ]

  -- What the terminal methods share: `native` runs on the scanner, and `take` reads what it gave.
  unfoldable pub with_scanner :
      {X Y : Type 0}
      → String
      → X
      → (ℕ → Option ℕ → N → ℕ × X × N)
      → (X → N → Y × N)
      → Ctx
      → Handle
      → Scanner F A P
      → Env N Q
      → Result Y × Env N Q
  with_scanner verb zero_value native take c ds s env =
      let (opened, env₁) = new_native c ds s env in
      elim opened [
        | err e ↦ (err e, env₁)
        | ok sc ↦
            let (e, x, w) = ffi_call_out lib c zero_value (native sc) env₁.world in
            elim e [
              | some why ↦ (
                err (wrap "lance: %s: %w" (text verb ∷ []) why),
                close_scanner scanners sc (record env₁ { world = w }),
              )
              | none ↦
                  let (y, n) = take x w.native in
                  (
                    ok y,
                    close_scanner scanners sc (record env₁ { world = record w { native = n } }),
                  )
            ]
      ]

  -- `CountRows`
  abbrev pub count_rows : Ctx → Handle → Scanner F A P → Env N Q → Result ℕ × Env N Q
  count_rows = with_scanner "scan count rows" 0 scanners.count_rows (λ x n. (x, n))

  -- `C.GoString`, then the deferred `lance_string_free`.
  abbrev pub take_string : ℕ → N → String × N
  take_string ptr n = (scanners.string_at ptr n, scanners.string_free ptr n)

  -- `Explain`
  abbrev pub explain : Bool → Ctx → Handle → Scanner F A P → Env N Q → Result String × Env N Q
  explain verbose = with_scanner "explain" 0 (scanners.explain verbose) take_string

  -- `analyze`
  abbrev pub analyze : ℕ → String → Ctx → Handle → Scanner F A P → Env N Q → Result String × Env N Q
  analyze mode what = with_scanner what 0 (scanners.analyze mode) take_string

  -- `AnalyzePlan`
  abbrev pub analyze_plan : Ctx → Handle → Scanner F A P → Env N Q → Result String × Env N Q
  analyze_plan = analyze 0 "analyze plan"

  -- `AnalyzeCountPlan`
  abbrev pub analyze_count_plan : Ctx → Handle → Scanner F A P → Env N Q → Result String × Env N Q
  analyze_count_plan = analyze 1 "analyze count plan"
