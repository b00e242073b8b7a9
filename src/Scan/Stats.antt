-- ===== src/Scan/Stats.antt =====
-- `scanStatsAdapter` of lance/callbacks.go, the plugin by which native code reports the statistics
-- of a scan.
use lance_go.Base.{ℕ, ◌≡◌, refl, Option, none, some, List, [], ◌∷◌, ◌==◌, if◌then◌else◌, true, not}
use lance_go.Errors.{wrap, num, plain, Result, ok, err}
use lance_go.Plugin.{Registry}
use lance_go.Plugin.Invoke.{
  Fmt, Reply, returned, failed, panicked, Plugin, copy_c_bytes, go_callback_invoke,
  callback_returned, call_ok,
}
use lance_go.Scan.{Scanner}
use lance_go.Scan.Run.{attach_stats}
use lance_go.Scan.Owned.{IsReady, attach_stats_lem}

-- A callback for statistics of type T, over the state of the plugins; it may panic with a value.
abbrev pub StatsFn : Type 0 → Type 0 → Type 0
StatsFn T S = T → S → Option (List ℕ) × S

-- `scanStatsReport`
abbrev pub scan_stats_report : ℕ
scan_stats_report = 0

module _ {T S : Type 0} (decode : List ℕ → Result T) where
  abbrev reply_of : Option (List ℕ) × S → Reply × S
  reply_of (none, st) = (returned [], st)
  reply_of (some value, st) = (panicked value, st)

  -- `scanStatsAdapter.Invoke`, with what encoding/json makes of a payload.
  unfoldable pub scan_stats_invoke : StatsFn T S → Plugin S
  scan_stats_invoke fn method payload st =
      if not (method == scan_stats_report)
      then (failed (plain "lance: unknown scan stats method %d" (num method ∷ [])), st)
      else elim (decode payload) [
        | err e ↦ (failed (wrap "lance: decode scan stats: %w" [] e), st)
        | ok stats ↦ reply_of (fn stats st)
      ]

  -- A report to the plugin that `newNative` attaches to a valid registry that has a handle left,
  -- whose payload can be copied and decoded and whose callback does not panic, calls the
  -- scanner's callback once, on the decoded statistics, and answers OK with no bytes.
  pub scan_stats_reported :
      {F A : Type 0} (fmt : Fmt) (s : Scanner F A (StatsFn T S)) (r : Registry (Plugin S))
      (fn : StatsFn T S) (in_ptr : Option (List ℕ)) (in_len : ℕ) (payload : List ℕ) (stats : T)
      (st st' : S)
      → IsReady r
      → s.scan_stats ≡ some fn
      → copy_c_bytes in_ptr in_len ≡ ok payload
      → decode payload ≡ ok stats
      → fn stats st ≡ (none, st')
      → let (h, cfg, r') = attach_stats scan_stats_invoke s r in
        let a =
          go_callback_invoke fmt r' cfg.scan_stats_plugin scan_stats_report in_ptr in_len true st in
        (a.rc ≡ call_ok) × (a.out ≡ some []) × (a.state ≡ st')
  unfolding scan_stats_invoke
  scan_stats_reported fmt s r fn in_ptr in_len payload stats st st' ready set copied decoded
        called =
      let (_, names, there) = attach_stats_lem scan_stats_invoke s r ready in
      callback_returned fmt _ _ scan_stats_report in_ptr in_len true st (scan_stats_invoke fn)
        payload [] st' (refl, rw names (there fn set).1, copied)
        (rw (scan_stats_invoke, decoded, called) refl)
