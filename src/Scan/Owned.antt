-- ===== src/Scan/Owned.antt =====
-- What a terminal method of lance/scanner.go leaves behind: locks, tokens, array references, and the
-- plugin of its native scanner.
use lance_go.Base.{
  ℕ, ◌+◌, ◌^◌, ◌<◌, ◌≡◌, refl, ◌∙◌, inl, inr, Option, none, some, String, [], ◌∷◌, arith, ◌==◌,
  if◌then◌else◌, Option-cases,
}
use lance_go.Errors.{GoError, wrap, Result, ok, err, Result-cases}
use lance_go.Errors.Ffi.{tick, Ctx, Native, seen_token}
use lance_go.Errors.Out.{ffi_call_out, ffi_call_out-cases, ffi_call_out_restores}
use lance_go.Plugin.{Registry, register_plugin, lookup_plugin}
use lance_go.Plugin.Handles.{IsValid, register_plugin_lem, lookup-release_plugin}
use lance_go.Handle.{Handle}
use lance_go.Handle.Run.{check_open-cases}
use lance_go.Scan.{ScanConfig, Scanner}
use lance_go.Scan.Run.{
  QueryArray, Env, ScannerLib, release_all, release_if, query_array, release_query, attach_stats,
  open_scanner, new_native, close_scanner, with_scanner,
}

-- Every handle stands for the same in both registries.
abbrev pub IsSame : {Q : Type 0} → Registry Q → Registry Q → Type 0
IsSame r r' = (k : ℕ) → lookup_plugin k r' ≡ lookup_plugin k r

module _ {Q : Type 0} where
  -- A handle below the range of a uintptr is free.
  abbrev pub IsReady : Registry Q → Type 0
  IsReady r = IsValid r × (r.next + 1 < 2 ^ 64)

  release_if_new :
      (p : Q) (r : Registry Q)
      → IsReady r
      → let (h, r') = register_plugin p r in IsSame r (release_if h r')
  release_if_new p r (v, b) k =
      let (above, new, others) = register_plugin_lem p r v b in
      ground (
        arith,
        others k,
        new,
        lookup-release_plugin k (register_plugin p r).0 (register_plugin p r).1,
      )

  found_new :
      (p : Q) (r : Registry Q)
      → IsReady r
      → let (h, r') = register_plugin p r in (0 < h) × (lookup_plugin h r' ≡ some p)
  found_new p r (v, b) =
      let (above, new, others) = register_plugin_lem p r v b in
      (above, ground (arith, others (register_plugin p r).0))

module _ {F A P Q : Type 0} (adapter : P → Q) (s : Scanner F A P) (r : Registry Q) where
  pub attach_stats_lem :
      IsReady r
      → let (h, cfg, r') = attach_stats adapter s r in
        IsSame r (release_if h r')
        × (cfg.scan_stats_plugin ≡ h)
        × ((fn : P) → s.scan_stats ≡ some fn → (0 < h) × (lookup_plugin h r' ≡ some (adapter fn)))
  unfolding attach_stats
  attach_stats_lem ready = elim (Option-cases s.scan_stats) [
    | inl bare ↦ (λ k. rw bare refl, rw bare refl, λ fn e. absurd cc)
    | inr (fn, set) ↦ (
      λ k. rw set (release_if_new (adapter fn) r ready k),
      rw set refl,
      λ gn e. rw e (found_new (adapter gn) r ready),
    )
  ]

release-query_array :
    {F A P : Type 0} (s : Scanner F A P) (refs : ℕ)
    → release_query (query_array s refs).0 (query_array s refs).1 ≡ refs
unfolding release_query query_array
release-query_array s refs = ground arith

release_all_one :
    {Q : Type 0} (h : ℕ) (r : Registry Q)
    → release_all (if h == 0 then [] else h ∷ []) r ≡ release_if h r
release_all_one h r = ground arith

-- The native scanner owns a plugin: the one that its configuration names, which its close releases.
pub record Owns {N F A : Type 0} (scanners : ScannerLib N F A)
    (marshal : ScanConfig F → Result String) : Type 0 where
  pub plugin_of : ℕ → N → ℕ
  pub of_new :
      (p : ℕ) (cfg : ScanConfig F) (options : String) (q : Option (QueryArray F A)) (t : Option ℕ)
      (n : N)
      → marshal cfg ≡ ok options
      → let (rc, out, n') = scanners.scanner_new p options q t n in
        rc ≡ 0 → plugin_of out n' ≡ cfg.scan_stats_plugin
  pub of_close :
      (sc : ℕ) (n : N)
      → (scanners.scanner_close sc n).0 ≡ (if plugin_of sc n == 0 then [] else plugin_of sc n ∷ [])

-- Locks, array references and tokens are as before.
abbrev pub IsRestored : {N Q : Type 0} → Env N Q → Env N Q → Type 0
IsRestored env after =
    (after.read_locks ≡ env.read_locks)
    × (after.array_refs ≡ env.array_refs)
    × (after.world.locks ≡ env.world.locks)
    × (after.world.thread_token ≡ none)
    × (after.world.live_tokens ≡ env.world.live_tokens)

module _ {N F A P Q : Type 0} (lib : Native N) (scanners : ScannerLib N F A)
    (marshal : ScanConfig F → Result String) (adapter : P → Q) (owns : Owns scanners marshal) where
  -- What comes of making a native scanner: none, and no plugin either; or one that owns what is new.
  pub data Made (r : Registry Q) (res : Result ℕ) (n : N) (r' : Registry Q) : Type 0 where
    unmade : (e : GoError) → res ≡ err e → IsSame r r' → Made r res n r'
    made : (sc : ℕ) → res ≡ ok sc → IsSame r (release_if (owns.plugin_of sc n) r') → Made r res n r'

  Made-open_scanner :
      (c : Ctx) (p : ℕ) (s : Scanner F A P) (env : Env N Q)
      → IsReady env.plugins
      → let (res, after) = open_scanner lib scanners marshal adapter c p s env in
        Made env.plugins res after.world.native after.plugins
  unfolding open_scanner
  Made-open_scanner c p s env ready =
      let (h, cfg, plugins) = attach_stats adapter s env.plugins in
      let (same, names, _) = attach_stats_lem adapter s env.plugins ready in
      elim (Result-cases (marshal cfg)) [
        | inr (e, bad) ↦
            rw (open_scanner, bad) (unmade (wrap "lance: marshal options: %w" [] e) refl same)
        | inl (options, good) ↦
            let (query, refs) = query_array s env.array_refs in
            elim (ffi_call_out-cases lib c 0 (scanners.scanner_new p options query) env.world) [
              | inl (fine, rc, out, native) ↦
                  let own =
                    owns.of_new p cfg options query (seen_token lib c env.world) env.world.native
                      good rc in
                  rw (open_scanner, good, fine) (made _ refl (rw (out, native, own, names) same))
              | inr ((e, bad), _) ↦
                  rw (open_scanner, good, bad) (unmade (wrap "lance: scan: %w" [] e) refl same)
            ]
      ]

  IsRestored-open_scanner :
      (c : Ctx) (p : ℕ) (s : Scanner F A P) (env : Env N Q)
      → env.world.thread_token ≡ none
      → IsRestored env (open_scanner lib scanners marshal adapter c p s env).1
  unfolding open_scanner
  IsRestored-open_scanner c p s env clear =
      let (h, cfg, plugins) = attach_stats adapter s env.plugins in
      elim (Result-cases (marshal cfg)) [
        | inr (e, bad) ↦ rw (open_scanner, bad) (refl, refl, refl, clear, refl)
        | inl (options, good) ↦
            let (query, refs) = query_array s env.array_refs in
            let f = scanners.scanner_new p options query in
            let (locks, token, live) = ffi_call_out_restores lib c 0 f env.world clear in
            let back = release-query_array s env.array_refs in
            elim (Option-cases (ffi_call_out lib c 0 f env.world).0) [
              | inl fine ↦ rw (open_scanner, good, fine) (refl, back, locks, token, live)
              | inr (e, bad) ↦ rw (open_scanner, good, bad) (refl, back, locks, token, live)
            ]
      ]

  Made-new_native :
      (c : Ctx) (ds : Handle) (s : Scanner F A P) (env : Env N Q)
      → IsReady env.plugins
      → let (res, after) = new_native lib scanners marshal adapter c ds s env in
        Made env.plugins res after.world.native after.plugins
  unfolding new_native
  Made-new_native c ds s env ready = elim (Option-cases s.err) [
    | inr (e, bad) ↦ rw (new_native, bad) (unmade e refl (λ k. refl))
    | inl fine ↦
        let (same, opened) = check_open-cases "dataset" c ds env.world in
        elim opened [
          | inr (e, shut) ↦ rw (new_native, fine, shut) (unmade e refl (λ k. refl))
          | inl (p, there) ↦ rw (new_native, fine, there) (Made-open_scanner c p s _ ready)
        ]
  ]

  IsRestored-new_native :
      (c : Ctx) (ds : Handle) (s : Scanner F A P) (env : Env N Q)
      → env.world.thread_token ≡ none
      → IsRestored env (new_native lib scanners marshal adapter c ds s env).1
  unfolding new_native
  IsRestored-new_native c ds s env clear = elim (Option-cases s.err) [
    | inr (e, bad) ↦ rw (new_native, bad) (refl, refl, refl, clear, refl)
    | inl fine ↦
        let (same, opened) = check_open-cases "dataset" c ds env.world in
        elim opened [
          | inr (e, shut) ↦ rw (new_native, fine, shut, same) (omega arith, refl, refl, clear, refl)
          | inl (p, there) ↦
              let env' : Env N Q = record env {
                world = tick env.world;
                read_locks = env.read_locks + 1;
              } in
              let (locks, refs, pins, token, live) = IsRestored-open_scanner c p s env' clear in
              rw (new_native, fine, there, same) (omega arith, refs, pins, token, live)
        ]
  ]

  IsSame-close_scanner :
      (sc : ℕ) (r : Registry Q) (env : Env N Q)
      → IsSame r (release_if (owns.plugin_of sc env.world.native) env.plugins)
      → IsSame r (close_scanner scanners sc env).plugins
  unfolding close_scanner
  IsSame-close_scanner sc r env same =
      rw
        (
          owns.of_close sc env.world.native,
          release_all_one (owns.plugin_of sc env.world.native) env.plugins,
        )
        same

  module _ {X Y : Type 0} (verb : String) (zero_value : X) (native : ℕ → Option ℕ → N → ℕ × X × N)
      (take : X → N → Y × N) (c : Ctx) (ds : Handle) (s : Scanner F A P) (env : Env N Q) where
    IsSame-with_scanner :
        ((sc : ℕ) (t : Option ℕ) (n : N)
          → owns.plugin_of sc (native sc t n).2 ≡ owns.plugin_of sc n)
        → ((sc : ℕ) (x : X) (n : N) → owns.plugin_of sc (take x n).1 ≡ owns.plugin_of sc n)
        → IsReady env.plugins
        → IsSame env.plugins
            (with_scanner lib scanners marshal adapter verb zero_value native take c ds s
              env).1.plugins
    unfolding with_scanner
    IsSame-with_scanner kept kept_take ready = elim (Made-new_native c ds s env ready) [
      | unmade e bad same ↦ rw (with_scanner, bad) same
      | made sc good same ↦
          let env₁ = (new_native lib scanners marshal adapter c ds s env).1 in
          elim (ffi_call_out-cases lib c zero_value (native sc) env₁.world) [
            | inl (fine, _, out, after) ↦
                rw (with_scanner, good, fine)
                  (IsSame-close_scanner sc env.plugins _ (rw (kept_take sc, after, kept sc) same))
            | inr ((e, bad), inl after) ↦
                rw (with_scanner, good, bad)
                  (IsSame-close_scanner sc env.plugins _ (rw (after, kept sc) same))
            | inr ((e, bad), inr after) ↦
                rw (with_scanner, good, bad) (IsSame-close_scanner sc env.plugins _ (rw after same))
          ]
    ]

    IsRestored-with_scanner :
        env.world.thread_token ≡ none
        → IsRestored env
            (with_scanner lib scanners marshal adapter verb zero_value native take c ds s env).1
    unfolding with_scanner close_scanner
    IsRestored-with_scanner clear =
        let env₁ : Env N Q = (new_native lib scanners marshal adapter c ds s env).1 in
        let (reads, refs, pins, token, live) = IsRestored-new_native c ds s env clear in
        elim (Result-cases (new_native lib scanners marshal adapter c ds s env).0) [
          | inr (e, bad) ↦ rw (with_scanner, bad) (reads, refs, pins, token, live)
          | inl (sc, good) ↦
              let (pins', token', live') =
                ffi_call_out_restores lib c zero_value (native sc) env₁.world token in
              elim (Option-cases (ffi_call_out lib c zero_value (native sc) env₁.world).0) [
                | inl fine ↦
                    rw (with_scanner, close_scanner, good, fine)
                      (reads, refs, pins' ∙ pins, token', live' ∙ live)
                | inr (e, bad) ↦
                    rw (with_scanner, close_scanner, good, bad)
                      (reads, refs, pins' ∙ pins, token', live' ∙ live)
              ]
        ]

    -- Take a native library whose scanner owns the plugin that its configuration names and
    -- releases it when it is closed, a native call that leaves the scanner its plugin, a thread
    -- with an empty cancel slot, and a valid registry that has a handle left. Then a terminal
    -- method gives back the dataset's read lock, its references to the query array, the pin of
    -- the thread and its cancel token, and every plugin handle stands for what it stood for,
    -- whether the method returns a result or fails at any point: no plugin of its own is left
    -- behind, and no other is released.
    pub with_scanner_leaves :
        ((sc : ℕ) (t : Option ℕ) (n : N)
          → owns.plugin_of sc (native sc t n).2 ≡ owns.plugin_of sc n)
        → ((sc : ℕ) (x : X) (n : N) → owns.plugin_of sc (take x n).1 ≡ owns.plugin_of sc n)
        → IsReady env.plugins
        → env.world.thread_token ≡ none
        → IsRestored env
            (with_scanner lib scanners marshal adapter verb zero_value native take c ds s env).1
          × IsSame env.plugins
              (with_scanner lib scanners marshal adapter verb zero_value native take c ds s
                env).1.plugins
    with_scanner_leaves kept kept_take ready clear =
        (IsRestored-with_scanner clear, IsSame-with_scanner kept kept_take ready)
