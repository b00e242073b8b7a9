-- ===== src/Transaction/Fragments.antt =====
-- `WriteFragments` of lance/transaction.go.
use lance_go.Base.{
  ℕ, ◌+◌, ◌-◌, ◌≡◌, ap, ◌∙◌, inl, inr, Bool, false, Option, none, some, String, List, [], ◌∷◌, ◌++◌,
  arith,
}
use lance_go.Base.Int.{ℤ}
use lance_go.Errors.{leaf, wrap, text, Result, ok, err}
use lance_go.Errors.Ffi.{Ctx, World, tick, Native, Passes, seen_token}
use lance_go.Errors.Out.{ffi_call_out, ffi_call_out_reached}
use lance_go.Open.{Storage}
use lance_go.Write.{write_mode_name}
use lance_go.Transaction.{Transaction, TransactionOut, nothing_out, Freed, Memory, receive}
use lance_go.Transaction.Receive.{handed_out, receive_frees}

-- `writeFragmentsConfig`
pub record FragmentsConfig : Type 0 where
  pub mode : String
  pub max_rows_per_file : ℕ
  pub max_rows_per_group : ℕ
  pub max_bytes_per_file : ℕ
  pub data_storage_version : String
  pub enable_stable_row_ids : Bool
  pub enable_v2_manifest_paths : Bool
  pub transaction_properties : Storage
  pub storage : Storage

-- The constructors of `WriteFragmentsOption`.
pub data FragmentsOption : Type 0 where
  with_fragments_mode : ℤ → FragmentsOption
  with_fragments_max_rows_per_file : ℕ → FragmentsOption
  with_fragments_data_storage_version : String → FragmentsOption
  with_fragments_stable_row_ids : Bool → FragmentsOption
  with_fragments_storage_options : Storage → FragmentsOption
  with_fragments_transaction_properties : Storage → FragmentsOption

abbrev pub no_fragments_options : FragmentsConfig
no_fragments_options = record {
  mode = "";
  max_rows_per_file = 0;
  max_rows_per_group = 0;
  max_bytes_per_file = 0;
  data_storage_version = "";
  enable_stable_row_ids = false;
  enable_v2_manifest_paths = false;
  transaction_properties = [];
  storage = [];
}

abbrev pub apply_fragments : (ℤ → String) → List FragmentsOption → FragmentsConfig → FragmentsConfig
apply_fragments shown [] cfg = cfg
apply_fragments shown (with_fragments_mode m ∷ os) cfg =
    apply_fragments shown os (record cfg { mode = write_mode_name shown m })
apply_fragments shown (with_fragments_max_rows_per_file n ∷ os) cfg =
    apply_fragments shown os (record cfg { max_rows_per_file = n })
apply_fragments shown (with_fragments_data_storage_version v ∷ os) cfg =
    apply_fragments shown os (record cfg { data_storage_version = v })
apply_fragments shown (with_fragments_stable_row_ids b ∷ os) cfg =
    apply_fragments shown os (record cfg { enable_stable_row_ids = b })
apply_fragments shown (with_fragments_storage_options m ∷ os) cfg =
    apply_fragments shown os (record cfg { storage = m })
apply_fragments shown (with_fragments_transaction_properties m ∷ os) cfg =
    apply_fragments shown os (record cfg { transaction_properties = m })

-- What `WriteFragments` works on: the thread, what was given back, and the exported streams that
-- nobody has taken over.
pub record FragmentsEnv (N : Type 0) : Type 0 where
  pub world : World N
  pub freed : List Freed
  pub live_exports : ℕ

module _ {N V R : Type 0} (lib : Native N) (mem : Memory N) (decode : String → Result V)
    (native_write : R → String → String → Storage → Option ℕ → N → ℕ × TransactionOut × N)
    (marshal : FragmentsConfig → Result String) (shown : ℤ → String) where
  -- The native call, which takes over the stream first.
  abbrev fragments_call :
      String → R → FragmentsConfig → String → ℕ → Option ℕ → N → ℕ × (TransactionOut × ℕ) × N
  fragments_call uri rdr cfg options exports t n =
      let (rc, out, n') = native_write rdr uri options cfg.storage t n in
      (rc, (out, exports - 1), n')

  -- Behind `marshalOptions`: the export, the native call, and what it gave.
  unfoldable pub fragments_stream :
      Ctx
      → String
      → R
      → FragmentsConfig
      → String
      → FragmentsEnv N
      → Result (Option (Transaction V)) × FragmentsEnv N
  fragments_stream c uri rdr cfg options env =
      let exports = env.live_exports + 1 in
      let (e, (out, left), w) =
        ffi_call_out lib c (nothing_out, exports) (fragments_call uri rdr cfg options exports)
          env.world in
      let (res, s) =
        receive mem decode (λ x. wrap "lance: write fragments %q: %w" (text uri ∷ []) x) e out
          (record { native = w.native; freed = env.freed }) in
      (res, record { world = record w { native = s.native }; freed = s.freed; live_exports = left })

  -- `WriteFragments`
  unfoldable pub write_fragments :
      Ctx
      → String
      → R
      → List FragmentsOption
      → FragmentsEnv N
      → Result (Option (Transaction V)) × FragmentsEnv N
  write_fragments c uri rdr opts env =
      let cfg = apply_fragments shown opts no_fragments_options in
      let started = record env { world = tick env.world } in
      elim (c.err env.world.now) [
        | some l ↦ (err (leaf l), started)
        | none ↦ elim (marshal cfg) [
          | err e ↦ (err (wrap "lance: marshal options: %w" [] e), started)
          | ok options ↦ fragments_stream c uri rdr cfg options started
        ]
      ]

  -- What a call that gets to its native function, or is stopped by a guard, gives back and leaves.
  pub data Received (c : Ctx) (uri : String) (rdr : R) (cfg : FragmentsConfig) (options : String)
      (env after : FragmentsEnv N) : Type 0 where
    reached :
        Passes lib c env.world
        → (let (rc, out, n) =
              native_write rdr uri options cfg.storage
                (seen_token lib c env.world)
                env.world.native in
            after.freed ≡ handed_out out ++ env.freed)
        → after.live_exports ≡ env.live_exports
        → Received c uri rdr cfg options env after
    stopped :
        (¬ Passes lib c env.world)
        → after.freed ≡ env.freed
        → after.live_exports ≡ env.live_exports + 1
        → Received c uri rdr cfg options env after

  fragments_stream-Received :
      (c : Ctx) (uri : String) (rdr : R) (cfg : FragmentsConfig) (options : String)
      (env : FragmentsEnv N)
      → Received c uri rdr cfg options env (fragments_stream c uri rdr cfg options env).1
  unfolding fragments_stream
  fragments_stream-Received c uri rdr cfg options env =
      let exports = env.live_exports + 1 in
      let f = fragments_call uri rdr cfg options exports in
      let (e, (out, left), w) = ffi_call_out lib c (nothing_out, exports) f env.world in
      let frees =
        receive_frees mem decode (λ x. wrap "lance: write fragments %q: %w" (text uri ∷ []) x) e out
          (record { native = w.native; freed = env.freed }) in
      elim (ffi_call_out_reached lib c (nothing_out, exports) f env.world) [
        | inl (passes, same) ↦
            reached passes
              (frees ∙ ap (λ (o : TransactionOut × ℕ). handed_out o.0 ++ env.freed) same)
              (ap (λ (o : TransactionOut × ℕ). o.1) same ∙ omega arith)
        | inr (stop, same, _, _) ↦
            stopped stop (frees ∙ ap (λ (o : TransactionOut × ℕ). handed_out o.0 ++ env.freed) same)
              (ap (λ (o : TransactionOut × ℕ). o.1) same)
      ]

  -- A `WriteFragments` that starts under a live context, with options that encoding/json takes,
  -- either reaches its native function: then the buffer and the string that this hands out, failing
  -- or not, are given back once each, and the stream is taken over; or a guard of `ffiCall` stops
  -- it: then nothing is given back, and the stream is left exported with no owner.
  pub write_fragments_frees :
      (c : Ctx) (uri : String) (rdr : R) (opts : List FragmentsOption) (options : String)
      (env : FragmentsEnv N)
      → c.err env.world.now ≡ none
      → marshal (apply_fragments shown opts no_fragments_options) ≡ ok options
      → Received c uri rdr
          (apply_fragments shown opts no_fragments_options)
          options
          (record env { world = tick env.world })
          (write_fragments c uri rdr opts env).1
  unfolding write_fragments
  write_fragments_frees c uri rdr opts options env live good =
      rw (write_fragments, live, good)
        (fragments_stream-Received c uri rdr (apply_fragments shown opts no_fragments_options)
          options (record env { world = tick env.world }))
