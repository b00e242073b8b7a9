-- ===== src/Transaction/Commit.antt =====
-- `CommitBuilder` of lance/transaction.go.
use lance_go.Base.{ℕ, Bool, true, Option, none, some, String, List, [], ◌∷◌}
use lance_go.Errors.{GoError, leaf, wrap, Leaf, text, Result, ok, err}
use lance_go.Errors.Ffi.{Ctx, World, tick, Native}
use lance_go.Errors.Out.{ffi_call_out}
use lance_go.Handle.{Handle, open_handle}
use lance_go.Open.{Storage}
use lance_go.Transaction.{Transaction}

-- `commitConfig`
pub record CommitConfig : Type 0 where
  pub use_stable_row_ids : Option Bool
  pub enable_v2_manifest_paths : Option Bool
  pub detached : Option Bool
  pub max_retries : Option ℕ
  pub skip_auto_cleanup : Option Bool
  pub transaction_properties : Storage
  pub storage_format : String
  pub uri : String
  pub storage : Storage

-- `NewCommit`
abbrev pub new_commit : String → CommitConfig
new_commit uri = record {
  use_stable_row_ids = none;
  enable_v2_manifest_paths = none;
  detached = none;
  max_retries = none;
  skip_auto_cleanup = none;
  transaction_properties = [];
  storage_format = "";
  uri = uri;
  storage = [];
}

-- The methods of `CommitBuilder` that return it.
pub data CommitSetting : Type 0 where
  use_stable_row_ids enable_v2_manifest_paths detached skip_auto_cleanup : CommitSetting
  max_retries : ℕ → CommitSetting
  with_transaction_properties with_storage_options : Storage → CommitSetting
  with_storage_format : String → CommitSetting

abbrev pub set_commit : CommitSetting → CommitConfig → CommitConfig
set_commit use_stable_row_ids cfg = record cfg { use_stable_row_ids = some true }
set_commit enable_v2_manifest_paths cfg = record cfg { enable_v2_manifest_paths = some true }
set_commit detached cfg = record cfg { detached = some true }
set_commit skip_auto_cleanup cfg = record cfg { skip_auto_cleanup = some true }
set_commit (max_retries n) cfg = record cfg { max_retries = some n }
set_commit (with_transaction_properties m) cfg = record cfg { transaction_properties = m }
set_commit (with_storage_options m) cfg = record cfg { storage = m }
set_commit (with_storage_format f) cfg = record cfg { storage_format = f }

-- The native commits: functions of the URI, the bytes, the JSON options and the storage options.
pub record CommitLib (N : Type 0) : Type 0 where
  pub commit : String → List ℕ → String → Storage → Option ℕ → N → ℕ × ℕ × N
  pub commit_batch : String → List (List ℕ) → String → Storage → Option ℕ → N → ℕ × ℕ × N
  pub string_at : ℕ → N → String
  pub string_free : ℕ → N → N

-- How a call ends, when it may also crash on a nil pointer.
pub data Ended (A : Type 0) : Type 0 where
  returned : Result A → Ended A
  crashed : Ended A

-- The loop over the transactions of `ExecuteBatch`; none if it reads a field of nil.
unfoldable pub blobs : {V : Type 0} → List (Option (Transaction V)) → Option (List (List ℕ))
blobs [] = some []
blobs (none ∷ ts) = none
blobs (some t ∷ ts) = elim (blobs ts) [ none ↦ none | some bs ↦ some (t.pb ∷ bs) ]

abbrev nil_transaction : GoError
nil_transaction = wrap "lance: commit: nil transaction: %w" [] (leaf Leaf.invalid_argument)

module _ {N : Type 0} (lib : Native N) (native : CommitLib N)
    (marshal : CommitConfig → Result String) where
  -- Behind the guards of `Execute`, with the bytes of the transaction.
  unfoldable pub commit_bytes :
      Ctx → CommitConfig → List ℕ → String → World N → Result Handle × World N
  commit_bytes c cfg pb options w =
      let (e, out, w') = ffi_call_out lib c 0 (native.commit cfg.uri pb options cfg.storage) w in
      (
        elim e [
          | none ↦ ok (open_handle out)
          | some why ↦ err (wrap "lance: commit %q: %w" (text cfg.uri ∷ []) why)
        ],
        w',
      )

  -- `Execute`
  unfoldable pub execute :
      {V : Type 0} → Ctx → CommitConfig → Option (Transaction V) → World N → Result Handle × World N
  execute c cfg none w = (err nil_transaction, w)
  execute c cfg (some t) w = elim t.pb [
    | [] ↦ (err nil_transaction, w)
    | b ∷ bs ↦ elim (c.err w.now) [
      | some l ↦ (err (leaf l), tick w)
      | none ↦ elim (marshal cfg) [
        | err e ↦ (err (wrap "lance: marshal options: %w" [] e), tick w)
        | ok options ↦ commit_bytes c cfg (b ∷ bs) options (tick w)
      ]
    ]
  ]

  -- Behind the loop of `ExecuteBatch`; `decode` is what encoding/json makes of the result.
  unfoldable pub commit_blobs :
      (String → Result ℕ)
      → Ctx
      → CommitConfig
      → List (List ℕ)
      → String
      → World N
      → Result (List ℕ) × World N
  commit_blobs decode c cfg bs options w =
      let (e, out, w') =
        ffi_call_out lib c 0 (native.commit_batch cfg.uri bs options cfg.storage) w in
      elim e [
        | some why ↦ (err (wrap "lance: commit batch %q: %w" (text cfg.uri ∷ []) why), w')
        | none ↦ (
          elim (decode (native.string_at out w'.native)) [
            | err x ↦ err (wrap "lance: decode commit batch result: %w" [] x)
            | ok version ↦ ok (version ∷ [])
          ],
          record w' { native = native.string_free out w'.native },
        )
      ]

  -- `ExecuteBatch`
  unfoldable pub execute_batch :
      {V : Type 0}
      → (String → Result ℕ)
      → Ctx
      → CommitConfig
      → List (Option (Transaction V))
      → World N
      → Ended (List ℕ) × World N
  execute_batch decode c cfg [] w = (
    returned
        (err (wrap "lance: commit batch: no transactions: %w" [] (leaf Leaf.invalid_argument))),
    w,
  )
  execute_batch decode c cfg (t ∷ ts) w = elim (c.err w.now) [
    | some l ↦ (returned (err (leaf l)), tick w)
    | none ↦ elim (marshal cfg) [
      | err e ↦ (returned (err (wrap "lance: marshal options: %w" [] e)), tick w)
      | ok options ↦ elim (blobs (t ∷ ts)) [
        | none ↦ (crashed, tick w)
        | some bs ↦
            let (res, w') = commit_blobs decode c cfg bs options (tick w) in (returned res, w')
      ]
    ]
  ]
