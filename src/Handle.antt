-- ===== src/Handle.antt =====
-- The handles of lance/dataset.go, lance/fragment.go, lance/session.go and lance/blob.go: a native
-- pointer with a clean-up that the garbage collector runs; and `datasetOp` and `fragmentOp` of
-- lance/ops.go, which run an operation on one.
pub mod Hand
pub mod Life
pub mod Run
use lance_go.Base.{
  ℕ, ◌+◌, ◌-◌, Bool, true, false, Option, none, some, String, List, [], ◌∷◌, is_some, if◌then◌else◌,
}
use lance_go.Base.Int.{ℤ, pos, negsuc}
use lance_go.Errors.{GoError, leaf, wrap, plain, Leaf, text, Result, ok, err}
use lance_go.Errors.Ffi.{Ctx, World, tick, Native}
use lance_go.Errors.Out.{ffi_call_out}

-- A `Dataset`, `Fragment`, `Session` or `BlobList`: its pointer, unless it is closed; the argument
-- of its clean-up, until that is stopped or has run; and the native closes, the newest first.
pub record Handle : Type 0 where
  pub ptr : Option ℕ
  pub cleanup : Option ℕ
  pub closes : List ℕ

-- `newBlobList`, and its like for the other handles.
abbrev pub open_handle : ℕ → Handle
open_handle p = record { ptr = some p; cleanup = some p; closes = [] }

-- `Close`, which is the same for all four.
unfoldable pub close : Handle → Handle
close h = elim h.ptr [
  | none ↦ h
  | some p ↦ record { ptr = none; cleanup = none; closes = p ∷ h.closes }
]

-- What the runtime does with a handle that nobody refers to any more.
unfoldable pub collect : Handle → Handle
collect h = elim h.cleanup [
  | none ↦ h
  | some p ↦ record h { cleanup = none; closes = p ∷ h.closes }
]

-- `BlobList.Len`. The native length is a size_t.
unfoldable pub blob_list_len : (ℕ → ℕ) → Handle → ℕ
blob_list_len native_len h = elim h.ptr [ none ↦ 0 | some p ↦ native_len p ]

-- `BlobList.Get`: the pointer of the blob file.
unfoldable pub blob_list_get : (ℕ → ℕ → Option ℕ) → ℤ → Handle → Option ℕ
blob_list_get native_get (negsuc i) h = none
blob_list_get native_get (pos i) h = elim h.ptr [ none ↦ none | some p ↦ native_get p i ]

-- What an operation leaves: the thread, the lock count of the handle, and how its span ended.
pub record After (N : Type 0) : Type 0 where
  pub world : World N
  pub held_locks : ℕ
  pub span_ends : List (Option GoError)

abbrev pub error_of : {A : Type 0} → Result A → Option GoError
error_of (ok a) = none
error_of (err e) = some e

module _ {N : Type 0} where
  -- `checkOpen`, with the name of the kind of handle.
  unfoldable pub check_open : String → Ctx → Handle → World N → Result ℕ × World N
  check_open kind c h w = elim (c.err w.now) [
    | some l ↦ (err (leaf l), tick w)
    | none ↦ elim h.ptr [
      | none ↦ (
        err (wrap "lance: %s is closed: %w" (text kind ∷ []) (leaf Leaf.invalid_argument)),
        tick w,
      )
      | some p ↦ (ok p, tick w)
    ]
  ]

  -- The end of an operation: the deferred unlock, then the deferred end of the span.
  abbrev pub finish : {A : Type 0} → ℕ → Result A → World N → Result A × After N
  finish locks res w =
      (res, record { world = w; held_locks = locks - 1; span_ends = error_of res ∷ [] })

  -- `datasetOp` and `fragmentOp`, with the kind of handle; the span is ended on every way out.
  unfoldable pub handle_op :
      {A : Type 0}
      → String
      → String
      → Ctx
      → Handle
      → ℕ
      → (ℕ → World N → Result A × World N)
      → World N
      → Result A × After N
  handle_op kind verb c h locks f w =
      let (opened, w₁) = check_open kind c h w in
      elim opened [
        | err e ↦ finish (locks + 1) (err e) w₁
        | ok p ↦
            let (res, w₂) = f p w₁ in
            elim res [
              | err e ↦ finish (locks + 1) (err (wrap "lance: %s: %w" (text verb ∷ []) e)) w₂
              | ok a ↦ finish (locks + 1) (ok a) w₂
            ]
      ]

  -- The frame of an operation of a dataset that does not use `datasetOp`, such as `Delete` of
  -- lance/mutation.go: its function gives errors in their final form.
  unfoldable pub hand_op :
      {A : Type 0}
      → Ctx
      → Handle
      → ℕ
      → (ℕ → World N → Result A × World N)
      → World N
      → Result A × After N
  hand_op c h locks f w =
      let (opened, w₁) = check_open "dataset" c h w in
      elim opened [
        | err e ↦ finish (locks + 1) (err e) w₁
        | ok p ↦ let (res, w₂) = f p w₁ in finish (locks + 1) res w₂
      ]

  -- `datasetOp`
  abbrev pub dataset_op :
      {A : Type 0}
      → String
      → Ctx
      → Handle
      → ℕ
      → (ℕ → World N → Result A × World N)
      → World N
      → Result A × After N
  dataset_op = handle_op "dataset"

  -- `fragmentOp`
  abbrev pub fragment_op :
      {A : Type 0}
      → String
      → Ctx
      → Handle
      → ℕ
      → (ℕ → World N → Result A × World N)
      → World N
      → Result A × After N
  fragment_op = handle_op "fragment"

-- The spec of a blob take: a column, and one selector that is present.
pub data Selector : Type 0 where
  row_ids indices addresses : List ℕ → Selector

-- `takeBlobs`, behind `TakeBlobs`, `TakeBlobsByIndices` and `TakeBlobsByAddresses`; `marshal` is
-- what encoding/json makes of the spec, and the native function fills in the pointer of a list.
unfoldable pub take_blobs :
    {N : Type 0}
    → Native N
    → (String → Selector → Result String)
    → (ℕ → String → Option ℕ → N → ℕ × ℕ × N)
    → Ctx
    → Handle
    → ℕ
    → String
    → Selector
    → World N
    → Result Handle × After N
take_blobs lib marshal native_take c h locks column sel = dataset_op "take blobs" c h locks (λ p w.
    elim (marshal column sel) [
      | err e ↦ (err (wrap "marshal options: %w" [] e), w)
      | ok spec ↦
          let (e, out, w') = ffi_call_out lib c 0 (native_take p spec) w in
          (elim e [ some x ↦ err x | none ↦ ok (open_handle out) ], w')
    ])
