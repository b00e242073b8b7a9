-- ===== src/Distributed.antt =====
-- Index segments that several processes build, of lance/distributed.go.
pub mod Fragments
pub mod Segments
use lance_go.Base.{ℕ, ◌+◌, Bool, Option, none, some, String, List, [], ◌∷◌}
use lance_go.Base.Int.{ℤ}
use lance_go.Errors.{GoError, leaf, wrap, Leaf, Result, ok, err}
use lance_go.Errors.Ffi.{Ctx, World, Native}
use lance_go.Errors.Out.{ffi_call_out}
use lance_go.Json.{Doc}
use lance_go.Handle.{Handle, After, dataset_op}
use lance_go.Ledger.{Ledger, over_ledger, taking_over, exporting, same_error, fetch}
use lance_go.Open.{Storage}
use lance_go.Transaction.{
  Memory, Store, TransactionOut, nothing_out, free_bytes, free_string, go_string, go_bytes_free,
}
use lance_go.Config.{Giving, unstarted}
use lance_go.Evolution.{exports_of}
use lance_go.Index.{IndexConfig, index_type_name}
use lance_go.Index.Manage.{BuildArgs, params_text, framed_as}

-- `IndexMetadata`, over a type of views.
pub record IndexMetadata (V : Type 0) : Type 0 where
  pub pb : List ℕ
  pub view : V
  pub raw : String

-- `IndexMetadataView`
pub record IndexMetadataView : Type 0 where
  pub name : String
  pub uuid : String
  pub fields : List ℤ
  pub dataset_version : ℕ
  pub index_version : ℤ
  pub created_at : Option String

-- `newIndexMetadata`, with what encoding/json makes of a view.
unfoldable pub new_index_metadata :
    {V : Type 0} → (String → Result V) → List ℕ → String → Result (IndexMetadata V)
new_index_metadata decode pb view_json = elim (decode view_json) [
  | err e ↦ err (wrap "decode index metadata view: %w" [] e)
  | ok v ↦ ok (record { pb = pb; view = v; raw = view_json })
]

-- `createUncommittedConfig`; no fragments at all is none.
pub record UncommittedConfig : Type 0 where
  pub train : Option Bool
  pub fragments : Option (List ℕ)
  pub index_uuid : String
  pub name : String
  pub transaction_properties : Storage
  pub opt_err : Option GoError

abbrev pub no_uncommitted_options : UncommittedConfig
no_uncommitted_options = record {
  train = none;
  fragments = none;
  index_uuid = "";
  name = "";
  transaction_properties = [];
  opt_err = none;
}

-- The constructors of `UncommittedOption`; a nil slice of fragments is none.
pub data UncommittedOption : Type 0 where
  with_train : Bool → UncommittedOption
  with_fragments : Option (List ℕ) → UncommittedOption
  with_index_uuid with_uncommitted_name : String → UncommittedOption
  with_uncommitted_transaction_properties : Storage → UncommittedOption

abbrev pub no_fragments : GoError
no_fragments =
    wrap
      "lance: WithFragments requires at least one fragment id, or an explicit empty slice spread with WithFragments(emptySlice...) to restrict to zero fragments: %w"
      [] (leaf Leaf.invalid_argument)

unfoldable pub apply_uncommitted : UncommittedOption → UncommittedConfig → UncommittedConfig
apply_uncommitted (with_train b) o = record o { train = some b }
apply_uncommitted (with_fragments none) o = record o { opt_err = some no_fragments }
apply_uncommitted (with_fragments (some ids)) o = record o { fragments = some ids }
apply_uncommitted (with_index_uuid u) o = record o { index_uuid = u }
apply_uncommitted (with_uncommitted_name n) o = record o { name = n }
apply_uncommitted (with_uncommitted_transaction_properties m) o = record o {
  transaction_properties = m;
}

-- The loop over the options of `CreateIndexUncommitted`.
unfoldable pub apply_all_uncommitted :
    List UncommittedOption → UncommittedConfig → UncommittedConfig
apply_all_uncommitted [] o = o
apply_all_uncommitted (x ∷ xs) o = apply_all_uncommitted xs (apply_uncommitted x o)

-- What a function of Go gives that may panic on a nil pointer. A panic also runs the deferred calls,
-- with no error in sight.
pub data MayPanic (A : Type 0) : Type 0 where
  gave : A → MayPanic A
  panicked : MayPanic A

-- The loop over the segments: none if it reads a field of nil.
unfoldable pub segment_blobs :
    {V : Type 0} → List (Option (IndexMetadata V)) → Option (List (List ℕ))
segment_blobs [] = some []
segment_blobs (none ∷ ss) = none
segment_blobs (some s ∷ ss) = elim (segment_blobs ss) [ none ↦ none | some bs ↦ some (s.pb ∷ bs) ]

abbrev pub no_segments : GoError
no_segments = wrap "no segments: %w" [] (leaf Leaf.invalid_argument)

module _ {N V : Type 0} (mem : Memory N) (decode : String → Result V) where
  -- What `CreateIndexUncommitted` and `MergeIndexSegments` do behind their native call.
  unfoldable pub receive_segment :
      Option GoError → TransactionOut → Store N → Result (IndexMetadata V) × Store N
  receive_segment (some why) out s =
      (err why, free_string mem out.view (free_bytes mem out.pb out.pb_len s))
  receive_segment none out s =
      let (copied, s₁) = go_bytes_free mem out.pb out.pb_len s in
      let shown = go_string mem out.view s₁.native in
      (
        elim copied [
          | err e ↦ err (wrap "copy index metadata bytes: %w" [] e)
          | ok pb ↦ new_index_metadata decode pb shown
        ],
        free_string mem out.view s₁,
      )

  module _ (lib : Native N) (c : Ctx) where
    -- A native call that gives a segment; it takes over the `k` exports that were made for it.
    unfoldable pub segment_call :
        ℕ → Giving N TransactionOut → World (Ledger N) → Result (IndexMetadata V) × World (Ledger N)
    segment_call k f w =
        let (e, out, w') =
          ffi_call_out (over_ledger lib) c nothing_out (taking_over k f) (exporting k w) in
        let (res, s) = receive_segment e out w'.native.store in
        (res, record w' { native = record { store = s; live_exports = w'.native.live_exports } })

    module _ {F A : Type 0} (nonzero : F → Bool) (shown : ℤ → String) (send : Doc F → Result String)
        (send_options : UncommittedConfig → Result String)
        (native : ℕ → BuildArgs A → String → Giving N TransactionOut) (column : String)
        (cfg : IndexConfig F) (centroids codebook : Option A) where
      -- Behind `datasetOp` in `CreateIndexUncommitted`, with what encoding/json makes of the
      -- parameters and of the options.
      unfoldable pub build_segment :
          UncommittedConfig → ℕ → World (Ledger N) → Result (IndexMetadata V) × World (Ledger N)
      build_segment o p v = elim (params_text nonzero shown send cfg) [
        | err e ↦ (err e, v)
        | ok params ↦ elim (framed_as "marshal options: %w" (send_options o)) [
          | err e ↦ (err e, v)
          | ok options ↦
              segment_call (exports_of centroids + exports_of codebook)
                (native p
                  (record {
                    column = column;
                    type_name = index_type_name cfg;
                    params = params;
                    centroids = centroids;
                    codebook = codebook;
                  })
                  options)
                v
        ]
      ]

      -- `CreateIndexUncommitted`, with what package fmt makes of the verb and the quoted column.
      unfoldable pub create_index_uncommitted :
          (String → String → String)
          → Handle
          → ℕ
          → List UncommittedOption
          → World (Ledger N)
          → Result (IndexMetadata V) × After (Ledger N)
      create_index_uncommitted quoted ds locks opts w =
          let o = apply_all_uncommitted opts no_uncommitted_options in
          elim o.opt_err [
            | some e ↦ (err e, unstarted locks w)
            | none ↦
                dataset_op (quoted "create index uncommitted on" column) c ds locks
                  (build_segment o) w
          ]

    -- Behind the first guard of `MergeIndexSegments`.
    unfoldable pub merge_body :
        (ℕ → List (List ℕ) → Giving N TransactionOut)
        → List (Option (IndexMetadata V))
        → ℕ
        → World (Ledger N)
        → Result (MayPanic (IndexMetadata V)) × World (Ledger N)
    merge_body native ss p v = elim (segment_blobs ss) [
      | none ↦ (ok panicked, v)
      | some bs ↦
          let (res, v') = segment_call 0 (native p bs) v in
          (elim res [ err e ↦ err e | ok m ↦ ok (gave m) ], v')
    ]

    module _ (ds : Handle) (locks : ℕ) where
      -- `MergeIndexSegments`; a nil segment is none.
      unfoldable pub merge_index_segments :
          (ℕ → List (List ℕ) → Giving N TransactionOut)
          → List (Option (IndexMetadata V))
          → World (Ledger N)
          → Result (MayPanic (IndexMetadata V)) × After (Ledger N)
      merge_index_segments native [] w =
          dataset_op "merge index segments" c ds locks (λ p v. (err no_segments, v)) w
      merge_index_segments native (s ∷ ss) w =
          dataset_op "merge index segments" c ds locks (merge_body native (s ∷ ss)) w

      -- `CommitIndexSegments`, whose native function gives a string that is not read.
      unfoldable pub commit_index_segments :
          (String → String → String)
          → (ℕ → String → String → List (List ℕ) → Giving N (Option ℕ))
          → String
          → String
          → List (Option (IndexMetadata V))
          → World (Ledger N)
          → Result (MayPanic (Unit {0})) × After (Ledger N)
      commit_index_segments quoted native name column [] w =
          dataset_op (quoted "commit index segments" name) c ds locks (λ p v. (err no_segments, v))
            w
      commit_index_segments quoted native name column (s ∷ ss) w =
          dataset_op (quoted "commit index segments" name) c ds locks
            (λ p v. elim (segment_blobs (s ∷ ss)) [
              | none ↦ (ok panicked, v)
              | some bs ↦
                  fetch lib mem 0 (λ u. ok (gave tt)) same_error same_error c
                    (native p name column bs) v
            ])
            w
