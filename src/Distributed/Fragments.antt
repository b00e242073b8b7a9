-- ===== src/Distributed/Fragments.antt =====
-- The fragments that `CreateIndexUncommitted` of lance/distributed.go is restricted to.
use lance_go.Base.{
  ◌+◌, ℕ, ◌≡◌, refl, inl, inr, Bool, true, false, Option, none, some, String, List, [], ◌∷◌, arith,
  Bool-cases, if◌then◌else◌,
}
use lance_go.Base.Int.{ℤ}
use lance_go.Errors.{GoError, wrap, text, Result, ok, err, Result-cases}
use lance_go.Errors.Ffi.{Ctx, World, tick, Native}
use lance_go.Json.{Doc}
use lance_go.Handle.{Handle, After, handle_op, error_of}
use lance_go.Handle.Run.{HandleRun, HandleRun-handle_op, named, handle_op_leaves}
use lance_go.Ledger.{Ledger}
use lance_go.Transaction.{Memory, TransactionOut}
use lance_go.Config.{Giving, unstarted}
use lance_go.Index.{IndexConfig, index_type_name}
use lance_go.Evolution.{exports_of}
use lance_go.Distributed.Segments.{SegmentCall, segment_call_frees}
use lance_go.Index.Manage.{BuildArgs, params_text}
use lance_go.Distributed.{
  IndexMetadata, UncommittedConfig, UncommittedOption, with_fragments, with_train, with_index_uuid,
  with_uncommitted_name, with_uncommitted_transaction_properties, no_uncommitted_options,
  no_fragments, apply_uncommitted, apply_all_uncommitted, segment_call, build_segment,
  create_index_uncommitted,
}

-- The fragments of one option, if it gives any.
abbrev given_fragments : UncommittedOption → Option (List ℕ)
given_fragments (with_fragments f) = f
given_fragments (with_train b) = none
given_fragments (with_index_uuid u) = none
given_fragments (with_uncommitted_name n) = none
given_fragments (with_uncommitted_transaction_properties m) = none

-- Is there a `WithFragments` without a slice?
abbrev pub nil_named : List UncommittedOption → Bool
nil_named [] = false
nil_named (with_fragments none ∷ xs) = true
nil_named (x ∷ xs) = nil_named xs

-- The fragments of the last option that gives any.
abbrev pub last_fragments : List UncommittedOption → Option (List ℕ) → Option (List ℕ)
last_fragments [] before = before
last_fragments (x ∷ xs) before =
    last_fragments xs (elim (given_fragments x) [ none ↦ before | some f ↦ some f ])

fragments-apply_all :
    (xs : List UncommittedOption) (o : UncommittedConfig)
    → (apply_all_uncommitted xs o).fragments ≡ last_fragments xs o.fragments
unfolding apply_all_uncommitted apply_uncommitted
fragments-apply_all [] o = refl
fragments-apply_all (with_train b ∷ xs) o = fragments-apply_all xs _
fragments-apply_all (with_fragments none ∷ xs) o = fragments-apply_all xs _
fragments-apply_all (with_fragments (some ids) ∷ xs) o = fragments-apply_all xs _
fragments-apply_all (with_index_uuid u ∷ xs) o = fragments-apply_all xs _
fragments-apply_all (with_uncommitted_name n ∷ xs) o = fragments-apply_all xs _
fragments-apply_all (with_uncommitted_transaction_properties m ∷ xs) o = fragments-apply_all xs _

-- An error of an option stays, whatever options follow.
opt_err-stays :
    (xs : List UncommittedOption) (o : UncommittedConfig)
    → o.opt_err ≡ some no_fragments
    → (apply_all_uncommitted xs o).opt_err ≡ some no_fragments
unfolding apply_all_uncommitted apply_uncommitted
opt_err-stays [] o h = h
opt_err-stays (with_train b ∷ xs) o h = opt_err-stays xs _ h
opt_err-stays (with_fragments none ∷ xs) o h = opt_err-stays xs _ refl
opt_err-stays (with_fragments (some ids) ∷ xs) o h = opt_err-stays xs _ h
opt_err-stays (with_index_uuid u ∷ xs) o h = opt_err-stays xs _ h
opt_err-stays (with_uncommitted_name n ∷ xs) o h = opt_err-stays xs _ h
opt_err-stays (with_uncommitted_transaction_properties m ∷ xs) o h = opt_err-stays xs _ h

opt_err-apply_all :
    (xs : List UncommittedOption) (o : UncommittedConfig)
    → (apply_all_uncommitted xs o).opt_err ≡ (if nil_named xs then some no_fragments else o.opt_err)
unfolding apply_all_uncommitted apply_uncommitted
opt_err-apply_all [] o = refl
opt_err-apply_all (with_train b ∷ xs) o = opt_err-apply_all xs _
opt_err-apply_all (with_fragments none ∷ xs) o = opt_err-stays xs _ refl
opt_err-apply_all (with_fragments (some ids) ∷ xs) o = opt_err-apply_all xs _
opt_err-apply_all (with_index_uuid u ∷ xs) o = opt_err-apply_all xs _
opt_err-apply_all (with_uncommitted_name n ∷ xs) o = opt_err-apply_all xs _
opt_err-apply_all (with_uncommitted_transaction_properties m ∷ xs) o = opt_err-apply_all xs _

module _ {N V F A : Type 0} (mem : Memory N) (decode : String → Result V) (lib : Native N) (c : Ctx)
    (ds : Handle) (locks : ℕ) (nonzero : F → Bool) (shown : ℤ → String)
    (send : Doc F → Result String) (send_options : UncommittedConfig → Result String)
    (quoted : String → String → String)
    (native : ℕ → BuildArgs A → String → Giving N TransactionOut) (column : String)
    (cfg : IndexConfig F) (centroids codebook : Option A) where
  abbrev arguments : String → BuildArgs A
  arguments params = record {
    column = column;
    type_name = index_type_name cfg;
    params = params;
    centroids = centroids;
    codebook = codebook;
  }

  abbrev why : GoError → GoError
  why e = wrap "lance: %s: %w" (text (quoted "create index uncommitted on" column) ∷ []) e

  -- The build is let through, on the pointer p, and its parameters and options can be encoded.
  abbrev pub Sends : UncommittedConfig → World (Ledger N) → ℕ → String → String → Type 0
  Sends o w p params options =
      (c.err w.now ≡ none)
      × (ds.ptr ≡ some p)
      × (params_text nonzero shown send cfg ≡ ok params)
      × (send_options o ≡ ok options)

  -- How a build with the options `o` ends: before its native call, or with it.
  pub data Built (o : UncommittedConfig) (w : World (Ledger N)) (res : Result (IndexMetadata V))
      (v : World (Ledger N)) : Type 0 where
    unbuilt :
        (e : GoError)
        → (¬ ((p : ℕ) × (params : String) × (options : String) × Sends o w p params options))
        → res ≡ err e
        → v ≡ tick w
        → Built o w res v
    built :
        (p : ℕ) (params options : String) (given : Result (IndexMetadata V))
        → Sends o w p params options
        → res ≡ named (quoted "create index uncommitted on" column) given
        → SegmentCall mem decode lib c
            (exports_of centroids + exports_of codebook)
            (native p (arguments params) options)
            (tick w)
            given
            v.native
        → Built o w res v

  module _ (o : UncommittedConfig) (w : World (Ledger N)) where
    abbrev build : ℕ → World (Ledger N) → Result (IndexMetadata V) × World (Ledger N)
    build =
        build_segment mem decode lib c nonzero shown send send_options native column cfg centroids
          codebook o

    Built-build :
        (p : ℕ) (res : Result (IndexMetadata V)) (v : World (Ledger N))
        → c.err w.now ≡ none
        → ds.ptr ≡ some p
        → res ≡ named (quoted "create index uncommitted on" column) (build p (tick w)).0
        → v ≡ (build p (tick w)).1
        → Built o w res v
    unfolding build_segment
    Built-build p res v live there shown_res same =
        elim (Result-cases (params_text nonzero shown send cfg)) [
          | inr (e, bad) ↦
              let eq : build p (tick w) ≡ (err e, tick w) = rw (build_segment, bad) refl in
              unbuilt (why e) (λ (q, params, options, (_, _, fits, _)). absurd cc)
                (rw (shown_res, eq) refl) (rw (same, eq) refl)
          | inl (params, good) ↦ elim (Result-cases (send_options o)) [
            | inr (e, bad) ↦
                let eq : build p (tick w) ≡ (err (wrap "marshal options: %w" [] e), tick w) =
                  rw (build_segment, good) (rw (bad, build_segment) refl) in
                unbuilt (why (wrap "marshal options: %w" [] e))
                  (λ (q, params', options, (_, _, _, fine)). absurd cc) (rw (shown_res, eq) refl)
                  (rw (same, eq) refl)
            | inl (options, fine) ↦
                let f : Giving N TransactionOut = native p (arguments params) options in
                let eq : build p (tick w)
                    ≡ segment_call mem decode lib c (exports_of centroids + exports_of codebook) f
                        (tick w) =
                  rw (build_segment, good) (rw (fine, build_segment) refl) in
                built p params options
                  (segment_call mem decode lib c (exports_of centroids + exports_of codebook) f
                    (tick w)).0
                  (live, there, good, fine) (rw (shown_res, eq) refl)
                  (rw (same, eq)
                    (segment_call_frees mem decode lib c
                      (exports_of centroids + exports_of codebook) f (tick w)))
          ]
        ]

    Built-handle_op :
        let (res, after) =
          handle_op "dataset" (quoted "create index uncommitted on" column) c ds locks build w in
        Built o w res after.world
    Built-handle_op =
        let verb = quoted "create index uncommitted on" column in
        elim (HandleRun-handle_op "dataset" verb c ds locks build w) [
          | HandleRun.ran p live there res same ↦ Built-build p _ _ live there res same
          | HandleRun.unopened e shut bad same ↦
              unbuilt e (λ (p, _, _, (live, there, _, _)). shut (p, live, there)) bad same
        ]

  -- How `CreateIndexUncommitted` ends with these options.
  pub data Restricted (opts : List UncommittedOption) (w : World (Ledger N))
      (res : Result (IndexMetadata V)) (after : After (Ledger N)) : Type 0 where
    refused :
        nil_named opts ≡ true
        → res ≡ err no_fragments
        → after ≡ unstarted locks w
        → Restricted opts w res after
    restricted :
        (o : UncommittedConfig)
        → nil_named opts ≡ false
        → o ≡ apply_all_uncommitted opts no_uncommitted_options
        → o.fragments ≡ last_fragments opts none
        → after.held_locks ≡ locks
        → after.span_ends ≡ error_of res ∷ []
        → Built o w res after.world
        → Restricted opts w res after

  -- A `CreateIndexUncommitted` with a `WithFragments` without a slice among its options is refused
  -- with the error of that option, takes no lock and calls nothing, also when a later `WithFragments`
  -- gives fragments. Any other gives its lock and its span back. It is not let through, or its
  -- parameters or options cannot be encoded, and it fails without its native call; or it makes that
  -- call on the pointer of the dataset, with options whose fragments are those of the last
  -- `WithFragments`, an empty slice as that, or none if there is no such option; and what the call
  -- hands out is given back as in every native call for a segment.
  pub create_index_uncommitted-Restricted :
      (opts : List UncommittedOption) (w : World (Ledger N))
      → let (res, after) =
          create_index_uncommitted mem decode lib c nonzero shown send send_options native column
            cfg centroids codebook quoted ds locks opts w in
        Restricted opts w res after
  unfolding create_index_uncommitted
  create_index_uncommitted-Restricted opts w =
      let failing = opt_err-apply_all opts no_uncommitted_options in
      let o = apply_all_uncommitted opts no_uncommitted_options in
      elim (Bool-cases (nil_named opts)) [
        | inl nil ↦
            let e : o.opt_err ≡ some no_fragments = ground arith in
            rw (create_index_uncommitted, e) (refused nil refl refl)
        | inr clean ↦
            let e : o.opt_err ≡ none = ground arith in
            let (unlocked, ended, _) =
              handle_op_leaves "dataset" (quoted "create index uncommitted on" column) c ds locks
                (build o w) w in
            rw (create_index_uncommitted, e)
              (restricted o clean refl (fragments-apply_all opts no_uncommitted_options) unlocked
                ended (Built-handle_op o w))
      ]
