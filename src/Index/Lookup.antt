-- ===== src/Index/Lookup.antt =====
-- Listing, describing and looking up indices, of lance/index.go.
use lance_go.Base.{ℕ, Option, none, some, String, List, [], ◌∷◌, length}
use lance_go.Errors.{GoError, leaf, wrap, Leaf, text, num, Result, ok, err}
use lance_go.Errors.Ffi.{Ctx, World, Native}
use lance_go.Handle.{Handle, After, dataset_op, hand_op, error_of}
use lance_go.Ledger.{Ledger, same_error, fetch}
use lance_go.Transaction.{Memory}
use lance_go.Config.{Giving, json_op}
use lance_go.Index.Manage.{IndexInfo, IndexCriteria, IndexDescription, framed_as}

-- The choice of `LoadIndexByName` among the segments of a name.
unfoldable pub unique_index :
    {T : Type 0} → String → List (IndexInfo T) → Result (Option (IndexInfo T))
unique_index name [] = ok none
unique_index name (i ∷ []) = ok (some i)
unique_index name (i ∷ j ∷ is) = err (
    wrap "lance: load index by name %q: %w: found %d indices, use LoadIndicesByName"
      (text name ∷ num (length (i ∷ j ∷ is)) ∷ []) (leaf Leaf.index))

module _ {N T : Type 0} (lib : Native N) (mem : Memory N) (c : Ctx) (ds : Handle) (locks : ℕ) where
  -- `ListIndices`
  unfoldable pub list_indices :
      (String → Result (List (IndexInfo T)))
      → (ℕ → Giving N (Option ℕ))
      → World (Ledger N)
      → Result (List (IndexInfo T)) × After (Ledger N)
  list_indices decode native = json_op lib mem c "list indices" "index list" decode ds locks native

  -- `DescribeIndices`; a nil criterion is none, and is sent as an empty text.
  unfoldable pub describe_indices :
      (IndexCriteria → Result String)
      → (String → Result (List (IndexDescription T)))
      → (ℕ → String → Giving N (Option ℕ))
      → Option IndexCriteria
      → World (Ledger N)
      → Result (List (IndexDescription T)) × After (Ledger N)
  describe_indices send decode native criteria w =
      let sent : Result String = elim criteria [
        | none ↦ ok ""
        | some k ↦ framed_as "marshal index criteria: %w" (send k)
      ] in
      dataset_op "describe indices" c ds locks
        (λ p v. elim sent [
          | err e ↦ (err e, v)
          | ok s ↦
              fetch lib mem 0 decode same_error (λ e. wrap "decode index descriptions: %w" [] e) c
                (native p s) v
        ])
        w

  -- `loadIndicesByCriteria` in the span of its caller, whose frame stands before an error; the
  -- criterion is never empty here, and encoding/json makes a text of it.
  unfoldable pub load_indices :
      (GoError → GoError)
      → (String → Result (List (IndexInfo T)))
      → (ℕ → String → Giving N (Option ℕ))
      → Result String
      → World (Ledger N)
      → Result (List (IndexInfo T)) × After (Ledger N)
  load_indices frame decode native (err e) w =
      let e' = frame (wrap "lance: marshal load-index criteria: %w" [] e) in
      (err e', record { world = w; held_locks = locks; span_ends = some e' ∷ [] })
  load_indices frame decode native (ok s) w =
      let (res, after) =
        hand_op c ds locks
          (λ p.
            fetch lib mem 0 decode same_error (λ e. wrap "lance: decode index list: %w" [] e) c
              (native p s))
          w in
      let res' : Result (List (IndexInfo T)) = elim res [ err e ↦ err (frame e) | ok l ↦ ok l ] in
      (res', record after { span_ends = error_of res' ∷ [] })

  -- `LoadIndex`, with what encoding/json makes of its criterion.
  unfoldable pub load_index :
      (String → Result String)
      → (String → Result (List (IndexInfo T)))
      → (ℕ → String → Giving N (Option ℕ))
      → String
      → World (Ledger N)
      → Result (Option (IndexInfo T)) × After (Ledger N)
  load_index send decode native uuid w =
      let (res, after) =
        load_indices (λ e. wrap "lance: load index %q: %w" (text uuid ∷ []) e) decode native
          (send uuid) w in
      (
        elim res [ err e ↦ err e | ok infos ↦ elim infos [ [] ↦ ok none | i ∷ is ↦ ok (some i) ] ],
        after,
      )

  -- `LoadIndicesByName`
  unfoldable pub load_indices_by_name :
      (String → Result String)
      → (String → Result (List (IndexInfo T)))
      → (ℕ → String → Giving N (Option ℕ))
      → String
      → World (Ledger N)
      → Result (List (IndexInfo T)) × After (Ledger N)
  load_indices_by_name send decode native name w =
      load_indices (λ e. wrap "lance: load indices by name %q: %w" (text name ∷ []) e) decode native
        (send name) w

  -- `LoadIndexByName`
  unfoldable pub load_index_by_name :
      (String → Result String)
      → (String → Result (List (IndexInfo T)))
      → (ℕ → String → Giving N (Option ℕ))
      → String
      → World (Ledger N)
      → Result (Option (IndexInfo T)) × After (Ledger N)
  load_index_by_name send decode native name w =
      let (res, after) = load_indices_by_name send decode native name w in
      (elim res [ err e ↦ err e | ok infos ↦ unique_index name infos ], after)
