-- ===== src/Scan/Builder.antt =====
-- Sequences of calls of the methods that set a part of a scanner.
use lance_go.Base.{
  ℕ, ◌≡◌, refl, sym, ◌∙◌, ◌↔◌, ◌⊎◌, inl, inr, Bool, Option, none, some, String, List, [], ◌∷◌,
}
use lance_go.Base.Int.{ℤ}
use lance_go.Errors.{GoError, wrap, Result, Result-cases, ok}
use lance_go.Json.{Doc}
use lance_go.Fts.{Floats, Slot, marshal_fts_query}
use lance_go.Scan.{AggSpec, ScanConfig, Scanner}
use lance_go.Scan.Methods.{
  OrderOption, FtsOption, with_fts_columns, with_fts_limit, with_wand_factor, apply_fts,
  set_columns, set_filter, set_prefilter, set_limit, set_offset, set_with_row_id, set_batch_size,
  set_scan_in_order, set_with_row_address, set_io_buffer_size, set_batch_readahead,
  set_fragment_readahead, set_target_parallelism, set_query_parallelism, set_batch_size_bytes,
  set_strict_batch_size, set_include_deleted_rows, set_use_stats, set_use_scalar_index,
  set_materialization_style, set_scan_fragments, set_index_segments, set_approx_mode,
  set_blob_handling, set_disable_scoring_autoprojection, set_nprobes, set_minimum_nprobes,
  set_maximum_nprobes, set_refine, set_ef, set_use_index, set_fast_search, set_aggregate,
  project_expr, filter_substrait, order_by, distance_range, with_scan_stats, nearest, nearest_arrow,
  set_metric, full_text_search,
}

-- One call of a method of `Scanner` that returns the scanner.
pub data Setting (F A P : Type 0) : Type 0 where
  columns : List String → Setting F A P
  filter : String → Setting F A P
  prefilter : Bool → Setting F A P
  limit : ℤ → Setting F A P
  offset : ℤ → Setting F A P
  with_row_id : Setting F A P
  batch_size : ℕ → Setting F A P
  scan_in_order : Bool → Setting F A P
  with_row_address : Setting F A P
  io_buffer_size : ℕ → Setting F A P
  batch_readahead : ℤ → Setting F A P
  fragment_readahead : ℤ → Setting F A P
  target_parallelism : ℤ → Setting F A P
  query_parallelism : ℤ → Setting F A P
  batch_size_bytes : ℕ → Setting F A P
  strict_batch_size : Bool → Setting F A P
  include_deleted_rows : Setting F A P
  use_stats : Bool → Setting F A P
  use_scalar_index : Bool → Setting F A P
  materialization_style : String → Setting F A P
  scan_fragments : List ℕ → Setting F A P
  index_segments : List String → Setting F A P
  approx_mode : String → Setting F A P
  blob_handling : String → Setting F A P
  disable_scoring_autoprojection : Setting F A P
  nprobes : ℤ → Setting F A P
  minimum_nprobes : ℤ → Setting F A P
  maximum_nprobes : ℤ → Setting F A P
  refine : ℕ → Setting F A P
  ef : ℤ → Setting F A P
  use_index : Bool → Setting F A P
  fast_search : Setting F A P
  aggregate : AggSpec → Setting F A P
  project_expr_call : String → String → Setting F A P
  filter_substrait_call : List ℕ → Setting F A P
  order_by_call : String → Bool → List OrderOption → Setting F A P
  distance_range_call : Option F → Option F → Setting F A P
  with_scan_stats_call : Option P → Setting F A P
  nearest_call : String → Option (List F) → ℤ → Setting F A P
  nearest_arrow_call : String → Option A → ℤ → Setting F A P
  metric_call : ℤ → Setting F A P
  full_text_search_call : Slot F → List (FtsOption F) → Setting F A P

module _ {F A P : Type 0} (fs : Floats F) (marshal : Doc F → Result String) (shown : ℤ → String)
    (base64 : List ℕ → String) where
  unfoldable pub set : Setting F A P → Scanner F A P → Scanner F A P
  set (columns x) s = set_columns x s
  set (filter x) s = set_filter x s
  set (prefilter x) s = set_prefilter x s
  set (limit x) s = set_limit x s
  set (offset x) s = set_offset x s
  set with_row_id s = set_with_row_id s
  set (batch_size x) s = set_batch_size x s
  set (scan_in_order x) s = set_scan_in_order x s
  set with_row_address s = set_with_row_address s
  set (io_buffer_size x) s = set_io_buffer_size x s
  set (batch_readahead x) s = set_batch_readahead x s
  set (fragment_readahead x) s = set_fragment_readahead x s
  set (target_parallelism x) s = set_target_parallelism x s
  set (query_parallelism x) s = set_query_parallelism x s
  set (batch_size_bytes x) s = set_batch_size_bytes x s
  set (strict_batch_size x) s = set_strict_batch_size x s
  set include_deleted_rows s = set_include_deleted_rows s
  set (use_stats x) s = set_use_stats x s
  set (use_scalar_index x) s = set_use_scalar_index x s
  set (materialization_style x) s = set_materialization_style x s
  set (scan_fragments x) s = set_scan_fragments x s
  set (index_segments x) s = set_index_segments x s
  set (approx_mode x) s = set_approx_mode x s
  set (blob_handling x) s = set_blob_handling x s
  set disable_scoring_autoprojection s = set_disable_scoring_autoprojection s
  set (nprobes x) s = set_nprobes x s
  set (minimum_nprobes x) s = set_minimum_nprobes x s
  set (maximum_nprobes x) s = set_maximum_nprobes x s
  set (refine x) s = set_refine x s
  set (ef x) s = set_ef x s
  set (use_index x) s = set_use_index x s
  set fast_search s = set_fast_search s
  set (aggregate x) s = set_aggregate x s
  set (project_expr_call x y) s = project_expr x y s
  set (filter_substrait_call x) s = filter_substrait base64 x s
  set (order_by_call x y z) s = order_by x y z s
  set (distance_range_call x y) s = distance_range x y s
  set (with_scan_stats_call x) s = with_scan_stats x s
  set (nearest_call x y z) s = nearest x y z s
  set (nearest_arrow_call x y z) s = nearest_arrow x y z s
  set (metric_call x) s = set_metric shown x s
  set (full_text_search_call x y) s = full_text_search fs marshal x y s

  -- A chain of such calls.
  unfoldable pub configure : List (Setting F A P) → Scanner F A P → Scanner F A P
  configure [] s = s
  configure (c ∷ cs) s = configure cs (set c s)

-- At most one form of the query vector, and no handle of a plugin in the configuration.
abbrev pub IsSound : {F A P : Type 0} → Scanner F A P → Type 0
IsSound s = ((s.vector ≡ none) ⊎ (s.vector_arr ≡ none)) × (s.cfg.scan_stats_plugin ≡ 0)

scan_stats_plugin-apply_fts :
    {F : Type 0} (opts : List (FtsOption F)) (c : ScanConfig F)
    → (apply_fts opts c).scan_stats_plugin ≡ c.scan_stats_plugin
scan_stats_plugin-apply_fts [] c = refl
scan_stats_plugin-apply_fts (with_fts_columns x ∷ opts) c = scan_stats_plugin-apply_fts opts _
scan_stats_plugin-apply_fts (with_fts_limit x ∷ opts) c = scan_stats_plugin-apply_fts opts _
scan_stats_plugin-apply_fts (with_wand_factor x ∷ opts) c = scan_stats_plugin-apply_fts opts _

module _ {F A P : Type 0} (fs : Floats F) (marshal : Doc F → Result String) (shown : ℤ → String)
    (base64 : List ℕ → String) where
  full_text_search-IsSound :
      (q : Slot F) (opts : List (FtsOption F)) (s : Scanner F A P)
      → IsSound s
      → IsSound (full_text_search fs marshal q opts s)
  unfolding full_text_search
  full_text_search-IsSound q opts s (v, h) = elim (Result-cases (marshal_fts_query fs marshal q)) [
    | inl (d, good) ↦ rw (full_text_search, good) (v, rw (scan_stats_plugin-apply_fts opts _) h)
    | inr (e, bad) ↦ rw (full_text_search, bad) (v, h)
  ]

  set-IsSound :
      (c : Setting F A P) (s : Scanner F A P)
      → IsSound s
      → IsSound (set fs marshal shown base64 c s)
  unfolding set
  set-IsSound (full_text_search_call q opts) s h = full_text_search-IsSound q opts s h
  set-IsSound (nearest_call x y z) s h = (inr refl, h.1)
  set-IsSound (nearest_arrow_call x y z) s h = (inl refl, h.1)
  set-IsSound _ s h = h

  -- Whatever methods are called on a scanner, and in whatever order, it has at most one form of the
  -- query vector, and its configuration holds no handle of a plugin, if it was so before.
  pub configure-IsSound :
      (cs : List (Setting F A P)) (s : Scanner F A P)
      → IsSound s
      → IsSound (configure fs marshal shown base64 cs s)
  unfolding configure
  configure-IsSound [] s h = h
  configure-IsSound (c ∷ cs) s h = configure-IsSound cs _ (set-IsSound c s h)

  -- The call can be sent to encoding/json, if it is a full-text search.
  abbrev IsSent : Setting F A P → Type 0
  IsSent (full_text_search_call q opts) =
      (text : String) × (marshal_fts_query fs marshal q ≡ ok text)
  IsSent _ = Unit {0}

  abbrev pub AllSent : List (Setting F A P) → Type 0
  AllSent [] = Unit {0}
  AllSent (c ∷ cs) = IsSent c × AllSent cs

  abbrev ErrStep : (c : Setting F A P) (s : Scanner F A P) → Type 0
  ErrStep c s =
      (IsSent c × ((set fs marshal shown base64 c s).err ≡ s.err))
      ⊎ ((¬ IsSent c) × (e : GoError) × ((set fs marshal shown base64 c s).err ≡ some e))

  err-full_text_search :
      (q : Slot F) (opts : List (FtsOption F)) (s : Scanner F A P)
      → ErrStep (full_text_search_call q opts) s
  unfolding set full_text_search
  err-full_text_search q opts s = elim (Result-cases (marshal_fts_query fs marshal q)) [
    | inl (d, good) ↦ inl ((d, good), rw (full_text_search, good) refl)
    | inr (e, bad) ↦
        inr (
          λ (d, good). cc,
          wrap "lance: full text search: %w" [] e,
          rw (full_text_search, bad) refl,
        )
  ]

  err-set : (c : Setting F A P) (s : Scanner F A P) → ErrStep c s
  unfolding set
  err-set (full_text_search_call q opts) s = err-full_text_search q opts s
  err-set _ s = inl (tt, refl)

  -- The error that waits for a terminal method is nil exactly when there was none before and each
  -- full-text search among the calls has a query that is valid and that encoding/json takes: one bad
  -- query is kept through all later calls.
  pub configure-err_iff :
      (cs : List (Setting F A P)) (s : Scanner F A P)
      → ((configure fs marshal shown base64 cs s).err ≡ none) ↔ ((s.err ≡ none) × AllSent cs)
  unfolding configure
  configure-err_iff [] s = (λ h. (h, tt), λ h. h.0)
  configure-err_iff (c ∷ cs) s =
      let (there, back) = configure-err_iff cs (set fs marshal shown base64 c s) in
      elim (err-set c s) [
        | inl (sent, same) ↦ (
          λ h. let (clear, rest) = there h in (sym same ∙ clear, (sent, rest)),
          λ (clear, (_, rest)). back (same ∙ clear, rest),
        )
        | inr (bad, e, failed) ↦ (
          λ h. let (clear, rest) = there h in absurd cc,
          λ (clear, (sent, rest)). absurd (bad sent),
        )
      ]
