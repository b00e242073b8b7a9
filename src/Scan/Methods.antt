-- ===== src/Scan/Methods.antt =====
-- The methods of lance/scanner.go that set a part of a scanner.
use lance_go.Base.{ℕ, Bool, true, Option, none, some, String, List, [], ◌∷◌, ◌++◌}
use lance_go.Base.Int.{ℤ}
use lance_go.Errors.{wrap, Result, ok, err}
use lance_go.Json.{Doc}
use lance_go.Index.{distance_name}
use lance_go.Fts.{Floats, Slot, marshal_fts_query}
use lance_go.Scan.{OrderBy, AggSpec, ScanConfig, Scanner}

-- `OrderOption`; `NullsFirst` is the one that there is.
pub data OrderOption : Type 0 where
  nulls_first : Bool → OrderOption

abbrev pub apply_order : List OrderOption → OrderBy → OrderBy
apply_order [] o = o
apply_order (nulls_first b ∷ opts) o = apply_order opts (record o { nulls_first = some b })

-- `FtsOption`
pub data FtsOption (F : Type 0) : Type 0 where
  with_fts_columns : List String → FtsOption F
  with_fts_limit : ℤ → FtsOption F
  with_wand_factor : F → FtsOption F

-- `WithFtsColumns`, `WithFtsLimit`, `WithWandFactor`
abbrev pub apply_fts : {F : Type 0} → List (FtsOption F) → ScanConfig F → ScanConfig F
apply_fts [] c = c
apply_fts (with_fts_columns cols ∷ opts) c = apply_fts opts (record c { fts_columns = cols })
apply_fts (with_fts_limit n ∷ opts) c = apply_fts opts (record c { fts_limit = some n })
apply_fts (with_wand_factor x ∷ opts) c = apply_fts opts (record c { wand_factor = some x })

module _ {F A P : Type 0} where
  -- A change of the configuration alone.
  abbrev set_cfg : (ScanConfig F → ScanConfig F) → Scanner F A P → Scanner F A P
  set_cfg f s = record s { cfg = f s.cfg }

  -- `Columns`
  abbrev pub set_columns : List String → Scanner F A P → Scanner F A P
  set_columns x = set_cfg (λ c. record c { columns = x })

  -- `Filter`
  abbrev pub set_filter : String → Scanner F A P → Scanner F A P
  set_filter x = set_cfg (λ c. record c { filter = x })

  -- `Prefilter`
  abbrev pub set_prefilter : Bool → Scanner F A P → Scanner F A P
  set_prefilter x = set_cfg (λ c. record c { prefilter = some x })

  -- `Limit`
  abbrev pub set_limit : ℤ → Scanner F A P → Scanner F A P
  set_limit x = set_cfg (λ c. record c { limit = some x })

  -- `Offset`
  abbrev pub set_offset : ℤ → Scanner F A P → Scanner F A P
  set_offset x = set_cfg (λ c. record c { offset = some x })

  -- `WithRowID`
  abbrev pub set_with_row_id : Scanner F A P → Scanner F A P
  set_with_row_id = set_cfg (λ c. record c { with_row_id = true })

  -- `BatchSize`
  abbrev pub set_batch_size : ℕ → Scanner F A P → Scanner F A P
  set_batch_size x = set_cfg (λ c. record c { batch_size = x })

  -- `ScanInOrder`
  abbrev pub set_scan_in_order : Bool → Scanner F A P → Scanner F A P
  set_scan_in_order x = set_cfg (λ c. record c { scan_in_order = some x })

  -- `WithRowAddress`
  abbrev pub set_with_row_address : Scanner F A P → Scanner F A P
  set_with_row_address = set_cfg (λ c. record c { with_row_address = true })

  -- `IOBufferSize`
  abbrev pub set_io_buffer_size : ℕ → Scanner F A P → Scanner F A P
  set_io_buffer_size x = set_cfg (λ c. record c { io_buffer_size = x })

  -- `BatchReadahead`
  abbrev pub set_batch_readahead : ℤ → Scanner F A P → Scanner F A P
  set_batch_readahead x = set_cfg (λ c. record c { batch_readahead = some x })

  -- `FragmentReadahead`
  abbrev pub set_fragment_readahead : ℤ → Scanner F A P → Scanner F A P
  set_fragment_readahead x = set_cfg (λ c. record c { fragment_readahead = some x })

  -- `TargetParallelism`
  abbrev pub set_target_parallelism : ℤ → Scanner F A P → Scanner F A P
  set_target_parallelism x = set_cfg (λ c. record c { target_parallelism = some x })

  -- `QueryParallelism`
  abbrev pub set_query_parallelism : ℤ → Scanner F A P → Scanner F A P
  set_query_parallelism x = set_cfg (λ c. record c { query_parallelism = some x })

  -- `BatchSizeBytes`
  abbrev pub set_batch_size_bytes : ℕ → Scanner F A P → Scanner F A P
  set_batch_size_bytes x = set_cfg (λ c. record c { batch_size_bytes = x })

  -- `StrictBatchSize`
  abbrev pub set_strict_batch_size : Bool → Scanner F A P → Scanner F A P
  set_strict_batch_size x = set_cfg (λ c. record c { strict_batch_size = some x })

  -- `IncludeDeletedRows`
  abbrev pub set_include_deleted_rows : Scanner F A P → Scanner F A P
  set_include_deleted_rows = set_cfg (λ c. record c { include_deleted_rows = true })

  -- `UseStats`
  abbrev pub set_use_stats : Bool → Scanner F A P → Scanner F A P
  set_use_stats x = set_cfg (λ c. record c { use_stats = some x })

  -- `UseScalarIndex`
  abbrev pub set_use_scalar_index : Bool → Scanner F A P → Scanner F A P
  set_use_scalar_index x = set_cfg (λ c. record c { use_scalar_index = some x })

  -- `MaterializationStyle`
  abbrev pub set_materialization_style : String → Scanner F A P → Scanner F A P
  set_materialization_style x = set_cfg (λ c. record c { materialization_style = x })

  -- `ScanFragments`
  abbrev pub set_scan_fragments : List ℕ → Scanner F A P → Scanner F A P
  set_scan_fragments x = set_cfg (λ c. record c { fragment_ids = x })

  -- `IndexSegments`
  abbrev pub set_index_segments : List String → Scanner F A P → Scanner F A P
  set_index_segments x = set_cfg (λ c. record c { index_segments = x })

  -- `ApproxMode`
  abbrev pub set_approx_mode : String → Scanner F A P → Scanner F A P
  set_approx_mode x = set_cfg (λ c. record c { approx_mode = x })

  -- `BlobHandling`
  abbrev pub set_blob_handling : String → Scanner F A P → Scanner F A P
  set_blob_handling x = set_cfg (λ c. record c { blob_handling = x })

  -- `DisableScoringAutoprojection`
  abbrev pub set_disable_scoring_autoprojection : Scanner F A P → Scanner F A P
  set_disable_scoring_autoprojection =
      set_cfg (λ c. record c { disable_scoring_autoprojection = true })

  -- `Nprobes`
  abbrev pub set_nprobes : ℤ → Scanner F A P → Scanner F A P
  set_nprobes x = set_cfg (λ c. record c { nprobes = x })

  -- `MinimumNprobes`
  abbrev pub set_minimum_nprobes : ℤ → Scanner F A P → Scanner F A P
  set_minimum_nprobes x = set_cfg (λ c. record c { minimum_nprobes = x })

  -- `MaximumNprobes`
  abbrev pub set_maximum_nprobes : ℤ → Scanner F A P → Scanner F A P
  set_maximum_nprobes x = set_cfg (λ c. record c { maximum_nprobes = x })

  -- `Refine`
  abbrev pub set_refine : ℕ → Scanner F A P → Scanner F A P
  set_refine x = set_cfg (λ c. record c { refine = x })

  -- `Ef`
  abbrev pub set_ef : ℤ → Scanner F A P → Scanner F A P
  set_ef x = set_cfg (λ c. record c { ef = x })

  -- `UseIndex`
  abbrev pub set_use_index : Bool → Scanner F A P → Scanner F A P
  set_use_index x = set_cfg (λ c. record c { use_index = some x })

  -- `FastSearch`
  abbrev pub set_fast_search : Scanner F A P → Scanner F A P
  set_fast_search = set_cfg (λ c. record c { fast_search = true })

  -- `Aggregate`
  abbrev pub set_aggregate : AggSpec → Scanner F A P → Scanner F A P
  set_aggregate x = set_cfg (λ c. record c { aggregate = some x })

  -- `ProjectExpr`
  abbrev pub project_expr : String → String → Scanner F A P → Scanner F A P
  project_expr name expr =
      set_cfg (λ c. record c { projection_exprs = c.projection_exprs ++ ((name, expr) ∷ []) })

  -- `FilterSubstrait`, with what encoding/base64 makes of the bytes.
  abbrev pub filter_substrait : (List ℕ → String) → List ℕ → Scanner F A P → Scanner F A P
  filter_substrait base64 expr = set_cfg (λ c. record c { filter_substrait = base64 expr })

  -- `orderBy`
  abbrev pub order_by : String → Bool → List OrderOption → Scanner F A P → Scanner F A P
  order_by column ascending opts = set_cfg (λ c. record c {
    order_by =
        c.order_by
        ++ (apply_order opts
              (record { column = column; ascending = some ascending; nulls_first = none })
            ∷ []);
  })

  -- `DistanceRange`
  abbrev pub distance_range : Option F → Option F → Scanner F A P → Scanner F A P
  distance_range lower upper =
      set_cfg (λ c. record c { distance_lower = lower; distance_upper = upper })

  -- `WithScanStats`; a nil function is none.
  abbrev pub with_scan_stats : Option P → Scanner F A P → Scanner F A P
  with_scan_stats fn s = record s { scan_stats = fn }

  -- `Nearest`
  abbrev pub nearest : String → Option (List F) → ℤ → Scanner F A P → Scanner F A P
  nearest column vector k s = record (set_cfg (λ c. record c { column = column; k = k }) s) {
    vector = vector;
    vector_arr = none;
  }

  -- `NearestArrow`
  abbrev pub nearest_arrow : String → Option A → ℤ → Scanner F A P → Scanner F A P
  nearest_arrow column vector k s = record (set_cfg (λ c. record c { column = column; k = k }) s) {
    vector = none;
    vector_arr = vector;
  }

  -- `Metric`
  abbrev pub set_metric : (ℤ → String) → ℤ → Scanner F A P → Scanner F A P
  set_metric shown metric = set_cfg (λ c. record c { metric = distance_name shown metric })

  -- `FullTextSearch`
  unfoldable pub full_text_search :
      Floats F
      → (Doc F → Result String)
      → Slot F
      → List (FtsOption F)
      → Scanner F A P
      → Scanner F A P
  full_text_search fs marshal q opts s = elim (marshal_fts_query fs marshal q) [
    | err e ↦ record s { err = some (wrap "lance: full text search: %w" [] e) }
    | ok data_ ↦ record s { cfg = apply_fts opts (record s.cfg { fts = some data_ }) }
  ]
