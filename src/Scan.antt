-- ===== src/Scan.antt =====
-- The scanner of lance/scanner.go: its configuration and its fields.
pub mod Builder
pub mod Methods
pub mod Owned
pub mod Run
pub mod Stats
use lance_go.Base.{
  ℕ, Bool, true, false, Option, none, some, String, List, [], ◌∷◌, ◌++◌, if◌then◌else◌,
}
use lance_go.Base.Int.{ℤ, pos}
use lance_go.Errors.{GoError, wrap, Result, ok, err}
use lance_go.Json.{Doc}
use lance_go.Index.{distance_name}
use lance_go.Fts.{Floats, Slot, marshal_fts_query}

-- `orderBy`
pub record OrderBy : Type 0 where
  pub column : String
  pub ascending : Option Bool
  pub nulls_first : Option Bool

-- `AggFunc`
pub record AggFunc : Type 0 where
  pub func : String
  pub column : String
  pub alias : String

-- `AggSpec`
pub record AggSpec : Type 0 where
  pub group_by : List String
  pub aggregates : List AggFunc

-- `scanConfig`, over a type of float32; `fts` is JSON text.
pub record ScanConfig (F : Type 0) : Type 0 where
  pub columns : List String
  pub projection_exprs : List (String × String)
  pub filter : String
  pub filter_substrait : String
  pub prefilter : Option Bool
  pub limit : Option ℤ
  pub offset : Option ℤ
  pub with_row_id : Bool
  pub with_row_address : Bool
  pub batch_size : ℕ
  pub batch_size_bytes : ℕ
  pub strict_batch_size : Option Bool
  pub scan_in_order : Option Bool
  pub order_by : List OrderBy
  pub aggregate : Option AggSpec
  pub fragment_ids : List ℕ
  pub include_deleted_rows : Bool
  pub use_stats : Option Bool
  pub use_scalar_index : Option Bool
  pub materialization_style : String
  pub blob_handling : String
  pub disable_scoring_autoprojection : Bool
  pub io_buffer_size : ℕ
  pub batch_readahead : Option ℤ
  pub fragment_readahead : Option ℤ
  pub target_parallelism : Option ℤ
  pub column : String
  pub k : ℤ
  pub metric : String
  pub nprobes : ℤ
  pub minimum_nprobes : ℤ
  pub maximum_nprobes : ℤ
  pub refine : ℕ
  pub ef : ℤ
  pub use_index : Option Bool
  pub fast_search : Bool
  pub distance_lower : Option F
  pub distance_upper : Option F
  pub query_parallelism : Option ℤ
  pub approx_mode : String
  pub index_segments : List String
  pub fts : Option String
  pub fts_columns : List String
  pub fts_limit : Option ℤ
  pub wand_factor : Option F
  pub scan_stats_plugin : ℕ

-- `Scanner`: its configuration, the two forms of a query vector, the callback for statistics as a
-- plugin, and the error that waits for a terminal method.
pub record Scanner (F A P : Type 0) : Type 0 where
  pub cfg : ScanConfig F
  pub vector : Option (List F)
  pub vector_arr : Option A
  pub scan_stats : Option P
  pub err : Option GoError

module _ {F A P : Type 0} where
  -- `Dataset.Scan`
  abbrev pub scan : Scanner F A P
  scan = record {
    cfg = record {
      columns = [];
      projection_exprs = [];
      filter = "";
      filter_substrait = "";
      prefilter = none;
      limit = none;
      offset = none;
      with_row_id = false;
      with_row_address = false;
      batch_size = 0;
      batch_size_bytes = 0;
      strict_batch_size = none;
      scan_in_order = none;
      order_by = [];
      aggregate = none;
      fragment_ids = [];
      include_deleted_rows = false;
      use_stats = none;
      use_scalar_index = none;
      materialization_style = "";
      blob_handling = "";
      disable_scoring_autoprojection = false;
      io_buffer_size = 0;
      batch_readahead = none;
      fragment_readahead = none;
      target_parallelism = none;
      column = "";
      k = pos 0;
      metric = "";
      nprobes = pos 0;
      minimum_nprobes = pos 0;
      maximum_nprobes = pos 0;
      refine = 0;
      ef = pos 0;
      use_index = none;
      fast_search = false;
      distance_lower = none;
      distance_upper = none;
      query_parallelism = none;
      approx_mode = "";
      index_segments = [];
      fts = none;
      fts_columns = [];
      fts_limit = none;
      wand_factor = none;
      scan_stats_plugin = 0;
    };
    vector = none;
    vector_arr = none;
    scan_stats = none;
    err = none;
  }
