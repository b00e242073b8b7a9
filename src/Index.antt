-- ===== src/Index.antt =====
-- lance/index.go: the index configurations, and the parameter documents that they are sent as.
pub mod Defaults
pub mod Loaded
pub mod Lookup
pub mod Manage
pub mod Sent
use Prim.Native.String.{String}
use lance_go.Base.{
  ℕ, zero, suc, ◌+◌, Bool, true, false, not, Option, none, some, is_some, List, [], ◌∷◌, ◌==◌,
  if◌then◌else◌,
}
use lance_go.Base.Int.{ℤ, pos, negsuc, ltb_ℤ}
use lance_go.Errors.{GoError, leaf, wrap, Leaf, Result, ok, err}
use lance_go.Json.{
  JsonValue, Doc, uint, int, float, bool, str, strs, pairs, object, empty, field, set, set_if,
  is_empty, unless_empty, params, same_text,
}

-- `DistanceType`, an int.
unfoldable pub distance_name : (ℤ → String) → ℤ → String
distance_name shown (negsuc n) = shown (negsuc n)
distance_name shown (pos zero) = "l2"
distance_name shown (pos (suc zero)) = "cosine"
distance_name shown (pos (suc (suc zero))) = "dot"
distance_name shown (pos (suc (suc (suc zero)))) = "hamming"
distance_name shown (pos (suc (suc (suc (suc n))))) = shown (pos (4 + n))

-- `Inverted`
pub record InvertedConfig : Type 0 where
  pub base_tokenizer : String
  pub language : String
  pub with_position : Bool
  pub lower_case : Option Bool
  pub stem : Option Bool
  pub remove_stop_words : Option Bool
  pub ascii_folding : Option Bool
  pub max_token_length : Option ℤ
  pub custom_stop_words : Option (List String)
  pub ngram_min_length : ℕ
  pub ngram_max_length : ℕ
  pub ngram_prefix_only : Bool

-- `VectorOptions`, without the two Arrow arrays.
pub record VectorOptions : Type 0 where
  pub target_partition_size : ℕ
  pub retrain : Bool
  pub streaming_sample_rate : ℕ
  pub streaming_coreset_rate : ℕ
  pub streaming_refine_passes : ℕ
  pub shuffle_partition_batches : ℕ
  pub shuffle_partition_concurrency : ℕ
  pub precomputed_partitions_file : String
  pub storage_options : List (String × String)
  pub kmeans_redos : ℕ
  pub prefetch_distance : ℕ
  pub index_file_version : String
  pub skip_transpose : Option Bool
  pub runtime_hints : List (String × String)

-- The implementations of `IndexConfig`, with their own fields in the order of the source; a vector
-- index has its metric and its options first.
pub data IndexConfig (F : Type 0) : Type 0 where
  btree : ℕ → IndexConfig F
  bitmap label_list ngram fm : IndexConfig F
  zone_map : ℕ → IndexConfig F
  bloom_filter : ℕ → F → IndexConfig F
  rtree : ℕ → IndexConfig F
  json_index : String → String → String → IndexConfig F
  inverted : InvertedConfig → IndexConfig F
  ivf_flat : ℤ → VectorOptions → ℤ → IndexConfig F
  ivf_pq : ℤ → VectorOptions → ℤ → ℤ → ℤ → ℤ → IndexConfig F
  ivf_sq : ℤ → VectorOptions → ℤ → ℤ → ℤ → IndexConfig F
  ivf_rq : ℤ → VectorOptions → ℤ → ℤ → String → IndexConfig F
  ivf_hnsw_flat : ℤ → VectorOptions → ℤ → ℤ → ℤ → IndexConfig F
  ivf_hnsw_pq : ℤ → VectorOptions → ℤ → ℤ → ℤ → ℤ → ℤ → IndexConfig F
  ivf_hnsw_sq : ℤ → VectorOptions → ℤ → ℤ → ℤ → ℤ → IndexConfig F

-- `indexTypeName`
unfoldable pub index_type_name : {F : Type 0} → IndexConfig F → String
index_type_name (btree z) = "btree"
index_type_name bitmap = "bitmap"
index_type_name label_list = "labellist"
index_type_name ngram = "ngram"
index_type_name fm = "fm"
index_type_name (zone_map n) = "zonemap"
index_type_name (bloom_filter n p) = "bloomfilter"
index_type_name (rtree n) = "rtree"
index_type_name (json_index p t q) = "json"
index_type_name (inverted c) = "inverted"
index_type_name (ivf_flat d o n) = "ivf_flat"
index_type_name (ivf_pq d o n b s i) = "ivf_pq"
index_type_name (ivf_sq d o n b s) = "ivf_sq"
index_type_name (ivf_rq d o n b t) = "ivf_rq"
index_type_name (ivf_hnsw_flat d o n m e) = "ivf_hnsw_flat"
index_type_name (ivf_hnsw_pq d o n b s m e) = "ivf_hnsw_pq"
index_type_name (ivf_hnsw_sq d o n b m e) = "ivf_hnsw_sq"

abbrev pub positive : ℤ → Bool
positive z = ltb_ℤ (pos 0) z

abbrev pub filled : String → Bool
filled s = not (same_text s "")

abbrev pub has_entries : {A : Type 0} → List A → Bool
has_entries [] = false
has_entries (x ∷ xs) = true

module _ {F : Type 0} where
  -- `if n != 0 { m[k] = n }`, and its like for the other kinds of field.
  abbrev pub set_uint : String → ℕ → Doc F → Doc F
  set_uint k n = set_if (not (n == 0)) k (uint n)

  abbrev pub set_positive : String → ℤ → Doc F → Doc F
  set_positive k z = set_if (positive z) k (int z)

  abbrev pub set_text : String → String → Doc F → Doc F
  set_text k s = set_if (filled s) k (str s)

  abbrev pub set_flag : String → Bool → Doc F → Doc F
  set_flag k b = set_if b k (bool true)

  abbrev pub set_pairs : String → List (String × String) → Doc F → Doc F
  set_pairs k ps = set_if (has_entries ps) k (pairs ps)

  abbrev pub set_some : {A : Type 0} → String → (A → JsonValue F) → Option A → Doc F → Doc F
  set_some k as_json none m = m
  set_some k as_json (some a) m = set k (as_json a) m

  -- `scalarParams`, of the one field that its callers give.
  unfoldable pub scalar_params : String → ℕ → Option (Doc F)
  scalar_params k n = if n == 0 then none else some (params (set k (uint n) empty))

  -- `Inverted.indexParams`
  unfoldable pub inverted_params : InvertedConfig → Option (Doc F)
  inverted_params c = unless_empty (
      set_flag "ngram_prefix_only" c.ngram_prefix_only (
        set_uint "ngram_max_length" c.ngram_max_length (
          set_uint "ngram_min_length" c.ngram_min_length (
            set_some "custom_stop_words" strs c.custom_stop_words (
              set_some "max_token_length" int c.max_token_length (
                set_some "ascii_folding" bool c.ascii_folding (
                  set_some "remove_stop_words" bool c.remove_stop_words (
                    set_some "stem" bool c.stem (
                      set_some "lower_case" bool c.lower_case (
                        set_flag "with_position" c.with_position (
                          set_text "language" c.language
                            (set_text "base_tokenizer" c.base_tokenizer empty))))))))))))

  -- `VectorOptions.apply`
  unfoldable pub apply : VectorOptions → Doc F → Doc F
  apply o m = set_pairs "runtime_hints" o.runtime_hints (
      set_some "skip_transpose" bool o.skip_transpose (
        set_text "index_file_version" o.index_file_version (
          set_uint "kmeans_redos" o.kmeans_redos (
            set_pairs "storage_options" o.storage_options (
              set_text "precomputed_partitions_file" o.precomputed_partitions_file (
                set_uint "shuffle_partition_concurrency" o.shuffle_partition_concurrency (
                  set_uint "shuffle_partition_batches" o.shuffle_partition_batches (
                    set_uint "streaming_refine_passes" o.streaming_refine_passes (
                      set_uint "streaming_coreset_rate" o.streaming_coreset_rate (
                        set_uint "streaming_sample_rate" o.streaming_sample_rate (
                          set_flag "retrain" o.retrain
                            (set_uint "target_partition_size" o.target_partition_size m))))))))))))

  -- `vectorParams`; the fields are set in an order of their own, as each has its own key.
  unfoldable pub vector_params : (ℤ → String) → ℤ → VectorOptions → (Doc F → Doc F) → Doc F
  vector_params shown distance o fields =
      apply o (fields (set "metric" (str (distance_name shown distance)) empty))

  -- `hnswParams`
  unfoldable pub hnsw_params : ℤ → ℤ → ℕ → Option (Doc F)
  hnsw_params m ef prefetch = unless_empty (
      set_uint "prefetch_distance" prefetch
        (set_positive "ef_construction" ef (set_positive "m" m empty)))

  abbrev pub with_hnsw : Option (Doc F) → Doc F → Doc F
  with_hnsw none m = m
  with_hnsw (some h) m = set "hnsw" (object h) m

  -- `JSONIndex.indexParams`
  unfoldable pub json_params : String → String → String → Result (Option (Doc F))
  json_params path target target_params =
      if same_text path ""
      then err (wrap "%w: JSONIndex.Path must be set" [] (leaf Leaf.invalid_argument))
      else if same_text target ""
      then err (wrap "%w: JSONIndex.TargetIndexType must be set" [] (leaf Leaf.invalid_argument))
      else ok (
          some (
            params (
              set_text "target_index_parameters" target_params
                (set "path" (str path) (set "target_index_type" (str target) empty)))))

module _ {F : Type 0} (nonzero : F → Bool) (shown : ℤ → String) where
  -- `indexParams`. `none` is nil.
  unfoldable pub index_params : IndexConfig F → Result (Option (Doc F))
  index_params (btree zone_size) = ok (scalar_params "zone_size" zone_size)
  index_params bitmap = ok none
  index_params label_list = ok none
  index_params ngram = ok none
  index_params fm = ok none
  index_params (zone_map rows) = ok (scalar_params "rows_per_zone" rows)
  index_params (bloom_filter items p) =
      let m = set_if (nonzero p) "probability" (float p) (set_uint "number_of_items" items empty) in
      ok (if is_empty m then none else some (params m))
  index_params (rtree page_size) =
      let m = set_uint "page_size" page_size empty in
      ok (if is_empty m then none else some (params m))
  index_params (json_index path target target_params) = json_params path target target_params
  index_params (inverted c) = ok (inverted_params c)
  index_params (ivf_flat d o n) =
      ok (some (vector_params shown d o (set_positive "num_partitions" n)))
  index_params (ivf_pq d o n b s i) = ok (
      some (
        vector_params shown d o (λ m. set_positive "max_iterations" i (
          set_positive "num_sub_vectors" s
            (set_positive "num_bits" b (set_positive "num_partitions" n m))))))
  index_params (ivf_sq d o n b s) = ok (
      some (
        vector_params shown d o (λ m.
          set_positive "sample_rate" s
            (set_positive "num_bits" b (set_positive "num_partitions" n m)))))
  index_params (ivf_rq d o n b t) = ok (
      some (
        vector_params shown d o (λ m.
          set_text "rotation_type" t
            (set_positive "num_bits" b (set_positive "num_partitions" n m)))))
  index_params (ivf_hnsw_flat d o n m e) = ok (
      some (
        with_hnsw (hnsw_params m e o.prefetch_distance)
          (vector_params shown d o (set_positive "num_partitions" n))))
  index_params (ivf_hnsw_pq d o n b s m e) = ok (
      some (
        with_hnsw (hnsw_params m e o.prefetch_distance) (
          vector_params shown d o (λ x.
            set_positive "num_sub_vectors" s
              (set_positive "num_bits" b (set_positive "num_partitions" n x))))))
  index_params (ivf_hnsw_sq d o n b m e) = ok (
      some (
        with_hnsw (hnsw_params m e o.prefetch_distance) (
          vector_params shown d o
            (λ x. set_positive "num_bits" b (set_positive "num_partitions" n x)))))
