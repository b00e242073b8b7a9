-- ===== src/Index/Sent.antt =====
-- The parameter documents of lance/index.go, configuration by configuration.
use lance_go.Base.{
  ℕ, zero, suc, ◌+◌, ap, subst, ◌∙◌, ◌≡◌, refl, ◌↔◌, inl, inr, Bool, true, not, ◌||◌, some, [],
  arith, Bool-cases,
}
use Prim.Native.String.{String}
use lance_go.Base.Int.{ℤ, pos, negsuc}
use lance_go.Errors.{GoError, leaf, Leaf, errors_is, wrap, ok, err}
use lance_go.Json.{Doc, str, empty, same_text}
use lance_go.Index.{
  IndexConfig, btree, bitmap, label_list, ngram, fm, zone_map, bloom_filter, rtree, inverted,
  ivf_flat, ivf_pq, ivf_sq, ivf_rq, ivf_hnsw_flat, ivf_hnsw_pq, ivf_hnsw_sq, VectorOptions,
  index_params, json_index, json_params, vector_params, hnsw_params, distance_name, filled,
}
use lance_go.Index.Defaults.{
  AllGiven, Whole, Sent, AllGiven-set_uint, AllGiven-set_positive, AllGiven-set_text,
  AllGiven-set_str, AllGiven-set_float, AllGiven-params, is_empty-set, is_empty-set_if,
  AllGiven-empty, AllGiven-apply, Whole-unless_empty, Whole-params, Whole-scalar_params,
  Whole-inverted_params, AllGiven-with_hnsw, Whole-Sent,
}

module _ {F : Type 0} (nonzero : F → Bool) (shown : ℤ → String) where
  Whole-hnsw_params : (m ef : ℤ) (n : ℕ) → Whole nonzero (ok (hnsw_params m ef n))
  unfolding hnsw_params
  Whole-hnsw_params m ef n = Whole-unless_empty nonzero _ (
      AllGiven-set_uint nonzero "prefetch_distance" n _ (
        AllGiven-set_positive nonzero "ef_construction" ef _
          (AllGiven-set_positive nonzero "m" m _ (AllGiven-empty nonzero))))

  filled-distance_name :
      ((z : ℤ) → filled (shown z) ≡ true) → (d : ℤ) → filled (distance_name shown d) ≡ true
  unfolding distance_name
  filled-distance_name f (negsuc n) = f (negsuc n)
  filled-distance_name f (pos zero) = refl
  filled-distance_name f (pos (suc zero)) = refl
  filled-distance_name f (pos (suc (suc zero))) = refl
  filled-distance_name f (pos (suc (suc (suc zero)))) = refl
  filled-distance_name f (pos (suc (suc (suc (suc n))))) = f (pos (4 + n))

  AllGiven-vector_params :
      ((z : ℤ) → filled (shown z) ≡ true)
      → (d : ℤ) (o : VectorOptions) (fields : Doc F → Doc F)
      → ((m : Doc F) → AllGiven nonzero m → AllGiven nonzero (fields m))
      → AllGiven nonzero (vector_params shown d o fields)
  unfolding vector_params
  AllGiven-vector_params f d o fields keep = AllGiven-apply nonzero o _ (
      keep _ (
        AllGiven-set_str nonzero "metric" (distance_name shown d) empty (filled-distance_name f d)
          (AllGiven-empty nonzero)))

  Sent-json_params : (p t q : String) → Sent nonzero (json_params p t q)
  unfolding json_params
  Sent-json_params p t q = elim (Bool-cases (same_text p "")) [
    | inl no_path ↦ rw no_path tt
    | inr path ↦ elim (Bool-cases (same_text t "")) [
      | inl no_target ↦ rw (path, no_target) tt
      | inr target ↦
          rw (path, target)
            (AllGiven-params nonzero _
              (is_empty-set_if nonzero (filled q) "target_index_parameters" (str q) _
                (is_empty-set nonzero "path" (str p) _))
              (AllGiven-set_text nonzero "target_index_parameters" q _ (
                AllGiven-set_str nonzero "path" p _ (ap not path) (
                  AllGiven-set_str nonzero "target_index_type" t empty (ap not target)
                    (AllGiven-empty nonzero)))))
    ]
  ]

  Sent-index_params :
      ((z : ℤ) → filled (shown z) ≡ true)
      → (c : IndexConfig F) → Sent nonzero (index_params nonzero shown c)
  unfolding index_params
  Sent-index_params f (btree z) =
      Whole-Sent nonzero (index_params nonzero shown (btree z))
        (Whole-scalar_params nonzero "zone_size" z)
  Sent-index_params f bitmap = tt
  Sent-index_params f label_list = tt
  Sent-index_params f ngram = tt
  Sent-index_params f fm = tt
  Sent-index_params f (zone_map n) =
      Whole-Sent nonzero (index_params nonzero shown (zone_map n))
        (Whole-scalar_params nonzero "rows_per_zone" n)
  Sent-index_params f (bloom_filter n p) =
      Whole-Sent nonzero (index_params nonzero shown (bloom_filter n p)) (
        Whole-params nonzero _ (
          AllGiven-set_float nonzero "probability" p _
            (AllGiven-set_uint nonzero "number_of_items" n empty (AllGiven-empty nonzero))))
  Sent-index_params f (rtree n) = Whole-Sent nonzero (index_params nonzero shown (rtree n)) (
      Whole-params nonzero _
        (AllGiven-set_uint nonzero "page_size" n empty (AllGiven-empty nonzero)))
  Sent-index_params f (json_index p t q) = Sent-json_params p t q
  Sent-index_params f (inverted c) =
      Whole-Sent nonzero (index_params nonzero shown (inverted c)) (Whole-inverted_params nonzero c)
  Sent-index_params f (ivf_flat d o n) =
      AllGiven-vector_params f d o _ (λ x a. AllGiven-set_positive nonzero "num_partitions" n _ a)
  Sent-index_params f (ivf_pq d o n b s i) = AllGiven-vector_params f d o _ (λ x a.
      AllGiven-set_positive nonzero "max_iterations" i _ (
        AllGiven-set_positive nonzero "num_sub_vectors" s _ (
          AllGiven-set_positive nonzero "num_bits" b _
            (AllGiven-set_positive nonzero "num_partitions" n _ a))))
  Sent-index_params f (ivf_sq d o n b s) = AllGiven-vector_params f d o _ (λ x a.
      AllGiven-set_positive nonzero "sample_rate" s _ (
        AllGiven-set_positive nonzero "num_bits" b _
          (AllGiven-set_positive nonzero "num_partitions" n _ a)))
  Sent-index_params f (ivf_rq d o n b t) = AllGiven-vector_params f d o _ (λ x a.
      AllGiven-set_text nonzero "rotation_type" t _ (
        AllGiven-set_positive nonzero "num_bits" b _
          (AllGiven-set_positive nonzero "num_partitions" n _ a)))
  Sent-index_params f (ivf_hnsw_flat d o n m e) =
      AllGiven-with_hnsw nonzero _ _ (Whole-hnsw_params m e o.prefetch_distance) (
        AllGiven-vector_params f d o _
          (λ x a. AllGiven-set_positive nonzero "num_partitions" n _ a))
  Sent-index_params f (ivf_hnsw_pq d o n b s m e) =
      AllGiven-with_hnsw nonzero _ _ (Whole-hnsw_params m e o.prefetch_distance) (
        AllGiven-vector_params f d o _ (λ x a. AllGiven-set_positive nonzero "num_sub_vectors" s _ (
          AllGiven-set_positive nonzero "num_bits" b _
            (AllGiven-set_positive nonzero "num_partitions" n _ a))))
  Sent-index_params f (ivf_hnsw_sq d o n b m e) =
      AllGiven-with_hnsw nonzero _ _ (Whole-hnsw_params m e o.prefetch_distance) (
        AllGiven-vector_params f d o _ (λ x a.
          AllGiven-set_positive nonzero "num_bits" b _
            (AllGiven-set_positive nonzero "num_partitions" n _ a)))

  -- If no distance that is out of range is shown as an empty text, the document of a configuration
  -- gives no parameter at its zero value, at any depth: no unsigned number or float is 0, no signed
  -- number but `max_token_length` is 0 or negative, and no text, map or nested document is empty.
  pub index_params_given :
      ((z : ℤ) → filled (shown z) ≡ true)
      → (c : IndexConfig F) (m : Doc F) → index_params nonzero shown c ≡ ok (some m)
      → AllGiven nonzero m
  index_params_given f c m h = subst (Sent nonzero) h (Sent-index_params f c)

  -- A JSONIndex that lacks its path or its target index type.
  abbrev pub Incomplete : IndexConfig F → Type 0
  Incomplete c =
      (p : String) × (t : String) × (q : String) × (c ≡ json_index p t q)
      × ((same_text p "" || same_text t "") ≡ true)

  json_params-Incomplete :
      (p t q : String) (e : GoError)
      → json_params {F = F} p t q ≡ err e
      → ((same_text p "" || same_text t "") ≡ true) × (errors_is e Leaf.invalid_argument ≡ true)
  unfolding json_params errors_is
  json_params-Incomplete p t q e h = (ground arith, ground arith)

  Incomplete-json_params :
      (p t q : String)
      → (same_text p "" || same_text t "") ≡ true
      → (e : GoError) × (json_params {F = F} p t q ≡ err e)
  unfolding json_params
  Incomplete-json_params p t q h = elim (Bool-cases (same_text p "")) [
    | inl no_path ↦
        (wrap "%w: JSONIndex.Path must be set" [] (leaf Leaf.invalid_argument), ground arith)
    | inr path ↦ (
      wrap "%w: JSONIndex.TargetIndexType must be set" [] (leaf Leaf.invalid_argument),
      ground arith,
    )
  ]

  refused :
      (c : IndexConfig F) (e : GoError)
      → index_params nonzero shown c ≡ err e
      → Incomplete c × (errors_is e Leaf.invalid_argument ≡ true)
  unfolding index_params
  refused (json_index p t q) e h =
      let (k, i) = json_params-Incomplete p t q e h in ((p, t, q, refl, k), i)
  refused (btree z) e h = cc
  refused bitmap e h = cc
  refused label_list e h = cc
  refused ngram e h = cc
  refused fm e h = cc
  refused (zone_map n) e h = cc
  refused (bloom_filter n p) e h = cc
  refused (rtree n) e h = cc
  refused (inverted i) e h = cc
  refused (ivf_flat d o n) e h = cc
  refused (ivf_pq d o n b s i) e h = cc
  refused (ivf_sq d o n b s) e h = cc
  refused (ivf_rq d o n b t) e h = cc
  refused (ivf_hnsw_flat d o n m x) e h = cc
  refused (ivf_hnsw_pq d o n b s m x) e h = cc
  refused (ivf_hnsw_sq d o n b m x) e h = cc

  refuses :
      (c : IndexConfig F)
      → Incomplete c
      → (e : GoError) × (index_params nonzero shown c ≡ err e)
        × (errors_is e Leaf.invalid_argument ≡ true)
  unfolding index_params
  refuses c (p, t, q, is, k) =
      let (e, h) = Incomplete-json_params p t q k in
      let g = ap (index_params nonzero shown) is ∙ h in (e, g, (refused c e g).1)

  -- The only configurations that are refused are those that are incomplete, and the error is then
  -- ErrInvalidArgument.
  pub index_params_refused :
      (c : IndexConfig F)
      → ((e : GoError) × (index_params nonzero shown c ≡ err e)
          × (errors_is e Leaf.invalid_argument ≡ true))
        ↔ Incomplete c
  index_params_refused c = (λ (e, h, i). (refused c e h).0, λ k. refuses c k)
