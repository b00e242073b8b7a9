-- ===== src/Index/Defaults.antt =====
-- What the documents of lance/index.go hold: no parameter at its zero value, so that the library's
-- default stands for each field that was not set.
use lance_go.Base.{
  ℕ, ◌<◌, ◌≡◌, refl, inl, inr, Bool, true, false, ◌||◌, Option, none, some, List, arith, ◌==◌,
  if◌then◌else◌, Bool-cases,
}
use Prim.Native.String.{String}
use lance_go.Base.Int.{ℤ}
use lance_go.Errors.{Result, ok, err}
use lance_go.Json.{
  JsonValue, Doc, Docs, null, floats, objects, none_left, doc, uint, int, float, bool, str, strs,
  pairs, object, empty, field, set, set_if, same_text, params, is_empty, unless_empty,
}
use lance_go.Index.{
  InvertedConfig, VectorOptions, scalar_params, inverted_params, apply, with_hnsw, positive, filled,
  has_entries, set_uint, set_positive, set_text, set_flag, set_pairs, set_some,
}

module _ {F : Type 0} (nonzero : F → Bool) where
  mutual
    -- A value that may stand under a key: none is the zero value of its kind, no number is negative
    -- except under the one key whose field is a pointer to an int, and no document is empty.
    pub Given : String → JsonValue F → Type 0
    Given k null = Unit {0}
    Given k (uint n) = 0 < n
    Given k (int z) = (same_text k "max_token_length" || positive z) ≡ true
    Given k (float x) = nonzero x ≡ true
    Given k (bool b) = Unit {0}
    Given k (str s) = filled s ≡ true
    Given k (strs ss) = Unit {0}
    Given k (pairs ps) = has_entries ps ≡ true
    Given k (floats xs) = Unit {0}
    Given k (objects ms) = AllGivenDocs ms
    Given k (object m) = (is_empty m ≡ false) × AllGiven m

    pub AllGiven : Doc F → Type 0
    AllGiven empty = Unit {0}
    AllGiven (field k v m) = Given k v × AllGiven m

    AllGivenDocs : Docs F → Type 0
    AllGivenDocs none_left = Unit {0}
    AllGivenDocs (doc m ms) = AllGiven m × AllGivenDocs ms

  pub AllGiven-set :
      (k : String) (v : JsonValue F) (m : Doc F) → Given k v → AllGiven m → AllGiven (set k v m)
  unfolding AllGiven set
  AllGiven-set k v empty g a = (g, tt)
  AllGiven-set k v (field j w m) g (h, a) = elim (Bool-cases (same_text k j)) [
    | inl same ↦ rw same (g, a)
    | inr other ↦ rw other (h, AllGiven-set k v m g a)
  ]

  pub AllGiven-set_if :
      (b : Bool) (k : String) (v : JsonValue F) (m : Doc F)
      → (b ≡ true → Given k v)
      → AllGiven m
      → AllGiven (set_if b k v m)
  AllGiven-set_if true k v m g a = AllGiven-set k v m (g refl) a
  AllGiven-set_if false k v m g a = a

  -- One lemma for each kind of field.
  pub AllGiven-set_uint : (k : String) (n : ℕ) (m : Doc F) → AllGiven m → AllGiven (set_uint k n m)
  unfolding AllGiven
  AllGiven-set_uint k n m a = AllGiven-set_if _ k (uint n) m (λ h. ground arith) a

  pub AllGiven-set_positive :
      (k : String) (z : ℤ) (m : Doc F) → AllGiven m → AllGiven (set_positive k z m)
  unfolding AllGiven
  AllGiven-set_positive k z m a = AllGiven-set_if _ k (int z) m (λ h. ground arith) a

  pub AllGiven-set_text : (k s : String) (m : Doc F) → AllGiven m → AllGiven (set_text k s m)
  unfolding AllGiven
  AllGiven-set_text k s m a = AllGiven-set_if (filled s) k (str s) m (λ h. h) a

  AllGiven-set_flag : (k : String) (b : Bool) (m : Doc F) → AllGiven m → AllGiven (set_flag k b m)
  unfolding AllGiven
  AllGiven-set_flag k b m a = AllGiven-set_if b k (bool true) m (λ h. tt) a

  AllGiven-set_pairs :
      (k : String) (ps : List (String × String)) (m : Doc F)
      → AllGiven m
      → AllGiven (set_pairs k ps m)
  unfolding AllGiven
  AllGiven-set_pairs k ps m a = AllGiven-set_if (has_entries ps) k (pairs ps) m (λ h. h) a

  AllGiven-set_some :
      {A : Type 0} (k : String) (v : A → JsonValue F) (o : Option A) (m : Doc F)
      → ((x : A) → Given k (v x))
      → AllGiven m
      → AllGiven (set_some k v o m)
  AllGiven-set_some k v none m g a = a
  AllGiven-set_some k v (some x) m g a = AllGiven-set k (v x) m (g x) a

  pub AllGiven-set_str :
      (k s : String) (m : Doc F) → filled s ≡ true → AllGiven m → AllGiven (set k (str s) m)
  unfolding AllGiven
  AllGiven-set_str k s m h a = AllGiven-set k (str s) m h a

  pub AllGiven-set_float :
      (k : String) (x : F) (m : Doc F) → AllGiven m → AllGiven (set_if (nonzero x) k (float x) m)
  unfolding AllGiven
  AllGiven-set_float k x m a = AllGiven-set_if (nonzero x) k (float x) m (λ h. h) a

  AllGiven-set_bool :
      (k : String) (o : Option Bool) (m : Doc F) → AllGiven m → AllGiven (set_some k bool o m)
  unfolding AllGiven
  AllGiven-set_bool k o m a = AllGiven-set_some k bool o m (λ x. tt) a

  AllGiven-set_strs :
      (k : String) (o : Option (List String)) (m : Doc F)
      → AllGiven m
      → AllGiven (set_some k strs o m)
  unfolding AllGiven
  AllGiven-set_strs k o m a = AllGiven-set_some k strs o m (λ x. tt) a

  pub AllGiven-empty : AllGiven empty
  unfolding AllGiven
  AllGiven-empty = tt

  pub is_empty-set : (k : String) (v : JsonValue F) (m : Doc F) → is_empty (set k v m) ≡ false
  unfolding set
  is_empty-set k v empty = refl
  is_empty-set k v (field j w m) = ground arith

  pub is_empty-set_if :
      (b : Bool) (k : String) (v : JsonValue F) (m : Doc F)
      → is_empty m ≡ false
      → is_empty (set_if b k v m) ≡ false
  is_empty-set_if true k v m h = is_empty-set k v m
  is_empty-set_if false k v m h = h

  -- A document that is sent: not empty, and with given values only.
  abbrev pub Whole : Result (Option (Doc F)) → Type 0
  Whole (err e) = Unit {0}
  Whole (ok none) = Unit {0}
  Whole (ok (some m)) = (is_empty m ≡ false) × AllGiven m

  pub AllGiven-params : (m : Doc F) → is_empty m ≡ false → AllGiven m → AllGiven (params m)
  unfolding AllGiven
  AllGiven-params m e a = ((e, a), tt)

  pub Whole-unless_empty : (m : Doc F) → AllGiven m → Whole (ok (unless_empty m))
  Whole-unless_empty empty a = tt
  Whole-unless_empty (field k v m) a = (refl, a)

  pub Whole-params :
      (m : Doc F) → AllGiven m → Whole (ok (if is_empty m then none else some (params m)))
  Whole-params empty a = tt
  Whole-params (field k v m) a = (refl, AllGiven-params (field k v m) refl a)

  pub Whole-scalar_params : (k : String) (n : ℕ) → Whole (ok (scalar_params k n))
  unfolding scalar_params AllGiven set
  Whole-scalar_params k n = elim (Bool-cases (n == 0)) [
    | inl zero_size ↦ rw zero_size tt
    | inr sized ↦ rw sized (refl, ((refl, (ground arith, tt)), tt))
  ]

  pub AllGiven-apply : (o : VectorOptions) (m : Doc F) → AllGiven m → AllGiven (apply o m)
  unfolding apply
  AllGiven-apply o m a =
      (AllGiven-set_pairs "runtime_hints" o.runtime_hints _ (
        AllGiven-set_bool "skip_transpose" o.skip_transpose _ (
          AllGiven-set_text "index_file_version" o.index_file_version _ (
            AllGiven-set_uint "kmeans_redos" o.kmeans_redos _ (
              AllGiven-set_pairs "storage_options" o.storage_options _ (
                AllGiven-set_text "precomputed_partitions_file" o.precomputed_partitions_file _ (
                  AllGiven-set_uint "shuffle_partition_concurrency" o.shuffle_partition_concurrency
                    _
                    (AllGiven-set_uint "shuffle_partition_batches" o.shuffle_partition_batches _ (
                      AllGiven-set_uint "streaming_refine_passes" o.streaming_refine_passes _ (
                        AllGiven-set_uint "streaming_coreset_rate" o.streaming_coreset_rate _ (
                          AllGiven-set_uint "streaming_sample_rate" o.streaming_sample_rate _ (
                            AllGiven-set_flag "retrain" o.retrain _ (
                              AllGiven-set_uint "target_partition_size" o.target_partition_size _
                                a)))))))))))))

  pub Whole-inverted_params : (c : InvertedConfig) → Whole (ok (inverted_params c))
  unfolding inverted_params AllGiven
  Whole-inverted_params c = Whole-unless_empty _ (
      AllGiven-set_flag "ngram_prefix_only" c.ngram_prefix_only _ (
        AllGiven-set_uint "ngram_max_length" c.ngram_max_length _ (
          AllGiven-set_uint "ngram_min_length" c.ngram_min_length _ (
            AllGiven-set_strs "custom_stop_words" c.custom_stop_words _ (
              AllGiven-set_some "max_token_length" int c.max_token_length _ (λ x. refl)
                (AllGiven-set_bool "ascii_folding" c.ascii_folding _ (
                  AllGiven-set_bool "remove_stop_words" c.remove_stop_words _ (
                    AllGiven-set_bool "stem" c.stem _ (
                      AllGiven-set_bool "lower_case" c.lower_case _ (
                        AllGiven-set_flag "with_position" c.with_position _ (
                          AllGiven-set_text "language" c.language _ (
                            AllGiven-set_text "base_tokenizer" c.base_tokenizer _
                              AllGiven-empty))))))))))))

  pub AllGiven-with_hnsw :
      (h : Option (Doc F)) (m : Doc F) → Whole (ok h) → AllGiven m → AllGiven (with_hnsw h m)
  unfolding AllGiven
  AllGiven-with_hnsw none m w a = a
  AllGiven-with_hnsw (some h) m w a = AllGiven-set "hnsw" (object h) m w a

  -- What is left to show of a document that is sent.
  abbrev pub Sent : Result (Option (Doc F)) → Type 0
  Sent (err e) = Unit {0}
  Sent (ok none) = Unit {0}
  Sent (ok (some m)) = AllGiven m

  pub Whole-Sent : (r : Result (Option (Doc F))) → Whole r → Sent r
  Whole-Sent (err e) w = tt
  Whole-Sent (ok none) w = tt
  Whole-Sent (ok (some m)) w = w.1
