-- ===== src/Config.antt =====
-- The configuration, the metadata and the utilities of a dataset, of lance/config.go.
pub mod Answers
pub mod Changes
pub mod Reads
pub mod Updated
use lance_go.Base.{ℕ, Bool, true, false, Option, none, some, String, List, [], ◌∷◌, if◌then◌else◌}
use lance_go.Errors.{GoError, wrap, text, Result, ok, err}
use lance_go.Errors.Ffi.{Ctx, World, Native}
use lance_go.Handle.{Handle, After, dataset_op}
use lance_go.Ledger.{Ledger, act, ask, fetch, same_error}
use lance_go.Maps.{Updates, put_values, put_deletes}
use lance_go.Open.{Storage}
use lance_go.Transaction.{Memory}

-- `CacheStats`, over a type of floats.
pub record CacheStats (F : Type 0) : Type 0 where
  pub cache_size_bytes : ℕ
  pub index_cache_entry_count : ℕ
  pub index_cache_hit_rate : F

-- `DatasetPaths`
pub record DatasetPaths : Type 0 where
  pub uri : String
  pub base : String
  pub data_dir : String
  pub indices_dir : String
  pub versions_dir : String
  pub branch : String

-- `FieldStatistics`; a `DataStatistics` is a list of them.
pub record FieldStatistics : Type 0 where
  pub id : ℕ
  pub bytes_on_disk : ℕ

-- `RemovalStats` of lance/maintenance.go.
pub record RemovalStats : Type 0 where
  pub bytes_removed : ℕ
  pub old_versions : ℕ
  pub data_files_removed : ℕ
  pub transaction_files_removed : ℕ
  pub index_files_removed : ℕ
  pub deletion_files_removed : ℕ

-- `CleanupPolicy`, over a type of times.
pub record CleanupPolicy (T : Type 0) : Type 0 where
  pub before_timestamp : T
  pub before_version : ℕ
  pub delete_unverified : Bool
  pub error_if_tagged_old_versions : Option Bool
  pub clean_referenced_branches : Bool
  pub delete_rate_limit : ℕ

-- `cleanupPolicyJSON`; encoding/json leaves out an empty text, a 0 and a nil pointer where the source
-- says omitempty.
pub record CleanupPolicyJson : Type 0 where
  pub before_timestamp : String
  pub before_version : ℕ
  pub delete_unverified : Bool
  pub error_if_tagged_old_versions : Option Bool
  pub clean_referenced_branches : Bool
  pub delete_rate_limit : ℕ

-- Package time: `IsZero`, and the text of a time in UTC.
pub record Times (T : Type 0) : Type 0 where
  pub is_zero : T → Bool
  pub format_utc : T → String

-- The policy as it is sent.
unfoldable pub policy_json : {T : Type 0} → Times T → CleanupPolicy T → CleanupPolicyJson
policy_json times policy = record {
  before_timestamp =
      if times.is_zero policy.before_timestamp
      then ""
      else times.format_utc policy.before_timestamp;
  before_version = policy.before_version;
  delete_unverified = policy.delete_unverified;
  error_if_tagged_old_versions = policy.error_if_tagged_old_versions;
  clean_referenced_branches = policy.clean_referenced_branches;
  delete_rate_limit = policy.delete_rate_limit;
}

-- The native functions that a setter or a getter calls: they take the pointer of the dataset, the
-- texts and whether to replace, and the cancel token.
abbrev pub Giving : Type 0 → Type 0 → Type 0
Giving N X = Option ℕ → N → ℕ × X × N

-- The way of an operation that fails before `datasetOp`: no lock, no span.
abbrev pub unstarted : {N : Type 0} → ℕ → World N → After N
unstarted locks w = record { world = w; held_locks = locks; span_ends = [] }

abbrev pub marshal_error : GoError → GoError
marshal_error e = wrap "lance: marshal options: %w" [] e

-- The frame of `updateMap` for an answer that cannot be read.
abbrev pub update_error : String → GoError → GoError
update_error verb e = wrap "decode %s result: %w" (text verb ∷ []) e

-- `values`
unfoldable pub values : Storage → Updates
values kv = put_values kv []

module _ {N : Type 0} (lib : Native N) (mem : Memory N) (c : Ctx) where
  -- `getJSON`
  unfoldable pub get_json :
      {A : Type 0}
      → (String → Result A)
      → String
      → Giving N (Option ℕ)
      → World (Ledger N)
      → Result A × World (Ledger N)
  get_json decode what f w =
      fetch lib mem 0 decode same_error (λ e. wrap "decode %s: %w" (text what ∷ []) e) c f w

  -- `Config`, `StorageOptions`, `Metadata`, `CacheStats`, `Paths`, `DataStats` and others: `getJSON`
  -- in `datasetOp`, by a verb, with the word of the decoder's error.
  unfoldable pub json_op :
      {A : Type 0}
      → String
      → String
      → (String → Result A)
      → Handle
      → ℕ
      → (ℕ → Giving N (Option ℕ))
      → World (Ledger N)
      → Result A × After (Ledger N)
  json_op verb what decode ds locks f w =
      dataset_op verb c ds locks (λ p v. get_json decode what (f p) v) w

  -- `updateMap`; nil is none.
  unfoldable pub update_map :
      (String → Result Storage)
      → (Updates → Result String)
      → String
      → Handle
      → ℕ
      → Option Updates
      → Bool
      → (ℕ → String → Bool → Giving N (Option ℕ))
      → World (Ledger N)
      → Result Storage × After (Ledger N)
  update_map decode send verb ds locks updates replace f w =
      elim (send (elim updates [ none ↦ [] | some u ↦ u ])) [
        | err e ↦ (err (marshal_error e), unstarted locks w)
        | ok sent ↦
            dataset_op verb c ds locks
              (λ p v. fetch lib mem 0 decode same_error (update_error verb) c (f p sent replace) v)
              w
      ]

  -- `DeleteMetadataKeys`, whose result is dropped.
  unfoldable pub delete_metadata_keys :
      (String → Result Storage)
      → (Updates → Result String)
      → Handle
      → ℕ
      → List String
      → (ℕ → String → Bool → Giving N (Option ℕ))
      → World (Ledger N)
      → Option GoError × After (Ledger N)
  delete_metadata_keys decode send ds locks keys f w =
      let (res, after) =
        update_map decode send "delete metadata keys" ds locks (some (put_deletes keys [])) false f
          w in
      (elim res [ err e ↦ some e | ok m ↦ none ], after)

  -- `ReplaceSchemaMetadata`, whose result is dropped.
  unfoldable pub replace_schema_metadata :
      (String → Result Storage)
      → (Updates → Result String)
      → Handle
      → ℕ
      → Storage
      → (ℕ → String → Bool → Giving N (Option ℕ))
      → World (Ledger N)
      → Option GoError × After (Ledger N)
  replace_schema_metadata decode send ds locks metadata f w =
      let (res, after) =
        update_map decode send "replace schema metadata" ds locks (some (values metadata)) true f
          w in
      (elim res [ err e ↦ some e | ok m ↦ none ], after)

  -- `CleanupWithPolicy`
  unfoldable pub cleanup_with_policy :
      {T : Type 0}
      → Times T
      → (String → Result RemovalStats)
      → (CleanupPolicyJson → Result String)
      → Handle
      → ℕ
      → CleanupPolicy T
      → (ℕ → String → Giving N (Option ℕ))
      → World (Ledger N)
      → Result RemovalStats × After (Ledger N)
  cleanup_with_policy times decode send ds locks policy f w =
      elim (send (policy_json times policy)) [
        | err e ↦ (err (marshal_error e), unstarted locks w)
        | ok sent ↦
            dataset_op "cleanup with policy" c ds locks
              (λ p v.
                fetch lib mem 0 decode same_error (λ e. wrap "decode cleanup stats: %w" [] e) c
                  (f p sent) v)
              w
      ]

module _ {N : Type 0} (lib : Native N) (c : Ctx) where
  -- `datasetDo` around a call with no result: `TruncateTable`, `Validate`, `MigrateManifestPathsV2`,
  -- `CheckoutLatest` and `Restore`.
  unfoldable pub do_op :
      String
      → Handle
      → ℕ
      → (ℕ → Option ℕ → N → ℕ × N)
      → World (Ledger N)
      → Result (Unit {0}) × After (Ledger N)
  do_op verb ds locks f w = dataset_op verb c ds locks (λ p v. act lib c (f p) v) w

  -- `CountDeletedRows`, `NumSmallFiles` and others: a call that fills in a number.
  unfoldable pub count_op :
      String → Handle → ℕ → (ℕ → Giving N ℕ) → World (Ledger N) → Result ℕ × After (Ledger N)
  count_op verb ds locks f w =
      dataset_op verb c ds locks (λ p v. ask lib 0 0 (λ n. n) same_error c (f p) v) w

  -- `IsStale` and `HasSuccessorVersion`: a call that fills in a bool.
  unfoldable pub test_op :
      String → Handle → ℕ → (ℕ → Giving N Bool) → World (Ledger N) → Result Bool × After (Ledger N)
  test_op verb ds locks f w =
      dataset_op verb c ds locks (λ p v. ask lib 0 false (λ b. b) same_error c (f p) v) w

  -- `DeleteConfigKeys`; no keys at all is a nil slice.
  unfoldable pub delete_config_keys :
      (Option (List String) → Result String)
      → Handle
      → ℕ
      → Option (List String)
      → (ℕ → String → Option ℕ → N → ℕ × N)
      → World (Ledger N)
      → Result (Unit {0}) × After (Ledger N)
  delete_config_keys send ds locks keys f w =
      elim (send (some (elim keys [ none ↦ [] | some ks ↦ ks ]))) [
        | err e ↦ (err (marshal_error e), unstarted locks w)
        | ok sent ↦ do_op "delete config keys" ds locks (λ p. f p sent) w
      ]

  -- `fieldMetadata`, behind `UpdateFieldMetadata` and `ReplaceFieldMetadata`.
  unfoldable pub field_metadata :
      (Updates → Result String)
      → String
      → Handle
      → ℕ
      → String
      → Storage
      → Bool
      → (ℕ → String → String → Bool → Option ℕ → N → ℕ × N)
      → World (Ledger N)
      → Result (Unit {0}) × After (Ledger N)
  field_metadata send verb ds locks name updates replace f w = elim (send (values updates)) [
    | err e ↦ (err (marshal_error e), unstarted locks w)
    | ok sent ↦ do_op verb ds locks (λ p. f p name sent replace) w
  ]
