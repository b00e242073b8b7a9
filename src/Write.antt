-- ===== src/Write.antt =====
-- The options of `Write` (lance/dataset.go, lance/writeparams.go, lance/session.go and
-- lance/hooks.go).
pub mod Locked
pub mod Owned
pub mod Run
use lance_go.Base.{
  ℕ, zero, suc, ◌+◌, ◌/◌, ◌^◌, Bool, false, Option, none, some, String, List, [], ◌∷◌,
  if◌then◌else◌,
}
use lance_go.Base.Int.{ℤ, pos, negsuc}
use lance_go.Json.{same_text}
use lance_go.Handle.{Handle}
use lance_go.Open.{Storage}

-- `BasePath`
pub record BasePath : Type 0 where
  pub id : ℕ
  pub name : String
  pub is_dataset_root : Bool
  pub path : String

-- `autoCleanupJSON`
pub record AutoCleanup : Type 0 where
  pub interval : ℕ
  pub older_than_seconds : ℤ

-- `writeConfig`, with the `extendedWriteConfig` that it embeds, over a type of callbacks for progress.
pub record WriteConfig (G : Type 0) : Type 0 where
  pub mode : String
  pub enable_v2_manifest_paths : Option Bool
  pub auto_cleanup : Option AutoCleanup
  pub base_store_params : List (String × Storage)
  pub max_rows_per_file : ℕ
  pub max_rows_per_group : ℕ
  pub max_bytes_per_file : ℕ
  pub data_storage_version : String
  pub enable_stable_row_ids : Bool
  pub storage : Storage
  pub session : Option Handle
  pub progress : Option G
  pub skip_auto_cleanup : Bool
  pub transaction_properties : Storage
  pub external_blob_mode : String
  pub blob_pack_file_size_threshold : ℕ
  pub allow_external_blob_outside_bases : Bool
  pub initial_bases : List BasePath
  pub target_bases : List ℕ
  pub target_base_names_or_paths : List String

-- `WriteMode.String`, with what package fmt makes of a mode that there is not.
unfoldable pub write_mode_name : (ℤ → String) → ℤ → String
write_mode_name shown (pos zero) = "create"
write_mode_name shown (pos (suc zero)) = "append"
write_mode_name shown (pos (suc (suc zero))) = "overwrite"
write_mode_name shown mode = shown mode

abbrev pub mode_create : ℤ
mode_create = pos 0

-- The division of an int64 by `time.Second`, which drops the fraction.
unfoldable pub whole_seconds : ℤ → ℤ
whole_seconds (pos n) = pos (n / 10 ^ 9)
whole_seconds (negsuc n) = let s = (n + 1) / 10 ^ 9 in elim s [ zero ↦ pos 0 | suc m ↦ negsuc m ]

-- `m[base] = options`
unfoldable pub set_params : String → Storage → List (String × Storage) → List (String × Storage)
set_params base options [] = (base, options) ∷ []
set_params base options ((b, o) ∷ m) =
    let rest = set_params base options m in
    if same_text base b then (base, options) ∷ m else (b, o) ∷ rest

-- The constructors of `WriteOption`, but for `WithWriteObservability`; a nil session or callback is
-- none, and a duration is in nanoseconds.
pub data WriteOption (G : Type 0) : Type 0 where
  with_mode : ℤ → WriteOption G
  with_v2_manifest_paths : Bool → WriteOption G
  with_auto_cleanup : ℕ → ℤ → WriteOption G
  with_base_store_params : String → Storage → WriteOption G
  with_max_rows_per_file : ℕ → WriteOption G
  with_max_rows_per_group : ℕ → WriteOption G
  with_max_bytes_per_file : ℕ → WriteOption G
  with_data_storage_version : String → WriteOption G
  with_stable_row_ids : Bool → WriteOption G
  with_write_storage_options : Storage → WriteOption G
  with_write_session : Option Handle → WriteOption G
  with_write_progress : Option G → WriteOption G
  with_skip_auto_cleanup : Bool → WriteOption G
  with_transaction_properties : Storage → WriteOption G
  with_external_blob_mode : String → WriteOption G
  with_blob_pack_file_size_threshold : ℕ → WriteOption G
  with_allow_external_blob_outside_bases : Bool → WriteOption G
  with_initial_bases : List BasePath → WriteOption G
  with_target_bases : List ℕ → WriteOption G
  with_target_base_names_or_paths : List String → WriteOption G

module _ {G : Type 0} (shown : ℤ → String) where
  -- The configuration that `Write` starts with.
  abbrev pub created : WriteConfig G
  created = record {
    mode = write_mode_name shown mode_create;
    enable_v2_manifest_paths = none;
    auto_cleanup = none;
    base_store_params = [];
    max_rows_per_file = 0;
    max_rows_per_group = 0;
    max_bytes_per_file = 0;
    data_storage_version = "";
    enable_stable_row_ids = false;
    storage = [];
    session = none;
    progress = none;
    skip_auto_cleanup = false;
    transaction_properties = [];
    external_blob_mode = "";
    blob_pack_file_size_threshold = 0;
    allow_external_blob_outside_bases = false;
    initial_bases = [];
    target_bases = [];
    target_base_names_or_paths = [];
  }

  abbrev pub apply_option : WriteOption G → WriteConfig G → WriteConfig G
  apply_option (with_mode m) cfg = record cfg { mode = write_mode_name shown m }
  apply_option (with_v2_manifest_paths b) cfg = record cfg { enable_v2_manifest_paths = some b }
  apply_option (with_auto_cleanup n older) cfg = record cfg {
    auto_cleanup = some (record { interval = n; older_than_seconds = whole_seconds older });
  }
  apply_option (with_base_store_params base m) cfg = record cfg {
    base_store_params = set_params base m cfg.base_store_params;
  }
  apply_option (with_max_rows_per_file x) cfg = record cfg { max_rows_per_file = x }
  apply_option (with_max_rows_per_group x) cfg = record cfg { max_rows_per_group = x }
  apply_option (with_max_bytes_per_file x) cfg = record cfg { max_bytes_per_file = x }
  apply_option (with_data_storage_version x) cfg = record cfg { data_storage_version = x }
  apply_option (with_stable_row_ids x) cfg = record cfg { enable_stable_row_ids = x }
  apply_option (with_write_storage_options x) cfg = record cfg { storage = x }
  apply_option (with_write_session x) cfg = record cfg { session = x }
  apply_option (with_write_progress x) cfg = record cfg { progress = x }
  apply_option (with_skip_auto_cleanup x) cfg = record cfg { skip_auto_cleanup = x }
  apply_option (with_transaction_properties x) cfg = record cfg { transaction_properties = x }
  apply_option (with_external_blob_mode x) cfg = record cfg { external_blob_mode = x }
  apply_option (with_blob_pack_file_size_threshold x) cfg = record cfg {
    blob_pack_file_size_threshold = x;
  }
  apply_option (with_allow_external_blob_outside_bases x) cfg = record cfg {
    allow_external_blob_outside_bases = x;
  }
  apply_option (with_initial_bases x) cfg = record cfg { initial_bases = x }
  apply_option (with_target_bases x) cfg = record cfg { target_bases = x }
  apply_option (with_target_base_names_or_paths x) cfg = record cfg {
    target_base_names_or_paths = x;
  }

  -- The loop over the options of `Write`.
  abbrev pub apply_options : List (WriteOption G) → WriteConfig G → WriteConfig G
  apply_options [] cfg = cfg
  apply_options (o ∷ os) cfg = apply_options os (apply_option o cfg)
