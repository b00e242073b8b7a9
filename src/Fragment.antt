-- ===== src/Fragment.antt =====
-- Fragments, of lance/fragment.go, and the same getters of a dataset, of lance/dataset.go.
use lance_go.Base.{ℕ, Option, String, List, []}
use lance_go.Base.Int.{ℤ}
use lance_go.Errors.{wrap, Result}
use lance_go.Errors.Ffi.{Ctx, World, Native}
use lance_go.Handle.{Handle, After, open_handle, dataset_op, fragment_op}
use lance_go.Ledger.{Ledger, same_error, fetch, ask}
use lance_go.Open.{Storage}
use lance_go.Transaction.{Memory}
use lance_go.Config.{Giving, json_op, count_op}

-- `FragmentInfo`
pub record FragmentInfo : Type 0 where
  pub id : ℕ
  pub num_rows : ℕ
  pub physical_rows : ℕ
  pub num_deletions : ℕ
  pub num_data_files : ℕ
  pub data_files : List String

-- `DataFileInfo`
pub record DataFileInfo : Type 0 where
  pub path : String
  pub fields : List ℤ
  pub file_major_version : ℕ
  pub file_minor_version : ℕ

-- `DeletionFileInfo`
pub record DeletionFileInfo : Type 0 where
  pub read_version : ℕ
  pub id : ℕ
  pub num_deleted_rows : Option ℕ

-- `FragmentMetadata`
pub record FragmentMetadata : Type 0 where
  pub id : ℕ
  pub physical_rows : Option ℕ
  pub files : List DataFileInfo
  pub deletion_file : Option DeletionFileInfo

-- `VersionInfo` of lance/dataset.go, over a type of times.
pub record VersionInfo (T : Type 0) : Type 0 where
  pub version : ℕ
  pub timestamp : T
  pub metadata : Storage

module _ {N : Type 0} (lib : Native N) (c : Ctx) (f : Handle) (locks : ℕ) where
  -- A call of a fragment that fills in a number.
  unfoldable pub fragment_count :
      String → (ℕ → Giving N ℕ) → World (Ledger N) → Result ℕ × After (Ledger N)
  fragment_count verb native w =
      fragment_op verb c f locks (λ p. ask lib 0 0 (λ n. n) same_error c (native p)) w

  -- `Fragment.CountRows`, with its filter.
  unfoldable pub count_rows :
      (ℕ → String → Giving N ℕ) → String → World (Ledger N) → Result ℕ × After (Ledger N)
  count_rows native filter = fragment_count "fragment count rows" (λ p. native p filter)

  -- `Fragment.CountDeletions`
  unfoldable pub count_deletions : (ℕ → Giving N ℕ) → World (Ledger N) → Result ℕ × After (Ledger N)
  count_deletions native = fragment_count "fragment count deletions" native

  -- `Fragment.PhysicalRows`
  unfoldable pub physical_rows : (ℕ → Giving N ℕ) → World (Ledger N) → Result ℕ × After (Ledger N)
  physical_rows native = fragment_count "fragment physical rows" native

  -- `Fragment.Metadata`
  unfoldable pub fragment_metadata :
      Memory N
      → (String → Result FragmentMetadata)
      → (ℕ → Giving N (Option ℕ))
      → World (Ledger N)
      → Result FragmentMetadata × After (Ledger N)
  fragment_metadata mem decode native w =
      fragment_op "fragment metadata" c f locks
        (λ p.
          fetch lib mem 0 decode same_error (λ e. wrap "decode fragment metadata: %w" [] e) c
            (native p))
        w

module _ {N : Type 0} (lib : Native N) (c : Ctx) (ds : Handle) (locks : ℕ) where
  -- `Dataset.Fragments`
  unfoldable pub fragments :
      Memory N
      → (String → Result (List FragmentInfo))
      → (ℕ → Giving N (Option ℕ))
      → World (Ledger N)
      → Result (List FragmentInfo) × After (Ledger N)
  fragments mem decode native = json_op lib mem c "fragments" "fragments" decode ds locks native

  -- `Dataset.Fragment`, with what package fmt makes of its verb.
  unfoldable pub get_fragment :
      (ℕ → String) → (ℕ → ℕ → Giving N ℕ) → ℕ → World (Ledger N) → Result Handle × After (Ledger N)
  get_fragment shown native id w =
      dataset_op (shown id) c ds locks (λ p. ask lib 0 0 open_handle same_error c (native p id)) w

  -- `Dataset.CountRows`, with its filter.
  unfoldable pub count_dataset_rows :
      (ℕ → String → Giving N ℕ) → String → World (Ledger N) → Result ℕ × After (Ledger N)
  count_dataset_rows native filter = count_op lib c "count rows" ds locks (λ p. native p filter)

  -- `Dataset.LatestVersion`
  unfoldable pub latest_version : (ℕ → Giving N ℕ) → World (Ledger N) → Result ℕ × After (Ledger N)
  latest_version native = count_op lib c "latest version" ds locks native

  -- `Dataset.Version`
  unfoldable pub dataset_version :
      {T : Type 0}
      → Memory N
      → (String → Result (VersionInfo T))
      → (ℕ → Giving N (Option ℕ))
      → World (Ledger N)
      → Result (VersionInfo T) × After (Ledger N)
  dataset_version mem decode native =
      json_op lib mem c "version" "version info" decode ds locks native
