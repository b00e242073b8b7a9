-- ===== src/Config/Changes.antt =====
-- The methods of `Dataset` in lance/config.go that change a map.
use lance_go.Base.{ℕ, Bool, true, false, Option, some, String}
use lance_go.Errors.{Result}
use lance_go.Errors.Ffi.{Ctx, World, Native}
use lance_go.Handle.{Handle, After}
use lance_go.Ledger.{Ledger}
use lance_go.Maps.{Updates}
use lance_go.Open.{Storage}
use lance_go.Transaction.{Memory}
use lance_go.Config.{Giving, values, update_map, field_metadata}

-- The native functions, of the pointer of the dataset, the updates as JSON, and whether to replace.
pub record ChangeLib (N : Type 0) : Type 0 where
  pub update_config : ℕ → String → Bool → Giving N (Option ℕ)
  pub update_metadata : ℕ → String → Bool → Giving N (Option ℕ)
  pub update_schema_metadata : ℕ → String → Bool → Giving N (Option ℕ)
  pub update_field_metadata : ℕ → String → String → Bool → Option ℕ → N → ℕ × N

module _ {N : Type 0} (lib : Native N) (native : ChangeLib N) (mem : Memory N)
    (decode : String → Result Storage) (send : Updates → Result String) (c : Ctx) (ds : Handle)
    (locks : ℕ) where
  -- `UpdateConfig`
  unfoldable pub update_config : Storage → World (Ledger N) → Result Storage × After (Ledger N)
  update_config updates =
      update_map lib mem c decode send "update config" ds locks (some (values updates)) false
        native.update_config

  -- `UpdateMetadata`
  unfoldable pub update_metadata : Storage → World (Ledger N) → Result Storage × After (Ledger N)
  update_metadata updates =
      update_map lib mem c decode send "update metadata" ds locks (some (values updates)) false
        native.update_metadata

  -- `UpdateSchemaMetadata`
  unfoldable pub update_schema_metadata :
      Storage → World (Ledger N) → Result Storage × After (Ledger N)
  update_schema_metadata updates =
      update_map lib mem c decode send "update schema metadata" ds locks (some (values updates))
        false native.update_schema_metadata

module _ {N : Type 0} (lib : Native N) (native : ChangeLib N) (send : Updates → Result String)
    (c : Ctx) (ds : Handle) (locks : ℕ) where
  -- `UpdateFieldMetadata`
  unfoldable pub update_field_metadata :
      String → Storage → World (Ledger N) → Result (Unit {0}) × After (Ledger N)
  update_field_metadata name updates =
      field_metadata lib c send "update field metadata" ds locks name updates false
        native.update_field_metadata

  -- `ReplaceFieldMetadata`
  unfoldable pub replace_field_metadata :
      String → Storage → World (Ledger N) → Result (Unit {0}) × After (Ledger N)
  replace_field_metadata name updates =
      field_metadata lib c send "replace field metadata" ds locks name updates true
        native.update_field_metadata
