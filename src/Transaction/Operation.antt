-- ===== src/Transaction/Operation.antt =====
-- `CommitOperation` of lance/transaction.go, and the operations that it takes.
use lance_go.Base.{ℕ, Option, none, some, String, List, [], ◌∷◌}
use lance_go.Errors.{leaf, wrap, text, Result, ok, err}
use lance_go.Errors.Ffi.{Ctx, World, tick, Native}
use lance_go.Errors.Out.{ffi_call_out}
use lance_go.Json.{null, uint, str, object, Doc, empty, field, set}
use lance_go.Handle.{Handle, open_handle}
use lance_go.Open.{Storage}
use lance_go.Maps.{Updates, put_values, put_deletes}
use lance_go.Transaction.Commit.{CommitConfig, CommitSetting, new_commit, set_commit}

-- `UpdateConfigOperation` and `RestoreOperation`.
pub data Operation : Type 0 where
  update_config : Storage → List String → Storage → Storage → Operation
  restore : ℕ → Operation

-- The entries of `updateMapJSON`; nil is none.
unfoldable pub update_map_json : Storage → List String → Option Updates
update_map_json [] [] = none
update_map_json [] (k ∷ ks) = some (put_deletes (k ∷ ks) [])
update_map_json (u ∷ us) ks = some (put_deletes ks (put_values (u ∷ us) []))

-- A map[string]*string as a document.
unfoldable pub entries_doc : {F : Type 0} → Updates → Doc F
entries_doc [] = empty
entries_doc ((k, none) ∷ u) = field k null (entries_doc u)
entries_doc ((k, some v) ∷ u) = field k (str v) (entries_doc u)

-- `if cu := updateMapJSON(...); cu != nil { m[name] = cu }`
abbrev pub set_updates : {F : Type 0} → String → Option Updates → Doc F → Doc F
set_updates name none m = m
set_updates name (some u) m = set name (object (field "entries" (object (entries_doc u)) empty)) m

-- `operationJSON`
unfoldable pub operation_json : {F : Type 0} → Operation → Doc F
unfolding update_map_json
operation_json (update_config ups dels table schema) =
    set_updates "schema_metadata_updates" (update_map_json schema []) (
      set_updates "table_metadata_updates" (update_map_json table []) (
        set_updates "config_updates" (update_map_json ups dels)
          (field "type" (str "UpdateConfig") empty)))
operation_json (restore version) =
    field "type" (str "Restore") (field "version" (uint version) empty)

-- The loop over the options of `CommitOperation`.
unfoldable pub set_commits : List CommitSetting → CommitConfig → CommitConfig
set_commits [] cfg = cfg
set_commits (s ∷ ss) cfg = set_commits ss (set_commit s cfg)

-- `CommitOperation`, with what encoding/json makes of the operation and of the options; the native
-- function gets the URI, the operation, the version that was read, the options and the storage.
unfoldable pub commit_operation :
    {N F : Type 0}
    → Native N
    → (String → String → ℕ → String → Storage → Option ℕ → N → ℕ × ℕ × N)
    → (Doc F → Result String)
    → (CommitConfig → Result String)
    → Ctx
    → String
    → Operation
    → ℕ
    → List CommitSetting
    → World N
    → Result Handle × World N
commit_operation lib native send marshal c uri op version opts w =
    let cfg = set_commits opts (new_commit uri) in
    elim (c.err w.now) [
      | some l ↦ (err (leaf l), tick w)
      | none ↦ elim (send (operation_json op)) [
        | err e ↦ (err (wrap "lance: marshal operation: %w" [] e), tick w)
        | ok sent ↦ elim (marshal cfg) [
          | err e ↦ (err (wrap "lance: marshal options: %w" [] e), tick w)
          | ok options ↦
              let (e, out, w') =
                ffi_call_out lib c 0 (native uri sent version options cfg.storage) (tick w) in
              (
                elim e [
                  | none ↦ ok (open_handle out)
                  | some why ↦ err (wrap "lance: commit operation %q: %w" (text uri ∷ []) why)
                ],
                w',
              )
        ]
      ]
    ]
