-- ===== src/Version.antt =====
-- References to versions, and the operations of lance/version.go.
pub mod Branch
pub mod Received
pub mod Run
use lance_go.Base.{
  ℕ, Bool, true, false, not, ◌&&◌, Option, none, some, String, List, [], ◌∷◌, is_some,
  if◌then◌else◌,
}
use lance_go.Errors.{GoError, leaf, wrap, Leaf, errors_is, Result, ok, err}
use lance_go.Errors.Ffi.{Ctx, World, Native}
use lance_go.Json.{JsonValue, uint, str, Doc, empty, field, same_text}
use lance_go.Handle.{Handle, After, open_handle, dataset_op}
use lance_go.Ledger.{Ledger, fetch, same_error, prepare_and_ask}
use lance_go.Open.{Storage}
use lance_go.Transaction.{Memory}
use lance_go.Config.{Giving, json_op, count_op, do_op}

-- `Ref`; a nil version is none.
pub record Ref : Type 0 where
  pub version : Option ℕ
  pub tag : String

-- `VersionRef`
abbrev pub version_ref : ℕ → Ref
version_ref v = record { version = some v; tag = "" }

-- `TagRef`
abbrev pub tag_ref : String → Ref
tag_ref t = record { version = none; tag = t }

-- The zero value.
abbrev pub zero_ref : Ref
zero_ref = record { version = none; tag = "" }

-- `refJSON`, as encoding/json writes it; both fields say omitempty.
unfoldable pub ref_json : {F : Type 0} → Ref → Doc F
ref_json r =
    let tag = if same_text r.tag "" then empty else field "tag" (str r.tag) empty in
    elim r.version [ none ↦ tag | some v ↦ field "version" (uint v) tag ]

abbrev pub is_zero_ref : Ref → Bool
is_zero_ref r = not (is_some r.version) && same_text r.tag ""

abbrev pub invalid_ref : GoError
invalid_ref = wrap "invalid Ref, use VersionRef or TagRef: %w" [] (leaf Leaf.invalid_argument)

-- `TagInfo`
pub record TagInfo : Type 0 where
  pub version : ℕ
  pub branch : String
  pub manifest_size : ℕ
  pub metadata : Storage

-- `TagContents`
pub record TagContents : Type 0 where
  pub version : ℕ
  pub branch : String
  pub created_at : String
  pub updated_at : String
  pub manifest_size : ℕ
  pub metadata : Storage

-- `ManifestLocation`
pub record ManifestLocation : Type 0 where
  pub version : ℕ
  pub path : String
  pub size : Option ℕ
  pub naming_scheme : String
  pub e_tag : Option String

-- An error that is ErrNotFound gets a hint behind it.
abbrev pub hinted : {A : Type 0} → String → Result A → Result A
hinted shape (ok a) = ok a
hinted shape (err e) = if errors_is e Leaf.not_found then err (wrap shape [] e) else err e

abbrev pub checkout_hint : String
checkout_hint = "%w (version or tag does not exist; list with Versions or Tags().List)"

abbrev pub tag_hint : String
tag_hint = "%w (tag does not exist)"

module _ {F : Type 0} (send : Doc F → Result String) where
  -- `marshalRef`
  unfoldable pub marshal_ref : Ref → Result String
  marshal_ref r =
      if is_zero_ref r
      then err invalid_ref
      else elim (send (ref_json r)) [ err e ↦ err (wrap "marshal ref: %w" [] e) | ok s ↦ ok s ]

  -- `marshalOptionalRef` of lance/branch.go; NULL is none.
  unfoldable pub marshal_optional_ref : Ref → Result (Option String)
  marshal_optional_ref r =
      if is_zero_ref r then ok none else elim (marshal_ref r) [ err e ↦ err e | ok s ↦ ok (some s) ]

  -- The reference of `Tags.mutate`, where nil is none.
  unfoldable pub marshal_tag_ref : Option Ref → Result (Option String)
  marshal_tag_ref none = ok none
  marshal_tag_ref (some r) = elim (marshal_ref r) [ err e ↦ err e | ok s ↦ ok (some s) ]

  module _ {N : Type 0} (lib : Native N) (c : Ctx) (ds : Handle) (locks : ℕ) where
    -- `Checkout`, of a native function that fills in the pointer of a dataset.
    unfoldable pub checkout :
        (ℕ → String → Giving N ℕ) → Ref → World (Ledger N) → Result Handle × After (Ledger N)
    checkout native r w =
        let (res, after) =
          dataset_op "checkout" c ds locks
            (prepare_and_ask lib 0 0 open_handle same_error c (marshal_ref r) native) w in
        (hinted checkout_hint res, after)

    -- `Tags.mutate`, of a native function of the name and the reference.
    unfoldable pub mutate :
        String
        → String
        → Option Ref
        → (ℕ → String → Option String → Giving N (Unit {0}))
        → World (Ledger N)
        → Result (Unit {0}) × After (Ledger N)
    mutate verb tag r native w =
        dataset_op verb c ds locks
          (prepare_and_ask lib 0 tt (λ u. u) same_error c (marshal_tag_ref r) (λ p. native p tag)) w

    -- `Tags.Create`
    unfoldable pub create_tag :
        String
        → Ref
        → (ℕ → String → Option String → Giving N (Unit {0}))
        → World (Ledger N)
        → Result (Unit {0}) × After (Ledger N)
    create_tag name r native = mutate "create tag" name (some r) native

    -- `Tags.Update`
    unfoldable pub update_tag :
        String
        → Ref
        → (ℕ → String → Option String → Giving N (Unit {0}))
        → World (Ledger N)
        → Result (Unit {0}) × After (Ledger N)
    update_tag name r native = mutate "update tag" name (some r) native

    -- `Tags.Delete`, whose native function has no reference.
    unfoldable pub delete_tag :
        String
        → (ℕ → String → Giving N (Unit {0}))
        → World (Ledger N)
        → Result (Unit {0}) × After (Ledger N)
    delete_tag name native = mutate "delete tag" name none (λ p tag r. native p tag)

module _ {N : Type 0} (lib : Native N) (mem : Memory N) (c : Ctx) (ds : Handle) (locks : ℕ) where
  -- `Versions` and `Tags.List`, which do what `getJSON` does; and `Tags.ListOrdered` of
  -- lance/branch.go, with its order.
  unfoldable pub versions :
      {V : Type 0}
      → (String → Result (List V))
      → (ℕ → Giving N (Option ℕ))
      → World (Ledger N)
      → Result (List V) × After (Ledger N)
  versions decode native = json_op lib mem c "list versions" "versions" decode ds locks native

  unfoldable pub list_tags :
      (String → Result (List (String × TagInfo)))
      → (ℕ → Giving N (Option ℕ))
      → World (Ledger N)
      → Result (List (String × TagInfo)) × After (Ledger N)
  list_tags decode native = json_op lib mem c "list tags" "tags" decode ds locks native

  unfoldable pub list_tags_ordered :
      (String → Result (List (String × TagInfo)))
      → (ℕ → Bool → Giving N (Option ℕ))
      → Bool
      → World (Ledger N)
      → Result (List (String × TagInfo)) × After (Ledger N)
  list_tags_ordered decode native ascending =
      json_op lib mem c "list tags ordered" "ordered tags" decode ds locks (λ p. native p ascending)

  -- `Tags.Get`
  unfoldable pub get_tag :
      (String → Result TagContents)
      → (ℕ → String → Giving N (Option ℕ))
      → String
      → World (Ledger N)
      → Result TagContents × After (Ledger N)
  get_tag decode native name w =
      let (res, after) =
        json_op lib mem c "get tag contents" "tag contents" decode ds locks (λ p. native p name)
          w in
      (hinted tag_hint res, after)

  -- `Tags.GetVersion`
  unfoldable pub get_tag_version :
      (ℕ → String → Giving N ℕ) → String → World (Ledger N) → Result ℕ × After (Ledger N)
  get_tag_version native name w =
      let (res, after) = count_op lib c "get tag version" ds locks (λ p. native p name) w in
      (hinted tag_hint res, after)

  -- `ManifestLocation`
  unfoldable pub manifest_location :
      (String → Result ManifestLocation)
      → (ℕ → Giving N (Option ℕ))
      → World (Ledger N)
      → Result ManifestLocation × After (Ledger N)
  manifest_location decode native =
      json_op lib mem c "manifest location" "manifest location" decode ds locks native

module _ {N : Type 0} (lib : Native N) (c : Ctx) (ds : Handle) (locks : ℕ) where
  -- `CheckoutLatest`, which moves the handle itself.
  unfoldable pub checkout_latest :
      (ℕ → Option ℕ → N → ℕ × N) → World (Ledger N) → Result (Unit {0}) × After (Ledger N)
  checkout_latest native = do_op lib c "checkout latest" ds locks native

  -- `Restore`
  unfoldable pub restore :
      (ℕ → Option ℕ → N → ℕ × N) → World (Ledger N) → Result (Unit {0}) × After (Ledger N)
  restore native = do_op lib c "restore" ds locks native
