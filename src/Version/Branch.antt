-- ===== src/Version/Branch.antt =====
-- The branches, clones and appends of lance/branch.go.
use lance_go.Base.{ℕ, Bool, Option, none, some, String, List, []}
use lance_go.Errors.{GoError, wrap, Result, ok, err}
use lance_go.Errors.Ffi.{Ctx, World, Native}
use lance_go.Json.{Doc}
use lance_go.Handle.{Handle, After, open_handle, dataset_op, hand_op}
use lance_go.Ledger.{Ledger, same_error, ask, prepare_and_ask}
use lance_go.Open.{Storage}
use lance_go.Transaction.{Memory}
use lance_go.Config.{Giving, json_op}
use lance_go.Version.{Ref, marshal_optional_ref}

-- `BranchInfo`
pub record BranchInfo : Type 0 where
  pub parent_branch : String
  pub parent_version : ℕ
  pub created_at_unix : ℕ
  pub manifest_size : ℕ
  pub metadata : Storage

module _ {N F : Type 0} (lib : Native N) (send : Doc F → Result String) (c : Ctx) (ds : Handle)
    (locks : ℕ) where
  -- `CreateBranch`
  unfoldable pub create_branch :
      (ℕ → String → Option String → Giving N ℕ)
      → String
      → Ref
      → World (Ledger N)
      → Result Handle × After (Ledger N)
  create_branch native name r w =
      dataset_op "create branch" c ds locks
        (prepare_and_ask lib 0 0 open_handle same_error c (marshal_optional_ref send r)
          (λ p. native p name))
        w

  -- `clone`, with what package fmt makes of the verb and the quoted URI.
  unfoldable pub clone :
      (String → String → String)
      → String
      → (ℕ → String → Option String → Storage → Giving N ℕ)
      → String
      → Ref
      → Storage
      → World (Ledger N)
      → Result Handle × After (Ledger N)
  clone quoted what native uri r storage w =
      dataset_op (quoted what uri) c ds locks
        (prepare_and_ask lib 0 0 open_handle same_error c (marshal_optional_ref send r)
          (λ p s. native p uri s storage))
        w

  -- `ShallowClone`
  unfoldable pub shallow_clone :
      (String → String → String)
      → (ℕ → String → Option String → Storage → Giving N ℕ)
      → String
      → Ref
      → Storage
      → World (Ledger N)
      → Result Handle × After (Ledger N)
  shallow_clone quoted native = clone quoted "shallow clone" native

  -- `DeepClone`
  unfoldable pub deep_clone :
      (String → String → String)
      → (ℕ → String → Option String → Storage → Giving N ℕ)
      → String
      → Ref
      → Storage
      → World (Ledger N)
      → Result Handle × After (Ledger N)
  deep_clone quoted native = clone quoted "deep clone" native

abbrev pub append_refused : GoError → GoError
append_refused e = wrap "lance: append: %w" [] e

module _ {N : Type 0} (lib : Native N) (c : Ctx) (ds : Handle) (locks : ℕ) where
  -- `CheckoutBranch`
  unfoldable pub checkout_branch :
      (ℕ → String → Giving N ℕ) → String → World (Ledger N) → Result Handle × After (Ledger N)
  checkout_branch native name w =
      dataset_op "checkout branch" c ds locks
        (λ p. ask lib 0 0 open_handle same_error c (native p name)) w

  -- `DeleteBranch`
  unfoldable pub delete_branch :
      (ℕ → String → Bool → Giving N (Unit {0}))
      → String
      → Bool
      → World (Ledger N)
      → Result (Unit {0}) × After (Ledger N)
  delete_branch native name force w =
      dataset_op "delete branch" c ds locks
        (λ p. ask lib 0 tt (λ u. u) same_error c (native p name force)) w

  -- `Append`, over a type of record readers; the stream of the reader is exported for the call.
  unfoldable pub append :
      {R : Type 0}
      → (ℕ → R → Giving N (Unit {0}))
      → R
      → World (Ledger N)
      → Result (Unit {0}) × After (Ledger N)
  append native rdr w =
      hand_op c ds locks (prepare_and_ask lib 1 tt (λ u. u) append_refused c (ok rdr) native) w

  -- `Tags.ReplaceMetadata`; a nil map is none, and is sent as an empty one.
  unfoldable pub replace_tag_metadata :
      (Storage → Result String)
      → (ℕ → String → String → Giving N (Unit {0}))
      → String
      → Option Storage
      → World (Ledger N)
      → Result (Unit {0}) × After (Ledger N)
  replace_tag_metadata send_map native name metadata w =
      dataset_op "replace tag metadata" c ds locks
        (prepare_and_ask lib 0 tt (λ u. u) same_error c
          (elim (send_map (elim metadata [ none ↦ [] | some m ↦ m ])) [
            | err e ↦ err (wrap "marshal metadata: %w" [] e)
            | ok s ↦ ok s
          ])
          (λ p. native p name))
        w

  -- `ListBranches`
  unfoldable pub list_branches :
      Memory N
      → (String → Result (List (String × BranchInfo)))
      → (ℕ → Giving N (Option ℕ))
      → World (Ledger N)
      → Result (List (String × BranchInfo)) × After (Ledger N)
  list_branches mem decode native =
      json_op lib mem c "list branches" "list branches" decode ds locks native
