-- ===== src/Mutation.antt =====
-- `Delete` and `Update` of lance/mutation.go, and the durations that it sends.
pub mod Merge
pub mod Run
pub mod Timeout
use lance_go.Base.{
  ℕ, zero, suc, ◌+◌, ◌-◌, ◌/◌, ◌%◌, ◌^◌, Option, none, some, String, List, [], ◌∷◌, if◌then◌else◌,
  ◌==◌,
}
use lance_go.Base.Int.{ℤ, pos, negsuc, wrap_int64}
use lance_go.Errors.{GoError, wrap, leaf, Leaf, Result, ok, err}
use lance_go.Errors.Ffi.{Ctx, World, Native}
use lance_go.Json.{same_text}
use lance_go.Handle.{Handle, After, hand_op}
use lance_go.Ledger.{Ledger, send_and_fetch}
use lance_go.Open.{Storage}
use lance_go.Transaction.{Memory}
use lance_go.Config.{Giving}

-- The division of an int64 by `time.Millisecond`, which drops the fraction.
unfoldable pub whole_milliseconds : ℤ → ℤ
whole_milliseconds (pos n) = pos (n / 10 ^ 6)
whole_milliseconds (negsuc n) =
    let s = (n + 1) / 10 ^ 6 in elim s [ zero ↦ pos 0 | suc m ↦ negsuc m ]

-- The conversion of an int64 to a uint64.
unfoldable pub to_uint64 : ℤ → ℕ
to_uint64 (pos n) = n % 2 ^ 64
to_uint64 (negsuc n) = 2 ^ 64 - 1 - n % 2 ^ 64

-- `uint64(d / time.Millisecond)`, for a duration in nanoseconds.
unfoldable pub retry_timeout_ms : ℤ → ℕ
unfolding whole_milliseconds to_uint64
retry_timeout_ms d = to_uint64 (whole_milliseconds d)

-- What an operation with metrics leaves: also the rows and bytes that it has recorded, by their kind.
pub record Metered (N : Type 0) : Type 0 where
  pub after : After N
  pub recorded : List (String × ℤ)

-- The conversion of a uint64 to an int64.
abbrev pub to_int64 : ℕ → ℤ
to_int64 n = wrap_int64 (pos n)

-- `recordRows` and `recordBytes`, which leave out a number that is 0.
unfoldable pub counted : String → ℕ → List (String × ℤ)
counted kind n = if n == 0 then [] else (kind, to_int64 n) ∷ []

abbrev pub rows_or_zero : Result ℕ → ℕ
rows_or_zero (ok n) = n
rows_or_zero (err e) = 0

-- `UpdateSpec`; a duration is in nanoseconds.
pub record UpdateSpec : Type 0 where
  pub set : Storage
  pub where_predicate : String
  pub conflict_retries : Option ℕ
  pub retry_timeout : ℤ

-- `updateOptions`; encoding/json leaves out an empty text, a 0 and a nil pointer.
pub record UpdateOptions : Type 0 where
  pub set : Storage
  pub where_predicate : String
  pub conflict_retries : Option ℕ
  pub retry_timeout_ms : ℕ

unfoldable pub update_options : UpdateSpec → UpdateOptions
update_options spec = record {
  set = spec.set;
  where_predicate = spec.where_predicate;
  conflict_retries = spec.conflict_retries;
  retry_timeout_ms = retry_timeout_ms spec.retry_timeout;
}

abbrev pub no_predicate : GoError
no_predicate = wrap "lance: delete: predicate must not be empty: %w" [] (leaf Leaf.invalid_argument)

abbrev pub no_set : GoError
no_set = wrap "lance: update: Set must not be empty: %w" [] (leaf Leaf.invalid_argument)

-- The end of an operation that fails before it takes the lock: the deferred end of the span.
abbrev pub rejected : {N A : Type 0} → ℕ → GoError → World N → Result A × After N
rejected locks e w = (err e, record { world = w; held_locks = locks; span_ends = some e ∷ [] })

-- The deferred record of the rows of one kind; a result that failed has none.
abbrev pub metered : {N : Type 0} → String → Result ℕ × After N → Result ℕ × Metered N
metered kind (res, after) =
    (res, record { after = after; recorded = counted kind (rows_or_zero res) })

abbrev pub delete_refused : GoError → GoError
delete_refused e = wrap "lance: delete: %w" [] e

abbrev pub delete_framed : GoError → GoError
delete_framed e = wrap "lance: decode delete result: %w" [] e

abbrev pub update_refused : GoError → GoError
update_refused e = wrap "lance: update: %w" [] e

abbrev pub update_framed : GoError → GoError
update_framed e = wrap "lance: decode update result: %w" [] e

module _ {N : Type 0} (lib : Native N) (mem : Memory N) (decode : String → Result ℕ) (c : Ctx)
    (ds : Handle) (locks : ℕ) where
  -- `Delete`; a result is its number of rows.
  unfoldable pub delete_rows :
      String → (ℕ → String → Giving N (Option ℕ)) → World (Ledger N) → Result ℕ × Metered (Ledger N)
  delete_rows predicate f w = metered "deleted" (
      if same_text predicate ""
      then rejected locks no_predicate w
      else hand_op c ds locks
          (send_and_fetch lib mem 0 decode delete_refused delete_framed c (ok predicate) f) w)

  -- `Update`; a result is its number of rows.
  unfoldable pub update_rows :
      (UpdateOptions → Result String)
      → UpdateSpec
      → (ℕ → String → Giving N (Option ℕ))
      → World (Ledger N)
      → Result ℕ × Metered (Ledger N)
  update_rows send spec f w = metered "updated" (elim spec.set [
    | [] ↦ rejected locks no_set w
    | s ∷ ss ↦
        hand_op c ds locks
          (send_and_fetch lib mem 0 decode update_refused update_framed c
            (send (update_options spec)) f)
          w
  ])
