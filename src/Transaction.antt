-- ===== src/Transaction.antt =====
-- Transactions of lance/transaction.go: their parts, and how they are read from native buffers.
pub mod Commit
pub mod Fragments
pub mod Operation
pub mod Updates
pub mod Receive
pub mod Sent
use lance_go.Base.{
  ℕ, Bool, true, false, ◌||◌, Option, none, some, String, List, [], ◌∷◌, ◌==◌, if◌then◌else◌,
}
use lance_go.Errors.{GoError, wrap, Result, ok, err}
use lance_go.Errors.Ffi.{Ctx, World, Native}
use lance_go.Errors.Out.{ffi_call_out}
use lance_go.Json.{same_text}
use lance_go.Plugin.Invoke.{copy_c_bytes}
use lance_go.Handle.{Handle, check_open}

-- `Transaction`, over a type of views (`transactionView`): the protobuf bytes, the view and its JSON.
pub record Transaction (V : Type 0) : Type 0 where
  pub pb : List ℕ
  pub view : V
  pub raw : String

-- `newTransaction`, with what encoding/json makes of a view; nil is none.
unfoldable pub new_transaction :
    {V : Type 0} → (String → Result V) → List ℕ → String → Result (Option (Transaction V))
new_transaction decode pb view_json =
    if same_text view_json "null" || same_text view_json ""
    then ok none
    else elim (decode view_json) [
      | err e ↦ err (wrap "lance: decode transaction view: %w" [] e)
      | ok v ↦ ok (some (record { pb = pb; view = v; raw = view_json }))
    ]

-- The out parameters of a native function that gives a transaction; a pointer that is NULL is none.
pub record TransactionOut : Type 0 where
  pub pb : Option ℕ
  pub pb_len : ℕ
  pub view : Option ℕ

abbrev pub nothing_out : TransactionOut
nothing_out = record { pb = none; pb_len = 0; view = none }

-- A native buffer or string that was given back.
pub data Freed : Type 0 where
  bytes_freed : ℕ → ℕ → Freed
  string_freed : ℕ → Freed

-- Native memory, as Go reads it and gives it back.
pub record Memory (N : Type 0) : Type 0 where
  pub bytes_at : ℕ → N → List ℕ
  pub bytes_free : ℕ → ℕ → N → N
  pub string_at : ℕ → N → String
  pub string_free : ℕ → N → N

-- The native state, and what was given back, the newest first.
pub record Store (N : Type 0) : Type 0 where
  pub native : N
  pub freed : List Freed

module _ {N : Type 0} (mem : Memory N) where
  -- `lance_bytes_free` and `lance_string_free`, behind `if ptr != nil`.
  abbrev pub free_bytes : Option ℕ → ℕ → Store N → Store N
  free_bytes none n s = s
  free_bytes (some a) n s = record {
    native = mem.bytes_free a n s.native;
    freed = bytes_freed a n ∷ s.freed;
  }

  abbrev pub free_string : Option ℕ → Store N → Store N
  free_string none s = s
  free_string (some a) s = record {
    native = mem.string_free a s.native;
    freed = string_freed a ∷ s.freed;
  }

  -- `C.GoString`
  abbrev pub go_string : Option ℕ → N → String
  go_string none n = ""
  go_string (some a) n = mem.string_at a n

  -- `goBytesFree`; a nil slice is empty.
  unfoldable pub go_bytes_free : Option ℕ → ℕ → Store N → Result (List ℕ) × Store N
  go_bytes_free none n s = (copy_c_bytes none n, s)
  go_bytes_free (some a) n s = (
    if n == 0 then ok [] else copy_c_bytes (some (mem.bytes_at a s.native)) n,
    free_bytes (some a) n s,
  )

  -- What `WriteFragments` and `readTransaction` do behind their native call, with the frame of an
  -- error.
  unfoldable pub receive :
      {V : Type 0}
      → (String → Result V)
      → (GoError → GoError)
      → Option GoError
      → TransactionOut
      → Store N
      → Result (Option (Transaction V)) × Store N
  receive decode framed (some why) out s =
      (err (framed why), free_string out.view (free_bytes out.pb out.pb_len s))
  receive decode framed none out s =
      let (copied, s₁) = go_bytes_free out.pb out.pb_len s in
      let text = go_string out.view s₁.native in
      (
        elim copied [
          | err e ↦ err (wrap "lance: copy transaction bytes: %w" [] e)
          | ok pb ↦ new_transaction decode pb text
        ],
        free_string out.view s₁,
      )

  -- `readTransaction`, over the thread and what was given back; the native function gets the
  -- dataset's pointer.
  unfoldable pub read_transaction :
      {V : Type 0}
      → Native N
      → (String → Result V)
      → (ℕ → Option ℕ → N → ℕ × TransactionOut × N)
      → Ctx
      → Handle
      → World N
      → List Freed
      → Result (Option (Transaction V)) × World N × List Freed
  read_transaction lib decode native c ds w freed =
      let (opened, w₁) = check_open "dataset" c ds w in
      elim opened [
        | err e ↦ (err e, w₁, freed)
        | ok p ↦
            let (e, out, w₂) = ffi_call_out lib c nothing_out (native p) w₁ in
            let (res, s) =
              receive decode (λ x. wrap "lance: read transaction: %w" [] x) e out
                (record { native = w₂.native; freed = freed }) in
            (res, record w₂ { native = s.native }, s.freed)
      ]
