-- ===== src/Transaction/Receive.antt =====
-- The native buffers of a transaction (lance/transaction.go) are given back.
use lance_go.Base.{
  ℕ, ◌^◌, ◌<◌, ◌≡◌, refl, false, ◌||◌, Option, none, some, String, List, [], ◌∷◌, ◌++◌, arith,
  length, ◌==◌, if◌then◌else◌,
}
use lance_go.Errors.{GoError, Result, ok}
use lance_go.Json.{same_text}
use lance_go.Plugin.Invoke.{copy_c_bytes_whole}
use lance_go.Transaction.{
  new_transaction, TransactionOut, Freed, bytes_freed, string_freed, Memory, Store, go_bytes_free,
  receive,
}

-- What a native function handed out, in the order in which it is given back, the newest first.
abbrev pub handed_out : TransactionOut → List Freed
handed_out out =
    (elim out.view [ none ↦ [] | some a ↦ string_freed a ∷ [] ])
    ++ (elim out.pb [ none ↦ [] | some a ↦ bytes_freed a out.pb_len ∷ [] ])

whole_or_empty : (b : List ℕ) → (if length b == 0 then ok [] else ok b) ≡ ok b
whole_or_empty [] = refl
whole_or_empty (x ∷ b) = ground arith

module _ {N V : Type 0} (mem : Memory N) (decode : String → Result V) where
  -- Whether the native call fails, its bytes cannot be copied or its view cannot be read, or all
  -- goes well: the buffer and the string that it handed out are given back once each, with the
  -- length that came with them, and nothing else is.
  pub receive_frees :
      (framed : GoError → GoError) (e : Option GoError) (out : TransactionOut) (s : Store N)
      → (receive mem decode framed e out s).1.freed ≡ handed_out out ++ s.freed
  unfolding receive go_bytes_free
  receive_frees framed e out s = ground arith

  -- A native call that succeeds with a buffer of known content and a view that is JSON of a
  -- transaction gives the transaction with these bytes.
  pub receive-ok :
      (framed : GoError → GoError) (a len v : ℕ) (b : List ℕ) (view : V) (s : Store N)
      → mem.bytes_at a s.native ≡ b
      → len ≡ length b
      → length b < 2 ^ 63
      → let text = mem.string_at v (mem.bytes_free a len s.native) in
        (same_text text "null" || same_text text "") ≡ false
        → decode text ≡ ok view
        → (receive mem decode framed none (record { pb = some a; pb_len = len; view = some v }) s).0
          ≡ ok (some (record { pb = b; view = view; raw = text }))
  unfolding receive go_bytes_free new_transaction
  receive-ok framed a len v b view s shown whole short given read =
      let copied : (go_bytes_free mem (some a) len s).0 ≡ ok b =
        rw (shown, whole, copy_c_bytes_whole b short) (whole_or_empty b) in
      rw (receive, copied) (rw (new_transaction, given, read) refl)
