-- ===== src/Tests/Transaction.antt =====
-- Runs of lance/transaction.go: a native memory with one buffer and one string.
use lance_go.Base.{
  ℕ, ◌+◌, ◌≡◌, refl, ◌↔◌, false, none, some, Option, String, List, [], ◌∷◌, arith, length,
  if◌then◌else◌,
}
use lance_go.Base.Int.{ℤ}
use lance_go.Errors.{GoError, Result, ok, wrap}
use lance_go.Errors.Ffi.{Native, World, tick, background}
use lance_go.Handle.{open_handle}
use lance_go.Transaction.{Transaction, TransactionOut, Memory, Store, receive}
use lance_go.Transaction.Commit.{CommitConfig, CommitLib, new_commit, execute}
use lance_go.Json.{same_text}
use lance_go.Transaction.Sent.{Commits, execute-ok_iff, commit_received}
use lance_go.Transaction.Fragments.{
  FragmentsConfig, FragmentsEnv, Received, apply_fragments, no_fragments_options, write_fragments,
  with_fragments_max_rows_per_file, write_fragments_frees,
}

abbrev outside : Native ℕ
outside = record { in_tokio = λ n. false; last_code = λ n. 0; last_message = λ n. none }

abbrev memory : Memory ℕ
memory = record {
  bytes_at = λ a n. 8 ∷ 9 ∷ [];
  bytes_free = λ a len n. n + 1;
  string_at = λ a n. "{}";
  string_free = λ a n. n + 1;
}

abbrev decode : String → Result ℕ
decode view = ok 7

abbrev frame : GoError → GoError
frame e = wrap "lance: read transaction: %w" [] e

abbrev handed : TransactionOut
handed = record { pb = some 100; pb_len = 2; view = some 200 }

abbrev store : Store ℕ
store = record { native = 0; freed = [] }

abbrev thread : World ℕ
thread = record {
  native = 5;
  now = 0;
  locks = 0;
  thread_token = none;
  live_tokens = [];
  next_token = 1;
}

abbrev commits : CommitLib ℕ
commits = record {
  commit = λ uri b options kv t n. (0, 3, n + length b);
  commit_batch = λ uri bs options kv t n. (0, 3, n + length bs);
  string_at = λ a n. "{}";
  string_free = λ a n. n;
}

abbrev sent : CommitConfig → Result String
sent cfg = ok "{}"

abbrev written : Transaction ℕ
written = record { pb = 8 ∷ 9 ∷ []; view = 7; raw = "{}" }

execute-ok_iff_example :
    ((execute outside commits sent background (new_commit "db") (some written) thread).0
      ≡ ok (open_handle 3))
    ↔ Commits outside commits sent background
        (new_commit "db")
        thread
        (some written)
        (open_handle 3)
execute-ok_iff_example =
    execute-ok_iff outside commits sent background (new_commit "db") thread (some written)
      (open_handle 3)

commit_received_example :
    (t : Transaction ℕ) × ((receive memory decode frame none handed store).0 ≡ ok (some t))
    × ((execute outside commits sent background (new_commit "db") (some t) thread).1.native ≡ 7)
commit_received_example =
    commit_received outside commits sent background (new_commit "db") thread memory decode frame 100
      2 200 8 (9 ∷ []) 7 store "{}" refl refl (omega arith) refl refl refl refl (refl, refl)

abbrev fragments :
    ℕ → String → String → List (String × String) → Option ℕ → ℕ → ℕ × TransactionOut × ℕ
fragments rdr uri options kv t n = (0, handed, n + rdr)

abbrev shown : ℤ → String
shown m = "WriteMode(?)"

abbrev packed : FragmentsConfig → Result String
packed cfg = ok "{}"

abbrev start : FragmentsEnv ℕ
start = record { world = thread; freed = []; live_exports = 0 }

write_fragments_frees_example :
    Received outside memory decode fragments packed shown background "db" 40
      (apply_fragments shown (with_fragments_max_rows_per_file 10 ∷ []) no_fragments_options)
      "{}"
      (record start { world = tick thread })
      (write_fragments outside memory decode fragments packed shown background "db" 40
        (with_fragments_max_rows_per_file 10 ∷ [])
        start).1
write_fragments_frees_example =
    write_fragments_frees outside memory decode fragments packed shown background "db" 40
      (with_fragments_max_rows_per_file 10 ∷ []) "{}" start refl refl

abbrev settings : String → Option String
settings k = if same_text k "a" then some "1" else none
