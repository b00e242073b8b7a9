-- ===== src/Tests/Write.antt =====
-- Runs of `Write` (lance/dataset.go): an append with a session and a callback for progress.
use lance_go.Base.{ℕ, ◌+◌, refl, false, none, some, String, List, [], ◌∷◌}
use lance_go.Base.Int.{ℤ, pos}
use lance_go.Errors.{Result, ok}
use lance_go.Errors.Ffi.{Native, World, tick, background}
use lance_go.Plugin.{empty}
use lance_go.Handle.{open_handle}
use lance_go.Write.{
  apply_options, created, WriteConfig, WriteOption, with_mode, with_write_session,
  with_write_progress,
}
use lance_go.Write.Run.{WriteEnv, WriteLib, write_dataset}
use lance_go.Write.Locked.{Exported}
use lance_go.Write.Owned.{write_dataset_exports}

abbrev outside : Native ℕ
outside = record { in_tokio = λ n. false; last_code = λ n. 0; last_message = λ n. none }

-- The state is the sum of the streams that were written.
abbrev writers : WriteLib ℕ ℕ
writers = record {
  dataset_write = λ rdr uri options kv t n. (0, 3, n + rdr);
  dataset_write_with_session = λ rdr uri options kv s h t n. (0, 3, n + rdr);
}

abbrev sent : WriteConfig ℕ → Result String
sent cfg = ok "{}"

abbrev shown : ℤ → String
shown m = "WriteMode(?)"

abbrev wanted : List (WriteOption ℕ)
wanted =
    with_mode (pos 1)
    ∷ with_write_session (some (open_handle 2))
    ∷ with_write_progress (some 8)
    ∷ []

abbrev thread : World ℕ
thread = record {
  native = 0;
  now = 0;
  locks = 0;
  thread_token = none;
  live_tokens = [];
  next_token = 1;
}

abbrev start : WriteEnv ℕ ℕ
start = record { world = thread; plugins = empty; session_locks = 0; live_exports = 0; calls = [] }

write_dataset_exports_example :
    let (res, after) =
      write_dataset outside writers sent (λ g. g) shown background "db" 40 wanted start in
    Exported outside writers sent
      (λ g. g)
      shown
      background
      (apply_options shown wanted (created shown))
      (tick thread)
      0
      res
      after.live_exports
write_dataset_exports_example =
    write_dataset_exports outside writers sent (λ g. g) shown background "db" 40 wanted start "{}"
      refl refl
