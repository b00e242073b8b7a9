-- ===== src/Tests/Handle.antt =====
-- Runs of the handles: a dataset that counts rows, and its closing.
use lance_go.Base.{ℕ, ◌+◌, ◌≡◌, Option, none, String, [], ◌∷◌, false}
use lance_go.Errors.{Leaf, leaf, Result, ok, err}
use lance_go.Errors.Ffi.{Native, World}
use lance_go.Handle.{open_handle, collect, Selector}
use lance_go.Handle.Life.{closed, handle_closed_once}

handle_closed_once_example :
    ((collect (closed 0 (open_handle 5))).closes ≡ 5 ∷ [])
    × ((closed 1 (open_handle 5)).closes ≡ 5 ∷ [])
handle_closed_once_example = handle_closed_once 0 5

abbrev counting : Native ℕ
counting = record { in_tokio = λ n. false; last_code = λ n. n; last_message = λ n. none }

abbrev thread : World ℕ
thread = record {
  native = 5;
  now = 0;
  locks = 0;
  thread_token = none;
  live_tokens = [];
  next_token = 1;
}

abbrev count_rows : ℕ → World ℕ → Result ℕ × World ℕ
count_rows p w = (ok (p + w.native), w)

abbrev no_rows : ℕ → World ℕ → Result ℕ × World ℕ
no_rows p w = (err (leaf Leaf.not_found), w)

-- A native take that hands out the list 9.
abbrev give_list : ℕ → String → Option ℕ → ℕ → ℕ × ℕ × ℕ
give_list p spec token n = (0, 9, n + 1)

abbrev plain_spec : String → Selector → Result String
plain_spec column sel = ok column
