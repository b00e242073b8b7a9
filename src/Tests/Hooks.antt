-- ===== src/Tests/Hooks.antt =====
-- Runs of lance/hooks.go: a mapper that counts its calls, a store with one fragment, and a dataset
-- to which columns are added.
use lance_go.Base.{
  ℕ, ◌+◌, ◌≡◌, refl, true, false, Option, none, some, String, List, [], ◌∷◌, arith, ◌==◌,
  if◌then◌else◌,
}
use lance_go.Errors.{Result, ok}
use lance_go.Errors.Ffi.{Native, World}
use lance_go.Plugin.{Registry, empty, register_plugin}
use lance_go.Plugin.Invoke.{Fmt, go_callback_invoke, call_ok}
use lance_go.Plugin.Loan.{Lends-register_plugin}
use lance_go.Hooks.{Outcome, gave, imported, released, exported, Hooked, udf_invoke, pack_ptrs}
use lance_go.Hooks.Mapper.{udf_called}
use lance_go.Hooks.Checkpoint.{CheckpointStore}
use lance_go.Hooks.Columns.{UdfOption, with_udf_read_columns, with_udf_checkpoint}

abbrev plain_fmt : Fmt
plain_fmt = record { appendf = λ f args. []; error_text = λ e. 101 ∷ [] }

-- A record batch is a number: the sum of its two addresses.
abbrev batch_at : ℕ → ℕ → Result ℕ
batch_at a s = ok (a + s)

abbrev doubles : ℕ → ℕ → Outcome ℕ × ℕ
doubles rec u = (gave (rec + rec), u + 1)

abbrev quiet : Hooked ℕ ℕ
quiet = record { user = 0; log = [] }

udf_called_example :
    let (h, r') = register_plugin (udf_invoke batch_at doubles) empty in
    let answer = go_callback_invoke plain_fmt r' h 0 (some (pack_ptrs 1 2 3 4)) 32 true quiet in
    (answer.rc ≡ call_ok)
    × (answer.out ≡ some [])
    × (answer.state.user ≡ 1)
    × (answer.state.log ≡ released 3 ∷ released 6 ∷ exported 6 3 4 ∷ imported 3 ∷ [])
udf_called_example =
    udf_called batch_at plain_fmt doubles empty
      (register_plugin (udf_invoke batch_at doubles) empty).1
      (register_plugin (udf_invoke batch_at doubles) empty).0 1 2 3 4 3 6 quiet
      (Lends-register_plugin (udf_invoke batch_at doubles) empty (tt, omega arith)) (omega arith)
      (omega arith) (omega arith) (omega arith) refl refl

-- A store that has fragment 5 alone.
abbrev fives : CheckpointStore ℕ ℕ
fives = record {
  get_batch = λ frag i u. (gave none, u);
  insert_batch = λ frag i rec u. (gave true, u + 1);
  get_fragment = λ frag u. (gave (if frag == 5 then some (123 ∷ 125 ∷ []) else none), u);
  insert_fragment = λ json u. (gave true, u + 1);
}

abbrev outside : Native ℕ
outside = record { in_tokio = λ n. false; last_code = λ n. 0; last_message = λ n. none }

abbrev thread : World ℕ
thread = record {
  native = 5;
  now = 0;
  locks = 0;
  thread_token = none;
  live_tokens = [];
  next_token = 1;
}

abbrev add : Registry ℕ → ℕ → ℕ → ℕ → Option String → ℕ → ℕ → Option ℕ → ℕ → ℕ × ℕ
add plugins p schema udf options batch store t n = (0, n + 1)

abbrev packed : List String → Result String
packed columns = ok "{}"

abbrev wanted : List (UdfOption ℕ)
wanted = with_udf_read_columns ("a" ∷ []) ∷ with_udf_checkpoint (some 9) ∷ []
