-- ===== src/Tests/Open.antt =====
-- Runs of `Open` (lance/dataset.go): a branch opened with a session and an object-store cache.
use lance_go.Base.{ℕ, ◌+◌, ◌-◌, ◌≡◌, refl, ◌↔◌, false, none, some, String, List, [], ◌∷◌, arith}
use lance_go.Errors.{Result, ok}
use lance_go.Errors.Ffi.{Native, World, background}
use lance_go.Plugin.{empty}
use lance_go.Handle.{open_handle}
use lance_go.Open.{
  OpenConfig, OpenOption, with_tag, with_branch, with_version, with_session,
  with_object_store_cache, no_options, apply_options, validate, OpenEnv, OpenLib, open_dataset,
}
use lance_go.Open.Valid.{Coherent, validate-Coherent_iff}
use lance_go.Open.Owned.{IsRestored, Opened, open_dataset_leaves}

abbrev tagged : List (OpenOption ℕ)
tagged = with_branch "dev" ∷ with_tag "v1" ∷ with_tag "v2" ∷ []

validate-Coherent_iff_example :
    (validate (apply_options tagged no_options) ≡ none) ↔ Coherent tagged
validate-Coherent_iff_example = validate-Coherent_iff tagged

abbrev outside : Native ℕ
outside = record { in_tokio = λ n. false; last_code = λ n. 0; last_message = λ n. none }

-- The state counts the datasets that are open.
abbrev datasets : OpenLib ℕ
datasets = record {
  dataset_open = λ uri kv options t n. (0, 3, n + 1);
  dataset_open_with_session = λ uri kv options s t n. (0, 3, n + 1);
  wrap_object_store_cache = λ p h t n. (0, 4, n + 1);
  dataset_close = λ p n. n - 1;
}

abbrev sent : OpenConfig ℕ → Result String
sent cfg = ok "{}"

abbrev wanted : List (OpenOption ℕ)
wanted =
    with_branch "dev"
    ∷ with_version 6
    ∷ with_session (some (open_handle 2))
    ∷ with_object_store_cache (some 8)
    ∷ []

abbrev thread : World ℕ
thread = record {
  native = 0;
  now = 0;
  locks = 0;
  thread_token = none;
  live_tokens = [];
  next_token = 1;
}

abbrev start : OpenEnv ℕ ℕ
start = record { world = thread; plugins = empty; session_locks = 0 }

open_dataset_leaves_example :
    let (res, after) = open_dataset outside datasets sent (λ k. k) background "db" wanted start in
    IsRestored start after × Opened (λ k. k) (some 8) start.plugins res after.plugins
open_dataset_leaves_example =
    open_dataset_leaves outside datasets sent (λ k. k) background "db" wanted start
      (tt, omega arith) refl
