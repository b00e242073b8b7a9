-- ===== src/Tests/Scan.antt =====
-- Runs of lance/scanner.go: a chain of settings, and terminal methods over a native library that
-- keeps the plugin of its scanner.
use lance_go.Json.{same_text}
use lance_go.Base.{
  ℕ, zero, suc, ◌+◌, ◌≡◌, refl, false, none, some, String, List, [], ◌∷◌, ◌==◌, arith,
  if◌then◌else◌,
}
use lance_go.Base.Int.{ℤ, pos}
use lance_go.Errors.{Result, ok, err, leaf, Leaf}
use lance_go.Errors.Ffi.{Native, World, background}
use lance_go.Plugin.{empty}
use lance_go.Plugin.Invoke.{copy_c_bytes, Fmt}
use lance_go.Handle.{open_handle}
use lance_go.Scan.{Scanner, ScanConfig, scan}
use lance_go.Scan.Builder.{Setting, nearest_call, nearest_arrow_call, full_text_search_call, filter}
use lance_go.Scan.Run.{Env, ScannerLib, with_scanner}
use lance_go.Scan.Owned.{Owns, IsSame, IsRestored, with_scanner_leaves}
use lance_go.Scan.Stats.{StatsFn}
use lance_go.Tests.Fts.{nested}

abbrev shown : ℤ → String
shown d = "DistanceType(?)"

abbrev base64 : List ℕ → String
base64 b = ""

abbrev calls : List (Setting ℕ ℕ ℕ)
calls =
    nearest_call "vec" (some (1 ∷ 2 ∷ [])) (pos 3)
    ∷ full_text_search_call nested []
    ∷ nearest_arrow_call "vec" (some 9) (pos 3)
    ∷ filter "a > 1"
    ∷ []

-- The configuration is sent as the number of its plugin, which the native state then holds.
abbrev encode : ℕ → Result String
encode zero = ok "0"
encode (suc zero) = ok "1"
encode (suc (suc h)) = err (leaf Leaf.internal)

abbrev sent : ScanConfig ℕ → Result String
sent cfg = encode cfg.scan_stats_plugin

abbrev plugin_in : String → ℕ
plugin_in options = if same_text options "1" then 1 else 0

abbrev outside : Native ℕ
outside = record { in_tokio = λ n. false; last_code = λ n. 0; last_message = λ n. none }

abbrev scanners : ScannerLib ℕ ℕ ℕ
scanners = record {
  scanner_new = λ p options q t n. (0, 7, plugin_in options);
  count_rows = λ sc t n. (0, 12, n);
  explain = λ verbose sc t n. (0, 1, n);
  analyze = λ mode sc t n. (0, 1, n);
  string_at = λ p n. "plan";
  string_free = λ p n. n;
  scanner_close = λ sc n. (if n == 0 then [] else n ∷ [], 0);
}

plugin_in-encode : (h : ℕ) (options : String) → encode h ≡ ok options → plugin_in options ≡ h
plugin_in-encode zero options e = let q : "0" ≡ options = cc in rw (← q) refl
plugin_in-encode (suc zero) options e = let q : "1" ≡ options = cc in rw (← q) refl
plugin_in-encode (suc (suc h)) options e = absurd cc

owned : Owns scanners sent
owned = record {
  plugin_of = λ sc n. n;
  of_new = λ p cfg options q t n e z. plugin_in-encode cfg.scan_stats_plugin options e;
  of_close = λ sc n. refl;
}

abbrev thread : World ℕ
thread = record {
  native = 0;
  now = 0;
  locks = 0;
  thread_token = none;
  live_tokens = [];
  next_token = 1;
}

-- Nothing is registered, and the dataset and its arrays are in use elsewhere.
abbrev start : Env ℕ ℕ
start = record { world = thread; plugins = empty; read_locks = 2; array_refs = 1 }

abbrev reporting : Scanner ℕ ℕ ℕ
reporting = record scan { scan_stats = some 30; vector_arr = some 9 }

abbrev finished : Env ℕ ℕ
finished =
    (with_scanner outside scanners sent (λ p. p) "scan count rows" 0 scanners.count_rows
      (λ x n. (x, n)) background (open_handle 5) reporting start).1

with_scanner_leaves_example : IsRestored start finished × IsSame start.plugins finished.plugins
with_scanner_leaves_example =
    with_scanner_leaves outside scanners sent (λ p. p) owned "scan count rows" 0 scanners.count_rows
      (λ x n. (x, n)) background (open_handle 5) reporting start (λ sc t n. refl) (λ sc x n. refl)
      (tt, omega arith) refl

copied : copy_c_bytes (some (8 ∷ [])) 1 ≡ ok (8 ∷ [])
unfolding copy_c_bytes
copied = refl

-- A callback that adds the first byte of its report to a total.
abbrev total : StatsFn ℕ ℕ
total stats st = (none, st + stats)

abbrev first_byte : List ℕ → Result ℕ
first_byte [] = err (leaf Leaf.internal)
first_byte (b ∷ bs) = ok b

abbrev observing : Scanner ℕ ℕ (StatsFn ℕ ℕ)
observing = record scan { scan_stats = some total }

abbrev plain_fmt : Fmt
plain_fmt = record { appendf = λ f args. []; error_text = λ e. 101 ∷ [] }
