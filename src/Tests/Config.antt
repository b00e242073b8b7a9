-- ===== src/Tests/Config.antt =====
-- Runs of lance/config.go: a native memory with one string, and a table of settings.
use text.Mathlib.TextEquality.{eq_iff}
use lance_go.Base.{
  ℕ, ◌+◌, ◌≡◌, refl, ◌↔◌, Bool, false, Option, none, some, String, [], ◌∷◌, arith, if◌then◌else◌,
}
use lance_go.Errors.{GoError, Result, ok, err, leaf, Leaf}
use lance_go.Errors.Ffi.{Native, World, background, ffi_call}
use lance_go.Errors.Out.{ffi_call_out}
use lance_go.Handle.{open_handle, handle_op, check_open, error_of}
use lance_go.Json.{same_text}
use lance_go.Ledger.{Ledger, same_error, fetch}
use lance_go.Ledger.Ops.{Answered, Gives}
use lance_go.Ledger.Settled.{Spared}
use lance_go.Maps.{Updates, entry, contains, put, put_values, put_deletes}
use lance_go.Open.{Storage}
use lance_go.Transaction.{Memory}
use lance_go.Config.{Giving, json_op, update_map, delete_metadata_keys, values}
use lance_go.Config.Changes.{ChangeLib, update_metadata}
use lance_go.Config.Updated.{MergesInto, update_metadata_overrides, delete_metadata_keys_removes}
use lance_go.Config.Answers.{json_op-ok_iff, json_op_answers, json_error}

abbrev pub outside : {N : Type 0} → Native N
outside = record { in_tokio = λ n. false; last_code = λ n. 0; last_message = λ n. none }

abbrev pub memory : {N : Type 0} → Memory N
memory = record {
  bytes_at = λ a n. 8 ∷ 9 ∷ [];
  bytes_free = λ a len n. n;
  string_at = λ a n. "{}";
  string_free = λ a n. n;
}

abbrev pub thread_of : {N : Type 0} → N → World N
thread_of n = record {
  native = n;
  now = 0;
  locks = 0;
  thread_token = none;
  live_tokens = [];
  next_token = 1;
}

abbrev pub ledger_of : {N : Type 0} → N → Ledger N
ledger_of n = record { store = record { native = n; freed = [] }; live_exports = 0 }

abbrev pub thread : World (Ledger ℕ)
thread = thread_of (ledger_of 5)

abbrev decode : String → Result ℕ
decode shown = ok 7

abbrev native_config : ℕ → Giving ℕ (Option ℕ)
native_config p t n = (0, some (p + 100), n + 1)

json_op-ok_iff_example :
    ((json_op outside memory background "config" "config" decode
        (open_handle 3)
        0
        native_config
        thread).0
      ≡ ok 7)
    ↔ ((p : ℕ) × (background.err 0 ≡ none)
        × ((open_handle 3).ptr ≡ some p)
        × Gives outside memory background 0 decode same_error
            (json_error outside memory background "config" "config" decode
              (open_handle 3)
              0
              native_config
              thread)
            native_config
            thread
            p
            7)
json_op-ok_iff_example =
    json_op-ok_iff outside memory background "config" "config" decode (open_handle 3) 0
      native_config thread 7

json_op_answers_example :
    let (res, after) =
      json_op outside memory background "config" "config" decode
        (open_handle 3)
        0
        native_config
        thread in
    (after.held_locks ≡ 0)
    × (after.span_ends ≡ error_of res ∷ [])
    × Answered outside memory background 0 decode same_error
        (json_error outside memory background "config" "config" decode
          (open_handle 3)
          0
          native_config
          thread)
        "config"
        (open_handle 3)
        native_config
        thread
        res
        after.world
    × Spared thread after.world
json_op_answers_example =
    json_op_answers outside memory background "config" "config" decode (open_handle 3) 0
      native_config thread

abbrev unexpected : GoError
unexpected = leaf Leaf.invalid_argument

-- A table of settings, which is the whole of the native state here.
abbrev Table : Type 0
Table = String → Option String

abbrev settings : Table
settings k = if same_text k "a" then some "1" else none

abbrev decode_map : String → Result Storage
decode_map shown = ok []

-- An encoder of the maps that delete one key, and a native function that deletes it.
abbrev send_deleted : Updates → Result String
send_deleted [] = err unexpected
send_deleted ((k, some v) ∷ u) = err unexpected
send_deleted ((k, none) ∷ []) = ok k
send_deleted ((k, none) ∷ x ∷ u) = err unexpected

abbrev native_delete : ℕ → String → Bool → Giving Table (Option ℕ)
native_delete p s replace t table = (0, none, λ j. if same_text j s then none else table j)

deletes_merge :
    (u : Updates) (s : String) (table : Table) (k : String)
    → send_deleted u ≡ ok s
    → (if same_text k s then none else table k) ≡ (elim (entry k u) [ none ↦ table k | some v ↦ v ])
deletes_merge [] s table k e = absurd cc
deletes_merge ((j, some v) ∷ u) s table k e = absurd cc
deletes_merge ((j, none) ∷ []) s table k e = ground arith
deletes_merge ((j, none) ∷ x ∷ u) s table k e = absurd cc

native_delete-MergesInto : MergesInto native_delete memory send_deleted (λ n. n)
native_delete-MergesInto = record {
  merges = λ p u s t n k sent fine. deletes_merge u s n k sent;
  keeps = λ a n k. refl;
}

abbrev deleted : Result Storage
deleted = ok []

delete_metadata_keys_removes_example :
    let (e, after) =
      delete_metadata_keys outside memory background decode_map send_deleted
        (open_handle 3)
        0
        ("a" ∷ [])
        native_delete
        (thread_of (ledger_of settings)) in
    after.world.native.store.native "a" ≡ (if contains "a" ("a" ∷ []) then none else settings "a")
unfolding delete_metadata_keys update_map fetch put_deletes handle_op check_open ffi_call_out
    ffi_call put
delete_metadata_keys_removes_example =
    delete_metadata_keys_removes outside memory background decode_map send_deleted (λ n. n)
      native_delete (open_handle 3) 0 ("a" ∷ []) (thread_of (ledger_of settings))
      native_delete-MergesInto refl "a"

-- An encoder of the maps that set one key to "2", and a native function that does.
abbrev send_set : Updates → Result String
send_set [] = err unexpected
send_set ((k, none) ∷ u) = err unexpected
send_set ((k, some v) ∷ []) = if same_text v "2" then ok k else err unexpected
send_set ((k, some v) ∷ x ∷ u) = err unexpected

abbrev native_set : ℕ → String → Bool → Giving Table (Option ℕ)
native_set p s replace t table = (0, none, λ j. if same_text j s then some "2" else table j)

sets_merge :
    (u : Updates) (s : String) (table : Table) (k : String)
    → send_set u ≡ ok s
    → (if same_text k s then some "2" else table k)
      ≡ (elim (entry k u) [ none ↦ table k | some v ↦ v ])
sets_merge [] s table k e = absurd cc
sets_merge ((j, none) ∷ u) s table k e = absurd cc
sets_merge ((j, some v) ∷ []) s table k e = ground (arith, eq_iff v "2")
sets_merge ((j, some v) ∷ x ∷ u) s table k e = absurd cc

abbrev changes : ChangeLib Table
changes = record {
  update_config = native_set;
  update_metadata = native_set;
  update_schema_metadata = native_set;
  update_field_metadata = λ p name s replace t table. (0, table);
}

native_set-MergesInto : MergesInto changes.update_metadata memory send_set (λ n. n)
native_set-MergesInto = record {
  merges = λ p u s t n k sent fine. sets_merge u s n k sent;
  keeps = λ a n k. refl;
}

update_metadata_overrides_example :
    let (res, after) =
      update_metadata outside changes memory decode_map send_set background
        (open_handle 3)
        0
        (("a", "2") ∷ [])
        (thread_of (ledger_of settings)) in
    after.world.native.store.native "a"
    ≡ (elim (entry "a" (("a", "2") ∷ [])) [ none ↦ settings "a" | some v ↦ some v ])
unfolding update_metadata update_map fetch values put_values handle_op check_open ffi_call_out
    ffi_call put
update_metadata_overrides_example =
    update_metadata_overrides outside changes memory decode_map send_set (λ n. n) background
      (open_handle 3) 0 (("a", "2") ∷ []) (thread_of (ledger_of settings)) [] native_set-MergesInto
      (refl, tt) refl "a"
