-- ===== src/Hooks.antt =====
-- lance/hooks.go: the plugins for the progress of a write, for a column mapper and for its
-- checkpoints.
pub mod Checkpoint
pub mod Columns
pub mod Mapper
use lance_go.Base.{
  ℕ, ◌+◌, ◌*◌, ◌^◌, Bool, true, false, not, ◌&&◌, Option, none, some, String, List, [], ◌∷◌, ◌++◌,
  length, take, drop, ltb, leb, ◌==◌, if◌then◌else◌,
}
use lance_go.Base.Int.{ℤ, pos, negsuc}
use lance_go.Base.Bytes.{le_u32, le_u64, le_put}
use lance_go.Errors.{GoError, leaf, plain, wrap, Leaf, num, Result, ok, err}
use lance_go.Plugin.Invoke.{Reply, returned, failed, panicked, Plugin}

-- `WriteStats`
pub record WriteStats : Type 0 where
  pub bytes_written : ℕ
  pub rows_written : ℕ
  pub files_written : ℕ

-- The bytes of a payload from `i` on.
abbrev pub word_at : ℕ → List ℕ → ℕ
word_at i payload = le_u64 (take 8 (drop i payload))

abbrev pub word32_at : ℕ → List ℕ → ℕ
word32_at i payload = le_u32 (take 4 (drop i payload))

-- How a callback of the user ends: with a value, an error, or a panic.
pub data Outcome (A : Type 0) : Type 0 where
  gave : A → Outcome A
  fell : GoError → Outcome A
  threw : List ℕ → Outcome A

-- `writeProgressAdapter.Invoke`, over the state of the callback, which may panic with a value.
unfoldable pub write_progress_invoke :
    {U : Type 0} → (WriteStats → U → Option (List ℕ) × U) → Plugin U
write_progress_invoke fn method payload u =
    if method == 0 && leb 20 (length payload)
    then (let (thrown, u') =
          fn
            (record {
              bytes_written = word_at 0 payload;
              rows_written = word_at 8 payload;
              files_written = word32_at 16 payload;
            })
            u in
        (elim thrown [ none ↦ returned [] | some v ↦ panicked v ], u'))
    else (returned [], u)

-- 64-bit words, one after the other.
unfoldable pub words : List ℕ → List ℕ
words [] = []
words (v ∷ vs) = le_put 8 v ++ words vs

-- The payload that rust/src/session.rs sends.
unfoldable pub progress_payload : WriteStats → List ℕ
progress_payload s =
    le_put 8 s.bytes_written ++ (le_put 8 s.rows_written ++ (le_put 4 s.files_written ++ []))

-- `pack_ptrs` of rust/src/hooks.rs.
abbrev pub pack_ptrs : ℕ → ℕ → ℕ → ℕ → List ℕ
pack_ptrs in_array in_schema out_array out_schema =
    words (in_array ∷ in_schema ∷ out_array ∷ out_schema ∷ [])

-- What an adapter does to a record batch at the boundary.
pub data Event (R : Type 0) : Type 0 where
  imported : R → Event R
  released : R → Event R
  exported : R → ℕ → ℕ → Event R

-- The state of the user's callbacks, and the events, the newest first.
pub record Hooked (U R : Type 0) : Type 0 where
  pub user : U
  pub log : List (Event R)

-- The C data interface, as far as the adapters use it: the record batch at two addresses.
abbrev pub Import : Type 0 → Type 0
Import R = ℕ → ℕ → Result R

module _ {U R : Type 0} (import_batch : Import R) where
  -- Behind the import of `udfAdapter.Invoke`: the mapper, the export, and the two deferred releases.
  unfoldable pub map_batch : (R → U → Outcome R × U) → R → ℕ → ℕ → Hooked U R → Reply × Hooked U R
  map_batch fn rec out_array out_schema st =
      let (out, u) = fn rec st.user in
      elim out [
        | gave mapped ↦ (
          returned [],
          record {
            user = u;
            log =
                released rec
                ∷ released mapped
                ∷ exported mapped out_array out_schema
                ∷ imported rec
                ∷ st.log;
          },
        )
        | fell e ↦ (failed e, record { user = u; log = released rec ∷ imported rec ∷ st.log })
        | threw v ↦ (panicked v, record { user = u; log = released rec ∷ imported rec ∷ st.log })
      ]

  -- `udfAdapter.Invoke`
  unfoldable pub udf_invoke : (R → U → Outcome R × U) → Plugin (Hooked U R)
  udf_invoke fn method payload st =
      if not (method == 0)
      then (failed (plain "lance: unknown udf method %d" (num method ∷ [])), st)
      else if ltb (length payload) 32
      then (failed (plain "lance: short udf payload (%d bytes)" (num (length payload) ∷ [])), st)
      else elim (import_batch (word_at 0 payload) (word_at 8 payload)) [
        | err e ↦ (failed (wrap "lance: import udf input: %w" [] e), st)
        | ok rec ↦ map_batch fn rec (word_at 16 payload) (word_at 24 payload) st
      ]
