-- ===== src/Hooks/Mapper.antt =====
-- What native code gets of the plugins of lance/hooks.go, called by their handle.
use lance_go.Base.{
  Option, none, ℕ, ◌+◌, ◌<◌, ◌≡◌, refl, ap, subst, ◌∙◌, true, some, List, [], ◌∷◌, ◌++◌, arith,
  length, take, drop, length-append, take-append, drop-append, drop-drop, append-nil,
}
use lance_go.Base.Bytes.{
  le_u32, word32, le_get-le_put_4, le_put, le_u64, word64, length-le_put, le_get-le_put_8,
}
use lance_go.Errors.{ok}
use lance_go.Plugin.{Registry}
use lance_go.Plugin.Loan.{Lends}
use lance_go.Plugin.Invoke.{
  returned, Fmt, Plugin, go_callback_invoke, callback_returned, copy_c_bytes, copy_c_bytes_whole,
  call_ok,
}
use lance_go.Hooks.{
  write_progress_invoke, progress_payload, WriteStats, word32_at, word_at, words, Outcome, gave,
  imported, released, exported, Hooked, Import, map_batch, udf_invoke, pack_ptrs,
}

word_at-head : (a : ℕ) (rest : List ℕ) → a < word64 → word_at 0 (le_put 8 a ++ rest) ≡ a
word_at-head a rest h =
    rw (take-append 8 (le_put 8 a) rest (length-le_put 8 a), ← append-nil (le_put 8 a))
      (le_get-le_put_8 a [] h)

drop_word : (i k a : ℕ) (rest : List ℕ) → 8 + i ≡ k → drop k (le_put 8 a ++ rest) ≡ drop i rest
drop_word i k a rest e =
    drop-drop 8 i k (le_put 8 a ++ rest) e
    ∙ ap (drop i) (drop-append 8 (le_put 8 a) rest (length-le_put 8 a))

word_at-skip :
    (i k a : ℕ) (rest : List ℕ) → 8 + i ≡ k → word_at k (le_put 8 a ++ rest) ≡ word_at i rest
word_at-skip i k a rest e = ap (λ bs. le_u64 (take 8 bs)) (drop_word i k a rest e)

length-word : (a : ℕ) (rest : List ℕ) → length (le_put 8 a ++ rest) ≡ 8 + length rest
length-word a rest = omega (arith, length-append (le_put 8 a) rest, length-le_put 8 a)

-- Four addresses are read back from the payload that holds them.
pub word_at-pack_ptrs :
    (a b c d : ℕ)
    → a < word64
    → b < word64
    → c < word64
    → d < word64
    → let p = pack_ptrs a b c d in
      (length p ≡ 32)
      × (word_at 0 p ≡ a)
      × (word_at 8 p ≡ b)
      × (word_at 16 p ≡ c)
      × (word_at 24 p ≡ d)
unfolding words
word_at-pack_ptrs a b c d ha hb hc hd =
    let p₃ = le_put 8 d ++ [] in
    let p₂ = le_put 8 c ++ p₃ in
    let p₁ = le_put 8 b ++ p₂ in
    (
      omega (arith, length-word a p₁, length-word b p₂, length-word c p₃, length-word d []),
      word_at-head a p₁ ha,
      word_at-skip 0 8 a p₁ refl ∙ word_at-head b p₂ hb,
      word_at-skip 8 16 a p₁ refl ∙ word_at-skip 0 8 b p₂ refl ∙ word_at-head c p₃ hc,
      word_at-skip 16 24 a p₁ refl
          ∙ word_at-skip 8 16 b p₂ refl
          ∙ word_at-skip 0 8 c p₃ refl
          ∙ word_at-head d [] hd,
    )

-- The mapper's plugin, called by its handle with four 64-bit addresses as rust/src/hooks.rs
-- packs them, with a record batch that can be imported and a mapper that gives one: it imports
-- the batch at the first two addresses, passes it to the mapper, exports the batch that this
-- gives to the last two, and answers OK with no bytes; both batches are released once, after the
-- export.
pub udf_called :
    {U R : Type 0} (import_batch : Import R) (fmt : Fmt) (fn : R → U → Outcome R × U)
    (r r' : Registry (Plugin (Hooked U R))) (h a b c d : ℕ) (rec out : R) (st : Hooked U R)
    → Lends h (udf_invoke import_batch fn) r r'
    → a < word64
    → b < word64
    → c < word64
    → d < word64
    → import_batch a b ≡ ok rec
    → (fn rec st.user).0 ≡ gave out
    → let answer = go_callback_invoke fmt r' h 0 (some (pack_ptrs a b c d)) 32 true st in
      (answer.rc ≡ call_ok)
      × (answer.out ≡ some [])
      × (answer.state.user ≡ (fn rec st.user).1)
      × (answer.state.log ≡ released rec ∷ released out ∷ exported out c d ∷ imported rec ∷ st.log)
unfolding udf_invoke map_batch
udf_called {U = U} {R = R} import_batch fmt fn r r' h a b c d rec out st (_, _, there, _) ha hb hc
      hd given mapped =
    let p = pack_ptrs a b c d in
    let (n, wa, wb, wc, wd) = word_at-pack_ptrs a b c d ha hb hc hd in
    let copied : copy_c_bytes (some p) 32 ≡ ok p =
      subst (λ k. copy_c_bytes (some p) k ≡ ok p) n (copy_c_bytes_whole p (omega arith)) in
    let st' : Hooked U R = record {
      user = (fn rec st.user).1;
      log = released rec ∷ released out ∷ exported out c d ∷ imported rec ∷ st.log;
    } in
    let (rc, bytes, state) =
      callback_returned fmt r' h 0 (some p) 32 true st (udf_invoke import_batch fn) p [] st'
        (refl, there, copied)
        (rw (udf_invoke, n, wa, wb, given, wc, wd) (rw (map_batch, mapped) refl)) in
    (rc, bytes, ap (λ (s : Hooked U R). s.user) state, ap (λ (s : Hooked U R). s.log) state)

-- The plugin for progress gets the statistics that rust/src/session.rs sends: its callback runs once,
-- on those three numbers, and a callback that does not panic answers with no bytes.
progress_reported :
    {U : Type 0} (fn : WriteStats → U → Option (List ℕ) × U) (stats : WriteStats) (u : U)
    → stats.bytes_written < word64
    → stats.rows_written < word64
    → stats.files_written < word32
    → (fn stats u).0 ≡ none
    → write_progress_invoke fn 0 (progress_payload stats) u ≡ (returned [], (fn stats u).1)
unfolding write_progress_invoke progress_payload
progress_reported fn stats u hb hr hf calm =
    let p₂ = le_put 4 stats.files_written ++ [] in
    let p₁ = le_put 8 stats.rows_written ++ p₂ in
    let p = le_put 8 stats.bytes_written ++ p₁ in
    let n : length p ≡ 20 = omega (
      arith,
      length-word stats.bytes_written p₁,
      length-word stats.rows_written p₂,
      length-append (le_put 4 stats.files_written) [],
      length-le_put 4 stats.files_written,
    ) in
    let b = word_at-head stats.bytes_written p₁ hb in
    let r = word_at-skip 0 8 stats.bytes_written p₁ refl ∙ word_at-head stats.rows_written p₂ hr in
    let f : word32_at 16 p ≡ stats.files_written =
      ap (λ bs. le_u32 (take 4 bs))
        (drop_word 8 16 stats.bytes_written p₁ refl ∙ drop_word 0 8 stats.rows_written p₂ refl)
      ∙ ap le_u32
          (take-append 4 (le_put 4 stats.files_written) [] (length-le_put 4 stats.files_written))
      ∙ subst (λ q. le_u32 q ≡ stats.files_written) (append-nil (le_put 4 stats.files_written))
          (le_get-le_put_4 stats.files_written [] hf) in
    rw (n, b, r, f, calm) refl
