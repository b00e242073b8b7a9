-- ===== src/Hooks/Checkpoint.antt =====
-- `checkpointAdapter` of lance/hooks.go, the plugin for a store of checkpoints.
use lance_go.Base.{
  ℕ, ◌-◌, ◌<◌, ◌^◌, ◌≡◌, refl, Bool, true, Option, none, some, List, [], ◌∷◌, arith, length, take,
  take-append, append-nil, ltb, ◌==◌, if◌then◌else◌, ap, subst, ◌∙◌, inl, inr, Option-cases,
}
use lance_go.Base.Int.{ℤ, pos, negsuc}
use lance_go.Base.Bytes.{le_put, le_u32, length-le_put, le_get-le_put_4, word32, word64}
use lance_go.Errors.{leaf, plain, wrap, Leaf, num, ok, err}
use lance_go.Plugin.{Registry}
use lance_go.Plugin.Loan.{Lends}
use lance_go.Plugin.Invoke.{
  Reply, returned, failed, panicked, Plugin, Fmt, Answer, go_callback_invoke, copy_c_bytes,
  copy_c_bytes_whole, callback_returned, callback_missed, call_ok, call_miss,
}
use lance_go.Hooks.{
  word_at, word32_at, Outcome, gave, fell, threw, imported, released, exported, Hooked, Import,
}

-- The conversion of a uint64 to an int.
abbrev int_of : ℕ → ℤ
int_of v = if ltb v (2 ^ 63) then pos v else negsuc (word64 - v - 1)

-- `UDFCheckpointStore`, over the state U of the store; what is not found is none.
pub record CheckpointStore (U R : Type 0) : Type 0 where
  pub get_batch : ℕ → ℤ → U → Outcome (Option R) × U
  pub insert_batch : ℕ → ℤ → R → U → Outcome Bool × U
  pub get_fragment : ℕ → U → Outcome (Option (List ℕ)) × U
  pub insert_fragment : List ℕ → U → Outcome Bool × U

abbrev ckpt_get_batch : ℕ
ckpt_get_batch = 0

abbrev ckpt_insert_batch : ℕ
ckpt_insert_batch = 1

abbrev pub ckpt_get_fragment : ℕ
ckpt_get_fragment = 2

abbrev ckpt_insert_fragment : ℕ
ckpt_insert_fragment = 3

-- The reply of a method that gives nothing.
abbrev done_reply : Outcome Bool → Reply
done_reply (gave _) = returned []
done_reply (fell e) = failed e
done_reply (threw v) = panicked v

module _ {U R : Type 0} (import_batch : Import R) (store : CheckpointStore U R) where
  -- The case `ckptGetBatch`: a batch that is found is exported, then released.
  unfoldable pub send_batch : List ℕ → Hooked U R → Reply × Hooked U R
  send_batch payload st =
      let (out, u) = store.get_batch (word32_at 0 payload) (int_of (word_at 4 payload)) st.user in
      elim out [
        | fell e ↦ (failed e, record st { user = u })
        | threw v ↦ (panicked v, record st { user = u })
        | gave found ↦ elim found [
          | none ↦ (failed (leaf Leaf.plugin_miss), record st { user = u })
          | some batch ↦ (
            returned [],
            record {
              user = u;
              log =
                  released batch
                  ∷ exported batch (word_at 12 payload) (word_at 20 payload)
                  ∷ st.log;
            },
          )
        ]
      ]

  -- The case `ckptInsertBatch`: a batch that is imported is released after the store's method.
  unfoldable pub receive_batch : List ℕ → Hooked U R → Reply × Hooked U R
  receive_batch payload st = elim (import_batch (word_at 12 payload) (word_at 20 payload)) [
    | err e ↦ (failed (wrap "lance: import checkpoint batch: %w" [] e), st)
    | ok rec ↦
        let (out, u) =
          store.insert_batch (word32_at 0 payload) (int_of (word_at 4 payload)) rec st.user in
        (done_reply out, record { user = u; log = released rec ∷ imported rec ∷ st.log })
  ]

  -- The case `ckptGetFragment`.
  unfoldable pub send_fragment : List ℕ → Hooked U R → Reply × Hooked U R
  send_fragment payload st =
      let (out, u) = store.get_fragment (word32_at 0 payload) st.user in
      (
        elim out [
          | fell e ↦ failed e
          | threw v ↦ panicked v
          | gave found ↦ elim found [
            | none ↦ failed (leaf Leaf.plugin_miss)
            | some json ↦ returned json
          ]
        ],
        record st { user = u },
      )

  -- The case `ckptInsertFragment`.
  unfoldable pub store_fragment : List ℕ → Hooked U R → Reply × Hooked U R
  store_fragment payload st =
      let (out, u) = store.insert_fragment payload st.user in
      (done_reply out, record st { user = u })

  -- `checkpointAdapter.Invoke`
  unfoldable pub checkpoint_invoke : Plugin (Hooked U R)
  checkpoint_invoke method payload st =
      if method == ckpt_get_batch
      then (if ltb (length payload) 28
          then (failed (plain "lance: short checkpoint get_batch payload" []), st)
          else send_batch payload st)
      else if method == ckpt_insert_batch
      then (if ltb (length payload) 28
          then (failed (plain "lance: short checkpoint insert_batch payload" []), st)
          else receive_batch payload st)
      else if method == ckpt_get_fragment
      then (if ltb (length payload) 4
          then (failed (plain "lance: short checkpoint get_fragment payload" []), st)
          else send_fragment payload st)
      else if method == ckpt_insert_fragment
      then store_fragment payload st
      else (failed (plain "lance: unknown checkpoint method %d" (num method ∷ [])), st)

  -- The store's bytes, or a miss.
  pub data Fetched (found : Option (List ℕ)) (a : Answer (Hooked U R)) : Type 0 where
    hit : (json : List ℕ) → found ≡ some json → a.rc ≡ call_ok → a.out ≡ some json → Fetched found a
    miss : found ≡ none → a.rc ≡ call_miss → Fetched found a

  -- A fragment is looked up in the store by the 32-bit id that rust/src/hooks.rs sends: through
  -- the plugin's handle, and if the store does not fail or panic, native code gets the bytes
  -- that the store has for it, or a miss if the store has none.
  pub checkpoint_fragment :
      (fmt : Fmt) (r r' : Registry (Plugin (Hooked U R))) (h id : ℕ) (found : Option (List ℕ))
      (st : Hooked U R)
      → Lends h checkpoint_invoke r r'
      → id < word32
      → (store.get_fragment id st.user).0 ≡ gave found
      → let a = go_callback_invoke fmt r' h ckpt_get_fragment (some (le_put 4 id)) 4 true st in
        Fetched found a
  unfolding checkpoint_invoke send_fragment
  checkpoint_fragment fmt r r' h id found st (_, _, there, _) small given =
      let p = le_put 4 id in
      let n : length p ≡ 4 = length-le_put 4 id in
      let read : word32_at 0 p ≡ id =
        ap le_u32 (subst (λ q. take 4 q ≡ p) (append-nil p) (take-append 4 p [] n))
        ∙ subst (λ q. le_u32 q ≡ id) (append-nil p) (le_get-le_put_4 id [] small) in
      let copied : copy_c_bytes (some p) 4 ≡ ok p =
        subst (λ k. copy_c_bytes (some p) k ≡ ok p) n (copy_c_bytes_whole p (omega arith)) in
      let st' : Hooked U R = record st { user = (store.get_fragment id st.user).1 } in
      elim (Option-cases found) [
        | inl absent ↦
            let (rc, _) =
              callback_missed fmt r' h ckpt_get_fragment (some p) 4 true st checkpoint_invoke p st'
                (refl, there, copied)
                (rw (checkpoint_invoke, n) (rw (send_fragment, read, given, absent) refl)) in
            miss absent rc
        | inr (json, present) ↦
            let (rc, out, _) =
              callback_returned fmt r' h ckpt_get_fragment (some p) 4 true st checkpoint_invoke p
                json st' (refl, there, copied)
                (rw (checkpoint_invoke, n) (rw (send_fragment, read, given, present) refl)) in
            hit json present rc out
      ]
