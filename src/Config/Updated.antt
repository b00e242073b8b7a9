-- ===== src/Config/Updated.antt =====
-- What the update calls of lance/config.go make of a table of settings in the dataset.
use lance_go.Base.{
  ℕ, ◌≡◌, refl, ◌∙◌, inl, inr, Bool, false, Option, none, some, String, List, [], arith,
  if◌then◌else◌,
}
use lance_go.Errors.{GoError, Result, ok, err, Result-cases}
use lance_go.Errors.Ffi.{Ctx, World, tick, Native}
use lance_go.Handle.{Handle}
use lance_go.Ledger.{Ledger, same_error, fetch_op}
use lance_go.Ledger.Ops.{fetch_op-ok}
use lance_go.Ledger.Settled.{native_result}
use lance_go.Maps.{
  Updates, put_deletes, merged, entry, contains, IsMap, entry-put_values, entry-put_deletes,
}
use lance_go.Open.{Storage}
use lance_go.Transaction.{Memory, Store, free_string}
use lance_go.Config.Changes.{ChangeLib, update_metadata}
use lance_go.Config.{Giving, values, update_map, delete_metadata_keys, update_error, marshal_error}

-- The map that `values` sends overrides the settings that it names.
pub merged-values :
    (kv : Storage) (table : String → Option String) (k : String)
    → IsMap kv
    → merged (values kv) table k ≡ (elim (entry k kv) [ none ↦ table k | some v ↦ some v ])
unfolding values
merged-values kv table k h = ground (arith, entry-put_values k kv [] h)

-- The map that deletes keys deletes these.
pub merged-put_deletes :
    (keys : List String) (table : String → Option String) (k : String)
    → merged (put_deletes keys []) table k ≡ (if contains k keys then none else table k)
merged-put_deletes keys table k = ground (arith, entry-put_deletes k keys [])

-- The documented behaviour of a native update that does not replace: with a map of updates as JSON it
-- merges them into the table, when it returns OK; and giving back a string leaves the table alone.
pub record MergesInto {N : Type 0} (f : ℕ → String → Bool → Giving N (Option ℕ)) (mem : Memory N)
    (send : Updates → Result String) (table : N → String → Option String) : Type 0 where
  pub merges :
      (p : ℕ) (u : Updates) (s : String) (t : Option ℕ) (n : N) (k : String)
      → send u ≡ ok s
      → (f p s false t n).0 ≡ 0
      → table (f p s false t n).2 k ≡ merged u (table n) k
  pub keeps : (a : ℕ) (n : N) (k : String) → table (mem.string_free a n) k ≡ table n k

module _ {N : Type 0} (lib : Native N) (mem : Memory N) (c : Ctx) (decode : String → Result Storage)
    (send : Updates → Result String) (table : N → String → Option String)
    (f : ℕ → String → Bool → Giving N (Option ℕ)) (ds : Handle) (locks : ℕ) where
  table-free_string :
      (out : Option ℕ) (st : Store N) (k : String)
      → MergesInto f mem send table
      → table (free_string mem out st).native k ≡ table st.native k
  table-free_string none st k documented = refl
  table-free_string (some a) st k documented = documented.keeps a st.native k

  update_map_sent :
      (verb : String) (u : Updates) (replace : Bool) (w : World (Ledger N)) (s : String)
      → send u ≡ ok s
      → update_map lib mem c decode send verb ds locks (some u) replace f w
        ≡ fetch_op lib mem c 0 decode same_error
            (update_error verb)
            "dataset"
            verb
            ds
            locks
            (λ p. f p s replace)
            w
  unfolding update_map fetch_op
  update_map_sent verb u replace w s sent = simp (update_map, sent)

  unsendable :
      (verb : String) (u : Updates) (replace : Bool) (w : World (Ledger N)) (e : GoError)
      → send u ≡ err e
      → (update_map lib mem c decode send verb ds locks (some u) replace f w).0
        ≡ err (marshal_error e)
  unfolding update_map
  unsendable verb u replace w e bad = rw (update_map, bad)

  -- An update that succeeds has merged its map into the table.
  update_map_merges :
      (verb : String) (u : Updates) (w : World (Ledger N)) (m : Storage)
      → MergesInto f mem send table
      → let (res, after) = update_map lib mem c decode send verb ds locks (some u) false f w in
        res ≡ ok m
        → (k : String)
        → table after.world.native.store.native k ≡ merged u (table w.native.store.native) k
  update_map_merges verb u w m documented good k = elim (Result-cases (send u)) [
    | inr (e, bad) ↦ absurd (cc (unsendable verb u false w e bad))
    | inl (s, sent) ↦
        let eq = update_map_sent verb u false w s sent in
        let (p, live, there, (reaches, code, read), store) =
          fetch_op-ok lib mem c 0 decode same_error (update_error verb) "dataset" verb ds locks
            (λ p. f p s false) w m (rw (← eq) good) in
        let (rc, out, n) = native_result lib c (f p s false) (tick w) in
        rw (eq, store)
          (table-free_string out _ k documented
            ∙ documented.merges p u s _ w.native.store.native k sent code)
  ]

  -- Where the native update merges its map as documented: a `DeleteMetadataKeys` that returns nil
  -- leaves a table without these keys, with all others as they were.
  pub delete_metadata_keys_removes :
      (keys : List String) (w : World (Ledger N))
      → MergesInto f mem send table
      → let (e, after) = delete_metadata_keys lib mem c decode send ds locks keys f w in
        e ≡ none
        → (k : String)
        → table after.world.native.store.native k
          ≡ (if contains k keys then none else table w.native.store.native k)
  unfolding delete_metadata_keys
  delete_metadata_keys_removes keys w documented good k =
      let run =
        update_map lib mem c decode send "delete metadata keys" ds locks
          (some (put_deletes keys [])) false f w in
      elim (Result-cases run.0) [
        | inr (e, bad) ↦ absurd (ground arith)
        | inl (m, fine) ↦
            update_map_merges "delete metadata keys" (put_deletes keys []) w m documented fine k
            ∙ merged-put_deletes keys (table w.native.store.native) k
      ]

-- Where the native update merges its map as documented: an `UpdateMetadata` of a map that returns no
-- error leaves a table with the new values, and every other key as it was.
pub update_metadata_overrides :
    {N : Type 0} (lib : Native N) (native : ChangeLib N) (mem : Memory N)
    (decode : String → Result Storage) (send : Updates → Result String)
    (table : N → String → Option String) (c : Ctx) (ds : Handle) (locks : ℕ) (kv : Storage)
    (w : World (Ledger N)) (m : Storage)
    → MergesInto native.update_metadata mem send table
    → IsMap kv
    → let (res, after) = update_metadata lib native mem decode send c ds locks kv w in
      res ≡ ok m
      → (k : String)
      → table after.world.native.store.native k
        ≡ (elim (entry k kv) [ none ↦ table w.native.store.native k | some v ↦ some v ])
unfolding update_metadata
update_metadata_overrides lib native mem decode send table c ds locks kv w m documented uniq good
      k =
    update_map_merges lib mem c decode send table native.update_metadata ds locks "update metadata"
      (values kv) w m documented good k
    ∙ merged-values kv (table w.native.store.native) k uniq
