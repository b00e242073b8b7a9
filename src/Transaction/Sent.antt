-- ===== src/Transaction/Sent.antt =====
-- When a commit of lance/transaction.go succeeds, and what it sends.
use lance_go.Base.{
  ℕ, ◌^◌, ◌<◌, length, false, ◌||◌, ◌≡◌, refl, ap, ◌↔◌, inl, inr, Option, none, some, String, List,
  [], ◌∷◌, arith, Option-cases, List-cases,
}
use lance_go.Errors.{GoError, Result, ok, Result-cases}
use lance_go.Errors.Ffi.{Ctx, World, tick, Native, Passes, seen_token}
use lance_go.Errors.Out.{
  ffi_call_out-cases, ffi_call_out-ok, ffi_call_out_reached, ffi_call_out_native,
}
use lance_go.Handle.{Handle, open_handle}
use lance_go.Json.{same_text}
use lance_go.Transaction.{Transaction, Memory, Store, receive}
use lance_go.Transaction.Receive.{receive-ok}
use lance_go.Transaction.Commit.{
  CommitConfig, CommitLib, crashed, blobs, commit_bytes, execute, execute_batch,
}

-- The list holds a nil transaction.
abbrev pub HasNil : {V : Type 0} → List (Option (Transaction V)) → Type 0
HasNil [] = ⊥
HasNil (none ∷ ts) = Unit {0}
HasNil (some t ∷ ts) = HasNil ts

module _ {N V : Type 0} (lib : Native N) (native : CommitLib N)
    (marshal : CommitConfig → Result String) (c : Ctx) (cfg : CommitConfig) (w : World N) where
  -- The transaction's bytes reach the native commit, which takes them and gives the handle.
  pub data Commits (txn : Option (Transaction V)) (h : Handle) : Type 0 where
    committed :
        (t : Transaction V) (b : ℕ) (bs : List ℕ) (options : String)
        → txn ≡ some t
        → t.pb ≡ b ∷ bs
        → c.err w.now ≡ none
        → marshal cfg ≡ ok options
        → Passes lib c (tick w)
        → (let (rc, out, n) =
              native.commit cfg.uri
                (b ∷ bs)
                options
                cfg.storage
                (seen_token lib c (tick w))
                w.native in
            (rc ≡ 0) × (h ≡ open_handle out))
        → Commits txn h

  module _ (t : Transaction V) (h : Handle) (b : ℕ) (bs : List ℕ) (options : String) where
    -- Behind its guards `Execute` sends the bytes.
    execute_reaches :
        t.pb ≡ b ∷ bs
        → c.err w.now ≡ none
        → marshal cfg ≡ ok options
        → execute lib native marshal c cfg (some t) w
          ≡ commit_bytes lib native marshal c cfg (b ∷ bs) options (tick w)
    unfolding execute
    execute_reaches full live good = simp (execute, full, live, good)

    commits_sent :
        t.pb ≡ b ∷ bs
        → c.err w.now ≡ none
        → marshal cfg ≡ ok options
        → (commit_bytes lib native marshal c cfg (b ∷ bs) options (tick w)).0 ≡ ok h
        → Commits (some t) h
    unfolding commit_bytes
    commits_sent full live good e =
        elim (ffi_call_out_reached lib c 0 (native.commit cfg.uri (b ∷ bs) options cfg.storage)
          (tick w)) [
            | inr (stopped, _, er, bad) ↦ absurd (ground arith)
            | inl (passes, _) ↦
                elim (ffi_call_out-cases lib c 0
                  (native.commit cfg.uri (b ∷ bs) options cfg.storage) (tick w)) [
                    | inr ((er, bad), _) ↦ absurd (ground arith)
                    | inl (fine, rc, out, _) ↦
                        committed t b bs options refl full live good passes (rc, ground arith)
                  ]
          ]

  commits :
      (txn : Option (Transaction V)) (h : Handle)
      → (execute lib native marshal c cfg txn w).0 ≡ ok h
      → Commits txn h
  unfolding execute
  commits none h e = absurd (ground arith)
  commits (some t) h e = elim (List-cases t.pb) [
    | inl bare ↦ absurd (ground arith)
    | inr (b, bs, full) ↦ elim (Option-cases (c.err w.now)) [
      | inr (l, dead) ↦ absurd (ground arith)
      | inl live ↦ elim (Result-cases (marshal cfg)) [
        | inr (x, bad) ↦ absurd (ground arith)
        | inl (options, good) ↦
            commits_sent t h b bs options full live good
              (rw⁻¹ (execute_reaches t h b bs options full live good) e)
      ]
    ]
  ]

  commits_back :
      (txn : Option (Transaction V)) (h : Handle)
      → Commits txn h
      → (execute lib native marshal c cfg txn w).0 ≡ ok h
  unfolding execute commit_bytes
  commits_back txn h (committed t b bs options there full live good passes (rc, made)) =
      let (r, out, n) =
        native.commit cfg.uri (b ∷ bs) options cfg.storage (seen_token lib c (tick w)) w.native in
      let (fine, got, _) =
        ffi_call_out-ok lib c 0 out (native.commit cfg.uri (b ∷ bs) options cfg.storage) (tick w) n
          passes (ap (λ (r' : ℕ). (r', out, n)) rc) in
      rw (there, execute_reaches t h b bs options full live good)
        (rw (commit_bytes, fine, got, made) refl)

  -- `Execute` succeeds exactly when it has a transaction with some bytes, the context is live at its
  -- start and before the native call, encoding/json takes the options, the thread is outside the
  -- native runtime, and the native commit takes these bytes; it then gives an open handle of the
  -- dataset that the commit gives.
  pub execute-ok_iff :
      (txn : Option (Transaction V)) (h : Handle)
      → ((execute lib native marshal c cfg txn w).0 ≡ ok h) ↔ Commits txn h
  execute-ok_iff txn h = (commits txn h, commits_back txn h)

  blobs-HasNil : (ts : List (Option (Transaction V))) → blobs ts ≡ none → HasNil ts
  unfolding blobs
  blobs-HasNil [] h = cc
  blobs-HasNil (none ∷ ts) h = tt
  blobs-HasNil (some t ∷ ts) h = elim (Option-cases (blobs ts)) [
    | inl bad ↦ blobs-HasNil ts bad
    | inr (bs, good) ↦ absurd (ground arith)
  ]

  HasNil-blobs : (ts : List (Option (Transaction V))) → HasNil ts → blobs ts ≡ none
  unfolding blobs
  HasNil-blobs [] h = absurd h
  HasNil-blobs (none ∷ ts) h = refl
  HasNil-blobs (some t ∷ ts) h = rw (HasNil-blobs ts h) refl

  crashes :
      (decode : String → Result ℕ) (ts : List (Option (Transaction V)))
      → (execute_batch lib native marshal decode c cfg ts w).0 ≡ crashed
      → HasNil ts × (c.err w.now ≡ none) × ((options : String) × (marshal cfg ≡ ok options))
  unfolding execute_batch
  crashes decode [] h = absurd cc
  crashes decode (t ∷ ts) h = elim (Option-cases (c.err w.now)) [
    | inr (l, dead) ↦ absurd (ground arith)
    | inl live ↦ elim (Result-cases (marshal cfg)) [
      | inr (x, bad) ↦ absurd (ground arith)
      | inl (options, good) ↦ elim (Option-cases (blobs (t ∷ ts))) [
        | inl nil ↦ (blobs-HasNil (t ∷ ts) nil, live, (options, good))
        | inr (bs, found) ↦ absurd (ground arith)
      ]
    ]
  ]

  crashes_back :
      (decode : String → Result ℕ) (ts : List (Option (Transaction V)))
      → HasNil ts × (c.err w.now ≡ none) × ((options : String) × (marshal cfg ≡ ok options))
      → (execute_batch lib native marshal decode c cfg ts w).0 ≡ crashed
  unfolding execute_batch
  crashes_back decode [] (nil, live, (options, good)) = absurd nil
  crashes_back decode (t ∷ ts) (nil, live, (options, good)) =
      rw (execute_batch, live, good, HasNil-blobs (t ∷ ts) nil) refl

  -- `ExecuteBatch` crashes exactly when one of its transactions is nil, the context is live at its
  -- start and encoding/json takes the options; in every other case it returns.
  pub execute_batch-crashed_iff :
      (decode : String → Result ℕ) (ts : List (Option (Transaction V)))
      → ((execute_batch lib native marshal decode c cfg ts w).0 ≡ crashed)
        ↔ (HasNil ts × (c.err w.now ≡ none) × ((options : String) × (marshal cfg ≡ ok options)))
  execute_batch-crashed_iff decode ts = (crashes decode ts, crashes_back decode ts)

  -- What a native function hands out as a transaction reaches the native commit byte for byte:
  -- if the native call succeeds with a buffer of less than 2 ^ 63 bytes, and some, and a view
  -- that is JSON of a transaction, the transaction is read; and if its commit finds a live
  -- context, options that encoding/json takes, and gets past both guards of `ffiCall`, then the
  -- native commit is called with exactly those bytes.
  pub commit_received :
      (mem : Memory N) (decode : String → Result V) (framed : GoError → GoError) (a len v b : ℕ)
      (bs : List ℕ) (view : V) (s : Store N) (options : String)
      → mem.bytes_at a s.native ≡ b ∷ bs
      → len ≡ length (b ∷ bs)
      → length (b ∷ bs) < 2 ^ 63
      → let shown = mem.string_at v (mem.bytes_free a len s.native) in
        (same_text shown "null" || same_text shown "") ≡ false
        → decode shown ≡ ok view
        → c.err w.now ≡ none
        → marshal cfg ≡ ok options
        → Passes lib c (tick w)
        → (t : Transaction V) × ((receive mem decode framed none
              (record { pb = some a; pb_len = len; view = some v })
              s).0
            ≡ ok (some t))
          × ((execute lib native marshal c cfg (some t) w).1.native
              ≡ (native.commit cfg.uri
                  (b ∷ bs)
                  options
                  cfg.storage
                  (seen_token lib c (tick w))
                  w.native).2)
  unfolding commit_bytes
  commit_received mem decode framed a len v b bs view s options shown whole short given read live
        good passes =
      let t : Transaction V = record {
        pb = b ∷ bs;
        view = view;
        raw = mem.string_at v (mem.bytes_free a len s.native);
      } in
      (
        t,
        receive-ok mem decode framed a len v (b ∷ bs) view s shown whole short given read,
        rw (execute_reaches t (open_handle 0) b bs options refl live good) (
            ffi_call_out_native lib c 0 (native.commit cfg.uri (b ∷ bs) options cfg.storage)
              (tick w) passes),
      )
