-- ===== src/Ledger/Served.antt =====
-- An operation that does not use `datasetOp` and makes one call for a string, such as `Update` of
-- lance/mutation.go.
use lance_go.Base.{ℕ, ◌≡◌, refl, inl, inr, Option, none, some, String, [], ◌∷◌}
use lance_go.Errors.{GoError, wrap, Result, ok, err, Result-cases}
use lance_go.Errors.Ffi.{Ctx, World, tick, Native}
use lance_go.Transaction.{Memory}
use lance_go.Handle.{Handle, hand_op, error_of}
use lance_go.Handle.Hand.{HandRun, HandRun-hand_op}
use lance_go.Ledger.{Ledger, fetch, send_and_fetch}
use lance_go.Handle.Run.{Opens}
use lance_go.Ledger.Settled.{IsRestored}
use lance_go.Ledger.Ops.{Fetched, Fetched-fetch, fetch_restores}

module _ {N A : Type 0} (lib : Native N) (mem : Memory N) (c : Ctx) (k : ℕ)
    (decode : String → Result A) (refused framed : GoError → GoError) where
  -- An operation that does not use `datasetOp` is not let through, or its options cannot be encoded; or
  -- it makes its call on the pointer of the dataset.
  pub data Served (h : Handle) (sent : Result String)
      (f : ℕ → String → Option ℕ → N → ℕ × Option ℕ × N) (w : World (Ledger N)) (res : Result A)
      (v : World (Ledger N)) : Type 0 where
    unserved :
        (e : GoError)
        → (¬ (Opens c h w × (s : String) × (sent ≡ ok s)))
        → res ≡ err e
        → v ≡ tick w
        → Served h sent f w res v
    served :
        (p : ℕ) (s : String)
        → c.err w.now ≡ none
        → h.ptr ≡ some p
        → sent ≡ ok s
        → Fetched lib mem c k decode refused framed (f p s) (tick w) res v.native
        → Served h sent f w res v

  pub Served-hand_op :
      (h : Handle) (locks : ℕ) (sent : Result String)
      (f : ℕ → String → Option ℕ → N → ℕ × Option ℕ × N) (w : World (Ledger N))
      → let (res, after) =
          hand_op c h locks (send_and_fetch lib mem k decode refused framed c sent f) w in
        (after.held_locks ≡ locks)
        × (after.span_ends ≡ error_of res ∷ [])
        × Served h sent f w res after.world
  unfolding send_and_fetch
  Served-hand_op h locks sent f w =
      let (unlocked, ended, run) =
        HandRun-hand_op c h locks (send_and_fetch lib mem k decode refused framed c sent f) w in
      (
        unlocked,
        ended,
        elim run [
          | HandRun.unopened e shut bad same ↦ unserved e (λ (opens, s, good). shut opens) bad same
          | HandRun.ran p live there res same ↦ elim (Result-cases sent) [
            | inr (e, bad) ↦
                unserved (wrap "lance: marshal options: %w" [] e) (λ (opens, s, good). absurd cc)
                  (rw res (rw (send_and_fetch, bad) refl)) (rw same (rw (send_and_fetch, bad) refl))
            | inl (s, good) ↦
                let eq : send_and_fetch lib mem k decode refused framed c sent f p (tick w)
                    ≡ fetch lib mem k decode refused framed c (f p s) (tick w) =
                  rw (send_and_fetch, good) refl in
                served p s live there good (
                  rw (res, same, eq)
                    (Fetched-fetch lib mem c k decode refused framed (f p s) (tick w)))
          ]
        ],
      )

  pub hand_op_restores :
      (h : Handle) (locks : ℕ) (sent : Result String)
      (f : ℕ → String → Option ℕ → N → ℕ × Option ℕ × N) (w : World (Ledger N))
      → w.thread_token ≡ none
      → IsRestored w
          (hand_op c h locks (send_and_fetch lib mem k decode refused framed c sent f) w).1.world
  unfolding send_and_fetch
  hand_op_restores h locks sent f w clear =
      elim (HandRun-hand_op c h locks (send_and_fetch lib mem k decode refused framed c sent f)
        w).2 [
          | HandRun.unopened e shut bad same ↦ rw same (refl, clear, refl)
          | HandRun.ran p live there res same ↦ elim (Result-cases sent) [
            | inr (e, bad) ↦ rw (same, send_and_fetch, bad) (refl, clear, refl)
            | inl (s, good) ↦
                rw (same, send_and_fetch, good)
                  (fetch_restores lib mem c k decode refused framed (f p s) (tick w) clear)
          ]
        ]
