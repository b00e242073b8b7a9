-- ===== src/Ledger/Ops.antt =====
-- An operation of a handle that makes one of the calls of Ledger.antt: its result, its strings, its
-- exports and its locks.
use lance_go.Base.{
  ℕ, ◌≡◌, ◌≢◌, refl, sym, ◌∙◌, inl, inr, Option, none, some, String, [], ◌∷◌, ◌++◌, arith,
  Option-cases,
}
use lance_go.Errors.{GoError, Result, ok, err, Result-cases}
use lance_go.Errors.Ffi.{Ctx, World, tick, Native}
use lance_go.Errors.Out.{ffi_call_out}
use lance_go.Transaction.{Memory, go_string, free_string}
use lance_go.Handle.{Handle, error_of}
use lance_go.Handle.Run.{
  Opens, named, unopened, ran, HandleRun-handle_op, handle_op_leaves, handle_op-ok_iff,
}
use lance_go.Ledger.{
  Ledger, over_ledger, with_state, taking_over, exporting, fetch, fetch_op, decoded,
}
use lance_go.Ledger.Settled.{
  handed, IsRestored, Reaches, native_result, stopped, failed, worked, Called-lem, call_restores,
}

module _ {N A : Type 0} (lib : Native N) (mem : Memory N) (c : Ctx) (k : ℕ)
    (decode : String → Result A) (refused framed : GoError → GoError) where
  -- How a call for a string ends on the thread `w`, with the ledger that it leaves: a guard stops
  -- it; native code reports an error; or it gives a string, which is decoded and given back.
  pub data Fetched (f : Option ℕ → N → ℕ × Option ℕ × N) (w : World (Ledger N)) (res : Result A)
      (l : Ledger N) : Type 0 where
    unsent :
        (e : GoError)
        → res ≡ err e
        → (¬ Reaches lib c w)
        → l ≡ (exporting k w).native
        → Fetched f w res l
    unanswered :
        (e : GoError)
        → res ≡ err e
        → Reaches lib c w
        → (native_result lib c f w).0 ≢ 0
        → l ≡ with_state (native_result lib c f w).2 w.native
        → Fetched f w res l
    answered :
        Reaches lib c w
        → (native_result lib c f w).0 ≡ 0
        → res
          ≡ decoded decode framed
              (go_string mem (native_result lib c f w).1 (native_result lib c f w).2)
        → l.store
          ≡ free_string mem
              (native_result lib c f w).1
              (with_state (native_result lib c f w).2 w.native).store
        → l.store.freed ≡ handed (native_result lib c f w).1 ++ w.native.store.freed
        → l.live_exports ≡ w.native.live_exports
        → Fetched f w res l

  freed-free_string :
      (out : Option ℕ) (l : Ledger N)
      → (free_string mem out l.store).freed ≡ handed out ++ l.store.freed
  freed-free_string none l = refl
  freed-free_string (some a) l = refl

  pub Fetched-fetch :
      (f : Option ℕ → N → ℕ × Option ℕ × N) (w : World (Ledger N))
      → let (res, v) = fetch lib mem k decode refused framed c f w in Fetched f w res v.native
  unfolding fetch
  Fetched-fetch f w = elim (Called-lem lib c k none f w) [
    | stopped why bad blocked _ same ↦ rw (fetch, bad) (unsent (refused why) refl blocked same)
    | failed why bad passes code _ same ↦
        rw (fetch, bad) (unanswered (refused why) refl passes code same)
    | worked fine passes code out same ↦
        let (rc, given, n) = native_result lib c f w in
        rw (fetch, fine, out, same)
          (answered passes code refl refl (freed-free_string given (with_state n w.native)) refl)
  ]

  pub fetch_restores :
      (f : Option ℕ → N → ℕ × Option ℕ × N) (w : World (Ledger N))
      → w.thread_token ≡ none
      → IsRestored w (fetch lib mem k decode refused framed c f w).1
  unfolding fetch
  fetch_restores f w clear =
      let (locks, token, live) = call_restores lib c k none f w clear in
      elim (Option-cases
        (ffi_call_out (over_ledger lib) c none (taking_over k f) (exporting k w)).0) [
          | inl fine ↦ rw (fetch, fine) (locks, token, live)
          | inr (e, bad) ↦ rw (fetch, bad) (locks, token, live)
        ]

  -- The operation is not let through, or makes its call on the handle's pointer.
  pub data Answered (verb : String) (h : Handle) (f : ℕ → Option ℕ → N → ℕ × Option ℕ × N)
      (w : World (Ledger N)) (res : Result A) (v : World (Ledger N)) : Type 0 where
    uncalled :
        (e : GoError) → (¬ Opens c h w) → res ≡ err e → v ≡ tick w → Answered verb h f w res v
    called :
        (p : ℕ) (given : Result A)
        → c.err w.now ≡ none
        → h.ptr ≡ some p
        → res ≡ named verb given
        → Fetched (f p) (tick w) given v.native
        → Answered verb h f w res v

  pub Answered-fetch_op :
      (kind verb : String) (h : Handle) (locks : ℕ) (f : ℕ → Option ℕ → N → ℕ × Option ℕ × N)
      (w : World (Ledger N))
      → let (res, after) = fetch_op lib mem c k decode refused framed kind verb h locks f w in
        (after.held_locks ≡ locks)
        × (after.span_ends ≡ error_of res ∷ [])
        × Answered verb h f w res after.world
  unfolding fetch_op
  Answered-fetch_op kind verb h locks f w =
      let body : ℕ → World (Ledger N) → Result A × World (Ledger N) =
        λ p v. fetch lib mem k decode refused framed c (f p) v in
      let (unlocked, ended, _) = handle_op_leaves kind verb c h locks body w in
      (
        unlocked,
        ended,
        elim (HandleRun-handle_op kind verb c h locks body w) [
          | unopened e shut bad same ↦ uncalled e shut bad same
          | ran p live there res same ↦
              called p (body p (tick w)).0 live there res (rw same (Fetched-fetch (f p) (tick w)))
        ],
      )

  pub fetch_op_restores :
      (kind verb : String) (h : Handle) (locks : ℕ) (f : ℕ → Option ℕ → N → ℕ × Option ℕ × N)
      (w : World (Ledger N))
      → w.thread_token ≡ none
      → IsRestored w (fetch_op lib mem c k decode refused framed kind verb h locks f w).1.world
  unfolding fetch_op
  fetch_op_restores kind verb h locks f w clear =
      elim (HandleRun-handle_op kind verb c h locks
        (λ p v. fetch lib mem k decode refused framed c (f p) v) w) [
          | unopened e shut bad same ↦ rw same (refl, clear, refl)
          | ran p live there res same ↦ rw same (fetch_restores (f p) (tick w) clear)
        ]

  decoded-ok : (shown : String) (a : A) → decoded decode framed shown ≡ ok a → decode shown ≡ ok a
  decoded-ok shown a h = elim (Result-cases (decode shown)) [
    | inl (b, good) ↦ ground arith
    | inr (e, bad) ↦ absurd (ground arith)
  ]

  named-ok : (verb : String) (r : Result A) (a : A) → named verb r ≡ ok a → r ≡ ok a
  named-ok verb (ok b) a h = h
  named-ok verb (err e) a h = absurd cc

  -- The native call for the pointer `p` succeeds with a string that is read as `a`.
  abbrev pub Gives : (ℕ → Option ℕ → N → ℕ × Option ℕ × N) → World (Ledger N) → ℕ → A → Type 0
  Gives f w p a =
      Reaches lib c (tick w)
      × ((native_result lib c (f p) (tick w)).0 ≡ 0)
      × (decode (
            go_string mem (native_result lib c (f p) (tick w)).1
              (native_result lib c (f p) (tick w)).2)
          ≡ ok a)

  pub fetch_op-ok :
      (kind verb : String) (h : Handle) (locks : ℕ) (f : ℕ → Option ℕ → N → ℕ × Option ℕ × N)
      (w : World (Ledger N)) (a : A)
      → let (res, after) = fetch_op lib mem c k decode refused framed kind verb h locks f w in
        res ≡ ok a
        → (p : ℕ) × (c.err w.now ≡ none)
          × (h.ptr ≡ some p)
          × Gives f w p a
          × (after.world.native.store
              ≡ free_string mem
                  (native_result lib c (f p) (tick w)).1
                  (with_state (native_result lib c (f p) (tick w)).2 w.native).store)
  fetch_op-ok kind verb h locks f w a good = elim (Answered-fetch_op kind verb h locks f w).2 [
    | uncalled e shut bad same ↦ absurd cc
    | called p given live there res how ↦
        let given_ok : given ≡ ok a = named-ok verb given a (sym res ∙ good) in
        elim how [
          | unsent e bad _ _ ↦ absurd cc
          | unanswered e bad _ _ _ ↦ absurd cc
          | answered reaches code shown store freed exports ↦
              (p, live, there, (reaches, code, decoded-ok _ a (sym shown ∙ given_ok)), store)
        ]
  ]

  pub fetch_op-Gives :
      (kind verb : String) (h : Handle) (locks : ℕ) (f : ℕ → Option ℕ → N → ℕ × Option ℕ × N)
      (w : World (Ledger N)) (a : A) (p : ℕ)
      → c.err w.now ≡ none
      → h.ptr ≡ some p
      → Gives f w p a
      → (fetch_op lib mem c k decode refused framed kind verb h locks f w).0 ≡ ok a
  unfolding fetch_op
  fetch_op-Gives kind verb h locks f w a p live there (reaches, code, read) =
      (handle_op-ok_iff kind verb c h locks (λ q v. fetch lib mem k decode refused framed c (f q) v)
          w a).1
        (
          p,
          (live, there),
          elim (Fetched-fetch (f p) (tick w)) [
            | unsent e bad blocked _ ↦ absurd (blocked reaches)
            | unanswered e bad _ code' _ ↦ absurd (code' code)
            | answered _ _ shown _ _ _ ↦ shown ∙ rw (decoded, read) refl
          ],
        )
