-- ===== src/Ledger/Asked.antt =====
-- An operation of a handle that prepares an argument and makes one call for a value.
use lance_go.Base.{ℕ, ◌≡◌, ◌≢◌, refl, inl, inr, Option, none, some, String, [], ◌∷◌}
use lance_go.Errors.{GoError, Result, ok, err, Result-cases}
use lance_go.Errors.Ffi.{Ctx, World, tick, Native}
use lance_go.Handle.{Handle, handle_op, hand_op, error_of}
use lance_go.Handle.Run.{Opens, named, HandleRun, HandleRun-handle_op, handle_op_leaves}
use lance_go.Handle.Hand.{HandRun, HandRun-hand_op}
use lance_go.Ledger.{Ledger, with_state, exporting, ask, prepare_and_ask}
use lance_go.Ledger.Settled.{
  IsRestored, Reaches, native_result, stopped, failed, worked, Called-lem, call_restores,
}

module _ {N X A : Type 0} (lib : Native N) (c : Ctx) (k : ℕ) (x : X) (convert : X → A)
    (refused : GoError → GoError) where
  -- How a call for a value ends on the thread `w`, for which `k` exports are made: a guard stops it,
  -- and the exports have no owner; native code reports an error; or it fills in the value.
  pub data Asked (f : Option ℕ → N → ℕ × X × N) (w : World (Ledger N)) (res : Result A)
      (l : Ledger N) : Type 0 where
    unasked :
        (e : GoError)
        → res ≡ err e
        → (¬ Reaches lib c w)
        → l ≡ (exporting k w).native
        → Asked f w res l
    denied :
        (e : GoError)
        → res ≡ err e
        → Reaches lib c w
        → (native_result lib c f w).0 ≢ 0
        → l ≡ with_state (native_result lib c f w).2 w.native
        → Asked f w res l
    told :
        Reaches lib c w
        → (native_result lib c f w).0 ≡ 0
        → res ≡ ok (convert (native_result lib c f w).1)
        → l ≡ with_state (native_result lib c f w).2 w.native
        → Asked f w res l

  Asked-ask :
      (f : Option ℕ → N → ℕ × X × N) (w : World (Ledger N))
      → let (res, v) = ask lib k x convert refused c f w in Asked f w res v.native
  unfolding ask
  Asked-ask f w = elim (Called-lem lib c k x f w) [
    | stopped why bad blocked _ same ↦ rw (ask, bad) (unasked (refused why) refl blocked same)
    | failed why bad passes code _ same ↦ rw (ask, bad) (denied (refused why) refl passes code same)
    | worked fine passes code out same ↦ rw (ask, fine, out, same) (told passes code refl refl)
  ]

  ask_restores :
      (f : Option ℕ → N → ℕ × X × N) (w : World (Ledger N))
      → w.thread_token ≡ none
      → IsRestored w (ask lib k x convert refused c f w).1
  unfolding ask
  ask_restores f w clear = call_restores lib c k x f w clear

  module _ {S : Type 0} (h : Handle) (locks : ℕ) (prepared : Result S)
      (f : ℕ → S → Option ℕ → N → ℕ × X × N) (w : World (Ledger N)) where
    -- How an operation ends that puts `label` before an error: it is not let through; its argument
    -- cannot be prepared; or it makes one call, on the pointer of the handle.
    pub data Consulted (label : Result A → Result A) (res : Result A) (v : World (Ledger N))
        : Type 0 where
      unopened : (e : GoError) → (¬ Opens c h w) → res ≡ err e → v ≡ tick w → Consulted label res v
      unprepared :
          (e : GoError)
          → c.err w.now ≡ none
          → prepared ≡ err e
          → res ≡ label (err e)
          → v ≡ tick w
          → Consulted label res v
      consulted :
          (p : ℕ) (s : S) (given : Result A)
          → c.err w.now ≡ none
          → h.ptr ≡ some p
          → prepared ≡ ok s
          → res ≡ label given
          → Asked (f p s) (tick w) given v.native
          → Consulted label res v

    abbrev body : ℕ → World (Ledger N) → Result A × World (Ledger N)
    body = prepare_and_ask lib k x convert refused c prepared f

    Consulted-body :
        (label : Result A → Result A) (p : ℕ) (res : Result A) (v : World (Ledger N))
        → c.err w.now ≡ none
        → h.ptr ≡ some p
        → res ≡ label (body p (tick w)).0
        → v ≡ (body p (tick w)).1
        → Consulted label res v
    unfolding prepare_and_ask
    Consulted-body label p res v live there given same = elim (Result-cases prepared) [
      | inr (e, bad) ↦
          let eq : body p (tick w) ≡ (err e, tick w) = rw (prepare_and_ask, bad) refl in
          unprepared e live bad (rw (given, eq) refl) (rw (same, eq) refl)
      | inl (s, good) ↦
          let eq : body p (tick w) ≡ ask lib k x convert refused c (f p s) (tick w) =
            rw (prepare_and_ask, good) refl in
          consulted p s (ask lib k x convert refused c (f p s) (tick w)).0 live there good
            (rw (given, eq) refl) (rw (same, eq) (Asked-ask (f p s) (tick w)))
    ]

    -- By `datasetOp` or `fragmentOp`.
    pub Consulted-handle_op :
        (kind verb : String)
        → let (res, after) =
            handle_op kind verb c h locks
              (prepare_and_ask lib k x convert refused c prepared f)
              w in
          (after.held_locks ≡ locks)
          × (after.span_ends ≡ error_of res ∷ [])
          × Consulted (named verb) res after.world
    Consulted-handle_op kind verb =
        let (unlocked, ended, _) = handle_op_leaves kind verb c h locks body w in
        (
          unlocked,
          ended,
          elim (HandleRun-handle_op kind verb c h locks body w) [
            | HandleRun.unopened e shut bad same ↦ unopened e shut bad same
            | HandleRun.ran p live there res same ↦
                Consulted-body (named verb) p _ _ live there res same
          ],
        )

    -- By a frame of its own.
    pub Consulted-hand_op :
        let (res, after) =
          hand_op c h locks (prepare_and_ask lib k x convert refused c prepared f) w in
        (after.held_locks ≡ locks)
        × (after.span_ends ≡ error_of res ∷ [])
        × Consulted (λ r. r) res after.world
    Consulted-hand_op =
        let (unlocked, ended, run) = HandRun-hand_op c h locks body w in
        (
          unlocked,
          ended,
          elim run [
            | HandRun.unopened e shut bad same ↦ unopened e shut bad same
            | HandRun.ran p live there res same ↦ Consulted-body (λ r. r) p _ _ live there res same
          ],
        )

    body_restores : (p : ℕ) → w.thread_token ≡ none → IsRestored w (body p (tick w)).1
    unfolding prepare_and_ask
    body_restores p clear = elim (Result-cases prepared) [
      | inr (e, bad) ↦ rw (prepare_and_ask, bad) (refl, clear, refl)
      | inl (s, good) ↦ rw (prepare_and_ask, good) (ask_restores (f p s) (tick w) clear)
    ]

    pub ask_handle_op_restores :
        (kind verb : String)
        → w.thread_token ≡ none
        → IsRestored w
            (handle_op kind verb c h locks
              (prepare_and_ask lib k x convert refused c prepared f)
              w).1.world
    ask_handle_op_restores kind verb clear = elim (HandleRun-handle_op kind verb c h locks body w) [
      | HandleRun.unopened e shut bad same ↦ rw same (refl, clear, refl)
      | HandleRun.ran p live there res same ↦ rw same (body_restores p clear)
    ]

    pub ask_hand_op_restores :
        w.thread_token ≡ none
        → IsRestored w
            (hand_op c h locks (prepare_and_ask lib k x convert refused c prepared f) w).1.world
    ask_hand_op_restores clear = elim (HandRun-hand_op c h locks body w).2 [
      | HandRun.unopened e shut bad same ↦ rw same (refl, clear, refl)
      | HandRun.ran p live there res same ↦ rw same (body_restores p clear)
    ]
