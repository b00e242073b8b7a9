-- ===== src/Stream/Owned.antt =====
-- Who owns the stream that native code has filled in (lance/delta.go, lance/sql.go, lance/fragment.go
-- and lance/distributed.go).
use lance_go.Base.{
  ap, ℕ, ◌≡◌, refl, inl, inr, true, Option, none, some, String, List, [], ◌∷◌, ◌++◌, arith,
  Option-cases,
}
use lance_go.Errors.{GoError, wrap, Result, ok, err, Result-cases}
use lance_go.Errors.Ffi.{Ctx, World, tick, Native, Passes, seen_token}
use lance_go.Errors.Out.{
  ffi_call_out, ffi_call_out-cases, ffi_call_out_restores, ffi_call_out-ok, ffi_call_out_reached,
}
use lance_go.Reader.{ArrowLib, Event, Reader, stream_released}
use lance_go.Reader.Invariant.{Inv}
use lance_go.Reader.Open.{
  new_owned_record_reader, new_owned_record_reader_owns, new_owned_record_reader_unmoved,
}
use lance_go.Handle.{Handle, check_open}
use lance_go.Handle.Run.{check_open-cases, check_open-ok, check_open-err}
use lance_go.Ledger.Settled.{IsRestored, Spared, Spared-IsRestored}
use lance_go.Config.{Giving}
use lance_go.Stream.{
  StreamOut, Logged, over_log, logged, ended_on_error, prefixed, open_stream, behind_open,
  stream_op,
}

module _ {N S A B C : Type 0} (lib : Native N) (arrow : ArrowLib S A B) (zeroed : StreamOut S C)
    (c : Ctx) (refused : GoError → GoError) (what : String) where
  -- Both guards of `ffiCall` let the call of `f` through, and it returns OK.
  abbrev pub Fills : Giving N (StreamOut S C) → World (Logged N (Event A B)) → Type 0
  Fills f w = Passes (over_log lib) c w × ((f (seen_token (over_log lib) c w) w.native.inner).0 ≡ 0)

  -- What becomes of the stream of an operation on the thread `w`, of the native function `f`: the
  -- call fails, and there is none; or there is one that could not be moved, or that the returned
  -- reader owns, or that was released once.
  pub data Opened (f : Giving N (StreamOut S C)) (w : World (Logged N (Event A B)))
      (res : Result (Reader S A B × C)) (events : List (Event A B)) : Type 0 where
    no_stream :
        (e : GoError)
        → (¬ Fills f w)
        → res ≡ err e
        → events ≡ w.native.events
        → Opened f w res events
    unmoved :
        (e : GoError)
        → Fills f w
        → (f (seen_token (over_log lib) c w) w.native.inner).1.moved ≡ none
        → res ≡ err e
        → events ≡ w.native.events
        → Opened f w res events
    owned :
        (s : S) (r : Reader S A B) (schema : C)
        → Fills f w
        → (f (seen_token (over_log lib) c w) w.native.inner).1.moved ≡ some s
        → res ≡ ok (r, schema)
        → r.stream ≡ some s
        → Inv r
        → events ≡ w.native.events
        → Opened f w res events
    released :
        (s : S) (e : GoError)
        → Fills f w
        → (f (seen_token (over_log lib) c w) w.native.inner).1.moved ≡ some s
        → res ≡ err e
        → events ≡ stream_released ∷ w.native.events
        → Opened f w res events

  Opened-import :
      (f : Giving N (StreamOut S C)) (w : World (Logged N (Event A B))) (moved : Option S)
      (errno : ℕ) (imported : Result C)
      → Fills f w
      → (f (seen_token (over_log lib) c w) w.native.inner).1.moved ≡ moved
      → let (res, ev) = new_owned_record_reader arrow moved errno imported what true in
        Opened f w (prefixed res) (ev ++ w.native.events)
  Opened-import f w none errno imported fills shown =
      let (e, eq) = new_owned_record_reader_unmoved arrow errno imported what true in
      rw eq (unmoved (wrap "lance: %w" [] e) fills shown refl refl)
  Opened-import f w (some s) errno imported fills shown =
      elim (new_owned_record_reader_owns arrow s errno imported what true) [
        | inl (r, schema, good, keeps, inv, quiet) ↦
            rw (good, quiet) (owned s r schema fills shown refl keeps inv refl)
        | inr (e, bad, once) ↦
            rw (bad, once) (released s (wrap "lance: %w" [] e) fills shown refl refl)
      ]

  open_stream_reached :
      (f : Giving N (StreamOut S C)) (w : World (Logged N (Event A B)))
      → (ffi_call_out (over_log lib) c zeroed (logged f) w).0 ≡ none
      → Passes (over_log lib) c w
  open_stream_reached f w fine = elim (ffi_call_out_reached (over_log lib) c zeroed (logged f) w) [
    | inl (passes, _) ↦ passes
    | inr (_, _, e, bad) ↦ absurd cc
  ]

  Opened-open_stream :
      (f : Giving N (StreamOut S C)) (w : World (Logged N (Event A B)))
      → let (res, v) = open_stream lib arrow zeroed c refused what true f w in
        Opened f w res v.native.events
  unfolding open_stream
  Opened-open_stream f w =
      let out = (f (seen_token (over_log lib) c w) w.native.inner).1 in
      elim (ffi_call_out-cases (over_log lib) c zeroed (logged f) w) [
        | inr ((why, bad), native) ↦
            rw (open_stream, bad)
              (no_stream (refused why)
                (λ (passes, code).
                  let r : ℕ × StreamOut S C × Logged N (Event A B) =
                    logged f (seen_token (over_log lib) c w) w.native in
                  let good =
                    ffi_call_out-ok (over_log lib) c zeroed r.1 (logged f) w r.2 passes
                      (ap (λ (m : ℕ). (m, r.1, r.2)) code) in
                  cc (good.0, bad))
                refl (elim native [ inl same ↦ rw same refl | inr same ↦ rw same refl ]))
        | inl (fine, code, filled, native) ↦
            rw (open_stream, fine, filled, native)
              (Opened-import f w out.moved out.errno out.imported
                (open_stream_reached f w fine, code) refl)
      ]

  open_stream_restores :
      (f : Giving N (StreamOut S C)) (w : World (Logged N (Event A B)))
      → w.thread_token ≡ none
      → IsRestored w (open_stream lib arrow zeroed c refused what true f w).1
  unfolding open_stream
  open_stream_restores f w clear =
      let (locks, token, live) = ffi_call_out_restores (over_log lib) c zeroed (logged f) w clear in
      elim (Option-cases (ffi_call_out (over_log lib) c zeroed (logged f) w).0) [
        | inl fine ↦ rw (open_stream, fine) (locks, token, live)
        | inr (e, bad) ↦ rw (open_stream, bad) (locks, token, live)
      ]

  -- The operation is let through with the pointer of its handle, and its options can be encoded.
  abbrev pub Begins : {T : Type 0} → Handle → Result T → World (Logged N (Event A B)) → Type 0
  Begins {T} h sent w = (p : ℕ) × (s : T) × (c.err w.now ≡ none) × (h.ptr ≡ some p) × (sent ≡ ok s)

  -- How an operation ends that opens a stream: before its call, or with it.
  pub data Streamed {T : Type 0} (h : Handle) (sent : Result T)
      (f : ℕ → T → Giving N (StreamOut S C)) (w : World (Logged N (Event A B)))
      (res : Result (Reader S A B × C)) (v : World (Logged N (Event A B))) : Type 0 where
    unsent :
        (e : GoError) → (¬ Begins h sent w) → res ≡ err e → v ≡ tick w → Streamed h sent f w res v
    streamed :
        (p : ℕ) (s : T)
        → c.err w.now ≡ none
        → h.ptr ≡ some p
        → sent ≡ ok s
        → Opened (f p s) (tick w) res v.native.events
        → Streamed h sent f w res v

  Streamed-behind_open :
      {T : Type 0} (h : Handle) (sent : Result T) (f : ℕ → T → Giving N (StreamOut S C))
      (w : World (Logged N (Event A B))) (opened : Result ℕ) (v : World (Logged N (Event A B)))
      → v ≡ tick w
      → ((p : ℕ) → opened ≡ ok p → (c.err w.now ≡ none) × (h.ptr ≡ some p))
      → ((e : GoError) → opened ≡ err e → (¬ ((p : ℕ) × (c.err w.now ≡ none) × (h.ptr ≡ some p))))
      → let (res, v') = behind_open lib arrow zeroed c refused what sent f opened v in
        Streamed h sent f w res v'
  unfolding behind_open
  Streamed-behind_open h sent f w (err e) v same points shut =
      unsent e (λ (p, s, live, there, good). shut e refl (p, live, there)) refl same
  Streamed-behind_open h sent f w (ok p) v same points shut = elim (Result-cases sent) [
    | inr (e, bad) ↦
        rw (behind_open, bad) (unsent e (λ (q, s, live, there, good). absurd cc) refl same)
    | inl (s, good) ↦
        rw (behind_open, good, same)
          (streamed p s (points p refl).0 (points p refl).1 refl
            (Opened-open_stream (f p s) (tick w)))
  ]

  behind_open_restores :
      {T : Type 0} (h : Handle) (sent : Result T) (f : ℕ → T → Giving N (StreamOut S C))
      (w : World (Logged N (Event A B))) (opened : Result ℕ) (v : World (Logged N (Event A B)))
      → v ≡ tick w
      → w.thread_token ≡ none
      → IsRestored w (behind_open lib arrow zeroed c refused what sent f opened v).1
  unfolding behind_open
  behind_open_restores h sent f w (err e) v same clear = rw same (refl, clear, refl)
  behind_open_restores h sent f w (ok p) v same clear = elim (Result-cases sent) [
    | inr (e, bad) ↦ rw (behind_open, bad, same) (refl, clear, refl)
    | inl (s, good) ↦ rw (behind_open, good, same) (open_stream_restores (f p s) (tick w) clear)
  ]

  -- A query of a delta, in SQL, of a fragment or of a partition of an index gives back the lock of
  -- its handle, and its span has ended just if it failed. It is not let through, or its options cannot
  -- be encoded, and it fails without its native call; or it makes it, on the pointer of the handle,
  -- with the options: a guard stops that or native code reports an error, and the query fails with no
  -- stream to release; or the stream that native code gives cannot be moved, which is an error; or the
  -- reader that is returned owns it and keeps the rules of ownership; or it was released once, and the
  -- query fails. On a thread with an empty cancel slot that slot is empty again, and the pin and the
  -- cancel tokens of the thread are as before.
  pub stream_op-Streamed :
      {T : Type 0} (kind : String) (h : Handle) (locks : ℕ) (sent : Result T)
      (f : ℕ → T → Giving N (StreamOut S C)) (w : World (Logged N (Event A B)))
      → let (res, after) = stream_op lib arrow zeroed c kind refused what h locks sent f w in
        (after.held_locks ≡ locks)
        × (after.span_ends ≡ ended_on_error res)
        × Spared w after.world
        × Streamed h sent f w res after.world
  unfolding stream_op
  stream_op-Streamed kind h locks sent f w =
      let (opened, v) = check_open kind c h w in
      let same : v ≡ tick w = (check_open-cases kind c h w).0 in
      let points = check_open-ok kind c h w in
      (
        omega arith,
        refl,
        Spared-IsRestored w _ (behind_open_restores h sent f w opened v same),
        Streamed-behind_open h sent f w opened v same points (check_open-err kind c h w),
      )
