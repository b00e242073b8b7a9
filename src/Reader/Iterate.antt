-- ===== src/Reader/Iterate.antt =====
-- The range loop `batches` of lance/iter.go: it ends, and it frees what it holds.
use lance_go.Base.{
  ℕ, zero, suc, ◌+◌, ◌≡◌, refl, ◌∙◌, inl, inr, Bool, true, false, not, ◌||◌, Option, none, some,
  String, arith, ◌==◌, if◌then◌else◌, Bool-cases, Option-cases,
}
use lance_go.Errors.{GoError, Leaf, Result, ok, err}
use lance_go.Reader.{ArrowLib, Reader, Outcome, done, fresh, release, next}
use lance_go.Reader.Invariant.{
  Inv, stream_releases, imports, batch_releases, fresh-Inv, next-Inv, release_counts,
}

-- A consumer: the `yield` function of a range loop, over the consumer's state. Its answer says
-- whether the loop goes on.
abbrev pub Consumer : Type 0 → Type 0 → Type 0
Consumer Batch Y = Y → Option Batch → Option GoError → Bool × Y

module _ {Stream Array Batch Y : Type 0} (lib : ArrowLib Stream Array Batch)
    (clock : ℕ → Option Leaf) (yield : Consumer Batch Y) where
  -- The loop of `batches`, with the number of reads so far as the time at which the reader looks at
  -- its context. `none` means that the fuel ran out.
  unfoldable pub loop :
      ℕ → ℕ → Y → Reader Stream Array Batch → Option (Y × Reader Stream Array Batch)
  loop zero t y r = none
  loop (suc fuel) t y r =
      let (more, r') = next lib (clock t) r in
      let (on, y') = yield y r'.current none in
      let rest = loop fuel (t + 1) y' r' in
      if more
      then if on then rest else some (y', r')
      else elim r'.err [ none ↦ some (y, r') | some e ↦ some ((yield y none (some e)).1, r') ]

  -- `batches`: what `open` gave, then the loop, then the deferred release.
  unfoldable pub batches :
      ℕ
      → Y
      → Result (Reader Stream Array Batch)
      → Option (Y × Option (Outcome (Reader Stream Array Batch)))
  batches fuel y (err e) = some ((yield y none (some e)).1, none)
  batches fuel y (ok r) = elim (loop fuel 0 y r) [
    | none ↦ none
    | some (y', r') ↦ some (y', some (release r'))
  ]

module _ {Stream Array Batch : Type 0} (lib : ArrowLib Stream Array Batch) where
  -- A read that does not give a batch.
  abbrev pub stops : ℕ × Array × Stream → Bool
  stops (errno, a, s) =
      not (errno == 0)
      || (lib.is_released a || elim (lib.import_batch a) [ ok b ↦ false | err e ↦ true ])

  -- The stream ends or fails within n reads.
  unfoldable pub ends : ℕ → Stream → Bool
  ends zero s = false
  ends (suc n) s = stops (lib.get_next s) || ends n (lib.get_next s).2

  abbrev ends_held : ℕ → Option Stream → Bool
  ends_held n none = true
  ends_held n (some s) = ends n s

  next_ends :
      (n : ℕ) (c : Option Leaf) (r : Reader Stream Array Batch)
      → ends_held (suc n) r.stream ≡ true
      → (next lib c r).0 ≡ true
      → ends_held n (next lib c r).1.stream ≡ true
  unfolding ends next
  next_ends n c r h e = ground arith

  none_held : (o : Option Stream) → ends_held zero o ≡ true → o ≡ none
  unfolding ends
  none_held none h = refl
  none_held (some s) h = cc

  next_none :
      (c : Option Leaf) (r : Reader Stream Array Batch) → r.stream ≡ none → (next lib c r).0 ≡ false
  unfolding next
  next_none c r h = ground arith

  next_keeps :
      (c : Option Leaf) (r : Reader Stream Array Batch)
      → ((next lib c r).1.refs ≡ r.refs) × ((next lib c r).1.released ≡ r.released)
  unfolding next
  next_keeps c r = (ground arith, ground arith)

module _ {Stream Array Batch Y : Type 0} (lib : ArrowLib Stream Array Batch)
    (clock : ℕ → Option Leaf) (yield : Consumer Batch Y) where
  -- The loop ends, and the reader still keeps its rules and its reference.
  abbrev Finishes : Reader Stream Array Batch → Option (Y × Reader Stream Array Batch) → Type 0
  Finishes r res =
      (y' : Y) × (r' : Reader Stream Array Batch) × (res ≡ some (y', r'))
      × Inv r'
      × (r'.refs ≡ r.refs)
      × (r'.released ≡ r.released)

  loop_stops :
      (n t : ℕ) (y : Y) (r : Reader Stream Array Batch)
      → Inv r
      → (next lib (clock t) r).0 ≡ false
      → Finishes r (loop lib clock yield (suc n) t y r)
  unfolding loop
  loop_stops n t y r v stop = elim (Option-cases (next lib (clock t) r).1.err) [
    | inl fine ↦ (
      y,
      (next lib (clock t) r).1,
      rw (stop, fine),
      next-Inv lib (clock t) r v,
      (next_keeps lib (clock t) r).0,
      (next_keeps lib (clock t) r).1,
    )
    | inr (e, bad) ↦ (
      (yield y none (some e)).1,
      (next lib (clock t) r).1,
      rw (stop, bad),
      next-Inv lib (clock t) r v,
      (next_keeps lib (clock t) r).0,
      (next_keeps lib (clock t) r).1,
    )
  ]

  -- Enough fuel gives a result.
  loop_total :
      (n t : ℕ) (y : Y) (r : Reader Stream Array Batch)
      → Inv r
      → ends_held lib n r.stream ≡ true
      → Finishes r (loop lib clock yield (suc n) t y r)
  unfolding loop
  loop_total zero t y r v h =
      loop_stops zero t y r v (next_none lib (clock t) r (none_held lib r.stream h))
  loop_total (suc n) t y r v h =
      let r' = (next lib (clock t) r).1 in
      elim (Bool-cases (next lib (clock t) r).0) [
        | inr stop ↦ loop_stops (suc n) t y r v stop
        | inl more ↦ elim (Bool-cases (yield y r'.current none).0) [
          | inr off ↦ (
            (yield y r'.current none).1,
            r',
            rw (more, off),
            next-Inv lib (clock t) r v,
            (next_keeps lib (clock t) r).0,
            (next_keeps lib (clock t) r).1,
          )
          | inl on ↦
              let (y'', r'', e, v'', refs, rel) =
                loop_total n (t + 1) (yield y r'.current none).1 r' (next-Inv lib (clock t) r v)
                  (next_ends lib n (clock t) r h more) in
              (
                y'',
                r'',
                rw (more, on) e,
                v'',
                refs ∙ (next_keeps lib (clock t) r).0,
                rel ∙ (next_keeps lib (clock t) r).1,
              )
        ]
      ]

  -- A range loop over a fresh reader, whose stream ends or fails within n reads, is over after
  -- n + 1 rounds at most, however the consumer breaks and whenever the context is done. The reader
  -- is then marked as released, the native stream was released once, and every batch that was
  -- imported was released once, in the order of the imports.
  pub batches_releases :
      (n : ℕ) (y : Y) (s : Stream) (has_finish : Bool) (what : String)
      → ends lib n s ≡ true
      → (y' : Y) × (r' : Reader Stream Array Batch) × (batches lib clock yield
            (suc n)
            y
            (ok (fresh s has_finish what))
          ≡ some (y', some (done r')))
        × (r'.released ≡ true)
        × (stream_releases r'.log ≡ 1)
        × (imports r'.log ≡ batch_releases r'.log)
  unfolding batches
  batches_releases n y s f w h =
      let (y', r', e, v, refs, rel) = loop_total n 0 y (fresh s f w) (fresh-Inv s f w) h in
      let (r'', e', refs', rel', st, cur, once, v'') = release_counts zero r' v refs rel in
      (y', r'', rw (e, batches) (rw e'), rel', once, ground arith)
