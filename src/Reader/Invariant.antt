-- ===== src/Reader/Invariant.antt =====
-- The ownership rules of the reader in lance/reader.go, under any interleaving of its calls.
use lance_go.Base.{
  ℕ, zero, suc, ◌==◌, ◌+◌, ◌≡◌, Bool, true, false, not, ◌&&◌, ◌||◌, Option, none, some, String,
  List, [], ◌∷◌, ◌++◌, arith, is_some, if◌then◌else◌,
}
use lance_go.Base.Int.{pos, ◌-ℤ◌}
use lance_go.Errors.{GoError, Leaf}
use lance_go.Reader.{
  ArrowLib, Event, stream_released, batch_imported, batch_released, reported, Reader, Outcome, done,
  panics, fresh, force_release, retain, release, decrement, next,
}

module _ {Array Batch : Type 0} where
  abbrev pub stream_releases : List (Event Array Batch) → ℕ
  stream_releases [] = 0
  stream_releases (stream_released ∷ log) = 1 + stream_releases log
  stream_releases (_ ∷ log) = stream_releases log

  abbrev pub imports : List (Event Array Batch) → List Batch
  imports [] = []
  imports (batch_imported b ∷ log) = b ∷ imports log
  imports (_ ∷ log) = imports log

  abbrev pub batch_releases : List (Event Array Batch) → List Batch
  batch_releases [] = []
  batch_releases (batch_released b ∷ log) = b ∷ batch_releases log
  batch_releases (_ ∷ log) = batch_releases log

  abbrev pub reports : List (Event Array Batch) → List (Option GoError × ℕ)
  reports [] = []
  reports (reported e n ∷ log) = (e, n) ∷ reports log
  reports (_ ∷ log) = reports log

abbrev pub held {ℓ} : {A : Type ℓ} → Option A → ℕ
held none = 0
held (some a) = 1

abbrev pub to_list {ℓ} : {A : Type ℓ} → Option A → List A
to_list none = []
to_list (some a) = a ∷ []

module _ {Stream Array Batch : Type 0} where
  -- Between calls: the stream is held or was released once; a batch that was imported is the current
  -- one or was released, once and in order; the end of the reader was reported once, with the error
  -- and the rows that it has, if there is a `finish`, and not before the end; and a reader that is
  -- released, or has an error, or has ended, holds no stream.
  pub record Inv (r : Reader Stream Array Batch) : Type 0 where
    pub stream_once : stream_releases r.log + held r.stream ≡ 1
    pub batches_once : imports r.log ≡ to_list r.current ++ batch_releases r.log
    pub report_once :
        reports r.log ≡ (if r.finished && r.has_finish then (r.err, r.rows) ∷ [] else [])
    pub ended : is_some r.stream ≡ not r.finished
    pub failed_ended : (is_some r.err || r.released) && is_some r.stream ≡ false
    pub released_empty : r.released && is_some r.current ≡ false

  pub fresh-Inv :
      (s : Stream) (has_finish : Bool) (what : String)
      → Inv (fresh {Array = Array} {Batch = Batch} s has_finish what)
  fresh-Inv s f w = ground arith

  pub force_release-Inv : (r : Reader Stream Array Batch) → Inv r → Inv (force_release r)
  unfolding force_release
  force_release-Inv r v = ground arith

module _ {Stream Array Batch : Type 0} (lib : ArrowLib Stream Array Batch) where
  pub next-Inv : (c : Option Leaf) (r : Reader Stream Array Batch) → Inv r → Inv (next lib c r).1
  unfolding next
  next-Inv c r v = ground arith

-- An atomic step of some goroutine on the reader: the two steps of `Release` come one by one, and
-- `forces` is also what the finalizer does.
pub data Call : Type 0 where
  retains decrements forces : Call
  nexts : Option Leaf → Call

module _ {Stream Array Batch : Type 0} (lib : ArrowLib Stream Array Batch) where
  abbrev after : Outcome (Reader Stream Array Batch) → Reader Stream Array Batch
  after (done r) = r
  after (panics m r) = r

  pub step : Call → Reader Stream Array Batch → Reader Stream Array Batch
  step retains r = after (retain r)
  step decrements r = decrement r
  step forces r = force_release r
  step (nexts c) r = (next lib c r).1

  pub run : List Call → Reader Stream Array Batch → Reader Stream Array Batch
  run [] r = r
  run (c ∷ cs) r = run cs (step c r)

  step-Inv : (c : Call) (r : Reader Stream Array Batch) → Inv r → Inv (step c r)
  unfolding step retain
  step-Inv retains r v = ground arith
  step-Inv decrements r v = ground arith
  step-Inv forces r v = force_release-Inv r v
  step-Inv (nexts c) r v = next-Inv lib c r v

  pub run-Inv : (cs : List Call) (r : Reader Stream Array Batch) → Inv r → Inv (run cs r)
  unfolding run
  run-Inv [] r v = v
  run-Inv (c ∷ cs) r v = run-Inv cs (step c r) (step-Inv c r v)

  -- From the reader that the constructor returns, any interleaving of retains, releases, reads and
  -- finalizer runs keeps the ownership rules of `Inv`.
  pub run-fresh-Inv :
      (s : Stream) (has_finish : Bool) (what : String) (cs : List Call)
      → Inv (run cs (fresh s has_finish what))
  run-fresh-Inv s f w cs = run-Inv cs _ (fresh-Inv s f w)

  -- A reader that answers no read any more.
  abbrev Ended : Reader Stream Array Batch → Type 0
  Ended r = (r.released || is_some r.err) || not (is_some r.stream) ≡ true

  next-Ended :
      (c : Option Leaf) (r : Reader Stream Array Batch) → Ended r → next lib c r ≡ (false, r)
  unfolding next
  next-Ended c r h = ground arith

  Ended-next :
      (c : Option Leaf) (r : Reader Stream Array Batch)
      → (next lib c r).0 ≡ false
      → Ended (next lib c r).1
  unfolding next
  Ended-next c r h = ground arith

  step-Ended : (c : Call) (r : Reader Stream Array Batch) → Ended r → Ended (step c r)
  unfolding step retain force_release
  step-Ended retains r h = ground arith
  step-Ended decrements r h = ground arith
  step-Ended forces r h = ground arith
  step-Ended (nexts c) r h = rw (step, next-Ended c r h) h

  run-Ended : (cs : List Call) (r : Reader Stream Array Batch) → Ended r → Ended (run cs r)
  unfolding run
  run-Ended [] r h = h
  run-Ended (c ∷ cs) r h = run-Ended cs (step c r) (step-Ended c r h)

  -- Once `Next` has returned false it returns false after any further calls, whatever the context
  -- says, and changes nothing.
  pub next_stays_false :
      (c c' : Option Leaf) (cs : List Call) (r : Reader Stream Array Batch)
      → (next lib c r).0 ≡ false
      → let r' = run cs (next lib c r).1 in next lib c' r' ≡ (false, r')
  next_stays_false c c' cs r h = next-Ended c' _ (run-Ended cs _ (Ended-next c r h))

module _ {Stream Array Batch : Type 0} where
  decrement-Inv : (r : Reader Stream Array Batch) → Inv r → Inv (decrement r)
  decrement-Inv r v = ground arith

  -- A release of a reader that has n + 1 references leaves n. It frees the reader exactly when n is
  -- 0: then stream and batch are gone, the reader is marked as released, and the native stream has
  -- been released once in all. Otherwise stream and batch stay. The ownership rules hold on.
  pub release_counts :
      (n : ℕ) (r : Reader Stream Array Batch)
      → Inv r
      → r.refs ≡ pos (suc n)
      → r.released ≡ false
      → (r' : Reader Stream Array Batch) × (release r ≡ done r')
        × (r'.refs ≡ pos n)
        × (r'.released ≡ (n == 0))
        × (r'.stream ≡ (if n == 0 then none else r.stream))
        × (r'.current ≡ (if n == 0 then none else r.current))
        × (stream_releases r'.log ≡ (if n == 0 then 1 else stream_releases r.log))
        × Inv r'
  unfolding release force_release ◌-ℤ◌
  release_counts zero r v e h = (
    force_release (decrement r),
    ground arith,
    ground arith,
    ground arith,
    ground arith,
    ground arith,
    ground arith,
    force_release-Inv (decrement r) (decrement-Inv r v),
  )
  release_counts (suc n) r v e h = (
    decrement r,
    ground arith,
    ground arith,
    ground arith,
    ground arith,
    ground arith,
    ground arith,
    decrement-Inv r v,
  )
