-- ===== src/Reader.antt =====
-- lance/reader.go: the record reader that owns an Arrow C stream.
pub mod Invariant
pub mod Open
pub mod Iterate
pub mod Collect
pub mod Single
use lance_go.Base.{
  ℕ, ◌+◌, ◌%◌, Bool, true, false, ◌||◌, ◌&&◌, not, Option, none, some, String, List, [], ◌∷◌,
  is_some, ◌==◌, if◌then◌else◌,
}
use lance_go.Base.Int.{ℤ, pos, negsuc, ◌+ℤ◌, ◌-ℤ◌, ltb_ℤ}
use lance_go.Base.Bytes.{word64}
use lance_go.Errors.{GoError, leaf, wrap, wrap_shown, Leaf, text, num, Result, ok, err}

-- The Arrow C stream and package cdata: a stream gives an error number and an array, and moves on;
-- an array may be the released one that ends a stream; it is imported as a record batch or not.
pub record ArrowLib (Stream Array Batch : Type 0) : Type 0 where
  pub get_next : Stream → ℕ × Array × Stream
  pub last_error : Stream → Option String
  pub is_released : Array → Bool
  pub import_batch : Array → Result Batch
  pub num_rows : Batch → ℕ

-- What the reader does to things outside it, as it happens.
pub data Event (Array Batch : Type 0) : Type 0 where
  stream_released : Event Array Batch
  array_released : Array → Event Array Batch
  batch_imported batch_released batch_retained : Batch → Event Array Batch
  reported : Option GoError → ℕ → Event Array Batch

-- `ownedRecordReader`. `has_finish` says that `finish` is not nil; `rows` is the bit pattern of an
-- int64; `log` is what happened outside, the newest first.
pub record Reader (Stream Array Batch : Type 0) : Type 0 where
  pub refs : ℤ
  pub stream : Option Stream
  pub current : Option Batch
  pub err : Option GoError
  pub released : Bool
  pub has_finish : Bool
  pub finished : Bool
  pub rows : ℕ
  pub what : String
  pub log : List (Event Array Batch)

-- What comes of a call that may panic.
pub data Outcome (R : Type 0) : Type 0 where
  done : R → Outcome R
  panics : String → R → Outcome R

is_zero : ℤ → Bool
is_zero (pos n) = n == 0
is_zero (negsuc n) = false

module _ {Stream Array Batch : Type 0} where
  -- The reader that `newOwnedRecordReader` returns.
  abbrev pub fresh : Stream → Bool → String → Reader Stream Array Batch
  fresh s has_finish what = record {
    refs = pos 1;
    stream = some s;
    current = none;
    err = none;
    released = false;
    has_finish = has_finish;
    finished = false;
    rows = 0;
    what = what;
    log = [];
  }

  -- `closeStreamLocked`
  pub close_stream_locked : Reader Stream Array Batch → Reader Stream Array Batch
  close_stream_locked r = elim r.stream [
    | none ↦ r
    | some s ↦ record r { stream = none; log = stream_released ∷ r.log }
  ]

  -- `finishLocked`
  pub finish_locked : Reader Stream Array Batch → Reader Stream Array Batch
  finish_locked r =
      if r.finished
      then r
      else if r.has_finish
      then record r { finished = true; log = reported r.err r.rows ∷ r.log }
      else record r { finished = true }

  -- `if r.current != nil { r.current.Release(); r.current = nil }`
  pub drop_current : Reader Stream Array Batch → Reader Stream Array Batch
  drop_current r = elim r.current [
    | none ↦ r
    | some b ↦ record r { current = none; log = batch_released b ∷ r.log }
  ]

  -- `forceRelease`, which the finalizer calls too.
  unfoldable pub force_release : Reader Stream Array Batch → Reader Stream Array Batch
  unfolding close_stream_locked finish_locked drop_current
  force_release r =
      if r.released
      then r
      else finish_locked (close_stream_locked (drop_current (record r { released = true })))

  -- `Retain`: the round of its loop whose CompareAndSwap succeeds.
  unfoldable pub retain : Reader Stream Array Batch → Outcome (Reader Stream Array Batch)
  retain r =
      if ltb_ℤ (pos 0) r.refs
      then done (record r { refs = r.refs +ℤ pos 1 })
      else panics "lance: retain released record reader" r

  -- `r.refs.Add(-1)`
  abbrev pub decrement : Reader Stream Array Batch → Reader Stream Array Batch
  decrement r = record r { refs = r.refs -ℤ pos 1 }

  -- `Release`
  unfoldable pub release : Reader Stream Array Batch → Outcome (Reader Stream Array Batch)
  unfolding is_zero
  release r =
      let r' = decrement r in
      if ltb_ℤ r'.refs (pos 0)
      then panics "lance: too many record reader releases" r'
      else if is_zero r'.refs
      then done (force_release r')
      else done r'

module _ {Stream Array Batch : Type 0} (lib : ArrowLib Stream Array Batch) where
  message : Stream → String
  message s = elim (lib.last_error s) [ none ↦ "unknown Arrow C stream error" | some m ↦ m ]

  -- `streamCallErrorRaw`
  pub stream_call_error_raw : Stream → String → String → ℕ → GoError
  unfolding message
  stream_call_error_raw s what action errno =
      wrap "%s stream %s failed (errno %d): %s: %w"
        (text what ∷ text action ∷ num errno ∷ text (message s) ∷ []) (leaf Leaf.internal)

  -- `streamCallError`
  pub stream_call_error : Stream → String → String → ℕ → GoError
  stream_call_error s what action errno =
      wrap "lance: %w" [] (stream_call_error_raw s what action errno)

  -- The end of `Next` on an error, and at the end of the stream.
  abbrev stop : Option GoError → Reader Stream Array Batch → Bool × Reader Stream Array Batch
  stop e r = (false, finish_locked (close_stream_locked (record r { err = e })))

  log_array : Array → Reader Stream Array Batch → Reader Stream Array Batch
  log_array a r = if lib.is_released a then r else record r { log = array_released a ∷ r.log }

  -- `Next` behind the call of `get_next`, with what that gave.
  next_array : ℕ → Array → Stream → Reader Stream Array Batch → Bool × Reader Stream Array Batch
  unfolding log_array
  next_array errno a s r =
      if not (errno == 0)
      then stop (some (stream_call_error s r.what "next" errno)) (log_array a r)
      else if lib.is_released a
      then stop r.err r
      else elim (lib.import_batch a) [
        | err e ↦
            stop
              (some (
                wrap_shown "lance: import %s record batch: %v: %w" (text r.what ∷ []) e
                  (leaf Leaf.internal)))
              (log_array a r)
        | ok b ↦ (
          true,
          record r {
            current = some b;
            rows = (r.rows + lib.num_rows b) % word64;
            log = batch_imported b ∷ r.log;
          },
        )
      ]

  -- `Next`. The first argument is what `r.ctx.Err()` gives during the call.
  unfoldable pub next : Option Leaf → Reader Stream Array Batch → Bool × Reader Stream Array Batch
  unfolding next_array drop_current close_stream_locked finish_locked
  next ctx_err r = if r.released || is_some r.err then (false, r) else elim r.stream [
    | none ↦ (false, r)
    | some s ↦
        let r' = drop_current r in
        elim ctx_err [
          | some l ↦ stop (some (leaf l)) r'
          | none ↦
              let (errno, a, s') = lib.get_next s in
              next_array errno a s' (record r' { stream = some s' })
        ]
  ]
