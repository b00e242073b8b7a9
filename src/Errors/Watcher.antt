-- ===== src/Errors/Watcher.antt =====
-- The watcher goroutine of `ffiCall` in lance/errors.go, beside the calling goroutine: who touches
-- the cancel token, and when it is freed.
use lance_go.Base.{◌≡◌, Bool, true, false, arith}

-- How far the caller has come: in the native call, behind `close(stop)`, behind `<-watcherDone`,
-- behind the call that empties the thread's slot, behind the call that frees the token.
pub data Caller : Type 0 where
  calling stopping joined cleared freed : Caller

-- In its `select`; behind the call that cancels the token; behind `close(watcherDone)`.
pub data Watcher : Type 0 where
  selecting cancelled closed : Watcher

pub record State : Type 0 where
  pub caller : Caller
  pub watcher : Watcher
  pub in_slot : Bool
  pub touched_freed : Bool

abbrev pub start : State
start = record { caller = calling; watcher = selecting; in_slot = true; touched_freed = false }

abbrev is_freed : Caller → Bool
is_freed freed = true
is_freed _ = false

abbrev is_running : Caller → Bool
is_running calling = true
is_running _ = false

-- `select` may take either case that is ready, and both steps may come at any time.
pub data Step : State → State → Type 0 where
  stop : (s : State) → s.caller ≡ calling → Step s (record s { caller = stopping })
  join :
      (s : State) → s.caller ≡ stopping → s.watcher ≡ closed → Step s (record s { caller = joined })
  clear : (s : State) → s.caller ≡ joined → Step s (record s { caller = cleared; in_slot = false })
  free : (s : State) → s.caller ≡ cleared → Step s (record s { caller = freed })
  cancel :
      (s : State)
      → s.watcher ≡ selecting
      → Step s (record s { watcher = cancelled; touched_freed = is_freed s.caller })
  close_cancelled : (s : State) → s.watcher ≡ cancelled → Step s (record s { watcher = closed })
  close_stopped :
      (s : State)
      → s.watcher ≡ selecting
      → is_running s.caller ≡ false
      → Step s (record s { watcher = closed })

-- The states that some interleaving of steps leads to.
pub data Reached : State → Type 0 where
  started : Reached start
  goes : {s t : State} → Step s t → Reached s → Reached t

abbrev behind_join : Caller → Bool
behind_join calling = false
behind_join stopping = false
behind_join _ = true

abbrev behind_clear : Caller → Bool
behind_clear cleared = true
behind_clear freed = true
behind_clear _ = false

record Inv (s : State) : Type 0 where
  closed_behind : behind_join s.caller ≡ true → s.watcher ≡ closed
  slot_behind : behind_clear s.caller ≡ true → s.in_slot ≡ false
  clean : s.touched_freed ≡ false

Step-Inv : {s t : State} → Step s t → Inv s → Inv t
Step-Inv (stop s h) v = ground arith
Step-Inv (join s h k) v = ground arith
Step-Inv (clear s h) v = ground arith
Step-Inv (free s h) v = ground arith
Step-Inv (cancel s h) v = ground arith
Step-Inv (close_cancelled s h) v = ground arith
Step-Inv (close_stopped s h k) v = ground arith

Reached-Inv : {s : State} → Reached s → Inv s
Reached-Inv started = ground arith
Reached-Inv (goes st r) = Step-Inv st (Reached-Inv r)

-- However the two goroutines interleave, the watcher never cancels a freed token.
pub cancel_before_free : {s : State} → Reached s → s.touched_freed ≡ false
cancel_before_free r = (Reached-Inv r).clean

-- However they interleave, when the token is freed the watcher has finished, and the thread's slot
-- no longer holds the token.
pub freed_behind_watcher :
    {s : State} → Reached s → s.caller ≡ freed → (s.watcher ≡ closed) × (s.in_slot ≡ false)
freed_behind_watcher {s} r h = let v : Inv s = Reached-Inv r in ground arith
