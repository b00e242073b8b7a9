-- ===== src/Reader/Collect.antt =====
-- `batches` of lance/iter.go over a consumer that keeps all that it is given.
use lance_go.Base.{
  ℕ, zero, suc, ◌+◌, ◌≡◌, refl, ◌∙◌, inl, inr, Bool, true, false, not, Option, none, some, String,
  List, [], ◌∷◌, ◌++◌, arith, ◌==◌, if◌then◌else◌, Bool-cases, append_assoc, append-nil,
}
use lance_go.Errors.{GoError, leaf, wrap_shown, Leaf, text, ok, err, Result-cases}
use lance_go.Reader.{ArrowLib, Reader, Outcome, fresh, release, next, stream_call_error}
use lance_go.Reader.Iterate.{Consumer, loop, batches, ends}

-- The consumer that keeps all that it is given.
abbrev pub collect : {Batch : Type 0} → Consumer Batch (List (Option Batch × Option GoError))
collect seen b e = (true, seen ++ ((b, e) ∷ []))

module _ {Stream Array Batch : Type 0} (lib : ArrowLib Stream Array Batch) (what : String) where
  -- What a stream holds for a consumer: its batches in order, then an error if it fails.
  pub contents : ℕ → Stream → List (Option Batch × Option GoError)
  contents zero s = []
  contents (suc n) s =
      let (errno, a, s') = lib.get_next s in
      let rest = contents n s' in
      if not (errno == 0)
      then (none, some (stream_call_error lib s' what "next" errno)) ∷ []
      else if lib.is_released a
      then []
      else elim (lib.import_batch a) [
        | err e ↦
            (
              none,
              some (
                  wrap_shown "lance: import %s record batch: %v: %w" (text what ∷ []) e
                    (leaf Leaf.internal)),
            )
            ∷ []
        | ok b ↦ (some b, none) ∷ rest
      ]

  -- A reader on which iteration can go on.
  record Open (r : Reader Stream Array Batch) (s : Stream) : Type 0 where
    holds : r.stream ≡ some s
    fine : r.err ≡ none
    live : r.released ≡ false
    named : r.what ≡ what

  next_batch :
      (r : Reader Stream Array Batch) (s : Stream) (b : Batch)
      → Open r s
      → ((lib.get_next s).0 == 0) ≡ true
      → lib.is_released (lib.get_next s).1 ≡ false
      → lib.import_batch (lib.get_next s).1 ≡ ok b
      → ((next lib none r).0 ≡ true)
        × ((next lib none r).1.current ≡ some b)
        × Open (next lib none r).1 (lib.get_next s).2
  unfolding next
  next_batch r s b o z l i = (ground arith, ground arith, ground arith)

  loop_more :
      (n t : ℕ) (y : List (Option Batch × Option GoError)) (r : Reader Stream Array Batch)
      (b : Batch)
      → (next lib none r).0 ≡ true
      → (next lib none r).1.current ≡ some b
      → loop lib (λ _. none) collect (suc n) t y r
        ≡ loop lib (λ _. none) collect n (t + 1) (y ++ ((some b, none) ∷ [])) (next lib none r).1
  unfolding loop
  loop_more n t y r b h c = rw (h, c)

  loop_end :
      (n t : ℕ) (y : List (Option Batch × Option GoError)) (r : Reader Stream Array Batch)
      → (next lib none r).0 ≡ false
      → (next lib none r).1.err ≡ none
      → loop lib (λ _. none) collect (suc n) t y r ≡ some (y, (next lib none r).1)
  unfolding loop
  loop_end n t y r h c = rw (h, c)

  loop_fail :
      (n t : ℕ) (y : List (Option Batch × Option GoError)) (r : Reader Stream Array Batch)
      (e : GoError)
      → (next lib none r).0 ≡ false
      → (next lib none r).1.err ≡ some e
      → loop lib (λ _. none) collect (suc n) t y r
        ≡ some (y ++ ((none, some e) ∷ []), (next lib none r).1)
  unfolding loop
  loop_fail n t y r e h c = rw (h, c)

  next_stop :
      (r : Reader Stream Array Batch) (s : Stream)
      → Open r s
      → ((lib.get_next s).0 == 0) ≡ true
      → lib.is_released (lib.get_next s).1 ≡ true
      → ((next lib none r).0 ≡ false) × ((next lib none r).1.err ≡ none)
  unfolding next
  next_stop r s o z l = (ground arith, ground arith)

  next_fail :
      (r : Reader Stream Array Batch) (s : Stream)
      → Open r s
      → ((lib.get_next s).0 == 0) ≡ false
      → ((next lib none r).0 ≡ false)
        × ((next lib none r).1.err
            ≡ some (stream_call_error lib (lib.get_next s).2 what "next" (lib.get_next s).0))
  unfolding next
  next_fail r s o z = (ground arith, ground arith)

  next_bad_batch :
      (r : Reader Stream Array Batch) (s : Stream) (e : GoError)
      → Open r s
      → ((lib.get_next s).0 == 0) ≡ true
      → lib.is_released (lib.get_next s).1 ≡ false
      → lib.import_batch (lib.get_next s).1 ≡ err e
      → ((next lib none r).0 ≡ false)
        × ((next lib none r).1.err
            ≡ some (
                wrap_shown "lance: import %s record batch: %v: %w"
                  (text what ∷ [])
                  e
                  (leaf Leaf.internal)))
  unfolding next
  next_bad_batch r s e o z l i = (ground arith, ground arith)

  -- What `loop` gives over a stream with fuel m, for contents read with n.
  abbrev Collects : ℕ → ℕ → Type 0
  Collects m n =
      (t : ℕ) (y : List (Option Batch × Option GoError)) (r : Reader Stream Array Batch)
      (s : Stream)
      → Open r s
      → ends lib n s ≡ true
      → (r' : Reader Stream Array Batch) × (loop lib (λ _. none) collect m t y r
          ≡ some (y ++ contents n s, r'))

  collect_round : (n : ℕ) → Collects n n → Collects (suc n) (suc n)
  unfolding ends contents
  collect_round n ih t y r s o h = elim (Bool-cases ((lib.get_next s).0 == 0)) [
    | inr bad ↦
        let (stop, e) = next_fail r s o bad in
        ((next lib none r).1, loop_fail n t y r _ stop e ∙ rw (bad))
    | inl good ↦ elim (Bool-cases (lib.is_released (lib.get_next s).1)) [
      | inl over ↦
          let (stop, e) = next_stop r s o good over in
          ((next lib none r).1, loop_end n t y r stop e ∙ rw (good, over, append-nil))
      | inr live ↦ elim (Result-cases (lib.import_batch (lib.get_next s).1)) [
        | inl (b, i) ↦
            let (more, c, o') = next_batch r s b o good live i in
            let (r', e) =
              ih (t + 1) (y ++ ((some b, none) ∷ [])) (next lib none r).1 (lib.get_next s).2 o'
                (rw (good, live, i) at h) in
            (r', loop_more n t y r b more c ∙ e ∙ rw (good, live, i, append_assoc))
        | inr (e, i) ↦
            let (stop, x) = next_bad_batch r s e o good live i in
            ((next lib none r).1, loop_fail n t y r _ stop x ∙ rw (good, live, i))
      ]
    ]
  ]

  collects : (n : ℕ) → Collects n n
  unfolding ends
  collects zero t y r s o h = cc
  collects (suc n) t y r s o h = collect_round n (collects n) t y r s o h

  -- A range loop that keeps all that it is given, over a stream that ends or fails within n reads
  -- and under a context that stays live, visits the batches of the stream, each once and in order,
  -- then the error if the stream failed, and nothing else.
  pub batches_collects :
      (n : ℕ) (s : Stream) (has_finish : Bool)
      → ends lib n s ≡ true
      → (o : Outcome (Reader Stream Array Batch)) × (batches lib
            (λ _. none)
            collect
            n
            []
            (ok (fresh s has_finish what))
          ≡ some (contents n s, some o))
  unfolding batches
  batches_collects n s has_finish h =
      let (r', e) =
        collects n 0 [] (fresh s has_finish what) s
          (record { holds = refl; fine = refl; live = refl; named = refl }) h in
      (release r', rw (batches, e))
