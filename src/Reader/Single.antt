-- ===== src/Reader/Single.antt =====
-- `singleBatch` and `drainSingleBatch` of lance/take.go: the one batch of a reader, which the
-- caller keeps.
use lance_go.Base.{
  ◌≡◌, refl, ap, ◌∙◌, ◌⊎◌, inl, inr, Bool, true, false, Option, none, some, String, List, [], ◌∷◌,
  arith, Bool-cases, Option-cases, if◌then◌else◌,
}
use lance_go.Base.Int.{◌-ℤ◌, pos}
use lance_go.Errors.{GoError, leaf, wrap, Leaf, text, Result, ok, err}
use lance_go.Reader.{
  ArrowLib, Event, batch_retained, Reader, Outcome, done, fresh, next, release, force_release,
  decrement,
}
use lance_go.Reader.Invariant.{Inv, fresh-Inv, next-Inv, stream_releases, imports, batch_releases}

module _ {Array Batch : Type 0} where
  -- The batches that were retained for a caller.
  abbrev pub retains : List (Event Array Batch) → List Batch
  retains [] = []
  retains (batch_retained b ∷ log) = b ∷ retains log
  retains (_ ∷ log) = retains log

module _ {Stream Array Batch : Type 0} where
  -- `rec.Retain()`
  abbrev retain_batch : Batch → Reader Stream Array Batch → Reader Stream Array Batch
  retain_batch b r = record r { log = batch_retained b ∷ r.log }

module _ {Stream Array Batch : Type 0} (lib : ArrowLib Stream Array Batch) where
  -- `drainSingleBatch`. The deferred release comes last; without a batch `rec.Retain` panics.
  unfoldable pub drain_single_batch :
      Option Leaf
      → Reader Stream Array Batch
      → Option (Result Batch) × Outcome (Reader Stream Array Batch)
  drain_single_batch c r =
      let (more, r') = next lib c r in
      if more
      then elim r'.current [
        | some b ↦ (some (ok b), release (retain_batch b r'))
        | none ↦ (none, release r')
      ]
      else elim r'.err [
        | some e ↦ (some (err e), release r')
        | none ↦ (some (err (wrap "produced no batch: %w" [] (leaf Leaf.internal))), release r')
      ]

  -- `singleBatch`
  unfoldable pub single_batch :
      Option Leaf
      → String
      → Reader Stream Array Batch
      → Option (Result Batch) × Outcome (Reader Stream Array Batch)
  single_batch c what r =
      let (more, r') = next lib c r in
      if more
      then elim r'.current [
        | some b ↦ (some (ok b), release (retain_batch b r'))
        | none ↦ (none, release r')
      ]
      else elim r'.err [
        | some e ↦ (some (err (wrap "lance: %s: %w" (text what ∷ []) e)), release r')
        | none ↦ (
          some (err (wrap "lance: %s produced no batch: %w" (text what ∷ []) (leaf Leaf.internal))),
          release r',
        )
      ]

  -- What a take leaves: a reader that is released, with its stream and every batch that it
  -- imported, and a batch that was retained once for the caller, or an error and no batch retained.
  pub record Taken (res : Option (Result Batch) × Outcome (Reader Stream Array Batch))
      : Type 0 where
    pub reader : Reader Stream Array Batch
    pub over : res.1 ≡ done reader
    pub freed : reader.released ≡ true
    pub stream_once : stream_releases reader.log ≡ 1
    pub batches_once : imports reader.log ≡ batch_releases reader.log
    pub answer :
        ((b : Batch) × (res.0 ≡ some (ok b)) × (retains reader.log ≡ b ∷ []))
        ⊎ ((e : GoError) × (res.0 ≡ some (err e)) × (retains reader.log ≡ []))

  next_fresh :
      (c : Option Leaf) (s : Stream) (f : Bool) (w : String)
      → let r = (next lib c (fresh s f w)).1 in
        (r.refs ≡ pos 1) × (r.released ≡ false) × (retains r.log ≡ [])
  unfolding next
  next_fresh c s f w = (ground arith, ground arith, ground arith)

  next_current :
      (c : Option Leaf) (r : Reader Stream Array Batch)
      → (next lib c r).0 ≡ true
      → (b : Batch) × ((next lib c r).1.current ≡ some b)
  unfolding next
  next_current c r h = elim (Option-cases (next lib c r).1.current) [
    | inr (b, there) ↦ (b, there)
    | inl missing ↦ absurd (ground arith)
  ]

  -- The release of the last reference.
  release_last :
      (r : Reader Stream Array Batch)
      → Inv r
      → r.refs ≡ pos 1
      → r.released ≡ false
      → (r' : Reader Stream Array Batch) × (release r ≡ done r')
        × (r'.released ≡ true)
        × (stream_releases r'.log ≡ 1)
        × (imports r'.log ≡ batch_releases r'.log)
        × (retains r'.log ≡ retains r.log)
  unfolding release force_release ◌-ℤ◌
  release_last r v e h = (
    force_release (decrement r),
    ground arith,
    ground arith,
    ground arith,
    ground arith,
    ground arith,
  )

  Inv-retain_batch : (b : Batch) (r : Reader Stream Array Batch) → Inv r → Inv (retain_batch b r)
  Inv-retain_batch b r v = ground arith

  -- A take of the one batch of a fresh reader leaves what `Taken` says, whatever the context says
  -- during the read.
  pub single_batch_lem :
      (c : Option Leaf) (what : String) (s : Stream) (f : Bool) (w : String)
      → Taken (single_batch c what (fresh s f w))
  unfolding single_batch
  single_batch_lem c what s f w =
      let r = (next lib c (fresh s f w)).1 in
      let v = next-Inv lib c (fresh s f w) (fresh-Inv s f w) in
      let (refs, live, clean) = next_fresh c s f w in
      elim (Bool-cases (next lib c (fresh s f w)).0) [
        | inl more ↦
            let (b, there) = next_current c (fresh s f w) more in
            let (r', e, freed, once, same, kept) =
              release_last (retain_batch b r) (Inv-retain_batch b r v) refs live in
            record {
              reader = r';
              over = rw (more, there) e;
              freed = freed;
              stream_once = once;
              batches_once = same;
              answer = inl (b, rw (more, there) refl, kept ∙ ap (λ l. b ∷ l) clean);
            }
        | inr stopped ↦
            let (r', e, freed, once, same, kept) = release_last r v refs live in
            elim (Option-cases r.err) [
              | inl fine ↦ record {
                reader = r';
                over = rw (stopped, fine) e;
                freed = freed;
                stream_once = once;
                batches_once = same;
                answer = inr (
                  wrap "lance: %s produced no batch: %w" (text what ∷ []) (leaf Leaf.internal),
                  rw (stopped, fine) refl,
                  kept ∙ clean,
                );
              }
              | inr (x, bad) ↦ record {
                reader = r';
                over = rw (stopped, bad) e;
                freed = freed;
                stream_once = once;
                batches_once = same;
                answer =
                    inr (
                      wrap "lance: %s: %w" (text what ∷ []) x,
                      rw (stopped, bad) refl,
                      kept ∙ clean,
                    );
              }
            ]
      ]
