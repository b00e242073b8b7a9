-- ===== src/Reader/Open.antt =====
-- `newOwnedRecordReader` of lance/reader.go: taking over a stream that native code has filled in.
use lance_go.Base.{
  ℕ, ◌≡◌, refl, ◌⊎◌, inl, inr, Bool, not, Option, none, some, String, List, [], ◌∷◌, arith, ◌==◌,
  Bool-cases, if◌then◌else◌,
}
use lance_go.Errors.{GoError, leaf, wrap, wrap_shown, Leaf, text, Result, ok, err}
use lance_go.Reader.{ArrowLib, Event, stream_released, Reader, fresh, stream_call_error_raw}
use lance_go.Reader.Invariant.{Inv, fresh-Inv}

module _ {Stream Array Batch Schema : Type 0} (lib : ArrowLib Stream Array Batch) where
  -- The deferred clean-up: the stream is released unless the reader took it over.
  abbrev fail : GoError → Result (Reader Stream Array Batch × Schema) × List (Event Array Batch)
  fail e = (err e, stream_released ∷ [])

  -- `newOwnedRecordReader`, with what the calls in it give: the stream behind
  -- `lance_go_stream_move`, NULL if its allocation failed (the stream is then released by that
  -- function, or was NULL); the error number of `get_schema`; and the schema that package cdata
  -- imports. The second result is what happens outside.
  pub new_owned_record_reader :
      Option Stream
      → ℕ
      → Result Schema
      → String
      → Bool
      → Result (Reader Stream Array Batch × Schema) × List (Event Array Batch)
  new_owned_record_reader moved errno imported what has_finish = elim moved [
    | none ↦ (
      err (wrap "import %s stream: allocate stream: %w" (text what ∷ []) (leaf Leaf.internal)),
      [],
    )
    | some s ↦
        if not (errno == 0)
        then fail (stream_call_error_raw lib s what "schema" errno)
        else elim imported [
          | err e ↦
              fail (
                wrap_shown "import %s stream schema: %v: %w" (text what ∷ []) e
                  (leaf Leaf.internal))
          | ok schema ↦ (ok (fresh s has_finish what, schema), [])
        ]
  ]

  -- A stream that was moved is either owned by the reader that is returned, which then keeps the
  -- ownership rules, or released once before the error is returned.
  pub new_owned_record_reader_owns :
      (s : Stream) (errno : ℕ) (imported : Result Schema) (what : String) (has_finish : Bool)
      → let (res, log) = new_owned_record_reader (some s) errno imported what has_finish in
        ((r : Reader Stream Array Batch) × (schema : Schema) × (res ≡ ok (r, schema))
          × (r.stream ≡ some s)
          × Inv r
          × (log ≡ []))
        ⊎ ((e : GoError) × (res ≡ err e) × (log ≡ stream_released ∷ []))
  unfolding new_owned_record_reader
  new_owned_record_reader_owns s errno (ok schema) what f = elim (Bool-cases (errno == 0)) [
    | inl fine ↦ inl (fresh s f what, schema, ground arith, refl, fresh-Inv s f what, ground arith)
    | inr bad ↦ inr (stream_call_error_raw lib s what "schema" errno, ground arith, ground arith)
  ]
  new_owned_record_reader_owns s errno (err e) what f = elim (Bool-cases (errno == 0)) [
    | inl fine ↦ inr (
      wrap_shown "import %s stream schema: %v: %w" (text what ∷ []) e (leaf Leaf.internal),
      ground arith,
      ground arith,
    )
    | inr bad ↦ inr (stream_call_error_raw lib s what "schema" errno, ground arith, ground arith)
  ]

  -- Without a stream that was moved there is an error, and nothing to release.
  pub new_owned_record_reader_unmoved :
      (errno : ℕ) (imported : Result Schema) (what : String) (has_finish : Bool)
      → (e : GoError) × (new_owned_record_reader none errno imported what has_finish ≡ (err e, []))
  unfolding new_owned_record_reader
  new_owned_record_reader_unmoved errno imported what has_finish = (_, refl)
