-- ===== src/Stream.antt =====
-- The operations that give a record reader over a stream that native code fills in: of lance/delta.go,
-- lance/sql.go, lance/fragment.go and lance/distributed.go.
pub mod Methods
pub mod Owned
use lance_go.Base.{ℕ, ◌+◌, Bool, true, Option, none, some, String, List, [], ◌∷◌, ◌++◌}
use lance_go.Errors.{GoError, wrap, Result, ok, err}
use lance_go.Errors.Ffi.{Ctx, World, Native}
use lance_go.Errors.Out.{ffi_call_out}
use lance_go.Reader.{ArrowLib, Event, Reader}
use lance_go.Reader.Open.{new_owned_record_reader}
use lance_go.Handle.{Handle, After, check_open, finish}
use lance_go.Config.{Giving}

-- What a native function makes of the stream struct of its caller, as `newOwnedRecordReader` finds it:
-- the stream behind the move, the error number of `get_schema`, and the schema that is imported.
pub record StreamOut (S C : Type 0) : Type 0 where
  pub moved : Option S
  pub errno : ℕ
  pub imported : Result C

-- The native state, and what happened to the streams, their arrays and their batches, the newest first.
pub record Logged (N E : Type 0) : Type 0 where
  pub inner : N
  pub events : List E

module _ {N E : Type 0} where
  abbrev pub over_log : Native N → Native (Logged N E)
  over_log lib = record {
    in_tokio = λ l. lib.in_tokio l.inner;
    last_code = λ l. lib.last_code l.inner;
    last_message = λ l. lib.last_message l.inner;
  }

  abbrev pub logged :
      {X : Type 0} → (Option ℕ → N → ℕ × X × N) → Option ℕ → Logged N E → ℕ × X × Logged N E
  logged f t l = let (rc, x, n) = f t l.inner in (rc, x, record { inner = n; events = l.events })

  abbrev pub noted : List E → World (Logged N E) → World (Logged N E)
  noted ev w = record w {
    native = record { inner = w.native.inner; events = ev ++ w.native.events };
  }

-- The span of a stream ends with an error, or when its reader is released.
abbrev pub ended_on_error : {A : Type 0} → Result A → List (Option GoError)
ended_on_error (ok a) = []
ended_on_error (err e) = some e ∷ []

-- `importRecordReader` puts the name of the package before an error.
abbrev pub prefixed : {A : Type 0} → Result A → Result A
prefixed (ok a) = ok a
prefixed (err e) = err (wrap "lance: %w" [] e)

module _ {N S A B C : Type 0} (lib : Native N) (arrow : ArrowLib S A B) (zeroed : StreamOut S C)
    (c : Ctx) where
  -- The native call, which fills in the struct that was `zeroed`, and `importRecordReader`; `refused`
  -- is the frame of an error of the call.
  unfoldable pub open_stream :
      (GoError → GoError)
      → String
      → Bool
      → Giving N (StreamOut S C)
      → World (Logged N (Event A B))
      → Result (Reader S A B × C) × World (Logged N (Event A B))
  open_stream refused what has_finish f w =
      let (e, out, w') = ffi_call_out (over_log lib) c zeroed (logged f) w in
      elim e [
        | some why ↦ (err (refused why), w')
        | none ↦
            let (res, ev) =
              new_owned_record_reader arrow out.moved out.errno out.imported what has_finish in
            (prefixed res, noted ev w')
      ]

  -- Behind `checkOpen`: the options, which may fail to be encoded, and the call.
  unfoldable pub behind_open :
      {T : Type 0}
      → (GoError → GoError)
      → String
      → Result T
      → (ℕ → T → Giving N (StreamOut S C))
      → Result ℕ
      → World (Logged N (Event A B))
      → Result (Reader S A B × C) × World (Logged N (Event A B))
  behind_open refused what sent f (err e) w = (err e, w)
  behind_open refused what sent f (ok p) w = elim sent [
    | err e ↦ (err e, w)
    | ok s ↦ open_stream refused what true (f p s) w
  ]

  -- An operation on a handle whose reader keeps the span: the lock, `checkOpen`, the options, which
  -- are encoded behind it, and the call.
  unfoldable pub stream_op :
      {T : Type 0}
      → String
      → (GoError → GoError)
      → String
      → Handle
      → ℕ
      → Result T
      → (ℕ → T → Giving N (StreamOut S C))
      → World (Logged N (Event A B))
      → Result (Reader S A B × C) × After (Logged N (Event A B))
  stream_op kind refused what h locks sent f w =
      let (opened, w₁) = check_open kind c h w in
      let (res, w₂) = behind_open refused what sent f opened w₁ in
      let (r, after) = finish (locks + 1) res w₂ in
      (r, record after { span_ends = ended_on_error r })
