-- ===== src/Ledger.antt =====
-- What the operations of lance/config.go, lance/mutation.go and lance/version.go do behind `ffiCall`:
-- a native function fills in a number, a pointer or a string, the string is read and given back, and
-- Arrow exports are taken over.
pub mod Asked
pub mod Ops
pub mod Served
pub mod Settled
use lance_go.Base.{ℕ, ◌+◌, ◌-◌, Option, none, some, String, List, []}
use lance_go.Errors.{GoError, wrap, Result, ok, err}
use lance_go.Errors.Ffi.{Ctx, World, Native, ffi_call}
use lance_go.Errors.Out.{ffi_call_out}
use lance_go.Handle.{Handle, After, handle_op}
use lance_go.Transaction.{Memory, Store, go_string, free_string}

-- The native state with what was given back to it, and the Arrow exports that nobody has taken over.
pub record Ledger (N : Type 0) : Type 0 where
  pub store : Store N
  pub live_exports : ℕ

module _ {N : Type 0} where
  abbrev pub over_ledger : Native N → Native (Ledger N)
  over_ledger lib = record {
    in_tokio = λ l. lib.in_tokio l.store.native;
    last_code = λ l. lib.last_code l.store.native;
    last_message = λ l. lib.last_message l.store.native;
  }

  abbrev pub with_state : N → Ledger N → Ledger N
  with_state n l = record {
    store = record { native = n; freed = l.store.freed };
    live_exports = l.live_exports;
  }

  abbrev pub with_exports : ℕ → Ledger N → Ledger N
  with_exports k l = record { store = l.store; live_exports = k }

  -- A native function that takes over `k` exports, whatever it returns.
  abbrev pub taking_over :
      {X : Type 0} → ℕ → (Option ℕ → N → ℕ × X × N) → Option ℕ → Ledger N → ℕ × X × Ledger N
  taking_over k f t l =
      let (rc, x, n) = f t l.store.native in
      (rc, x, with_exports (l.live_exports - k) (with_state n l))

  -- The exports that a caller makes before its call.
  abbrev pub exporting : ℕ → World (Ledger N) → World (Ledger N)
  exporting k w = record w { native = with_exports (w.native.live_exports + k) w.native }

abbrev pub same_error : GoError → GoError
same_error e = e

-- The deferred `lance_string_free`, behind the decoding of the string.
abbrev pub give_back : {N : Type 0} → Memory N → Option ℕ → World (Ledger N) → World (Ledger N)
give_back mem out w = record w {
  native = record {
    store = free_string mem out w.native.store;
    live_exports = w.native.live_exports;
  };
}

abbrev pub decoded : {A : Type 0} → (String → Result A) → (GoError → GoError) → String → Result A
decoded decode framed shown = elim (decode shown) [ err e ↦ err (framed e) | ok a ↦ ok a ]

module _ {N : Type 0} (lib : Native N) where
  -- A call with no out parameter.
  unfoldable pub act :
      Ctx → (Option ℕ → N → ℕ × N) → World (Ledger N) → Result (Unit {0}) × World (Ledger N)
  act c f w =
      let (e, w') =
        ffi_call (over_ledger lib) c
          (λ t l. let (rc, n) = f t l.store.native in (rc, with_state n l)) w in
      (elim e [ some why ↦ err why | none ↦ ok tt ], w')

  -- A call that fills in a value, which starts as `x` and is converted at the end; it takes over
  -- the `k` exports that were made for it. `refused` frames the error of the call.
  unfoldable pub ask :
      {X A : Type 0}
      → ℕ
      → X
      → (X → A)
      → (GoError → GoError)
      → Ctx
      → (Option ℕ → N → ℕ × X × N)
      → World (Ledger N)
      → Result A × World (Ledger N)
  ask k x convert refused c f w =
      let (e, out, w') = ffi_call_out (over_ledger lib) c x (taking_over k f) (exporting k w) in
      (elim e [ some why ↦ err (refused why) | none ↦ ok (convert out) ], w')

  -- An argument is prepared, which may fail, and the call is made with it.
  unfoldable pub prepare_and_ask :
      {S X A : Type 0}
      → ℕ
      → X
      → (X → A)
      → (GoError → GoError)
      → Ctx
      → Result S
      → (ℕ → S → Option ℕ → N → ℕ × X × N)
      → ℕ
      → World (Ledger N)
      → Result A × World (Ledger N)
  prepare_and_ask k x convert refused c prepared f p v = elim prepared [
    | err e ↦ (err e, v)
    | ok s ↦ ask k x convert refused c (f p s) v
  ]

  module _ (mem : Memory N) where
    -- A call that gives a string, which encoding/json then reads by `decode`; `framed` is the frame
    -- of an error of that.
    unfoldable pub fetch :
        {A : Type 0}
        → ℕ
        → (String → Result A)
        → (GoError → GoError)
        → (GoError → GoError)
        → Ctx
        → (Option ℕ → N → ℕ × Option ℕ × N)
        → World (Ledger N)
        → Result A × World (Ledger N)
    fetch k decode refused framed c f w =
        let (e, out, w') =
          ffi_call_out (over_ledger lib) c none (taking_over k f) (exporting k w) in
        elim e [
          | some why ↦ (err (refused why), w')
          | none ↦ (
            decoded decode framed (go_string mem out w'.native.store.native),
            give_back mem out w',
          )
        ]

    -- An operation of a handle that is one call for a string, on the pointer of the handle.
    unfoldable pub fetch_op :
        {A : Type 0}
        → Ctx
        → ℕ
        → (String → Result A)
        → (GoError → GoError)
        → (GoError → GoError)
        → String
        → String
        → Handle
        → ℕ
        → (ℕ → Option ℕ → N → ℕ × Option ℕ × N)
        → World (Ledger N)
        → Result A × After (Ledger N)
    fetch_op c k decode refused framed kind verb h locks f w =
        handle_op kind verb c h locks (λ p v. fetch k decode refused framed c (f p) v) w

    -- `marshalOptions`, with what encoding/json makes of the options, and then the call.
    unfoldable pub send_and_fetch :
        {A : Type 0}
        → ℕ
        → (String → Result A)
        → (GoError → GoError)
        → (GoError → GoError)
        → Ctx
        → Result String
        → (ℕ → String → Option ℕ → N → ℕ × Option ℕ × N)
        → ℕ
        → World (Ledger N)
        → Result A × World (Ledger N)
    send_and_fetch k decode refused framed c sent f p v = elim sent [
      | err e ↦ (err (wrap "lance: marshal options: %w" [] e), v)
      | ok s ↦ fetch k decode refused framed c (f p s) v
    ]
