-- ===== src/Plugin/Invoke.antt =====
-- `go_callback_invoke` of lance/callbacks.go, by which native code calls a plugin, and `copyCBytes`
-- of lance/cbytes.go.

use lance_go.Base.{
  ℕ, ◌-◌, ◌^◌, ◌<◌, ◌≡◌, refl, sym, ap, ◌∙◌, ◌↔◌, ◌⊎◌, inl, inr, Bool, true, not, ◌||◌, Option,
  none, some, String, List, [], ◌∷◌, arith, length, take, take_all, ltb, ◌==◌, if◌then◌else◌,
  Bool-cases, Option-cases,
}
use lance_go.Errors.{
  GoError, leaf, wrap, Leaf, Arg, num, bytes, errors_is, Result, ok, err, Result-cases,
}
use lance_go.Plugin.{Registry, lookup_plugin}

abbrev pub call_ok : ℕ
call_ok = 0

abbrev pub call_error : ℕ
call_error = 1

abbrev pub call_miss : ℕ
call_miss = 2

-- What comes of a plugin's Invoke: its two results, of which one counts, or a panic.
pub data Reply : Type 0 where
  returned : List ℕ → Reply
  failed : GoError → Reply
  panicked : List ℕ → Reply

-- A reply that stands for a miss.
abbrev pub IsMiss : Reply → Type 0
IsMiss reply = (e : GoError) × (reply ≡ failed e) × (errors_is e Leaf.plugin_miss ≡ true)

-- A plugin: a method and a payload, over the state that plugins keep.
abbrev pub Plugin : Type 0 → Type 0
Plugin S = ℕ → List ℕ → S → Reply × S

-- Package fmt: the text of `fmt.Appendf`, and that of an error.
pub record Fmt : Type 0 where
  pub appendf : String → List Arg → List ℕ
  pub error_text : GoError → List ℕ

-- `uint64(^uint(0) >> 1)`
abbrev max_int : ℕ
max_int = 2 ^ 63 - 1

-- `copyCBytes`. A pointer is NULL or shows the bytes behind it.
unfoldable pub copy_c_bytes : Option (List ℕ) → ℕ → Result (List ℕ)
copy_c_bytes ptr n =
    if n == 0
    then ok []
    else if ltb max_int n
    then err (
        wrap "lance: native byte buffer length %d exceeds the Go address space: %w" (num n ∷ [])
          (leaf Leaf.internal))
    else elim ptr [
      | none ↦ err (
          wrap "lance: native byte buffer is NULL with length %d: %w" (num n ∷ [])
            (leaf Leaf.internal))
      | some memory ↦ ok (take n memory)
    ]

-- A buffer that is passed with its length is copied whole.
pub copy_c_bytes_whole : (b : List ℕ) → length b < 2 ^ 63 → copy_c_bytes (some b) (length b) ≡ ok b
unfolding copy_c_bytes
copy_c_bytes_whole [] h = refl
copy_c_bytes_whole (x ∷ b) h = rw (take_all (x ∷ b)) (ground arith)

-- The two out parameters: untouched, or a buffer, which is NULL if it is empty.
abbrev pub Out : Type 0
Out = Option (List ℕ)

-- `setCallbackOut`
abbrev pub set_callback_out : Bool → List ℕ → Out → Out
set_callback_out has_out msg out = if not has_out || length msg == 0 then out else some msg

pub record Answer (S : Type 0) : Type 0 where
  pub rc : ℕ
  pub out : Out
  pub state : S

module _ {S : Type 0} (fmt : Fmt) where
  -- Behind `p.Invoke`, the deferred recovery included.
  answer : Bool → Reply × S → Answer S
  answer has_out (returned data_, s) = record {
    rc = call_ok;
    out = set_callback_out has_out data_ (some []);
    state = s;
  }
  answer has_out (failed e, s) =
      if errors_is e Leaf.plugin_miss
      then record { rc = call_miss; out = some []; state = s }
      else record {
        rc = call_error;
        out = set_callback_out has_out (fmt.error_text e) (some []);
        state = s;
      }
  answer has_out (panicked value, s) = record {
    rc = call_error;
    out =
        set_callback_out has_out (fmt.appendf "lance-go: plugin panic: %v" (bytes value ∷ []))
          (some []);
    state = s;
  }

  -- Behind the lookup.
  call_plugin : Plugin S → Bool → ℕ → Option (List ℕ) → ℕ → S → Answer S
  unfolding answer copy_c_bytes
  call_plugin p has_out method in_ptr in_len s = elim (copy_c_bytes in_ptr in_len) [
    | err e ↦ record {
      rc = call_error;
      out = set_callback_out has_out (fmt.error_text e) (some []);
      state = s;
    }
    | ok payload ↦ answer has_out (p method payload s)
  ]

  -- `go_callback_invoke`. `has_out` says that neither out pointer is NULL.
  unfoldable pub go_callback_invoke :
      Registry (Plugin S) → ℕ → ℕ → Option (List ℕ) → ℕ → Bool → S → Answer S
  unfolding call_plugin
  go_callback_invoke r handle method in_ptr in_len has_out s =
      if not has_out
      then record { rc = call_error; out = none; state = s }
      else elim (lookup_plugin handle r) [
        | none ↦ record {
          rc = call_error;
          out =
              set_callback_out has_out
                (fmt.appendf "lance-go: no plugin registered for handle %d" (num handle ∷ []))
                (some []);
          state = s;
        }
        | some p ↦ call_plugin p has_out method in_ptr in_len s
      ]

  -- The call reaches the plugin `p` with the payload `b`.
  abbrev pub Reaches :
      Registry (Plugin S) → ℕ → Option (List ℕ) → ℕ → Bool → Plugin S → List ℕ → Type 0
  Reaches r handle in_ptr in_len has_out p b =
      (has_out ≡ true) × (lookup_plugin handle r ≡ some p) × (copy_c_bytes in_ptr in_len ≡ ok b)

  -- Only a returned reply answers OK, and only a miss answers MISS.
  answer-ok :
      (x : Reply × S)
      → (answer true x).rc ≡ call_ok
      → (d : List ℕ) × (x.0 ≡ returned d) × ((answer true x).out ≡ some d)
  unfolding answer
  answer-ok (returned [], s) h = ([], refl, refl)
  answer-ok (returned (b ∷ d), s) h = (b ∷ d, refl, ground arith)
  answer-ok (failed e, s) h = absurd (ground arith)
  answer-ok (panicked v, s) h = absurd (omega arith)

  answer-returned : (x : Reply × S) (d : List ℕ) → x.0 ≡ returned d → (answer true x).rc ≡ call_ok
  unfolding answer
  answer-returned (returned d', s) d h = refl
  answer-returned (failed e, s) d h = cc
  answer-returned (panicked v, s) d h = cc

  missed_reply :
      (x : Reply × S)
      → (answer true x).rc ≡ call_miss
      → IsMiss x.0 × ((answer true x).out ≡ some [])
  unfolding answer
  missed_reply (returned d, s) h = absurd (omega arith)
  missed_reply (failed e, s) h = ((e, refl, ground arith), ground arith)
  missed_reply (panicked v, s) h = absurd (omega arith)

  answer-IsMiss : (x : Reply × S) → IsMiss x.0 → (answer true x).rc ≡ call_miss
  unfolding answer
  answer-IsMiss (returned d, s) (e, q, m) = cc
  answer-IsMiss (failed e', s) (e, q, m) = ground arith
  answer-IsMiss (panicked v, s) (e, q, m) = cc

  state-answer : (x : Reply × S) → (answer true x).state ≡ x.1
  unfolding answer
  state-answer (returned d, s) = refl
  state-answer (failed e, s) = ground arith
  state-answer (panicked v, s) = refl

  answer_out : (d : List ℕ) (s : S) → (answer true (returned d, s)).out ≡ some d
  unfolding answer
  answer_out [] s = refl
  answer_out (b ∷ d) s = ground arith

  module _ (r : Registry (Plugin S)) (handle method : ℕ) (in_ptr : Option (List ℕ)) (in_len : ℕ)
      (has_out : Bool) (s : S) where
    Reaches-eq :
        (p : Plugin S) (b : List ℕ)
        → Reaches r handle in_ptr in_len has_out p b
        → go_callback_invoke r handle method in_ptr in_len has_out s ≡ answer true (p method b s)
    unfolding go_callback_invoke
    Reaches-eq p b (outs, found, copied) =
        rw (outs, found, go_callback_invoke) (rw (copied, call_plugin) (rw outs refl))

    -- A call that answers anything but ERROR reaches a plugin.
    reached :
        ((go_callback_invoke r handle method in_ptr in_len has_out s).rc ≡ call_error)
          × ((go_callback_invoke r handle method in_ptr in_len has_out s).state ≡ s)
        ⊎ ((p : Plugin S) × (b : List ℕ) × Reaches r handle in_ptr in_len has_out p b)
    unfolding go_callback_invoke
    reached = elim (Bool-cases has_out) [
      | inr deaf ↦ inl (ground arith, ground arith)
      | inl outs ↦ elim (Option-cases (lookup_plugin handle r)) [
        | inl missing ↦ inl (ground arith, ground arith)
        | inr (p, found) ↦ elim (Result-cases (copy_c_bytes in_ptr in_len)) [
          | inl (b, copied) ↦ inr (p, b, (outs, found, copied))
          | inr (e, bad) ↦ inl (ground arith, ground arith)
        ]
      ]
    ]

    -- The answer of a call that returned bytes, and of a call that missed.
    abbrev pub Returns : Answer S → Type 0
    Returns a =
        (p : Plugin S) × (b : List ℕ) × (d : List ℕ) × Reaches r handle in_ptr in_len has_out p b
        × ((p method b s).0 ≡ returned d)
        × (a.out ≡ some d)
        × (a.state ≡ (p method b s).1)

    abbrev pub Misses : Answer S → Type 0
    Misses a =
        (p : Plugin S) × (b : List ℕ) × Reaches r handle in_ptr in_len has_out p b
        × IsMiss (p method b s).0
        × (a.out ≡ some [])
        × (a.state ≡ (p method b s).1)

    answer_ok :
        (go_callback_invoke r handle method in_ptr in_len has_out s).rc ≡ call_ok
        → Returns (go_callback_invoke r handle method in_ptr in_len has_out s)
    answer_ok h = elim reached [
      | inl e ↦ absurd (omega arith)
      | inr (p, b, q) ↦
          let eq = Reaches-eq p b q in
          let (d, rd, o) = answer-ok (p method b s) (ap (λ (a : Answer S). a.rc) (sym eq) ∙ h) in
          (p, b, d, q, rd, rw eq o, rw eq (state-answer (p method b s)))
    ]

    answer_miss :
        (go_callback_invoke r handle method in_ptr in_len has_out s).rc ≡ call_miss
        → Misses (go_callback_invoke r handle method in_ptr in_len has_out s)
    answer_miss h = elim reached [
      | inl e ↦ absurd (omega arith)
      | inr (p, b, q) ↦
          let eq = Reaches-eq p b q in
          let (m, o) = missed_reply (p method b s) (ap (λ (a : Answer S). a.rc) (sym eq) ∙ h) in
          (p, b, q, m, rw eq o, rw eq (state-answer (p method b s)))
    ]

    -- What a caller gets of a plugin that it reaches.
    pub callback_returned :
        (p : Plugin S) (b d : List ℕ) (s' : S)
        → Reaches r handle in_ptr in_len has_out p b
        → p method b s ≡ (returned d, s')
        → ((go_callback_invoke r handle method in_ptr in_len has_out s).rc ≡ call_ok)
          × ((go_callback_invoke r handle method in_ptr in_len has_out s).out ≡ some d)
          × ((go_callback_invoke r handle method in_ptr in_len has_out s).state ≡ s')
    unfolding answer
    callback_returned p b d s' q e = rw (Reaches-eq p b q, e) (refl, answer_out d s', refl)

    pub callback_missed :
        (p : Plugin S) (b : List ℕ) (s' : S)
        → Reaches r handle in_ptr in_len has_out p b
        → p method b s ≡ (failed (leaf Leaf.plugin_miss), s')
        → ((go_callback_invoke r handle method in_ptr in_len has_out s).rc ≡ call_miss)
          × ((go_callback_invoke r handle method in_ptr in_len has_out s).state ≡ s')
    unfolding answer errors_is
    callback_missed p b s' q e = rw (Reaches-eq p b q, e) (refl, refl)

    -- The return code is OK exactly when the call has both out pointers, finds a plugin under the
    -- handle, copies the payload, and the plugin returns bytes; the caller then gets those bytes,
    -- and the plugins' state is what that plugin left.
    pub callback-ok_iff :
        ((go_callback_invoke r handle method in_ptr in_len has_out s).rc ≡ call_ok)
        ↔ Returns (go_callback_invoke r handle method in_ptr in_len has_out s)
    callback-ok_iff = (
      answer_ok,
      λ (p, b, d, q, e, o, st).
          ap (λ (a : Answer S). a.rc) (Reaches-eq p b q) ∙ answer-returned (p method b s) d e,
    )

    -- The return code is MISS exactly when the call reaches a plugin in the same way and that
    -- fails with an error that is or wraps errPluginMiss; the caller then gets no buffer.
    pub callback-miss_iff :
        ((go_callback_invoke r handle method in_ptr in_len has_out s).rc ≡ call_miss)
        ↔ Misses (go_callback_invoke r handle method in_ptr in_len has_out s)
    callback-miss_iff = (
      answer_miss,
      λ (p, b, q, m, o, st).
          ap (λ (a : Answer S). a.rc) (Reaches-eq p b q) ∙ answer-IsMiss (p method b s) m,
    )
