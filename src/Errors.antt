-- ===== src/Errors.antt =====
-- lance/errors.go: the error values of the package, and the sentinels that they wrap.
pub mod Ffi
pub mod Watcher
pub mod Out
use lance_go.Base.{
  ℕ, ◌+◌, ◌≡◌, refl, ap, ◌⊎◌, inl, inr, Bool, false, Option, none, some, String, List, ◌==◌,
  if◌then◌else◌,
}
use lance_go.Base.Int.{ℤ}

-- The error values that have an identity: the sentinels of this file, then `context.Canceled` and
-- `context.DeadlineExceeded`, `io.EOF`, `errPluginMiss`, and any error of other code, by a number.
pub data Leaf : Type 0 where
  invalid_argument io not_found already_exists index internal not_implemented conflict : Leaf
  timeout reentrant_call canceled : Leaf
  ctx_canceled ctx_deadline eof plugin_miss : Leaf
  foreign : ℕ → Leaf

-- An operand of a format string.
pub data Arg : Type 0 where
  text : String → Arg
  num : ℕ → Arg
  int : ℤ → Arg
  bytes : List ℕ → Arg

-- `wrap` is `fmt.Errorf` with the verb `%w`, `plain` is `fmt.Errorf` without it. `wrap_shown` shows
-- one error by `%v` and wraps another.
pub data GoError : Type 0 where
  leaf : Leaf → GoError
  plain : String → List Arg → GoError
  wrap : String → List Arg → GoError → GoError
  wrap_shown : String → List Arg → GoError → GoError → GoError

abbrev pub leaf_id : Leaf → ℕ
leaf_id Leaf.invalid_argument = 0
leaf_id Leaf.io = 1
leaf_id Leaf.not_found = 2
leaf_id Leaf.already_exists = 3
leaf_id Leaf.index = 4
leaf_id Leaf.internal = 5
leaf_id Leaf.not_implemented = 6
leaf_id Leaf.conflict = 7
leaf_id Leaf.timeout = 8
leaf_id Leaf.reentrant_call = 9
leaf_id Leaf.canceled = 10
leaf_id Leaf.ctx_canceled = 11
leaf_id Leaf.ctx_deadline = 12
leaf_id Leaf.eof = 13
leaf_id Leaf.plugin_miss = 14
leaf_id (foreign n) = 15 + n

-- `errors.Is`, for a target that wraps nothing.
unfoldable pub errors_is : GoError → Leaf → Bool
errors_is (leaf l) t = leaf_id l == leaf_id t
errors_is (plain f args) t = false
errors_is (wrap f args e) t = errors_is e t
errors_is (wrap_shown f args shown e) t = errors_is e t

abbrev pub code_ok : ℕ
code_ok = 0

abbrev pub code_cancelled : ℕ
code_cancelled = 10

-- `codeToSentinel`, with the codes of include/lance_go.h.
unfoldable pub code_to_sentinel : ℕ → Leaf
code_to_sentinel code =
    if code == 1
    then Leaf.invalid_argument
    else if code == 2
    then Leaf.io
    else if code == 3
    then Leaf.not_found
    else if code == 4
    then Leaf.already_exists
    else if code == 5
    then Leaf.index
    else if code == 7
    then Leaf.not_implemented
    else if code == 8
    then Leaf.conflict
    else if code == 9
    then Leaf.timeout
    else if code == 10
    then Leaf.canceled
    else Leaf.internal

-- A result and an error, of which a Go function returns one.
pub data Result {ℓ} (A : Type ℓ) : Type ℓ where
  ok : A → Result A
  err : GoError → Result A

-- `if err != nil { return err }` before the rest of a function.
infixl 4 ◌>>=◌
abbrev pub ◌>>=◌ : {A B : Type 0} → Result A → (A → Result B) → Result B
got >>= rest = elim got [ err e ↦ err e | ok value ↦ rest value ]

pub Result-cases {ℓ} :
    {A : Type ℓ} (r : Result A) → ((a : A) × (r ≡ ok a)) ⊎ ((e : GoError) × (r ≡ err e))
Result-cases (ok a) = inl (a, refl)
Result-cases (err e) = inr (e, refl)

-- A function that returns no error got one from none of its parts.
pub passed :
    {A B : Type 0} {b : B} (rest : A → Result B) (got : Result A)
    → (got >>= rest) ≡ ok b
    → (value : A) × (got ≡ ok value) × (rest value ≡ ok b)
passed rest (err e) h = cc
passed rest (ok value) h = (value, refl, h)

pub ok-injective {ℓ} : {A : Type ℓ} {a b : A} → ◌≡◌ {A = Result A} (ok a) (ok b) → a ≡ b
ok-injective {A} {a} h = ap (λ (r : Result A). elim r [ ok x ↦ x | err e ↦ a ]) h
