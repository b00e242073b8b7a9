-- ===== src/Fts/Judged.antt =====
-- Calls that either give a result with a property or refuse their input (lance/scanner.go).
use lance_go.Base.{◌≡◌, refl, true}
use lance_go.Errors.{GoError, Leaf, Result, ok, err, ◌>>=◌, errors_is}

-- A condition decides whether a call gives a result, of which `R` holds, or ErrInvalidArgument.
pub data Judged {A : Type 0} (P : Type 0) (R : A → Type 0) (r : Result A) : Type 0 where
  accepted : P → (a : A) → R a → r ≡ ok a → Judged P R r
  refused :
      (¬ P) → (e : GoError) → r ≡ err e → errors_is e Leaf.invalid_argument ≡ true → Judged P R r

pub Judged-bind :
    {A B P Q : Type 0} {R : A → Type 0} {S : B → Type 0} (r : Result A) (f : A → Result B)
    → Judged P R r
    → ((a : A) → R a → Judged Q S (f a))
    → Judged (P × Q) S (r >>= f)
Judged-bind r f (refused n e h i) k = refused (λ (p, q). n p) e (rw h refl) i
Judged-bind r f (accepted p a s h) k = elim (k a s) [
  | accepted q b t g ↦ accepted (p, q) b t (rw h g)
  | refused n e g i ↦ refused (λ (p, q). n q) e (rw h g) i
]

pub Judged-map :
    {A B P : Type 0} {R : A → Type 0} {S : B → Type 0} (r : Result A) (f : A → B)
    → ((a : A) → R a → S (f a))
    → Judged P R r
    → Judged P S (r >>= λ a. ok (f a))
Judged-map r f k (refused n e h i) = refused n e (rw h refl) i
Judged-map r f k (accepted p a s h) = accepted p (f a) (k a s) (rw h refl)

pub Judged-iff :
    {A P Q : Type 0} {R : A → Type 0} (r : Result A)
    → (P → Q)
    → (Q → P)
    → Judged P R r
    → Judged Q R r
Judged-iff r to from (accepted p a s h) = accepted (to p) a s h
Judged-iff r to from (refused n e h i) = refused (λ q. n (from q)) e h i
