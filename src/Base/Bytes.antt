-- ===== src/Base/Bytes.antt =====
-- Bytes and encoding/binary's LittleEndian, over lists of numbers below 256.
use lance_go.Base.{
  ℕ, zero, suc, ◌+◌, ◌*◌, ◌/◌, ◌%◌, ◌^◌, ◌≤◌, ◌<◌, ◌≡◌, refl, ap, List, [], ◌∷◌, ◌++◌, arith,
  length, take, All,
}

abbrev pub IsByte : ℕ → Type 0
IsByte b = b < 256

-- The first `n` bytes of a list as a little-endian number; a short list reads as if it ended in 0s.
unfoldable pub le_get : ℕ → List ℕ → ℕ
le_get zero bs = 0
le_get (suc n) [] = 0
le_get (suc n) (b ∷ bs) = b + 256 * le_get n bs

-- The `n` low bytes of a number, the lowest first.
unfoldable pub le_put : ℕ → ℕ → List ℕ
le_put zero v = []
le_put (suc n) v = (v % 256) ∷ le_put n (v / 256)

pub length-le_put : (n v : ℕ) → length (le_put n v) ≡ n
unfolding le_put
length-le_put zero v = refl
length-le_put (suc n) v = ap suc (length-le_put n (v / 256))

pub le_put-IsByte : (n v : ℕ) → All IsByte (le_put n v)
unfolding le_put
le_put-IsByte zero v = tt
le_put-IsByte (suc n) v = (omega arith, le_put-IsByte n (v / 256))

abbrev pub word32 : ℕ
word32 = 2 ^ 32

abbrev pub word64 : ℕ
word64 = 2 ^ 64

abbrev pub le_u32 : List ℕ → ℕ
le_u32 = le_get 4

abbrev pub le_u64 : List ℕ → ℕ
le_u64 = le_get 8

pub le_get-le_put_4 : (v : ℕ) (rest : List ℕ) → v < word32 → le_u32 (le_put 4 v ++ rest) ≡ v
unfolding le_get le_put
le_get-le_put_4 v rest h = omega arith

pub le_get-le_put_8 : (v : ℕ) (rest : List ℕ) → v < word64 → le_u64 (le_put 8 v ++ rest) ≡ v
unfolding le_get le_put
le_get-le_put_8 v rest h = omega arith

split_low : (b x : ℕ) → b < 256 → (b + 256 * x) % 256 ≡ b
split_low b x h = omega arith

split_high : (b x : ℕ) → b < 256 → (b + 256 * x) / 256 ≡ x
split_high b x h = omega arith

-- Writing back what was read gives the bytes again.
pub le_put-le_get :
    (n : ℕ) (bs : List ℕ) → All IsByte bs → n ≤ length bs → le_put n (le_get n bs) ≡ take n bs
unfolding le_get le_put
le_put-le_get zero bs h l = refl
le_put-le_get (suc n) [] h l = absurd (omega arith)
le_put-le_get (suc n) (b ∷ bs) h l =
    rw (split_low b (le_get n bs) h.0, split_high b (le_get n bs) h.0)
      (ap (◌∷◌ b) (le_put-le_get n bs h.1 (omega arith)))

pub le_get-lt_4 : (bs : List ℕ) → All IsByte bs → le_u32 bs < word32
unfolding le_get
le_get-lt_4 [] h = omega arith
le_get-lt_4 (a ∷ []) h = omega arith
le_get-lt_4 (a ∷ b ∷ []) h = omega arith
le_get-lt_4 (a ∷ b ∷ c ∷ []) h = omega arith
le_get-lt_4 (a ∷ b ∷ c ∷ d ∷ bs) h = omega arith
