-- ===== src/Blob/Seek.antt =====
-- `BlobReader.Seek` of lance/blob.go against the sum of unbounded integers.
use lance_go.Base.{
  ℕ, ◌^◌, ◌<◌, ◌≡◌, subst, sym, ap, ◌∙◌, ◌↔◌, ◌⊎◌, inl, inr, true, arith, Bool-cases,
}
use lance_go.Base.Int.{ℤ, pos, negsuc, ◌+ℤ◌, ◌-ℤ◌, ◌≤ℤ◌, max_int64, IsInt64}
use lance_go.Errors.{GoError, Result, ok, err, Result-cases}
use lance_go.Errors.Ffi.{Ctx, World}
use lance_go.Blob.{BlobLib, BlobFile, size, seek, is_int, seek_from, seek_base}

-- A position that a reader may have.
abbrev pub IsPosition : ℤ → Type 0
IsPosition z = (pos 0 ≤ℤ z) × (z ≤ℤ max_int64)

from_ok :
    (z offset : ℤ)
    → IsPosition z
    → IsInt64 offset
    → IsPosition (z +ℤ offset)
    → seek_from z offset ≡ ok (z +ℤ offset)
unfolding seek_from ◌+ℤ◌ ◌-ℤ◌
from_ok (pos m) (pos n) v i h = ground arith
from_ok (pos m) (negsuc n) v i h = ground arith
from_ok (negsuc m) offset v i h = absurd (omega arith)

from_only :
    (z offset p : ℤ)
    → IsPosition z
    → IsInt64 offset
    → seek_from z offset ≡ ok p
    → (p ≡ z +ℤ offset) × IsPosition (z +ℤ offset)
unfolding seek_from ◌+ℤ◌ ◌-ℤ◌
from_only (pos m) (pos n) p v i h = (ground arith, (ground arith, ground arith))
from_only (pos m) (negsuc n) p v i h = (ground arith, (ground arith, ground arith))
from_only (negsuc m) offset p v i h = absurd (omega arith)

-- Where a whence starts to count: 0 at the start, 1 at the cursor, 2 at the end, if the file gives
-- a size and an int64 has room for it.
pub data Origin (whence off : ℤ) (sized : Result ℕ) : ℤ → Type 0 where
  from_start : whence ≡ pos 0 → Origin whence off sized (pos 0)
  from_current : whence ≡ pos 1 → Origin whence off sized off
  from_end : (n : ℕ) → whence ≡ pos 2 → sized ≡ ok n → n < 2 ^ 63 → Origin whence off sized (pos n)

module _ {N : Type 0} (lib : BlobLib N) (c : Ctx) (b : BlobFile) where
  is_int_eq : (z : ℤ) (n : ℕ) → is_int z n ≡ true → z ≡ pos n
  is_int_eq (pos m) n h = ground arith
  is_int_eq (negsuc m) n h = cc

  base-Origin :
      (whence off z : ℤ) (w : World N)
      → (seek_base lib c b whence off w).0 ≡ ok z
      → Origin whence off (size lib c b w).0 z
  unfolding seek_base
  base-Origin whence off z w h = elim (Bool-cases (is_int whence 0)) [
    | inl start ↦ subst (Origin whence off _) (ground arith) (from_start (is_int_eq whence 0 start))
    | inr x ↦ elim (Bool-cases (is_int whence 1)) [
      | inl current ↦
          subst (Origin whence off _) (ground arith) (from_current (is_int_eq whence 1 current))
      | inr y ↦ elim (Bool-cases (is_int whence 2)) [
        | inr neither ↦ absurd (ground arith)
        | inl end ↦ elim (Result-cases (size lib c b w).0) [
          | inr (e, bad) ↦ absurd (ground arith)
          | inl (n, sized) ↦
              subst (Origin whence off _) (ground arith)
                (from_end n (is_int_eq whence 2 end) sized (ground arith))
        ]
      ]
    ]
  ]

  Origin-base :
      (whence off z : ℤ) (w : World N)
      → Origin whence off (size lib c b w).0 z
      → (seek_base lib c b whence off w).0 ≡ ok z
  unfolding seek_base
  Origin-base whence off z w (from_start h) = ground arith
  Origin-base whence off z w (from_current h) = ground arith
  Origin-base whence off z w (from_end n h s l) = ground arith

  Origin-IsPosition :
      (whence off z : ℤ) (sized : Result ℕ)
      → IsPosition off
      → Origin whence off sized z
      → IsPosition z
  Origin-IsPosition whence off z sized v (from_start h) = ground arith
  Origin-IsPosition whence off z sized v (from_current h) = v
  Origin-IsPosition whence off z sized v (from_end n h s l) = ground arith

  seek_split :
      (offset whence off p : ℤ) (w : World N)
      → (seek lib c b offset whence off w).0 ≡ ok p
      → (z : ℤ) × ((seek_base lib c b whence off w).0 ≡ ok z) × (seek_from z offset ≡ ok p)
  unfolding seek
  seek_split offset whence off p w h = elim (Result-cases (seek_base lib c b whence off w).0) [
    | inr (e, bad) ↦ absurd (ground arith)
    | inl (z, base) ↦ (z, base, ground arith)
  ]

  seek_join :
      (offset whence off z p : ℤ) (w : World N)
      → (seek_base lib c b whence off w).0 ≡ ok z
      → seek_from z offset ≡ ok p
      → (seek lib c b offset whence off w).0 ≡ ok p
  unfolding seek
  seek_join offset whence off z p w h f = ground arith

  -- With the cursor at a position and an int64 offset, `Seek` gives p exactly when the whence has
  -- an origin and p is the sum of origin and offset, as unbounded integers, and a position.
  pub seek_iff :
      (offset whence off p : ℤ) (w : World N)
      → IsPosition off
      → IsInt64 offset
      → ((seek lib c b offset whence off w).0 ≡ ok p) ↔ (
          (z : ℤ) × Origin whence off (size lib c b w).0 z
          × (p ≡ z +ℤ offset)
          × IsPosition (z +ℤ offset))
  seek_iff offset whence off p w v i = (
    λ h.
        let (z, base, from) = seek_split offset whence off p w h in
        let o = base-Origin whence off z w base in
        let (e, q) = from_only z offset p (Origin-IsPosition whence off z _ v o) i from in
        (z, o, e, q),
    λ (z, o, e, q).
        seek_join offset whence off z p w (Origin-base whence off z w o)
          (from_ok z offset (Origin-IsPosition whence off z _ v o) i q ∙ ap ok (sym e)),
  )

  -- `Seek` leaves the cursor at the position that it gives; if it fails the cursor stays.
  pub cursor-seek :
      (offset whence off : ℤ) (w : World N)
      → let (res, off', w') = seek lib c b offset whence off w in
        ((p : ℤ) × (res ≡ ok p) × (off' ≡ p)) ⊎ ((e : GoError) × (res ≡ err e) × (off' ≡ off))
  unfolding seek
  cursor-seek offset whence off w = elim (Result-cases (seek_base lib c b whence off w).0) [
    | inr (e, bad) ↦ inr (e, ground arith, ground arith)
    | inl (z, base) ↦ elim (Result-cases (seek_from z offset)) [
      | inr (e, bad) ↦ inr (e, ground arith, ground arith)
      | inl (p, good) ↦ inl (p, ground arith, ground arith)
    ]
  ]
