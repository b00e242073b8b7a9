-- ===== src/Blob.antt =====
-- lance/blob.go: blob files that are read under the lock of their list, and the reader with a
-- cursor of its own over one of them.
pub mod Seek
pub mod Contents
use lance_go.Base.{
  ℕ, ◌+◌, ◌-◌, ◌^◌, ◌≡◌, Bool, true, false, ◌&&◌, ◌||◌, not, Option, none, some, String, List, [],
  ◌∷◌, ◌++◌, length, take, drop, ltb, leb, ◌==◌, if◌then◌else◌, is_some,
}
use Prim.Native.Nat.{min}
use lance_go.Base.Int.{ℤ, pos, negsuc, ◌+ℤ◌, ◌-ℤ◌, ltb_ℤ, max_int64, min_int64, wrap_int64}
use lance_go.Base.Bytes.{word64}
use lance_go.Errors.{GoError, leaf, wrap, Leaf, text, num, int, Result, ok, err}
use lance_go.Errors.Ffi.{Native, Ctx, World, tick, ffi_call, background}
use lance_go.Errors.Out.{ffi_call_out}
use lance_go.Plugin.Invoke.{copy_c_bytes}

-- The out parameters of a read: a pointer, NULL or to bytes, and a length.
abbrev pub Cells : Type 0
Cells = Option (List ℕ) × ℕ

-- The native functions on a blob file, which is given by its pointer, behind the thread's token.
pub record BlobLib (N : Type 0) : Type 0 where
  pub thread : Native N
  pub size : ℕ → N → ℕ
  pub read : ℕ → Option ℕ → N → ℕ × Cells × N
  pub read_range : ℕ → ℕ → ℕ → Option ℕ → N → ℕ × Cells × N
  pub seek : ℕ → ℕ → Option ℕ → N → ℕ × Unit {0} × N
  pub tell : ℕ → Option ℕ → N → ℕ × ℕ × N
  pub close : ℕ → Option ℕ → N → ℕ × Unit {0} × N
  pub uri : ℕ → Option ℕ → N → ℕ × Option String × N
  pub string_free : String → N → N
  pub bytes_free : List ℕ → ℕ → N → N

-- `BlobFile`: its pointer, and whether its list is open at each moment.
pub record BlobFile : Type 0 where
  pub ptr : ℕ
  pub list_open : ℕ → Bool

-- `io.Seeker`'s whence is an int.
abbrev pub seek_start : ℤ
seek_start = pos 0

abbrev pub seek_current : ℤ
seek_current = pos 1

abbrev pub seek_end : ℤ
seek_end = pos 2

-- `BlobReader.Seek`, behind the switch: the position, or an error.
unfoldable pub seek_from : ℤ → ℤ → Result ℤ
seek_from base offset =
    if (ltb_ℤ (pos 0) offset && ltb_ℤ (max_int64 -ℤ offset) base)
      || (ltb_ℤ offset (pos 0) && ltb_ℤ base (min_int64 -ℤ offset))
    then err (wrap "lance: blob seek offset overflows int64: %w" [] (leaf Leaf.invalid_argument))
    else if ltb_ℤ (base +ℤ offset) (pos 0)
    then err (
        wrap "lance: negative blob seek position %d: %w" (int (base +ℤ offset) ∷ [])
          (leaf Leaf.invalid_argument))
    else ok (base +ℤ offset)

abbrev pub is_int : ℤ → ℕ → Bool
is_int (pos n) m = n == m
is_int (negsuc n) m = false

module _ {N : Type 0} (lib : BlobLib N) (c : Ctx) (b : BlobFile) where
  -- `withLock`. The context is looked at once, and the list behind that.
  unfoldable pub with_lock :
      {A : Type 0} → (ℕ → World N → Result A × World N) → World N → Result A × World N
  with_lock f w = elim (c.err w.now) [
    | some e ↦ (err (leaf e), tick w)
    | none ↦
        if b.list_open w.now
        then f b.ptr (tick w)
        else (err (wrap "lance: blob list is closed: %w" [] (leaf Leaf.invalid_argument)), tick w)
  ]

  -- `if buf != nil { defer C.lance_bytes_free(buf, length) }`
  abbrev free_cells : Cells → World N → World N
  free_cells (none, len) w = w
  free_cells (some buf, len) w = record w { native = lib.bytes_free buf len w.native }

  -- `readBytes`
  unfoldable pub read_bytes :
      String → (Option ℕ → N → ℕ × Cells × N) → World N → Result (List ℕ) × World N
  read_bytes what call w =
      let (e, cells, v) = ffi_call_out lib.thread c (none, 0) call w in
      let wrapped : GoError → GoError = wrap "lance: %s: %w" (text what ∷ []) in
      (
        elim e [
          | some x ↦ err (wrapped x)
          | none ↦ if cells.1 == 0 then ok [] else elim (copy_c_bytes cells.0 cells.1) [
            | err x ↦ err (wrapped x)
            | ok bytes ↦ ok bytes
          ]
        ],
        free_cells cells v,
      )

  -- `BlobFile.Read`, which `ReadAll` calls.
  unfoldable pub blob_read : World N → Result (List ℕ) × World N
  blob_read = with_lock (λ p. read_bytes "blob read" (lib.read p))

  -- `ReadRange`
  unfoldable pub read_range : ℕ → ℕ → World N → Result (List ℕ) × World N
  read_range start len = with_lock (λ p. read_bytes "blob read range" (lib.read_range p start len))

  -- `BlobFile.size`
  unfoldable pub size : World N → Result ℕ × World N
  size = with_lock (λ p w. (ok (lib.size p w.native), w))

  -- The part of `Seek`, `Tell` and `Close` behind the lock.
  unfoldable pub simple_call :
      {X : Type 0} → String → X → (Option ℕ → N → ℕ × X × N) → World N → Result X × World N
  simple_call shape x call w =
      let (e, y, v) = ffi_call_out lib.thread c x call w in
      (elim e [ some x ↦ err (wrap shape [] x) | none ↦ ok y ], v)

  -- `BlobFile.Seek`
  unfoldable pub blob_seek : ℕ → World N → Result (Unit {0}) × World N
  blob_seek off = with_lock (λ p. simple_call "lance: blob seek: %w" tt (lib.seek p off))

  -- `Tell`
  unfoldable pub tell : World N → Result ℕ × World N
  tell = with_lock (λ p. simple_call "lance: blob tell: %w" 0 (lib.tell p))

  -- `URI`
  unfoldable pub uri : World N → Result String × World N
  uri = with_lock (λ p w.
      let (e, y, v) = ffi_call_out lib.thread c none (lib.uri p) w in
      elim e [
        | some x ↦ (err (wrap "lance: blob uri: %w" [] x), v)
        | none ↦ elim y [
          | none ↦ (ok "", v)
          | some s ↦ (ok s, record v { native = lib.string_free s v.native })
        ]
      ])

  -- `BlobReader.readAt`, with the bytes of `p`: the count, the error, what `p` then holds.
  unfoldable pub read_at : List ℕ → ℤ → World N → ℕ × Option GoError × List ℕ × World N
  read_at p (negsuc n) w = if length p == 0 then (0, none, p, w) else (
    0,
    some (
        wrap "lance: blob read offset %d is negative: %w" (int (negsuc n) ∷ [])
          (leaf Leaf.invalid_argument)),
    p,
    w,
  )
  read_at p (pos off) w = if length p == 0 then (0, none, p, w) else elim (c.err w.now) [
    | some e ↦ (0, some (leaf e), p, tick w)
    | none ↦
        let (sized, w₁) = size (tick w) in
        elim sized [
          | err e ↦ (0, some e, p, w₁)
          | ok total ↦
              if leb total off
              then (0, some (leaf Leaf.eof), p, w₁)
              else let (got, w₂) = read_range off (min (length p) (total - off)) w₁ in
                elim got [
                  | err e ↦ (0, some e, p, w₂)
                  | ok bytes ↦
                      let n = min (length p) (length bytes) in
                      (
                        n,
                        (if ltb n (length p) then some (leaf Leaf.eof) else none),
                        take n bytes ++ drop n p,
                        w₂,
                      )
                ]
        ]
  ]

  -- `BlobReader.Read`: the last result but one is the cursor.
  unfoldable pub read_next : List ℕ → ℤ → World N → ℕ × Option GoError × List ℕ × ℤ × World N
  read_next p off w =
      let (n, e, p', w') = read_at p off w in (n, e, p', wrap_int64 (off +ℤ pos n), w')

  -- The switch of `BlobReader.Seek`.
  unfoldable pub seek_base : ℤ → ℤ → World N → Result ℤ × World N
  seek_base whence off w =
      if is_int whence 0
      then (ok (pos 0), w)
      else if is_int whence 1
      then (ok off, w)
      else if is_int whence 2
      then (let (sized, w') = size w in
          elim sized [
            | err e ↦ (err e, w')
            | ok total ↦
                if ltb (2 ^ 63 - 1) total
                then (
                  err (
                      wrap "lance: blob is too large for io.Seeker: %w" []
                        (leaf Leaf.invalid_argument)),
                  w',
                )
                else (ok (pos total), w')
          ])
      else (
        err (
            wrap "lance: invalid blob seek whence %d: %w" (int whence ∷ [])
              (leaf Leaf.invalid_argument)),
        w,
      )

  -- `BlobReader.Seek`: its answer, and the cursor that it leaves.
  unfoldable pub seek : ℤ → ℤ → ℤ → World N → Result ℤ × ℤ × World N
  seek offset whence off w =
      let (base, w') = seek_base whence off w in
      elim base [
        | err e ↦ (err e, off, w')
        | ok z ↦ elim (seek_from z offset) [
          | err e ↦ (err e, off, w')
          | ok next ↦ (ok next, next, w')
        ]
      ]

module _ {N : Type 0} (lib : BlobLib N) (b : BlobFile) where
  -- `BlobFile.Close`, which runs under the background context.
  unfoldable pub blob_close : World N → Result (Unit {0}) × World N
  blob_close =
      with_lock lib background b
        (λ p. simple_call lib background b "lance: blob close: %w" tt (lib.close p))
