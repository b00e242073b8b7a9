-- ===== src/Blob/Contents.antt =====
-- `BlobReader.ReadAt` and `Read` of lance/blob.go over a file with known contents.
use lance_go.Base.{
  ℕ, ◌+◌, ◌-◌, ◌^◌, ◌≤◌, ◌<◌, ◌≡◌, sym, ap, ◌∙◌, inl, inr, true, false, Option, none, some, String,
  List, [], ◌∷◌, ◌++◌, arith, length, take, drop, length-take, length-drop, take_all, ltb, leb,
  if◌then◌else◌, Bool-cases,
}
use Prim.Native.Nat.{min}
use lance_go.Base.Int.{pos, ◌+ℤ◌}
use lance_go.Errors.{GoError, leaf, Leaf, Result, ok}
use lance_go.Errors.Ffi.{Ctx, World, tick, seen_token}
use lance_go.Errors.Out.{ffi_call_out, ffi_call_out-ok}
use lance_go.Plugin.Invoke.{copy_c_bytes, copy_c_bytes_whole}
use lance_go.Blob.{
  Cells, BlobLib, BlobFile, with_lock, read_bytes, read_range, size, read_at, read_next,
}

module _ {N : Type 0} (lib : BlobLib N) (c : Ctx) (b : BlobFile) where
  -- What the native library documents of a blob: its size is that of its contents, and a range
  -- inside them is read into a buffer of its own.
  pub record Serves (content : List ℕ) : Type 0 where
    pub outside : (n : N) → lib.thread.in_tokio n ≡ false
    pub sized : (n : N) → lib.size b.ptr n ≡ length content
    pub ranged :
        (start len : ℕ) (token : Option ℕ) (n : N)
        → 0 < len
        → start + len ≤ length content
        → (n' : N) × (lib.read_range b.ptr start len token n
            ≡ (0, (some (take len (drop start content)), len), n'))
    pub addressable : length content < 2 ^ 63

  -- The context is live and the list is open throughout.
  pub record Undisturbed : Type 0 where
    pub live : (t : ℕ) → c.err t ≡ none
    pub opened : (t : ℕ) → b.list_open t ≡ true

  with_lock_open :
      {A : Type 0} (f : ℕ → World N → Result A × World N) (w : World N)
      → Undisturbed
      → with_lock lib c b f w ≡ f b.ptr (tick w)
  unfolding with_lock
  with_lock_open f w u = let l = u.live w.now in let o = u.opened w.now in ground arith

  size_served :
      (content : List ℕ) (w : World N)
      → Serves content
      → Undisturbed
      → size lib c b w ≡ (ok (length content), tick w)
  unfolding size
  size_served content w s u = with_lock_open _ w u ∙ ap (λ n. (ok n, tick w)) (s.sized w.native)

  copied :
      (start len : ℕ) (content : List ℕ)
      → start + len ≤ length content
      → length content < 2 ^ 63
      → copy_c_bytes (some (take len (drop start content))) len ≡ ok (take len (drop start content))
  copied start len content h l =
      let e : length (take len (drop start content)) ≡ len =
        omega (arith, length-take len (drop start content), length-drop start content) in
      ap (copy_c_bytes (some (take len (drop start content)))) (sym e)
      ∙ copy_c_bytes_whole (take len (drop start content)) (omega arith)

  read_bytes-ok :
      (what : String) (call : Option ℕ → N → ℕ × Cells × N) (w : World N) (bytes : List ℕ) (len : ℕ)
      → (ffi_call_out lib.thread c (none, 0) call w).0 ≡ none
      → (ffi_call_out lib.thread c (none, 0) call w).1 ≡ (some bytes, len)
      → 0 < len
      → copy_c_bytes (some bytes) len ≡ ok bytes
      → (read_bytes lib c b what call w).0 ≡ ok bytes
  unfolding read_bytes
  read_bytes-ok what call w bytes len e o l k = ground arith

  range_served :
      (start len : ℕ) (content : List ℕ) (w : World N)
      → Serves content
      → Undisturbed
      → 0 < len
      → start + len ≤ length content
      → (read_range lib c b start len w).0 ≡ ok (take len (drop start content))
  unfolding read_range
  range_served start len content w s u h l =
      let w' = tick w in
      let (n', r) = s.ranged start len (seen_token lib.thread c w') w'.native h l in
      let (e, out, st) =
        ffi_call_out-ok lib.thread c (none, 0) (some (take len (drop start content)), len)
          (lib.read_range b.ptr start len) w' n' (s.outside w'.native, u.live w'.now) r in
      ap (λ (x : Result (List ℕ) × World N). x.0)
        (with_lock_open (λ p. read_bytes lib c b "blob read range" (lib.read_range p start len)) w
          u)
      ∙ read_bytes-ok "blob read range" (lib.read_range b.ptr start len) w'
          (take len (drop start content)) len e out h (copied start len content l s.addressable)

  read_at_steps :
      (p bytes : List ℕ) (off total : ℕ) (w w₁ : World N)
      → 0 < length p
      → c.err w.now ≡ none
      → size lib c b (tick w) ≡ (ok total, w₁)
      → off < total
      → (read_range lib c b off (min (length p) (total - off)) w₁).0 ≡ ok bytes
      → let (count, e, p', w') = read_at lib c b p (pos off) w in
        let n = min (length p) (length bytes) in
        (count ≡ n)
        × (e ≡ (if ltb n (length p) then some (leaf Leaf.eof) else none))
        × (p' ≡ take n bytes ++ drop n p)
  unfolding read_at
  read_at_steps p bytes off total w w₁ h l s o g = (ground arith, ground arith, ground arith)

  -- How much of a file the buffer gets.
  abbrev pub available : List ℕ → ℕ → List ℕ → ℕ
  available p off content = min (length p) (length content - off)

  -- What a read at an offset gives: the bytes that there are, put in front of what the buffer held,
  -- and io.EOF exactly if they do not fill it.
  pub record Reads (p : List ℕ) (off : ℕ) (content : List ℕ)
      (res : ℕ × Option GoError × List ℕ × World N) : Type 0 where
    pub counted : res.0 ≡ available p off content
    pub ended :
        res.1 ≡ (if ltb (available p off content) (length p) then some (leaf Leaf.eof) else none)
    pub filled :
        res.2
        ≡ take (available p off content) (drop off content) ++ drop (available p off content) p

  read_at_inside :
      (p : List ℕ) (off : ℕ) (content : List ℕ) (w : World N)
      → Serves content
      → Undisturbed
      → 0 < length p
      → off < length content
      → Reads p off content (read_at lib c b p (pos off) w)
  read_at_inside p off content w s u h l =
      let n = available p off content in
      let bytes = take n (drop off content) in
      let len : length bytes ≡ n =
        omega (arith, length-take n (drop off content), length-drop off content) in
      let m : min (length p) (length bytes) ≡ n = omega (arith, len) in
      let whole : take n bytes ≡ bytes = ap (λ k. take k bytes) (sym len) ∙ take_all bytes in
      let (count, e, q) =
        read_at_steps p bytes off (length content) w (tick (tick w)) h (u.live w.now)
          (size_served content (tick w) s u) l
          (range_served off n content (tick (tick w)) s u (omega arith) (omega arith)) in
      record {
        counted = count ∙ m;
        ended = e ∙ ap (λ k. if ltb k (length p) then some (leaf Leaf.eof) else none) m;
        filled = q ∙ ap (λ k. take k bytes ++ drop k p) m ∙ ap (λ t. t ++ drop n p) whole;
      }

  read_at_outside :
      (p : List ℕ) (off : ℕ) (content : List ℕ) (w : World N)
      → Undisturbed
      → size lib c b (tick w) ≡ (ok (length content), tick (tick w))
      → length content ≤ off
      → Reads p off content (read_at lib c b p (pos off) w)
  unfolding read_at
  read_at_outside [] off content w u s l = record {
    counted = ground arith;
    ended = ground arith;
    filled = ground arith;
  }
  read_at_outside (x ∷ p) off content w u s l =
      let v = u.live w.now in
      record { counted = ground arith; ended = ground arith; filled = ground arith }

  read_at_empty :
      (off : ℕ) (content : List ℕ) (w : World N)
      → Reads [] off content (read_at lib c b [] (pos off) w)
  unfolding read_at
  read_at_empty off content w = record {
    counted = ground arith;
    ended = ground arith;
    filled = ground arith;
  }

  -- Over a blob that the native library serves as documented, with a live context and an open list,
  -- `ReadAt` at an offset that is not negative gives what `Reads` says: the contents from the
  -- offset, as much as the buffer holds, and io.EOF exactly if that is less than the buffer.
  pub read_at_lem :
      (p : List ℕ) (off : ℕ) (content : List ℕ) (w : World N)
      → Serves content
      → Undisturbed
      → Reads p off content (read_at lib c b p (pos off) w)
  read_at_lem [] off content w s u = read_at_empty off content w
  read_at_lem (x ∷ p) off content w s u = elim (Bool-cases (leb (length content) off)) [
    | inl over ↦
        read_at_outside (x ∷ p) off content w u (size_served content (tick w) s u) (ground arith)
    | inr inside ↦ read_at_inside (x ∷ p) off content w s u (omega arith) (ground arith)
  ]

  -- A `Read` with the cursor inside the contents moves it behind the bytes that were read, so
  -- successive reads give successive parts.
  pub read_next_lem :
      (p : List ℕ) (off : ℕ) (content : List ℕ) (w : World N)
      → Serves content
      → Undisturbed
      → off ≤ length content
      → let (count, e, p', off', w') = read_next lib c b p (pos off) w in
        Reads p off content (count, e, p', w') × (off' ≡ pos (off + available p off content))
  unfolding read_next ◌+ℤ◌
  read_next_lem p off content w s u l =
      let r = read_at_lem p off content w s u in let fits = s.addressable in (r, ground arith)
