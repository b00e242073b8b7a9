-- ===== src/Tests/Blob.antt =====
-- Runs of lance/blob.go over a blob of five bytes that a library keeps as its state.
use lance_go.Base.{
  ℕ, ◌+◌, ◌≡◌, refl, ◌↔◌, true, false, none, some, List, [], ◌∷◌, arith, take, drop,
}
use lance_go.Base.Int.{ℤ, pos, negsuc, ◌+ℤ◌}
use lance_go.Errors.{ok}
use lance_go.Errors.Ffi.{World, background}
use lance_go.Blob.{BlobLib, BlobFile, read_at, seek, size}
use lance_go.Blob.Seek.{Origin, IsPosition, seek_iff}
use lance_go.Blob.Contents.{Serves, Undisturbed, Reads, read_at_lem}

abbrev content : List ℕ
content = 10 ∷ 11 ∷ 12 ∷ 13 ∷ 14 ∷ []

-- The state counts the calls.
abbrev memory : BlobLib ℕ
memory = record {
  thread = record { in_tokio = λ n. false; last_code = λ n. 0; last_message = λ n. none };
  size = λ p n. 5;
  read = λ p t n. (0, (some content, 5), n + 1);
  read_range = λ p start len t n. (0, (some (take len (drop start content)), len), n + 1);
  seek = λ p off t n. (0, tt, n);
  tell = λ p t n. (0, 0, n);
  close = λ p t n. (0, tt, n);
  uri = λ p t n. (0, none, n);
  string_free = λ s n. n;
  bytes_free = λ bytes len n. n;
}

abbrev blob : BlobFile
blob = record { ptr = 1; list_open = λ t. true }

abbrev thread : World ℕ
thread = record {
  native = 0;
  now = 0;
  locks = 0;
  thread_token = none;
  live_tokens = [];
  next_token = 1;
}

memory-Serves : Serves memory background blob content
memory-Serves = record {
  outside = λ n. refl;
  sized = λ n. refl;
  ranged = λ start len t n h l. (n + 1, refl);
  addressable = omega arith;
}

quiet : Undisturbed memory background blob
quiet = record { live = λ t. refl; opened = λ t. refl }

read_at_lem_example :
    Reads memory background blob
      (0 ∷ 0 ∷ 0 ∷ [])
      3
      content
      (read_at memory background blob (0 ∷ 0 ∷ 0 ∷ []) (pos 3) thread)
read_at_lem_example =
    read_at_lem memory background blob (0 ∷ 0 ∷ 0 ∷ []) 3 content thread memory-Serves quiet

seek_iff_example :
    ((seek memory background blob (negsuc 1) (pos 2) (pos 4) thread).0 ≡ ok (pos 3)) ↔ (
      (z : ℤ) × Origin (pos 2) (pos 4) (size memory background blob thread).0 z
      × (pos 3 ≡ z +ℤ negsuc 1)
      × IsPosition (z +ℤ negsuc 1))
seek_iff_example =
    seek_iff memory background blob (negsuc 1) (pos 2) (pos 4) (pos 3) thread
      (omega arith, omega arith) (omega arith, omega arith)
