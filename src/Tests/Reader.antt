-- ===== src/Tests/Reader.antt =====
-- Runs of the readers of lance/reader.go and lance/iter.go over a stream of numbers.
use lance_go.Base.{
  ℕ, ◌+◌, ◌-◌, ◌≡◌, refl, Bool, true, false, none, some, [], ◌∷◌, ◌==◌, if◌then◌else◌,
}
use lance_go.Base.Int.{pos}
use lance_go.Errors.{ok}
use lance_go.Reader.{ArrowLib, Reader, Outcome, done, fresh, release}
use lance_go.Reader.Invariant.{
  Inv, stream_releases, imports, batch_releases, fresh-Inv, retains, decrements, forces, nexts, run,
  run-fresh-Inv, release_counts,
}
use lance_go.Reader.Iterate.{Consumer, batches, ends, batches_releases}
use lance_go.Reader.Collect.{collect, contents, batches_collects}

-- A stream of n batches, which fails behind them if it is marked.
abbrev pub counted : ArrowLib (ℕ × Bool) ℕ ℕ
counted = record {
  get_next =
      λ (n, bad). if n == 0 then (if bad then 5 else 0, 0, (0, bad)) else (0, n, (n - 1, bad));
  last_error = λ s. none;
  is_released = λ n. n == 0;
  import_batch = λ n. ok n;
  num_rows = λ n. 10;
}

abbrev reader : Reader (ℕ × Bool) ℕ ℕ
reader = fresh (2, false) true "scan"

run-fresh-Inv_example :
    Inv (
      run counted
        (nexts none ∷ retains ∷ nexts none ∷ decrements ∷ decrements ∷ forces ∷ [])
        reader)
run-fresh-Inv_example =
    run-fresh-Inv counted (2, false) true "scan"
      (nexts none ∷ retains ∷ nexts none ∷ decrements ∷ decrements ∷ forces ∷ [])

release_counts_example :
    (r' : Reader (ℕ × Bool) ℕ ℕ) × (release reader ≡ done r')
    × (r'.refs ≡ pos 0)
    × (r'.released ≡ true)
    × (r'.stream ≡ none)
    × (r'.current ≡ none)
    × (stream_releases r'.log ≡ 1)
    × Inv r'
release_counts_example = release_counts 0 reader (fresh-Inv (2, false) true "scan") refl refl

-- A consumer that breaks behind the second batch.
abbrev takes_two : Consumer ℕ ℕ
takes_two seen b e = (seen == 0, seen + 1)

batches_releases_example :
    (y' : ℕ) × (r' : Reader (ℕ × Bool) ℕ ℕ) × (batches counted
        (λ t. none)
        takes_two
        5
        0
        (ok (fresh (3, true) true "scan"))
      ≡ some (y', some (done r')))
    × (r'.released ≡ true)
    × (stream_releases r'.log ≡ 1)
    × (imports r'.log ≡ batch_releases r'.log)
unfolding ends
batches_releases_example =
    batches_releases counted (λ t. none) takes_two 4 0 (3, true) true "scan" refl

batches_collects_example :
    (o : Outcome (Reader (ℕ × Bool) ℕ ℕ)) × (batches counted
        (λ _. none)
        collect
        3
        []
        (ok (fresh (2, true) true "scan"))
      ≡ some (contents counted "scan" 3 (2, true), some o))
unfolding ends
batches_collects_example = batches_collects counted "scan" 3 (2, true) true refl
