-- ===== src/Tests/Fts.antt =====
-- Runs of the full-text queries of lance/scanner.go, with a float32 as a number.
use lance_go.Base.{ℕ, ◌≡◌, ◌⊎◌, ◌==◌, true, String, [], ◌∷◌}
use lance_go.Base.Int.{pos}
use lance_go.Errors.{GoError, Leaf, errors_is, Result, ok, err}
use lance_go.Json.{Doc}
use lance_go.Fts.{
  Floats, MatchQuery, Slot, holds, match_query, boolean_query, multi_match_query, slots, no_slots,
  marshal_fts_query,
}
use lance_go.Fts.Says.{SlotSays}
use lance_go.Fts.Fits.{SlotFits, marshal_fts_query_judged}

abbrev pub numbers : Floats ℕ
numbers = record { is_zero = λ x. x == 0; one = 10; half = 5 }

abbrev word : String → String → MatchQuery ℕ
word column terms = record {
  column = column;
  terms = terms;
  boost = 0;
  fuzziness = pos 0;
  max_expansions = pos 0;
  operator = "And";
  prefix_length = 0;
}

abbrev pub printed : Doc ℕ → Result String
printed d = ok "{}"

-- A boolean query with a match query and a multi-match query over two columns.
abbrev pub nested : Slot ℕ
nested = holds (
    boolean_query (slots (holds (match_query (word "" "lance"))) no_slots)
      (slots (holds (multi_match_query (word "title" "lance" ∷ word "body" "lance" ∷ []))) no_slots)
      no_slots)

marshal_fts_query_judged_example :
    (SlotFits nested
      × (d : Doc ℕ) × SlotSays numbers nested d
      × (marshal_fts_query numbers printed nested ≡ printed d))
    ⊎ ((¬ SlotFits nested)
        × (e : GoError) × (marshal_fts_query numbers printed nested ≡ err e)
        × (errors_is e Leaf.invalid_argument ≡ true))
marshal_fts_query_judged_example = marshal_fts_query_judged numbers printed nested
