-- ===== src/Fts/Says.antt =====
-- What the document of a full-text query of lance/scanner.go says, member by member.
use lance_go.Base.{ℕ, suc, ◌≡◌, some, String, List, [], ◌∷◌, if◌then◌else◌, ◌==◌}
use lance_go.Base.Int.{pos, negsuc}
use lance_go.Json.{
  null, uint, int, float, str, strs, floats, object, objects, Doc, empty, field, Docs, none_left,
  doc, member, same_text,
}
use lance_go.Fts.{
  Floats, MatchQuery, PhraseQuery, FtsQuery, match_query, phrase_query, boost_query,
  multi_match_query, boolean_query, Slot, nil, holds, Slots, no_slots, slots,
}

module _ {F : Type 0} where
  abbrev pub size : Doc F → ℕ
  size empty = 0
  size (field k v d) = suc (size d)

  -- The document has one member, with this tag, and its value is a document of which `P` holds.
  abbrev pub Tagged : String → (Doc F → Type 0) → Doc F → Type 0
  Tagged tag P d = (b : Doc F) × (d ≡ field tag (object b) empty) × P b

  pub record PhraseSays (q : PhraseQuery) (b : Doc F) : Type 0 where
    pub column : member "column" b ≡ some (if same_text q.column "" then null else str q.column)
    pub terms : member "terms" b ≡ some (str q.terms)
    pub slop : member "slop" b ≡ some (uint q.slop)
    pub no_more : size b ≡ 3

module _ {F : Type 0} (fs : Floats F) where
  -- A match: no column is null, a boost of 0 stands for 1, a negative fuzziness is null, 0 expansions
  -- stand for 50, and no operator stands for Or.
  pub record MatchSays (q : MatchQuery F) (b : Doc F) : Type 0 where
    pub column : member "column" b ≡ some (if same_text q.column "" then null else str q.column)
    pub terms : member "terms" b ≡ some (str q.terms)
    pub boost : member "boost" b ≡ some (float (if fs.is_zero q.boost then fs.one else q.boost))
    pub fuzziness :
        member "fuzziness" b ≡ some (elim q.fuzziness [ pos n ↦ int (pos n) | negsuc n ↦ null ])
    pub max_expansions :
        member "max_expansions" b
        ≡ some (
            int (elim q.max_expansions [
              | pos n ↦ if n == 0 then pos 50 else pos n
              | negsuc n ↦ negsuc n
            ]))
    pub operator :
        member "operator" b ≡ some (str (if same_text q.operator "" then "Or" else q.operator))
    pub prefix_length : member "prefix_length" b ≡ some (uint q.prefix_length)
    pub no_more : size b ≡ 7

  abbrev pub columns_of : List (MatchQuery F) → List String
  columns_of [] = []
  columns_of (q ∷ qs) = q.column ∷ columns_of qs

  abbrev pub boosts_of : List (MatchQuery F) → List F
  boosts_of [] = []
  boosts_of (q ∷ qs) = (if fs.is_zero q.boost then fs.one else q.boost) ∷ boosts_of qs

  -- A multi-match: the terms that its sub-queries share, and their columns and boosts in their order.
  pub record MultiSays (q : MatchQuery F) (qs : List (MatchQuery F)) (b : Doc F) : Type 0 where
    pub query : member "query" b ≡ some (str q.terms)
    pub columns : member "columns" b ≡ some (strs (columns_of (q ∷ qs)))
    pub boost : member "boost" b ≡ some (floats (boosts_of (q ∷ qs)))
    pub no_more : size b ≡ 3

  unfoldable mutual
    -- The document of a query.
    pub Says : FtsQuery F → Doc F → Type 0
    Says (match_query q) d = Tagged "match" (MatchSays q) d
    Says (phrase_query q) d = Tagged "phrase" (PhraseSays q) d
    Says (multi_match_query []) d = ⊥
    Says (multi_match_query (q ∷ qs)) d = Tagged "multi_match" (MultiSays q qs) d
    Says (boost_query p n x) d =
        (dp : Doc F) × (dn : Doc F) × SlotSays p dp
        × SlotSays n dn
        × Tagged "boost"
            (λ b.
              (member "positive" b ≡ some (object dp))
              × (member "negative" b ≡ some (object dn))
              × (member "negative_boost" b ≡ some (float (if fs.is_zero x then fs.half else x)))
              × (size b ≡ 3))
            d
    Says (boolean_query should must must_not) d =
        (s : Docs F) × (m : Docs F) × (n : Docs F) × AllSay should s
        × AllSay must m
        × AllSay must_not n
        × Tagged "boolean"
            (λ b.
              (member "should" b ≡ some (objects s))
              × (member "must" b ≡ some (objects m))
              × (member "must_not" b ≡ some (objects n))
              × (size b ≡ 3))
            d

    pub SlotSays : Slot F → Doc F → Type 0
    SlotSays nil d = ⊥
    SlotSays (holds q) d = Says q d

    -- The documents of queries, one for each in their order.
    pub AllSay : Slots F → Docs F → Type 0
    AllSay no_slots ds = ds ≡ none_left
    AllSay (slots s ss) ds =
        (d : Doc F) × (rest : Docs F) × (ds ≡ doc d rest) × SlotSays s d × AllSay ss rest
