-- ===== src/Maps.antt =====
-- The maps of lance/config.go and lance/transaction.go with string keys, as lists of entries. A list is
-- read from its front, and no order of the entries is meant.
use text.Mathlib.TextEquality.{eq_iff}
use lance_go.Base.{
  ◌≡◌, refl, Bool, false, ◌||◌, Option, none, some, String, List, [], ◌∷◌, arith, if◌then◌else◌,
}
use lance_go.Json.{same_text}
use lance_go.Open.{Storage}

module _ {V : Type 0} where
  abbrev pub entry : String → List (String × V) → Option V
  entry k [] = none
  entry k ((j, v) ∷ m) = if same_text k j then some v else entry k m

  -- `m[k] = v`
  unfoldable pub put : String → V → List (String × V) → List (String × V)
  put k v [] = (k, v) ∷ []
  put k v ((j, w) ∷ m) = let rest = put k v m in if same_text k j then (k, v) ∷ m else (j, w) ∷ rest

  -- No key stands twice, as in every Go map.
  abbrev pub IsMap : List (String × V) → Type 0
  IsMap [] = Unit {0}
  IsMap ((j, v) ∷ m) = (entry j m ≡ none) × IsMap m

  pub entry-put :
      (k j : String) (v : V) (m : List (String × V))
      → entry j (put k v m) ≡ (if same_text j k then some v else entry j m)
  unfolding put
  entry-put k j v [] = refl
  entry-put k j v ((i, w) ∷ m) =
      ground (arith, eq_iff k i, eq_iff j k, eq_iff j i, entry-put k j v m)

-- The tests of `elem`: is a key one of these.
abbrev pub contains : String → List String → Bool
contains k [] = false
contains k (j ∷ ks) = same_text k j || contains k ks

-- A map of new values; a key mapped to none is deleted.
abbrev pub Updates : Type 0
Updates = List (String × Option String)

-- The loop of `values`, and that over the upserts in `updateMapJSON`.
unfoldable pub put_values : Storage → Updates → Updates
put_values [] u = u
put_values ((k, v) ∷ m) u = put_values m (put k (some v) u)

-- The loop of `DeleteMetadataKeys`, and that over the deletes in `updateMapJSON`.
unfoldable pub put_deletes : List String → Updates → Updates
put_deletes [] u = u
put_deletes (k ∷ ks) u = put_deletes ks (put k none u)

-- What a map of updates makes of a table.
abbrev pub merged : Updates → (String → Option String) → String → Option String
merged u table k = elim (entry k u) [ none ↦ table k | some v ↦ v ]

pub entry-put_values :
    (j : String) (m : Storage) (u : Updates)
    → IsMap m
    → entry j (put_values m u) ≡ (elim (entry j m) [ none ↦ entry j u | some v ↦ some (some v) ])
unfolding put_values
entry-put_values j [] u h = refl
entry-put_values j ((k, v) ∷ m) u (fresh, h) =
    ground (
      arith,
      entry-put_values j m (put k (some v) u) h,
      entry-put k j (some v) u,
      eq_iff j k,
      fresh,
    )

pub entry-put_deletes :
    (j : String) (ks : List String) (u : Updates)
    → entry j (put_deletes ks u) ≡ (if contains j ks then some none else entry j u)
unfolding put_deletes
entry-put_deletes j [] u = refl
entry-put_deletes j (k ∷ ks) u =
    ground (arith, entry-put_deletes j ks (put k none u), entry-put k j none u)
