-- ===== src/Index/Loaded.antt =====
-- When `LoadIndex` and `LoadIndexByName` of lance/index.go find an index.
use lance_go.Base.{ℕ, ◌≡◌, refl, true, Option, none, some, String, List, [], ◌∷◌}
use lance_go.Errors.{GoError, Leaf, errors_is, Result, ok, err}
use lance_go.Errors.Ffi.{Ctx, World, Native}
use lance_go.Handle.{Handle}
use lance_go.Ledger.{Ledger}
use lance_go.Transaction.{Memory}
use lance_go.Config.{Giving}
use lance_go.Index.Manage.{IndexInfo}
use lance_go.Index.Lookup.{unique_index, load_indices_by_name, load_index_by_name}

-- What a lookup of a name finds: an error of the listing; no index; just one; or several, which is an
-- error.
pub data Found {T : Type 0} (listed : Result (List (IndexInfo T)))
    (res : Result (Option (IndexInfo T))) : Type 0 where
  unlisted : (e : GoError) → listed ≡ err e → res ≡ err e → Found listed res
  missing : listed ≡ ok [] → res ≡ ok none → Found listed res
  unique : (i : IndexInfo T) → listed ≡ ok (i ∷ []) → res ≡ ok (some i) → Found listed res
  several :
      (i j : IndexInfo T) (is : List (IndexInfo T)) (e : GoError)
      → listed ≡ ok (i ∷ j ∷ is)
      → res ≡ err e
      → errors_is e Leaf.index ≡ true
      → Found listed res

Found-unique_index :
    {T : Type 0} (name : String) (listed : Result (List (IndexInfo T)))
    → Found listed (elim listed [ err e ↦ err e | ok infos ↦ unique_index name infos ])
unfolding unique_index errors_is
Found-unique_index name (err e) = unlisted e refl refl
Found-unique_index name (ok []) = missing refl refl
Found-unique_index name (ok (i ∷ [])) = unique i refl refl
Found-unique_index name (ok (i ∷ j ∷ is)) = several i j is _ refl refl refl

module _ {N T : Type 0} (lib : Native N) (mem : Memory N) (c : Ctx) (ds : Handle) (locks : ℕ)
    (send : String → Result String) (decode : String → Result (List (IndexInfo T)))
    (native : ℕ → String → Giving N (Option ℕ)) (name : String) (w : World (Ledger N)) where
  -- `LoadIndexByName` gives the error of `LoadIndicesByName`; or nil, if that lists nothing; or the
  -- one index that it lists; or, if it lists several, an error that is ErrIndex. It leaves what
  -- `LoadIndicesByName` leaves.
  pub load_index_by_name-Found :
      let (listed, before) = load_indices_by_name lib mem c ds locks send decode native name w in
      let (res, after) = load_index_by_name lib mem c ds locks send decode native name w in
      Found listed res × (after ≡ before)
  unfolding load_index_by_name
  load_index_by_name-Found = (
    Found-unique_index name (load_indices_by_name lib mem c ds locks send decode native name w).0,
    refl,
  )
