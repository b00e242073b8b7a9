-- ===== src/Plugin/Handles.antt =====
-- What a handle of lance/callbacks.go stands for, over any history of the registry.
use lance_go.Base.{
  ℕ, ◌+◌, ◌^◌, ◌≤◌, ◌<◌, ◌≡◌, refl, none, some, List, [], ◌∷◌, arith, length, ◌==◌, if◌then◌else◌,
}
use lance_go.Plugin.{Registry, find, put, delete, register_plugin, release_plugin, lookup_plugin}

module _ {P : Type 0} where
  find-put :
      (k h : ℕ) (p : P) (m : List (ℕ × P))
      → find k (put h p m) ≡ (if k == h then some p else find k m)
  unfolding find put
  find-put k h p [] = refl
  find-put k h p ((j, q) ∷ m) = ground (arith, find-put k h p m)

  find-delete :
      (k h : ℕ) (m : List (ℕ × P)) → find k (delete h m) ≡ (if k == h then none else find k m)
  unfolding find delete
  find-delete k h [] = ground arith
  find-delete k h ((j, q) ∷ m) = ground (arith, find-delete k h m)

  -- Every handle of the map is one that was given out.
  abbrev pub Given : ℕ → List (ℕ × P) → Type 0
  Given n [] = Unit {0}
  Given n ((k, q) ∷ m) = (0 < k) × (k ≤ n) × Given n m

  abbrev pub IsValid : Registry P → Type 0
  IsValid r = Given r.next r.entries

  Given-mono : (n n' : ℕ) (m : List (ℕ × P)) → n ≤ n' → Given n m → Given n' m
  Given-mono n n' [] h g = tt
  Given-mono n n' ((k, q) ∷ m) h g = (g.0, omega arith, Given-mono n n' m h g.2)

  Given-put : (n h : ℕ) (p : P) (m : List (ℕ × P)) → 0 < h → h ≤ n → Given n m → Given n (put h p m)
  unfolding put
  Given-put n h p [] a b g = (a, b, tt)
  Given-put n h p ((k, q) ∷ m) a b g = ground (arith, Given-put n h p m a b g.2)

  Given-delete : (n h : ℕ) (m : List (ℕ × P)) → Given n m → Given n (delete h m)
  unfolding delete
  Given-delete n h [] g = tt
  Given-delete n h ((k, q) ∷ m) g = ground (arith, Given-delete n h m g.2)

  find_above : (n h : ℕ) (m : List (ℕ × P)) → n < h → Given n m → find h m ≡ none
  unfolding find
  find_above n h [] a g = refl
  find_above n h ((k, q) ∷ m) a g = ground (arith, find_above n h m a g.2)

  -- In a valid registry that has not used up the uintptr range, `registerPlugin` gives a handle
  -- that is not 0 and that no plugin had; it then stands for the new plugin, and every other handle
  -- stands for what it stood for.
  pub register_plugin_lem :
      (p : P) (r : Registry P)
      → IsValid r
      → r.next + 1 < 2 ^ 64
      → let (h, r') = register_plugin p r in
        (0 < h)
        × (lookup_plugin h r ≡ none)
        × ((k : ℕ) → lookup_plugin k r' ≡ (if k == h then some p else lookup_plugin k r))
  unfolding register_plugin lookup_plugin
  register_plugin_lem p r v b =
      (omega arith, find_above r.next _ r.entries (omega arith) v, λ k. find-put k _ p r.entries)

  pub register_plugin-IsValid :
      (p : P) (r : Registry P) → IsValid r → r.next + 1 < 2 ^ 64 → IsValid (register_plugin p r).1
  unfolding register_plugin
  register_plugin-IsValid p r v b =
      Given-put _ _ p r.entries (omega arith) (omega arith)
        (Given-mono r.next _ r.entries (omega arith) v)

  -- A released handle stands for nothing, and every other handle for what it stood for.
  pub lookup-release_plugin :
      (k h : ℕ) (r : Registry P)
      → lookup_plugin k (release_plugin h r) ≡ (if k == h then none else lookup_plugin k r)
  unfolding release_plugin lookup_plugin
  lookup-release_plugin k h r = find-delete k h r.entries

  pub release_plugin-IsValid : (h : ℕ) (r : Registry P) → IsValid r → IsValid (release_plugin h r)
  unfolding release_plugin
  release_plugin-IsValid h r v = Given-delete r.next h r.entries v

  pub next-register_plugin :
      (p : P) (r : Registry P)
      → r.next + 1 < 2 ^ 64
      → ((register_plugin p r).0 ≡ r.next + 1) × ((register_plugin p r).1.next ≡ r.next + 1)
  unfolding register_plugin
  next-register_plugin p r b = (omega arith, omega arith)

-- Strictly ascending from above `n`.
abbrev pub Ascending : ℕ → List ℕ → Type 0
Ascending n [] = Unit {0}
Ascending n (h ∷ hs) = (n < h) × Ascending h hs

-- One call of the registry.
pub data Op (P : Type 0) : Type 0 where
  register : P → Op P
  release : ℕ → Op P

module _ {P : Type 0} where
  -- The handles that a history of calls gives out, and the registry that it leaves.
  pub run : List (Op P) → Registry P → List ℕ × Registry P
  run [] r = ([], r)
  run (register p ∷ ops) r =
      let (h, r') = register_plugin p r in let (hs, r'') = run ops r' in (h ∷ hs, r'')
  run (release h ∷ ops) r = run ops (release_plugin h r)

  -- Along any history that is shorter than what is left of the uintptr range, the handles given
  -- out ascend strictly, so none is 0 or given out twice, also after releases; and the registry
  -- stays valid.
  pub run_fresh :
      (ops : List (Op P)) (r : Registry P)
      → IsValid r
      → r.next + length ops < 2 ^ 64
      → Ascending r.next (run ops r).0 × IsValid (run ops r).1
  unfolding run release_plugin
  run_fresh [] r v b = (tt, v)
  run_fresh (register p ∷ ops) r v b =
      let (head, next) = next-register_plugin p r (omega arith) in
      let v' : IsValid (register_plugin p r).1 = register_plugin-IsValid p r v (omega arith) in
      let (hs, v'') = run_fresh ops (register_plugin p r).1 v' (omega arith) in
      ((omega arith, rw (head, ← next) hs), v'')
  run_fresh (release h ∷ ops) r v b =
      let (hs, v') =
        run_fresh ops (release_plugin h r) (release_plugin-IsValid h r v) (omega arith) in
      (hs, v')
