-- ===== src/Plugin/Loan.antt =====
-- A plugin of lance/callbacks.go that is registered for one call: what the registry holds meanwhile
-- and afterwards.
use lance_go.Base.{ℕ, ◌+◌, ◌^◌, ◌<◌, ◌≡◌, ◌≢◌, ◌∙◌, none, some, arith, ◌==◌, inl, inr, Bool-cases}
use lance_go.Plugin.{Registry, register_plugin, release_plugin, lookup_plugin}
use lance_go.Plugin.Handles.{
  IsValid, register_plugin_lem, register_plugin-IsValid, next-register_plugin,
  lookup-release_plugin,
}

module _ {Q : Type 0} where
  -- Every handle stands for the same in both registries.
  abbrev pub IsSame : Registry Q → Registry Q → Type 0
  IsSame r r' = (k : ℕ) → lookup_plugin k r' ≡ lookup_plugin k r

  -- `n` more handles are below the range of a uintptr.
  abbrev pub HasRoom : ℕ → Registry Q → Type 0
  HasRoom n r = IsValid r × (r.next + n < 2 ^ 64)

  -- The second registry is the first with the plugin `p` under a handle that was free.
  abbrev pub Lends : ℕ → Q → Registry Q → Registry Q → Type 0
  Lends h p r r' =
      (0 < h)
      × (lookup_plugin h r ≡ none)
      × (lookup_plugin h r' ≡ some p)
      × ((k : ℕ) → k ≢ h → lookup_plugin k r' ≡ lookup_plugin k r)

  pub Lends-register_plugin :
      (p : Q) (r : Registry Q) → HasRoom 1 r → let (h, r') = register_plugin p r in Lends h p r r'
  Lends-register_plugin p r (v, b) =
      let (above, new, others) = register_plugin_lem p r v b in
      (above, new, ground (arith, others (register_plugin p r).0), λ k d. ground (arith, others k))

  -- Taking a lent plugin back leaves every handle as it was.
  pub IsSame-release_plugin :
      (h : ℕ) (p : Q) (r r' : Registry Q) → Lends h p r r' → IsSame r (release_plugin h r')
  IsSame-release_plugin h p r r' (above, new, there, others) k = elim (Bool-cases (k == h)) [
    | inl same ↦ ground (arith, lookup-release_plugin k h r')
    | inr other ↦ ground (arith, lookup-release_plugin k h r', others k)
  ]

  pub HasRoom-register_plugin :
      (n : ℕ) (p : Q) (r : Registry Q) → HasRoom (n + 1) r → HasRoom n (register_plugin p r).1
  HasRoom-register_plugin n p r (v, b) =
      let (_, next) = next-register_plugin p r (omega arith) in
      (register_plugin-IsValid p r v (omega arith), omega arith)

  pub Lends-IsSame :
      (h : ℕ) (p : Q) (r r' r'' : Registry Q) → Lends h p r r' → IsSame r' r'' → Lends h p r r''
  Lends-IsSame h p r r' r'' (above, new, there, others) same =
      (above, new, same h ∙ there, λ k d. same k ∙ others k d)
