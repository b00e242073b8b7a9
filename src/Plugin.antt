-- ===== src/Plugin.antt =====
-- lance/callbacks.go: the registry of Go plugins that native code calls by a handle.
pub mod Handles
pub mod Invoke
pub mod Loan
use lance_go.Base.{ℕ, ◌+◌, ◌%◌, ◌^◌, Option, none, some, List, [], ◌∷◌, ◌==◌, if◌then◌else◌}

-- `pluginRegistry`: a map from handles to plugins, and the last handle given out.
pub record Registry (P : Type 0) : Type 0 where
  pub entries : List (ℕ × P)
  pub next : ℕ

module _ {P : Type 0} where
  abbrev pub empty : Registry P
  empty = record { entries = []; next = 0 }

  unfoldable pub find : ℕ → List (ℕ × P) → Option P
  find h [] = none
  find h ((k, p) ∷ m) = if h == k then some p else find h m

  unfoldable pub put : ℕ → P → List (ℕ × P) → List (ℕ × P)
  put h p [] = (h, p) ∷ []
  put h p ((k, q) ∷ m) = if h == k then (h, p) ∷ m else (k, q) ∷ put h p m

  unfoldable pub delete : ℕ → List (ℕ × P) → List (ℕ × P)
  delete h [] = []
  delete h ((k, q) ∷ m) = let rest = delete h m in if h == k then rest else (k, q) ∷ rest

  -- `registerPlugin`; the handle is a uintptr.
  unfoldable pub register_plugin : P → Registry P → ℕ × Registry P
  register_plugin p r =
      let h = (r.next + 1) % 2 ^ 64 in (h, record { entries = put h p r.entries; next = h })

  -- `releasePlugin`, which `go_handle_release` calls too.
  unfoldable pub release_plugin : ℕ → Registry P → Registry P
  release_plugin h r = record r { entries = delete h r.entries }

  -- `lookupPlugin`
  unfoldable pub lookup_plugin : ℕ → Registry P → Option P
  lookup_plugin h r = find h r.entries
