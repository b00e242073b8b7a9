-- ===== src/Handle/Life.antt =====
-- How often a native handle is closed, over the life of its owner.
use lance_go.Base.{ℕ, zero, suc, ◌≡◌, refl, ap, Option, none, [], ◌∷◌}
use lance_go.Base.Int.{ℤ, pos, negsuc}
use lance_go.Handle.{Handle, open_handle, close, collect, blob_list_len, blob_list_get}

-- `n` calls of `Close`.
pub closed : ℕ → Handle → Handle
closed zero h = h
closed (suc n) h = closed n (close h)

-- A handle that `Close` or the runtime has dealt with.
abbrev done : ℕ → Handle
done p = record { ptr = none; cleanup = none; closes = p ∷ [] }

closed-done : (n p : ℕ) → closed n (done p) ≡ done p
unfolding closed close
closed-done zero p = refl
closed-done (suc n) p = closed-done n p

closed-open_handle : (n p : ℕ) → closed (suc n) (open_handle p) ≡ done p
unfolding closed close
closed-open_handle n p = closed-done n p

-- However often a handle is closed, and also if it never is, the native handle has been closed
-- exactly once when the runtime has run what clean-up is left; and it has been closed exactly once
-- before that if `Close` was called at all.
pub handle_closed_once :
    (n p : ℕ)
    → ((collect (closed n (open_handle p))).closes ≡ p ∷ [])
      × ((closed (suc n) (open_handle p)).closes ≡ p ∷ [])
unfolding collect closed
handle_closed_once zero p = (refl, ap (λ (h : Handle). h.closes) (closed-open_handle zero p))
handle_closed_once (suc n) p = (
  ap (λ (h : Handle). (collect h).closes) (closed-open_handle n p),
  ap (λ (h : Handle). h.closes) (closed-open_handle (suc n) p),
)

-- A blob list that was closed at least once has the length 0 and gives no blob file at any index,
-- whatever the native functions would answer; an open one gives none at a negative index.
pub closed_list_empty :
    (n p : ℕ) (native_len : ℕ → ℕ) (native_get : ℕ → ℕ → Option ℕ) (i : ℤ)
    → (blob_list_len native_len (closed (suc n) (open_handle p)) ≡ 0)
      × (blob_list_get native_get i (closed (suc n) (open_handle p)) ≡ none)
      × (blob_list_get native_get (negsuc n) (open_handle p) ≡ none)
unfolding blob_list_len blob_list_get
closed_list_empty n p native_len native_get (pos i) =
    (rw (closed-open_handle n p) refl, rw (closed-open_handle n p) refl, refl)
closed_list_empty n p native_len native_get (negsuc i) =
    (rw (closed-open_handle n p) refl, refl, refl)
