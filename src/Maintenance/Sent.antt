-- ===== src/Maintenance/Sent.antt =====
-- The age that `CleanupOldVersions` of lance/maintenance.go sends, and when a compaction sends a limit.
use lance_go.Base.{ℕ, zero, suc, ◌+◌, ◌*◌, ◌/◌, ◌^◌, ◌≤◌, ◌<◌, ◌≡◌, refl, List, [], ◌∷◌, arith}
use lance_go.Base.Int.{ℤ, pos, negsuc}
use lance_go.Write.{whole_seconds}
use lance_go.Maintenance.{
  CleanupConfig, CleanupOption, with_delete_unverified, with_error_if_tagged_old_versions,
  apply_cleanup, cleanup_config,
}

abbrev billion : ℕ
billion = 10 ^ 9

-- An age in nanoseconds, and the seconds that are sent for it.
pub data SentAge : ℤ → ℤ → Type 0 where
  younger : (n s : ℕ) → s * billion ≤ n → n < (s + 1) * billion → SentAge (pos n) (pos s)
  none_left : (n : ℕ) → suc n < billion → SentAge (negsuc n) (pos 0)
  negative :
      (n m : ℕ)
      → suc m * billion ≤ suc n
      → suc n < (suc m + 1) * billion
      → SentAge (negsuc n) (negsuc m)

negative_age :
    (n s : ℕ)
    → s ≡ (n + 1) / billion
    → SentAge (negsuc n) (elim s [ zero ↦ pos 0 | suc m ↦ negsuc m ])
negative_age n zero e = none_left n (omega arith)
negative_age n (suc m) e = negative n m (omega arith) (omega arith)

SentAge-whole_seconds : (d : ℤ) → SentAge d (whole_seconds d)
unfolding whole_seconds
SentAge-whole_seconds (pos n) = younger n (n / billion) (omega arith) (omega arith)
SentAge-whole_seconds (negsuc n) = negative_age n ((n + 1) / billion) refl

age-apply_cleanup :
    (opts : List CleanupOption) (cfg : CleanupConfig)
    → (apply_cleanup opts cfg).older_than_seconds ≡ cfg.older_than_seconds
unfolding apply_cleanup
age-apply_cleanup [] cfg = refl
age-apply_cleanup (with_delete_unverified b ∷ os) cfg = age-apply_cleanup os _
age-apply_cleanup (with_error_if_tagged_old_versions b ∷ os) cfg = age-apply_cleanup os _

-- Whatever its options, `CleanupOldVersions` sends its age in whole seconds, rounded towards 0: an age
-- that is not negative is sent as the seconds s with s ≤ age < s + 1, so that versions up to a second
-- younger than asked for fall under the cleanup, and an age below a second as 0.
pub cleanup_config_age :
    (older_than : ℤ) (opts : List CleanupOption)
    → SentAge older_than (cleanup_config older_than opts).older_than_seconds
unfolding cleanup_config
cleanup_config_age older_than opts =
    rw (age-apply_cleanup opts _) (SentAge-whole_seconds older_than)
