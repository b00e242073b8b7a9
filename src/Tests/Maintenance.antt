-- ===== src/Tests/Maintenance.antt =====
-- Runs of lance/maintenance.go: an age of half a second.
use lance_go.Base.{[]}
use lance_go.Base.Int.{pos}
use lance_go.Maintenance.{cleanup_config}
use lance_go.Maintenance.Sent.{SentAge, cleanup_config_age}

cleanup_config_age_example :
    SentAge (pos 500000000) (cleanup_config (pos 500000000) []).older_than_seconds
cleanup_config_age_example = cleanup_config_age (pos 500000000) []
