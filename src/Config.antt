-- ===== src/Config.antt =====
-- app/config.py: the settings that the modelled code reads, with their defaults.
use right_hire.Base.{ℕ, ◌*◌}

pub record Settings : Type 0 where
  pub max_upload_mb : ℕ
  pub stale_candidate_timeout_minutes : ℕ
  pub stale_candidate_max_retries : ℕ
  pub stale_sweep_interval_minutes : ℕ
  pub signup_free_credits : ℕ
  pub resume_max_chars : ℕ
  pub jd_max_chars : ℕ

abbrev pub default_settings : Settings
default_settings = record {
  max_upload_mb = 10;
  stale_candidate_timeout_minutes = 60;
  stale_candidate_max_retries = 3;
  stale_sweep_interval_minutes = 15;
  signup_free_credits = 3;
  resume_max_chars = 6000;
  jd_max_chars = 4000;
}

-- `settings.max_upload_mb * 1024 * 1024`
abbrev pub max_bytes : Settings → ℕ
max_bytes c = c.max_upload_mb * 1048576
