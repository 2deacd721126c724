-- ===== src/Settings.antt =====
-- The deployment's configuration (operational_inbox/settings.py), as the services read it. The
-- values come from the environment, so they are a parameter of the model.
use operational_inbox.Common.{ℕ}

pub record Settings : Type 0 where
  pub max_domains_per_user : ℕ
  pub domain_downgrade_grace_days : ℕ
  pub free_outbound_rate_limit_per_minute : ℕ
  pub free_outbound_daily_account_limit : ℕ
  pub free_outbound_daily_domain_limit : ℕ
  pub free_outbound_monthly_account_limit : ℕ
  pub outbound_rate_limit_per_minute : ℕ
  pub outbound_daily_account_limit : ℕ
  pub outbound_daily_domain_limit : ℕ
  pub outbound_monthly_account_limit : ℕ
  pub routing_transition_grace_hours : ℕ

-- The defaults of the settings file.
abbrev pub default_settings : Settings
default_settings = record {
  max_domains_per_user = 20;
  domain_downgrade_grace_days = 30;
  free_outbound_rate_limit_per_minute = 2;
  free_outbound_daily_account_limit = 10;
  free_outbound_daily_domain_limit = 10;
  free_outbound_monthly_account_limit = 30;
  outbound_rate_limit_per_minute = 30;
  outbound_daily_account_limit = 500;
  outbound_daily_domain_limit = 200;
  outbound_monthly_account_limit = 5000;
  routing_transition_grace_hours = 24;
}
