-- ===== src/Client/Tests.antt =====
-- The client's sleeps under a policy that sets only the initial backoff.
use go_infrastructure.Prelude.{ℕ, ◌≡◌, ◌≤◌, arith, some, pos, negsuc}
use go_infrastructure.Kratos.Sample.{sample}
use go_infrastructure.Middleware.Retry
use go_infrastructure.Client.{RetryConfig, retry_options}
use go_infrastructure.Client.Backoff.{set_or, retry_options-backoff_for}

abbrev policy : RetryConfig
policy = record { max_attempts = pos 4; initial_backoff = pos 50_000_000; max_backoff = negsuc 0 }

retry_options-backoff_for_example :
    (d c : ℕ) × (Retry.backoff_for 3
        (retry_options sample policy).initial_backoff
        (retry_options sample policy).max_backoff
        9
      ≡ some (pos d))
    × (set_or (negsuc 0) Retry.default_max_backoff ≡ pos c)
    × (1 ≤ d)
    × (d ≤ c)
retry_options-backoff_for_example =
    retry_options-backoff_for sample policy 3 9 (λ e. cc) (omega arith) (λ e. cc) (omega arith)
