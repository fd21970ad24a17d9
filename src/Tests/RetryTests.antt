-- ===== src/Tests/RetryTests.antt =====
-- A daemon that is offline for the first two calls; the world counts the calls.
use agent_comms.Base.{ℕ, suc, ◌+◌, ◌≤◌, ◌≡◌, refl, Option, none, some, ltb, if◌then◌else◌}
use agent_comms.Contracts.Errors.{offline}
use agent_comms.Service.Retry.{Failure, control, Daemon, retry_on_daemon_offline}
use agent_comms.Service.Tries.{Counts, retry_on_daemon_offline_tries}
use agent_comms.Service.Best.{some-injective}

abbrev unreachable : Failure
unreachable = control (record { code = offline; message = "offline"; retry_after = 0 })

abbrev recovers : ℕ → ℕ × Option Failure
recovers n = (n, none)

abbrev flaky : Daemon ℕ
flaky = record {
  call = λ n. (suc n, if ltb n 2 then some unreachable else none);
  recover = some recovers;
  sleep = λ time n. (n, none);
}

third_call_succeeds : retry_on_daemon_offline flaky 0 ≡ (3, none)
unfolding retry_on_daemon_offline
third_call_succeeds = refl

flaky-Counts : Counts flaky (λ n. n)
flaky-Counts = record {
  call_counts = λ n. refl;
  recovery_keeps = λ f h n. rw (← some-injective h) refl;
  sleep_keeps = λ time n. refl;
}

retry_on_daemon_offline_tries_example :
    (0 + 1 ≤ (retry_on_daemon_offline flaky 0).0)
    × ((retry_on_daemon_offline flaky 0).0 ≤ 0 + 3)
    × ((retry_on_daemon_offline flaky 0).1 ≡ none
        → (start : ℕ) × (flaky.call start ≡ ((retry_on_daemon_offline flaky 0).0, none)))
retry_on_daemon_offline_tries_example = retry_on_daemon_offline_tries flaky (λ n. n) 0 flaky-Counts
