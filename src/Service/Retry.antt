-- ===== src/Service/Retry.antt =====
-- internal/service/service.go: retryOnDaemonOffline. The world that an operation, a recovery and a wait
-- change is a parameter.
use agent_comms.Base.{
  ℕ, zero, suc, ◌*◌, ◌^◌, Bool, true, false, String, Option, none, some, ltb, if◌then◌else◌,
}
use agent_comms.Contracts.Errors.{
  ErrorCode, offline, conflict, rate_limited, stale_precondition, unavailable, authorization,
  validation, integrity, ControlError,
}

pub data Failure : Type 0 where
  control : ControlError → Failure
  other : String → Failure

-- What a retry calls: the operation, the recovery where the service has one, and the wait for a time,
-- which fails where the context is done first.
pub record Daemon (W : Type 0) : Type 0 where
  pub call : W → W × Option Failure
  pub recover : Option (W → W × Option Failure)
  pub sleep : ℕ → W → W × Option Failure

abbrev pub is_retryable : ErrorCode → Bool
is_retryable offline = true
is_retryable unavailable = true
is_retryable rate_limited = true
is_retryable conflict = false
is_retryable stale_precondition = false
is_retryable authorization = false
is_retryable validation = false
is_retryable integrity = false

abbrev pub is_offline : ErrorCode → Bool
is_offline offline = true
is_offline unavailable = true
is_offline rate_limited = false
is_offline conflict = false
is_offline stale_precondition = false
is_offline authorization = false
is_offline validation = false
is_offline integrity = false

abbrev pub retry_delay : ℕ → ControlError → ℕ
retry_delay attempt e =
    let delay = 50 * 2 ^ attempt * 1000000 in
    if ltb delay e.retry_after then e.retry_after else delay

-- One turn of the loop ends it with a result or goes on with the error.
pub data Turn (W : Type 0) : Type 0 where
  stop : W → Option Failure → Turn W
  again : W → ControlError → Turn W

unfoldable pub after_sleep : {W : Type 0} → ControlError → W × Option Failure → Turn W
after_sleep e (w, some f) = stop w (some f)
after_sleep e (w, none) = again w e

unfoldable pub after_recovery :
    {W : Type 0} → Daemon W → ℕ → ControlError → W × Option Failure → Turn W
unfolding after_sleep
after_recovery d attempt e (w, some f) = stop w (some f)
after_recovery d attempt e (w, none) = after_sleep e (d.sleep (retry_delay attempt e) w)

unfoldable pub run_recovery :
    {W : Type 0} → Option (W → W × Option Failure) → Bool → W → W × Option Failure
run_recovery (some recover) true w = recover w
run_recovery (some recover) false w = (w, none)
run_recovery none down w = (w, none)

unfoldable pub after_call : {W : Type 0} → Daemon W → ℕ → W × Option Failure → Turn W
unfolding after_recovery run_recovery
after_call d attempt (w, none) = stop w none
after_call d attempt (w, some (other message)) = stop w (some (other message))
after_call d attempt (w, some (control e)) =
    if is_retryable e.code
    then after_recovery d attempt e (run_recovery d.recover (is_offline e.code) w)
    else stop w (some (control e))

-- The attempts that are left, the number of the attempt and the error of the one before.
unfoldable pub retry_from :
    {W : Type 0} → Daemon W → ℕ → ℕ → Option Failure → W → W × Option Failure
unfolding after_call
retry_from d zero attempt last w = (w, last)
retry_from d (suc left) attempt last w = elim (after_call d attempt (d.call w)) [
  | stop w' r ↦ (w', r)
  | again w' e ↦ retry_from d left (suc attempt) (some (control e)) w'
]

-- retryOnDaemonOffline
unfoldable pub retry_on_daemon_offline : {W : Type 0} → Daemon W → W → W × Option Failure
unfolding retry_from
retry_on_daemon_offline d w = retry_from d 3 0 none w
