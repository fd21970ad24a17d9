-- ===== src/Service/Tries.antt =====
-- internal/service/service.go, retryOnDaemonOffline: how often the operation is run, and what a result
-- without an error means.
use agent_comms.Base.{
  ℕ, zero, suc, ◌+◌, ◌≤◌, ◌≡◌, ◌∙◌, inl, inr, refl, Bool, true, false, Option, none, some,
  Bool-cases, arith,
}
use agent_comms.Contracts.Errors.{ControlError}
use agent_comms.Service.Retry.{
  Failure, control, other, Daemon, Turn, stop, again, is_retryable, is_offline, after_sleep,
  after_recovery, run_recovery, after_call, retry_delay, retry_from, retry_on_daemon_offline,
}

-- The number counts the runs of the operation: a run adds one, and neither a recovery nor a wait
-- changes it.
pub record Counts {W : Type 0} (d : Daemon W) (calls : W → ℕ) : Type 0 where
  pub call_counts : (w : W) → calls (d.call w).0 ≡ suc (calls w)
  pub recovery_keeps :
      (f : W → W × Option Failure) → d.recover ≡ some f → (w : W) → calls (f w).0 ≡ calls w
  pub sleep_keeps : (time : ℕ) (w : W) → calls (d.sleep time w).0 ≡ calls w

module _ {W : Type 0} (d : Daemon W) (calls : W → ℕ) (counts : Counts d calls) where
  -- A run of the operation ended in this world without an error.
  Succeeded : W → Type 0
  Succeeded w = (start : W) × (d.call start ≡ (w, none))

  IsCounted : ℕ → Turn W → Type 0
  IsCounted n (stop w r) = (calls w ≡ n) × (r ≡ none → Succeeded w)
  IsCounted n (again w e) = calls w ≡ n

  after_sleep-IsCounted :
      (n : ℕ) (e : ControlError) (p : W × Option Failure)
      → calls p.0 ≡ n
      → IsCounted n (after_sleep e p)
  unfolding after_sleep IsCounted
  after_sleep-IsCounted n e (w, some f) h = (h, λ g. absurd cc)
  after_sleep-IsCounted n e (w, none) h = h

  after_recovery-IsCounted :
      (n attempt : ℕ) (e : ControlError) (p : W × Option Failure)
      → calls p.0 ≡ n
      → IsCounted n (after_recovery d attempt e p)
  unfolding after_recovery IsCounted
  after_recovery-IsCounted n attempt e (w, some f) h = (h, λ g. absurd cc)
  after_recovery-IsCounted n attempt e (w, none) h =
      after_sleep-IsCounted n e (d.sleep (retry_delay attempt e) w)
        (counts.sleep_keeps (retry_delay attempt e) w ∙ h)

  run_recovery-keeps :
      (recover : Option (W → W × Option Failure)) (down : Bool) (w : W)
      → d.recover ≡ recover
      → calls (run_recovery recover down w).0 ≡ calls w
  unfolding run_recovery
  run_recovery-keeps (some f) true w h = counts.recovery_keeps f h w
  run_recovery-keeps (some f) false w h = refl
  run_recovery-keeps none down w h = refl

  after_call-IsCounted :
      (n attempt : ℕ) (start : W) (p : W × Option Failure)
      → d.call start ≡ p
      → calls p.0 ≡ n
      → IsCounted n (after_call d attempt p)
  unfolding after_call IsCounted Succeeded
  after_call-IsCounted n attempt start (w, none) h c = (c, λ g. (start, h))
  after_call-IsCounted n attempt start (w, some (other m)) h c = (c, λ g. absurd cc)
  after_call-IsCounted n attempt start (w, some (control e)) h c =
      elim (Bool-cases (is_retryable e.code)) [
        | inl retried ↦ rw (retried) (
            after_recovery-IsCounted n attempt e (run_recovery d.recover (is_offline e.code) w)
              (run_recovery-keeps d.recover (is_offline e.code) w refl ∙ c))
        | inr final ↦ rw (final) (c, λ g. absurd cc)
      ]

  -- What a loop with so many attempts left does.
  Ran : ℕ → W → W × Option Failure → Type 0
  Ran left w (w', r) =
      (calls w ≤ calls w') × (calls w' ≤ calls w + left) × (r ≡ none → Succeeded w')

  -- What it does where the first attempt is certain.
  RanOnce : ℕ → W → W × Option Failure → Type 0
  RanOnce left w (w', r) =
      (suc (calls w) ≤ calls w') × (calls w' ≤ calls w + suc left) × (r ≡ none → Succeeded w')

  turn-RanOnce :
      (left attempt : ℕ) (w : W) (turn : Turn W)
      → ((w' : W) (f : Failure) → Ran left w' (retry_from d left (suc attempt) (some f) w'))
      → IsCounted (suc (calls w)) turn
      → RanOnce left w (elim turn [
        | stop w' r ↦ (w', r)
        | again w' e ↦ retry_from d left (suc attempt) (some (control e)) w'
      ])
  unfolding IsCounted RanOnce Ran
  turn-RanOnce left attempt w (stop w' r) next (c, s) = (omega arith, omega arith, s)
  turn-RanOnce left attempt w (again w' e) next c =
      let (low, high, s) = next w' (control e) in (omega arith, omega arith, s)

  retry_from-Ran :
      (left attempt : ℕ) (f : Failure) (w : W) → Ran left w (retry_from d left attempt (some f) w)
  unfolding retry_from Ran RanOnce
  retry_from-Ran zero attempt f w = (omega arith, omega arith, λ g. absurd cc)
  retry_from-Ran (suc left) attempt f w =
      let (low, high, s) =
        turn-RanOnce left attempt w (after_call d attempt (d.call w))
          (λ w' f'. retry_from-Ran left (suc attempt) f' w')
          (after_call-IsCounted (suc (calls w)) attempt w (d.call w) refl (counts.call_counts w)) in
      (omega arith, omega arith, s)

-- Where a number counts the runs of the operation, retryOnDaemonOffline runs it at least once and at
-- most three times, and returns no error only where its last run had none.
pub retry_on_daemon_offline_tries :
    {W : Type 0} (d : Daemon W) (calls : W → ℕ) (w : W)
    → Counts d calls
    → (calls w + 1 ≤ calls (retry_on_daemon_offline d w).0)
      × (calls (retry_on_daemon_offline d w).0 ≤ calls w + 3)
      × ((retry_on_daemon_offline d w).1 ≡ none
          → (start : W) × (d.call start ≡ ((retry_on_daemon_offline d w).0, none)))
unfolding retry_on_daemon_offline retry_from RanOnce Succeeded
retry_on_daemon_offline_tries d calls w counts =
    let (low, high, s) =
      turn-RanOnce d calls counts 2 0 w (after_call d 0 (d.call w))
        (λ w' f. retry_from-Ran d calls counts 2 1 f w')
        (after_call-IsCounted d calls counts (suc (calls w)) 0 w (d.call w) refl
          (counts.call_counts w)) in
    (omega arith, omega arith, s)
