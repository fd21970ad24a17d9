-- ===== src/Delivery/Backoff.antt =====
-- internal/daemon/connectors.go, deliveryBackoff: how long a failed attempt waits.
use agent_comms.Base.{ℕ, zero, suc, ◌*◌, ◌^◌, ◌≡◌, refl, false, some, ltb, if◌then◌else◌, arith}
use agent_comms.Base.Integers.{pos}
use agent_comms.Delivery.Attempts.{delivery_backoff, lesser}

-- In nanoseconds, the first attempt that fails and is to be tried again waits two seconds, each of the
-- next seven twice as long as the one before it, and every later one five minutes; no number of attempts
-- overflows.
pub delivery_backoff_doubles :
    (n : ℕ)
    → delivery_backoff (suc n)
      ≡ some (pos (if ltb n 8 then 2_000_000_000 * 2 ^ n else 300_000_000_000))
unfolding delivery_backoff
delivery_backoff_doubles zero = refl
delivery_backoff_doubles (suc zero) = refl
delivery_backoff_doubles (suc (suc zero)) = refl
delivery_backoff_doubles (suc (suc (suc zero))) = refl
delivery_backoff_doubles (suc (suc (suc (suc zero)))) = refl
delivery_backoff_doubles (suc (suc (suc (suc (suc zero))))) = refl
delivery_backoff_doubles (suc (suc (suc (suc (suc (suc zero)))))) = refl
delivery_backoff_doubles (suc (suc (suc (suc (suc (suc (suc zero))))))) = refl
delivery_backoff_doubles (suc (suc (suc (suc (suc (suc (suc (suc m)))))))) =
    let n = suc (suc (suc (suc (suc (suc (suc (suc m))))))) in
    let capped : lesser n 8 ≡ 8 = ground arith in
    let late : ltb n 8 ≡ false = ground arith in rw (capped) rw (late) refl
