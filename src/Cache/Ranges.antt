-- ===== src/Cache/Ranges.antt =====
-- internal/localcache/cache.go, VerifyRange, on the log that Apply has kept.
use agent_comms.Base.{
  ℕ, ◌+◌, ◌<◌, ◌≤◌, ◌≡◌, refl, ap, inl, inr, String, true, false, not, Option, List, [], ◌∷◌, leb,
  ltb, arith, Bool-cases, if◌then◌else◌, ◌&&◌,
}
use agent_comms.Protocol.Result.{Platform, ok, reject_if, then_ok, require_ok}
use agent_comms.Contracts.Types.{EventRecord}
use agent_comms.Contracts.Signing.{Signing, verify_event_hash, verify_receipt}
use agent_comms.Cache.Store.{
  Cache, ProjectRow, new_row, load_project, rows_of, check_record, is_selected, select_range,
  verify_rows, verify_range, receipt_matches,
}
use agent_comms.Cache.Rows.{Run, not_a_gap}
use agent_comms.Cache.Chain.{IsVerified}

check_record_ok :
    (sg : Signing) (key : String) (r : EventRecord)
    → check_record sg key r ≡ ok tt
    → (verify_receipt sg r.receipt key ≡ true) × (verify_event_hash sg r.event ≡ true)
unfolding check_record
check_record_ok sg key r h =
    let (g1, h1) = then_ok (reject_if (not (receipt_matches r.event r.receipt)) _) _ h in
    let (g2, h2) = then_ok (reject_if (not (verify_receipt sg r.receipt key)) _) _ h1 in
    (require_ok _ _ g2, require_ok _ _ h2)

module _ (pf : Platform) (sg : Signing) (key project : String) where
  -- Behind the end of the range no row is selected.
  select_range-past :
      (from to : ℕ) (before : ProjectRow) (rs : List EventRecord) (after : ProjectRow)
      → 0 < to
      → to ≤ before.sequence
      → Run pf sg key project before rs after
      → select_range from to rs ≡ []
  unfolding select_range
  select_range-past from to before [] after h past run = refl
  select_range-past from to before (r ∷ rs) after h past (next, first, run) =
      let here : next.sequence ≡ r.event.sequence = ap (λ row. row.sequence) first.reached in
      let rest =
        select_range-past from to next rs after h (omega (arith, here, first.next, past)) run in
      let out : is_selected from to r ≡ false = ground (arith, first.next) in rw (out) rest

  verify_rows-Run :
      (to : ℕ) (before : ProjectRow) (rs : List EventRecord) (after : ProjectRow)
      → Run pf sg key project before rs after
      → verify_rows sg key (before.sequence + 1) before.head (select_range 1 to rs) ≡ ok tt
  unfolding verify_rows select_range
  verify_rows-Run to before [] after run = refl
  verify_rows-Run to before (r ∷ rs) after (next, first, run) =
      let here : next.sequence ≡ r.event.sequence = ap (λ row. row.sequence) first.reached in
      let head : next.head ≡ r.event.hash = ap (λ row. row.head) first.reached in
      elim (Bool-cases (is_selected 1 to r)) [
        | inl inside ↦
            let (signed, hashed) = check_record_ok sg key r first.checked in
            let rest : verify_rows sg key (before.sequence + 1 + 1) r.event.hash
                  (select_range 1 to rs)
                ≡ ok tt =
              rw (← head) rw (← first.next) rw (← here) (verify_rows-Run to next rs after run) in
            rw (inside) rw (not_a_gap pf sg key project before r next first) rw (hashed) rw (signed)
              rest
        | inr outside ↦
            let past =
              select_range-past 1 to next rs after (ground (arith, first.next))
                (ground (arith, first.next)) run in
            rw (outside) rw (past) refl
      ]

-- In a verified cache, VerifyRange accepts every range from the first event of a project on, whether
-- it ends at a number or with the log.
pub verify_range-IsVerified :
    (pf : Platform) (sg : Signing) (cache : Cache) (project : String) (from to : ℕ)
    (answer : Option EventRecord)
    → IsVerified pf sg cache
    → from ≤ 1
    → verify_range sg cache project from to answer ≡ ok tt
unfolding verify_range
verify_range-IsVerified pf sg cache project from to answer sound h =
    let first : (if leb from 0 then 1 else from) ≡ 1 = ground arith in
    let rows = rows_of cache project in
    let row = load_project cache project in
    let range : (not (leb to 0) && ltb to 1) ≡ false = ground arith in
    rw (first) rw (range)
      (verify_rows-Run pf sg cache.server_public_key project to new_row rows row (sound project))
