-- ===== src/Cache/Rows.antt =====
-- internal/localcache/cache.go: rows of events that lead from one row of a project to another.
use mathlib.Core.List.{◌++◌}
use agent_comms.Base.{
  ◌+◌, ◌<◌, ◌≤◌, ◌≡◌, refl, ap, String, false, not, ◌||◌, ◌==◌, some, List, [], ◌∷◌, arith, eq_iff,
}
use agent_comms.Model.State.{State}
use agent_comms.Protocol.Result.{Platform, ok}
use agent_comms.Projection.Apply.{apply_event}
use agent_comms.Contracts.Types.{EventRecord, model_event}
use agent_comms.Contracts.Signing.{Signing}
use agent_comms.Cache.Store.{same_number, ProjectRow, check_record, find_row, insert_row, row_after}

module _ (pf : Platform) (sg : Signing) (key project : String) where
  -- One event leads from a row to the next: it is the project's, has passed the checks, has the next
  -- number, is hashed behind the head, and is projected.
  pub record Leads (before : ProjectRow) (r : EventRecord) (after : ProjectRow) : Type 0 where
    pub own : r.event.project_id ≡ project
    pub checked : check_record sg key r ≡ ok tt
    pub next : r.event.sequence ≡ before.sequence + 1
    pub linked : r.event.previous_hash ≡ before.head
    pub state : State
    pub projected : apply_event pf before.state (model_event r.event) ≡ ok state
    pub reached : after ≡ row_after r.event state

  pub not_a_gap :
      (before : ProjectRow) (r : EventRecord) (after : ProjectRow)
      → Leads before r after
      → (not (same_number r.event.sequence (before.sequence + 1))
          || not (r.event.previous_hash == before.head))
        ≡ false
  not_a_gap before r after step =
      ground (arith, step.next, step.linked, eq_iff r.event.previous_hash before.head)

  abbrev pub Run : ProjectRow → List EventRecord → ProjectRow → Type 0
  Run before [] after = before ≡ after
  Run before (r ∷ rs) after = (middle : ProjectRow) × Leads before r middle × Run middle rs after

  pub Run-append :
      (before : ProjectRow) (rs : List EventRecord) (middle after : ProjectRow) (r : EventRecord)
      → Run before rs middle
      → Leads middle r after
      → Run before (rs ++ (r ∷ [])) after
  Run-append before [] middle after r run step = (after, rw run step, refl)
  Run-append before (x ∷ xs) middle after r (next, first, run) step =
      (next, first, Run-append next xs middle after r run step)

  pub Run-concat :
      (before : ProjectRow) (xs ys : List EventRecord) (middle after : ProjectRow)
      → Run before xs middle
      → Run middle ys after
      → Run before (xs ++ ys) after
  Run-concat before [] ys middle after run more = rw run more
  Run-concat before (x ∷ xs) ys middle after (next, first, run) more =
      (next, first, Run-concat next xs ys middle after run more)

  -- The numbers rise along the rows.
  pub sequence_le :
      (before : ProjectRow) (rs : List EventRecord) (after : ProjectRow)
      → Run before rs after
      → before.sequence ≤ after.sequence
  sequence_le before [] after run = rw run (omega arith)
  sequence_le before (x ∷ xs) after (next, first, run) =
      let later = sequence_le next xs after run in
      let here : next.sequence ≡ x.event.sequence = ap (λ row. row.sequence) first.reached in
      omega (arith, here, first.next, later)

  pub insert_row-Run :
      (before : ProjectRow) (rs : List EventRecord) (after : ProjectRow) (r : EventRecord)
      → Run before rs after
      → after.sequence < r.event.sequence
      → insert_row r rs ≡ some (rs ++ (r ∷ []))
  unfolding insert_row
  insert_row-Run before [] after r run h = refl
  insert_row-Run before (x ∷ xs) after r (next, first, run) h =
      let later = sequence_le next xs after run in
      let here : next.sequence ≡ x.event.sequence = ap (λ row. row.sequence) first.reached in
      let rest = insert_row-Run next xs after r run h in ground arith

  pub find_row-append :
      (before : ProjectRow) (rs : List EventRecord) (after : ProjectRow) (r : EventRecord)
      → Run before rs after
      → after.sequence < r.event.sequence
      → find_row r.event.sequence (rs ++ (r ∷ [])) ≡ some r
  unfolding find_row
  find_row-append before [] after r run h = ground arith
  find_row-append before (x ∷ xs) after r (next, first, run) h =
      let later = sequence_le next xs after run in
      let here : next.sequence ≡ x.event.sequence = ap (λ row. row.sequence) first.reached in
      let rest = find_row-append next xs after r run h in ground arith
