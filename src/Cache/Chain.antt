-- ===== src/Cache/Chain.antt =====
-- internal/localcache/cache.go: what Apply keeps of the cache.
use mathlib.Core.List.{◌++◌}
use agent_comms.Base.{
  ℕ, ◌<◌, ◌⊎◌, ◌≡◌, refl, sym, inl, inr, String, false, some, List, [], ◌∷◌, leb, not, ◌||◌, ◌==◌,
  arith, eq_iff, Bool-cases,
}
use agent_comms.Base.Map.{get_or-put}
use agent_comms.Model.State.{State}
use agent_comms.Protocol.Result.{
  Platform, ok, found, reject_if, bind_ok, then_ok, found_ok, reject_if_ok, ok-injective,
}
use agent_comms.Contracts.Types.{SignedEvent, EventRecord}
use agent_comms.Contracts.Signing.{Signing}
use agent_comms.Cache.Store.{
  Cache, ProjectRow, new_row, load_project, rows_of, check_record, find_row, insert_row, row_after,
  apply, same_number, apply_to_row, apply_known, apply_next, store_row,
}
use agent_comms.Cache.Rows.{Leads, Run, Run-append, insert_row-Run}

module _ (pf : Platform) (sg : Signing) where
  -- The events of every project lead from the new row to its row.
  abbrev pub IsVerified : Cache → Type 0
  IsVerified cache =
      (project : String)
      → Run pf sg cache.server_public_key project new_row (rows_of cache project)
          (load_project cache project)

  -- What an event that the cache did not have has shown.
  pub record Added (cache : Cache) (r : EventRecord) (next : Cache) : Type 0 where
    pub after : ProjectRow
    pub step :
        Leads pf sg cache.server_public_key r.event.project_id
          (load_project cache r.event.project_id)
          r
          after
    pub rows : List EventRecord
    pub inserted : insert_row r (rows_of cache r.event.project_id) ≡ some rows
    pub state : State
    pub reached : after ≡ row_after r.event state
    pub stored : next ≡ store_row cache r.event state rows

  gap_free :
      (a b : ℕ) (s t : String) → (not (same_number a b) || not (s == t)) ≡ false → (a ≡ b) × (s ≡ t)
  gap_free a b s t h = ground (arith, eq_iff s t)

  pub apply_next-Added :
      (cache : Cache) (r : EventRecord) {next : Cache}
      → check_record sg cache.server_public_key r ≡ ok tt
      → apply_next pf cache
          (load_project cache r.event.project_id)
          r
          (rows_of cache r.event.project_id)
        ≡ ok next
      → Added cache r next
  unfolding apply_next
  apply_next-Added cache r checked h =
      let (g1, h1) = then_ok (reject_if _ _) _ h in
      let (state, g2, h2) = bind_ok _ _ h1 in
      let (rows, g3, h3) = bind_ok _ _ h2 in
      let (numbered, linked) = gap_free _ _ _ _ (reject_if_ok _ _ g1) in
      record {
        after = row_after r.event state;
        step = record {
          own = refl;
          checked = checked;
          next = numbered;
          linked = linked;
          state = state;
          projected = g2;
          reached = refl;
        };
        rows = rows;
        inserted = found_ok _ _ g3;
        state = state;
        reached = refl;
        stored = sym (ok-injective h3);
      }

  pub apply_known_keeps :
      (cache : Cache) (e : SignedEvent) (rows : List EventRecord) {next : Cache}
      → apply_known cache e rows ≡ ok next
      → next ≡ cache
  unfolding apply_known
  apply_known_keeps cache e rows h =
      let (existing, g1, h1) = bind_ok (found (find_row e.sequence rows) _) _ h in
      let (g2, h2) = then_ok (reject_if _ _) _ h1 in sym (ok-injective h2)

  -- An accepted event is known, or is added.
  pub apply_cases :
      (cache : Cache) (r : EventRecord) {next : Cache}
      → apply pf sg cache r ≡ ok next
      → (next ≡ cache) ⊎ Added cache r next
  unfolding apply apply_to_row
  apply_cases cache r h =
      let (checked, h1) = then_ok (check_record sg cache.server_public_key r) _ h in
      elim (Bool-cases (leb r.event.sequence (load_project cache r.event.project_id).sequence)) [
        | inl known ↦
            inl (
              apply_known_keeps cache r.event (rows_of cache r.event.project_id) (rw (known) at h1))
        | inr new ↦ inr (apply_next-Added cache r checked (rw (new) at h1))
      ]

  IsVerified-store :
      (cache : Cache) (r : EventRecord) (row : ProjectRow) (rows : List EventRecord) (state : State)
      → row ≡ row_after r.event state
      → IsVerified cache
      → Run pf sg cache.server_public_key r.event.project_id new_row rows row
      → IsVerified (store_row cache r.event state rows)
  unfolding store_row load_project rows_of
  IsVerified-store cache r row rows state e sound run project =
      rw (get_or-put new_row r.event.project_id project (row_after r.event state) cache.projects) rw
        (get_or-put [] r.event.project_id project rows cache.events)
        (elim (Bool-cases (r.event.project_id == project)) [
          | inl same ↦ rw (same) rw (← e) rw (← (eq_iff r.event.project_id project).0 same) run
          | inr other ↦ rw (other) (sound project)
        ])

  pub Added-Run :
      (cache : Cache) (r : EventRecord) {next : Cache}
      → IsVerified cache
      → (added : Added cache r next)
      → (added.rows ≡ rows_of cache r.event.project_id ++ (r ∷ []))
        × Run pf sg cache.server_public_key r.event.project_id new_row added.rows added.after
  Added-Run cache r sound added =
      let before = load_project cache r.event.project_id in
      let rows = rows_of cache r.event.project_id in
      let run = sound r.event.project_id in
      let above : before.sequence < r.event.sequence = omega (arith, added.step.next) in
      let appended =
        insert_row-Run pf sg cache.server_public_key r.event.project_id new_row rows before r run
          above in
      let e : added.rows ≡ rows ++ (r ∷ []) = ground (arith, appended, added.inserted) in
      (
        e,
        rw (e) (
            Run-append pf sg cache.server_public_key r.event.project_id new_row rows before
              added.after r run added.step),
      )

  -- If a cache is verified, meaning that for every project its rows, from the first on, belong to the
  -- project, carry a receipt that matches them and that the server signed, hash to the hash they name,
  -- have consecutive numbers from 1, each name the hash of the one before, and projected in their order
  -- from the empty state give the state, the number and the head of the project's row, then it is
  -- verified after every event that Apply accepts.
  pub apply-IsVerified :
      (cache : Cache) (r : EventRecord) {next : Cache}
      → IsVerified cache
      → apply pf sg cache r ≡ ok next
      → IsVerified next
  apply-IsVerified cache r sound h = elim (apply_cases cache r h) [
    | inl kept ↦ rw (kept) sound
    | inr added ↦ rw (added.stored) (
        IsVerified-store cache r added.after added.rows added.state added.reached sound
          (Added-Run cache r sound added).1)
  ]
