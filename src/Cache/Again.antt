-- ===== src/Cache/Again.antt =====
-- internal/localcache/cache.go: an event that Apply has accepted is known ever after.
use mathlib.Core.List.{◌++◌}
use agent_comms.Base.{
  ℕ, ◌<◌, ◌≡◌, refl, inl, inr, true, some, List, [], ◌∷◌, leb, not, ◌==◌, arith, eq_iff, Bool-cases,
}
use text.Mathlib.TextPositions.{eq_refl}
use agent_comms.Base.Map.{get_or-put, get_or-put_self}
use agent_comms.Protocol.Result.{
  Platform, ok, found, reject_if, bind_ok, then_ok, found_ok, require_ok,
}
use agent_comms.Contracts.Types.{SignedEvent, EventRecord}
use agent_comms.Contracts.Signing.{Signing}
use agent_comms.Cache.Store.{
  Cache, new_row, load_project, rows_of, check_record, find_row, row_after, apply, same_number,
  apply_to_row, apply_known, store_row,
}
use agent_comms.Cache.Rows.{find_row-append}
use agent_comms.Cache.Chain.{
  IsVerified, Added, Added-Run, apply_next-Added, apply_known_keeps, apply_cases, apply-IsVerified,
}

-- A row that is found stays found when rows are added behind it.
find_row-append_left :
    (n : ℕ) (xs ys : List EventRecord) {x : EventRecord}
    → find_row n xs ≡ some x
    → find_row n (xs ++ ys) ≡ some x
unfolding find_row
find_row-append_left n [] ys h = absurd cc
find_row-append_left n (y ∷ xs) ys h = elim (Bool-cases (same_number y.event.sequence n)) [
  | inl here ↦ rw (here) (rw (here) at h)
  | inr later ↦ rw (later) (find_row-append_left n xs ys (rw (later) at h))
]

-- The cache has a row for the event's number, with the event's hash.
record Knows (cache : Cache) (e : SignedEvent) : Type 0 where
  reached : leb e.sequence (load_project cache e.project_id).sequence ≡ true
  row : EventRecord
  there : find_row e.sequence (rows_of cache e.project_id) ≡ some row
  same : row.event.hash ≡ e.hash

module _ (pf : Platform) (sg : Signing) where
  -- Accepted events lead from one cache to another, one after the other.
  pub data Applies (cache : Cache) : Cache → Type 0 where
    here : Applies cache cache
    next :
        {middle after : Cache} (r : EventRecord)
        → Applies cache middle
        → apply pf sg middle r ≡ ok after
        → Applies cache after

  Added-Knows :
      (cache : Cache) (r : EventRecord) {after : Cache}
      → IsVerified pf sg cache
      → Added pf sg cache r after
      → Knows after r.event
  unfolding load_project rows_of store_row
  Added-Knows cache r sound added =
      let before = load_project cache r.event.project_id in
      let rows = rows_of cache r.event.project_id in
      let above : before.sequence < r.event.sequence = omega (arith, added.step.next) in
      rw (added.stored) (record {
        reached =
            rw
              (get_or-put_self new_row r.event.project_id (row_after r.event added.state)
                cache.projects)
              (ground arith);
        row = r;
        there = rw (get_or-put_self [] r.event.project_id added.rows cache.events) (
            rw ((Added-Run pf sg cache r sound added).0) (
              find_row-append pf sg cache.server_public_key r.event.project_id new_row rows before r
                (sound r.event.project_id) above));
        same = refl;
      })

  Knows-Added :
      (cache : Cache) (r : EventRecord) (e : SignedEvent) {after : Cache}
      → IsVerified pf sg cache
      → Knows cache e
      → Added pf sg cache r after
      → Knows after e
  unfolding load_project rows_of store_row
  Knows-Added cache r e {after} sound knows added =
      elim (Bool-cases (r.event.project_id == e.project_id)) [
        | inr other ↦ rw (added.stored) (record {
          reached =
              rw
                (get_or-put new_row r.event.project_id e.project_id (row_after r.event added.state)
                  cache.projects)
                (rw (other) knows.reached);
          row = knows.row;
          there =
              rw (get_or-put [] r.event.project_id e.project_id added.rows cache.events)
                (rw (other) knows.there);
          same = knows.same;
        })
        | inl own ↦
            let p = (eq_iff r.event.project_id e.project_id).0 own in
            let reached : leb e.sequence (load_project cache r.event.project_id).sequence ≡ true =
              rw (p) knows.reached in
            let grown : leb e.sequence r.event.sequence ≡ true =
              ground (arith, added.step.next, reached) in
            let there : find_row e.sequence (rows_of cache r.event.project_id) ≡ some knows.row =
              rw (p) knows.there in
            rw (added.stored) (record {
              reached =
                  rw
                    (get_or-put new_row r.event.project_id e.project_id
                      (row_after r.event added.state) cache.projects)
                    (rw (own) grown);
              row = knows.row;
              there = rw (get_or-put [] r.event.project_id e.project_id added.rows cache.events) (
                  rw (own) (
                    rw ((Added-Run pf sg cache r sound added).0) (
                      find_row-append_left e.sequence (rows_of cache r.event.project_id) (r ∷ [])
                        there)));
              same = knows.same;
            })
      ]

  -- The cache would accept the event as one that it knows.
  record Keeps (cache : Cache) (r : EventRecord) : Type 0 where
    sound : IsVerified pf sg cache
    checked : check_record sg cache.server_public_key r ≡ ok tt
    knows : Knows cache r.event

  apply_known-Knows :
      (cache : Cache) (e : SignedEvent) {after : Cache}
      → leb e.sequence (load_project cache e.project_id).sequence ≡ true
      → apply_known cache e (rows_of cache e.project_id) ≡ ok after
      → Knows cache e
  unfolding apply_known
  apply_known-Knows cache e reached h =
      let (row, g1, h1) =
        bind_ok (found (find_row e.sequence (rows_of cache e.project_id)) _) _ h in
      let (g2, h2) = then_ok (reject_if (not (row.event.hash == e.hash)) _) _ h1 in
      record {
        reached = reached;
        row = row;
        there = found_ok _ _ g1;
        same = (eq_iff row.event.hash e.hash).0 (require_ok _ _ g2);
      }

  apply-Keeps :
      (cache : Cache) (r : EventRecord) {after : Cache}
      → IsVerified pf sg cache
      → apply pf sg cache r ≡ ok after
      → Keeps after r
  unfolding apply apply_to_row store_row
  apply-Keeps cache r sound h =
      let (checked, h1) = then_ok (check_record sg cache.server_public_key r) _ h in
      let sound' = apply-IsVerified pf sg cache r sound h in
      elim (Bool-cases (leb r.event.sequence (load_project cache r.event.project_id).sequence)) [
        | inl known ↦
            let knows = apply_known-Knows cache r.event known (rw (known) at h1) in
            let kept =
              apply_known_keeps pf sg cache r.event (rows_of cache r.event.project_id)
                (rw (known) at h1) in
            rw (kept) (record { sound = sound; checked = checked; knows = knows })
        | inr new ↦
            let added = apply_next-Added pf sg cache r checked (rw (new) at h1) in
            record {
              sound = sound';
              checked = rw (added.stored) checked;
              knows = Added-Knows cache r sound added;
            }
      ]

  Keeps-step :
      (cache : Cache) (r s : EventRecord) {after : Cache}
      → Keeps cache r
      → apply pf sg cache s ≡ ok after
      → Keeps after r
  unfolding store_row
  Keeps-step cache r s keeps h = elim (apply_cases pf sg cache s h) [
    | inl kept ↦ rw (kept) keeps
    | inr added ↦ record {
      sound = apply-IsVerified pf sg cache s keeps.sound h;
      checked = rw (added.stored) keeps.checked;
      knows = Knows-Added cache s r.event keeps.sound keeps.knows added;
    }
  ]

  Keeps-Applies :
      (cache : Cache) (r : EventRecord) {after : Cache}
      → Keeps cache r
      → Applies cache after
      → Keeps after r
  Keeps-Applies cache r keeps here = keeps
  Keeps-Applies cache r keeps (next {middle = middle} s before h) =
      Keeps-step middle r s (Keeps-Applies cache r keeps before) h

  Keeps-apply : (cache : Cache) (r : EventRecord) → Keeps cache r → apply pf sg cache r ≡ ok cache
  unfolding apply apply_to_row apply_known
  Keeps-apply cache r keeps =
      rw (keeps.checked) rw (keeps.knows.reached) rw (keeps.knows.there) rw (keeps.knows.same) rw
        (eq_refl r.event.hash) refl

  -- An event that a verified cache has accepted is accepted again, whatever events of this or another
  -- project the cache has accepted in between, and the cache stays as it is.
  pub apply_again :
      (cache : Cache) (r : EventRecord) {after later : Cache}
      → IsVerified pf sg cache
      → apply pf sg cache r ≡ ok after
      → Applies after later
      → apply pf sg later r ≡ ok later
  apply_again cache r {after} {later} sound h between =
      Keeps-apply later r (Keeps-Applies after r (apply-Keeps cache r sound h) between)
