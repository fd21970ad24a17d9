-- ===== src/Cache/Rebuilt.antt =====
-- internal/localcache/cache.go: the log applied again, to an empty cache and by Rebuild.
use mathlib.Core.List.{◌++◌, append-nil, append_assoc}
use text.Mathlib.TextPositions.{eq_refl}
use agent_comms.Base.{◌≡◌, refl, sym, ◌∙◌, String, false, none, some, List, [], ◌∷◌, leb, arith}
use agent_comms.Base.Map.{get, get_or, delete, get_or-put_self, get-delete}
use agent_comms.Model.State.{State}
use agent_comms.Protocol.Result.{Platform, ok, err}
use agent_comms.Contracts.Types.{EventRecord}
use agent_comms.Contracts.Signing.{Signing}
use agent_comms.Cache.Store.{
  Cache, ProjectRow, new_row, load_project, rows_of, row_after, apply, apply_next, apply_to_row,
  apply_all, store_row, rebuild, insert_row,
}
use agent_comms.Cache.Rows.{Leads, Run, not_a_gap, Run-append, insert_row-Run}
use agent_comms.Cache.Chain.{IsVerified}

load_project-store_row :
    (cache : Cache) (project : String) (r : EventRecord) (state : State) (rows : List EventRecord)
    → r.event.project_id ≡ project
    → (load_project (store_row cache r.event state rows) project ≡ row_after r.event state)
      × (rows_of (store_row cache r.event state rows) project ≡ rows)
unfolding load_project rows_of store_row
load_project-store_row cache project r state rows own = (
  rw (← own) (get_or-put_self new_row r.event.project_id (row_after r.event state) cache.projects),
  rw (← own) (get_or-put_self [] r.event.project_id rows cache.events),
)

load_project-delete :
    (cache : Cache) (project : String)
    → load_project (record cache { projects = delete project cache.projects }) project ≡ new_row
unfolding load_project get_or
load_project-delete cache project =
    rw (load_project, get_or, get-delete project project cache.projects) rw (eq_refl project) refl

insert_row_taken : (r : EventRecord) (rs : List EventRecord) → insert_row r (r ∷ rs) ≡ none
unfolding insert_row
insert_row_taken r rs = ground arith

module _ (pf : Platform) (sg : Signing) where
  -- The next event of a project is tested against its row.
  apply-Leads :
      (cache : Cache) (project : String) (row : ProjectRow) (rows : List EventRecord)
      (r : EventRecord) (after : ProjectRow)
      → load_project cache project ≡ row
      → rows_of cache project ≡ rows
      → Leads pf sg cache.server_public_key project row r after
      → apply pf sg cache r ≡ apply_next pf cache row r rows
  unfolding apply apply_to_row
  apply-Leads cache project row rows r after here kept step =
      let here' : load_project cache r.event.project_id ≡ row = rw (step.own) here in
      let kept' : rows_of cache r.event.project_id ≡ rows = rw (step.own) kept in
      let new : leb r.event.sequence row.sequence ≡ false = ground (arith, step.next) in
      rw (apply, step.checked) rw (here') rw (kept') rw (new) refl

  apply_next-Leads :
      (cache : Cache) (project : String) (row : ProjectRow) (rows rows' : List EventRecord)
      (r : EventRecord) (after : ProjectRow)
      → (step : Leads pf sg cache.server_public_key project row r after)
      → insert_row r rows ≡ some rows'
      → apply_next pf cache row r rows ≡ ok (store_row cache r.event step.state rows')
  unfolding apply_next
  apply_next-Leads cache project row rows rows' r after step inserted =
      rw (not_a_gap pf sg cache.server_public_key project row r after step) rw (step.projected) rw
        (inserted) refl

  abbrev pub Reaches : Cache → Cache → String → ProjectRow → List EventRecord → Type 0
  Reaches cache next project row rows =
      (next.server_public_key ≡ cache.server_public_key)
      × (load_project next project ≡ row)
      × (rows_of next project ≡ rows)

  pub apply_all-Run :
      (cache : Cache) (project : String) (before : List EventRecord) (row : ProjectRow)
      (rs : List EventRecord) (after : ProjectRow)
      → load_project cache project ≡ row
      → rows_of cache project ≡ before
      → Run pf sg cache.server_public_key project new_row before row
      → Run pf sg cache.server_public_key project row rs after
      → (next : Cache) × (apply_all pf sg cache rs ≡ (next, ok tt))
        × Reaches cache next project after (before ++ rs)
  unfolding apply_all store_row
  apply_all-Run cache project before row [] after here kept done run =
      (cache, refl, (refl, here ∙ run, kept ∙ sym (append-nil before)))
  apply_all-Run cache project before row (r ∷ rs) after here kept done (middle, first, run) =
      let key = cache.server_public_key in
      let rows = before ++ (r ∷ []) in
      let cache' = store_row cache r.event first.state rows in
      let inserted =
        insert_row-Run pf sg key project new_row before row r done (omega (arith, first.next)) in
      let accepted =
        apply-Leads cache project row before r middle here kept first
        ∙ apply_next-Leads cache project row before rows r middle first inserted in
      let stored = load_project-store_row cache project r first.state rows first.own in
      let (next, e, (trusted, reached, listed)) =
        apply_all-Run cache' project rows middle rs after (stored.0 ∙ sym first.reached) stored.1
          (Run-append pf sg key project new_row before row middle r done first) run in
      (
        next,
        rw (apply_all, accepted) e,
        (trusted, reached, listed ∙ append_assoc before (r ∷ []) rs),
      )

  -- The events of a project of a verified cache, applied in their order to a cache that has nothing of
  -- the project and trusts the same key, are all accepted, and lead to the same rows, number, head and
  -- state of the project.
  pub replica_agrees :
      (cache replica : Cache) (project : String)
      → IsVerified pf sg cache
      → replica.server_public_key ≡ cache.server_public_key
      → get project replica.projects ≡ none
      → get project replica.events ≡ none
      → (next : Cache) × (apply_all pf sg replica (rows_of cache project) ≡ (next, ok tt))
        × (load_project next project ≡ load_project cache project)
        × (rows_of next project ≡ rows_of cache project)
  unfolding load_project rows_of get_or
  replica_agrees cache replica project sound trust empty bare =
      let run : Run pf sg replica.server_public_key project new_row (rows_of cache project)
          (load_project cache project) =
        rw (trust) (sound project) in
      let (next, e, (trusted, reached, listed)) =
        apply_all-Run replica project [] new_row (rows_of cache project)
          (load_project cache project) (rw (load_project, get_or, empty) refl)
          (rw (rows_of, get_or, bare) refl) refl run in
      (next, e, reached, listed)

  apply_next_taken :
      (cache : Cache) (project : String) (row : ProjectRow) (rs : List EventRecord)
      (r : EventRecord) (after : ProjectRow)
      → Leads pf sg cache.server_public_key project row r after
      → apply_next pf cache row r (r ∷ rs)
        ≡ err "UNIQUE constraint failed: events.project_id, events.sequence"
  unfolding apply_next
  apply_next_taken cache project row rs r after step =
      rw (not_a_gap pf sg cache.server_public_key project row r after step) rw (step.projected) rw
        (insert_row_taken r rs) refl

  -- Rebuild of a project that has events in a verified cache fails at the first of them, which is
  -- still stored, and leaves the cache without the project's row.
  pub rebuild_fails :
      (cache : Cache) (project : String) (r : EventRecord) (rs : List EventRecord)
      → IsVerified pf sg cache
      → rows_of cache project ≡ r ∷ rs
      → rebuild pf sg cache project ≡ (
        record cache { projects = delete project cache.projects },
        err "UNIQUE constraint failed: events.project_id, events.sequence",
      )
  unfolding rebuild apply_all
  rebuild_fails cache project r rs sound some_rows =
      let whole = sound project in
      let run : Run pf sg cache.server_public_key project new_row (r ∷ rs)
          (load_project cache project) =
        rw (some_rows) at whole in
      let (middle, first, rest) = run in
      let bare : Cache = record cache { projects = delete project cache.projects } in
      let refused = apply_next_taken bare project new_row rs r middle first in
      let e =
        apply-Leads bare project new_row (r ∷ rs) r middle (load_project-delete cache project)
          some_rows first in
      rw (some_rows) rw (apply_all, e, refused) refl
