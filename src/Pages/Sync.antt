-- ===== src/Pages/Sync.antt =====
-- syncProject of internal/daemon/daemon.go: the cache of a client catches up with the remote log. The
-- remote's pages are read from its rows; fuel bounds their number; the delivery that follows where the
-- daemon has a dispatcher is left out.
use mathlib.Core.List.{◌++◌, append_assoc}
use agent_comms.Base.{
  ℕ, zero, suc, ◌<◌, ◌≡◌, refl, ap, inl, inr, String, List, [], ◌∷◌, ltb, arith, take, drop, length,
  false, Bool-cases, ◌==◌, if◌then◌else◌, some, take-drop, length-drop, ◌∙◌,
}
use agent_comms.Base.Integers.{pos}
use agent_comms.Base.Map.{get}
use agent_comms.Protocol.Result.{Platform, Result, ok, err}
use agent_comms.Contracts.Types.{EventRecord, EventPage, ResultMetadata}
use agent_comms.Contracts.Signing.{Signing}
use agent_comms.Contracts.Pages.{CursorCodec, bounded_limit, decode_cursor}
use agent_comms.Cache.Store.{
  Cache, ProjectRow, new_row, load_project, rows_of, apply_all, cached_state,
}
use agent_comms.Cache.Rows.{Run, Run-concat, sequence_le}
use agent_comms.Cache.Rebuilt.{apply_all-Run}
use agent_comms.Pages.Events.{rows_after, last_sequence, events}
use agent_comms.Pages.Selected.{Above, rows_after_all}
use agent_comms.Pages.Export.{IsCodec, decode_cursor-encode, events_last, events_full}

abbrev pub sync_page_size : ℕ
sync_page_size = 500

module _ (pf : Platform) (sg : Signing) (codec : CursorCodec) (metadata : ℕ → ResultMetadata)
    (remote : List EventRecord) where
  unfoldable pub sync_pages : ℕ → Cache → String → Cache × Result (Unit {0})
  unfolding events
  sync_pages zero cache cursor = (cache, err "out of fuel")
  sync_pages (suc fuel) cache cursor =
      elim (events codec metadata remote (record { cursor = cursor; limit = pos sync_page_size })) [
        | err message ↦ (cache, err message)
        | ok page ↦
            let applied = apply_all pf sg cache page.items in
            let rest = sync_pages fuel applied.0 page.next_cursor in
            elim applied.1 [
              | err message ↦ applied
              | ok done ↦ if page.next_cursor == "" then applied else rest
            ]
      ]

  -- The number up to which the cache has the project.
  unfoldable pub cached_sequence : Cache → String → ℕ
  unfolding cached_state
  cached_sequence cache project = elim (cached_state cache project) [
    | err message ↦ 0
    | ok (state, metadata') ↦ metadata'.cache_sequence
  ]

  unfoldable pub sync_project : ℕ → Cache → String → Cache × Result (Unit {0})
  unfolding sync_pages cached_sequence
  sync_project fuel cache project =
      sync_pages fuel cache (codec.encode (cached_sequence cache project))

module _ (pf : Platform) (sg : Signing) (key project : String) where
  Run-Above :
      (row : ProjectRow) (rs : List EventRecord) (after : ProjectRow)
      → Run pf sg key project row rs after
      → Above row.sequence rs
  Run-Above row [] after run = tt
  Run-Above row (r ∷ rs) after (next, first, run) =
      let here : next.sequence ≡ r.event.sequence = ap (λ x. x.sequence) first.reached in
      (omega (arith, first.next), rw (← here) (Run-Above next rs after run))

  -- The rows behind those that led to a row.
  rows_after-Run :
      (row : ProjectRow) (rs : List EventRecord) (middle : ProjectRow) (rest : List EventRecord)
      (after : ProjectRow)
      → Run pf sg key project row rs middle
      → Run pf sg key project middle rest after
      → rows_after middle.sequence (rs ++ rest) ≡ rest
  unfolding rows_after
  rows_after-Run row [] middle rest after run more =
      rows_after_all middle.sequence rest (Run-Above middle rest after more)
  rows_after-Run row (r ∷ rs) middle rest after (next, first, run) more =
      let here : next.sequence ≡ r.event.sequence = ap (λ x. x.sequence) first.reached in
      let past = sequence_le pf sg key project next rs middle run in
      ground (arith, rows_after-Run next rs middle rest after run more)

  Run-split :
      (k : ℕ) (row : ProjectRow) (rs : List EventRecord) (after : ProjectRow)
      → Run pf sg key project row rs after
      → (middle : ProjectRow) × Run pf sg key project row (take k rs) middle
        × Run pf sg key project middle (drop k rs) after
        × (middle.sequence ≡ last_sequence row.sequence (take k rs))
  unfolding take drop last_sequence
  Run-split zero row rs after run = (row, refl, run, refl)
  Run-split (suc k) row [] after run = (row, refl, run, refl)
  Run-split (suc k) row (r ∷ rs) after (next, first, run) =
      let here : next.sequence ≡ r.event.sequence = ap (λ x. x.sequence) first.reached in
      let (middle, before, behind, e) = Run-split k next rs after run in
      (middle, (next, first, before), behind, rw (← here) e)

module _ (pf : Platform) (sg : Signing) (codec : CursorCodec) (metadata : ℕ → ResultMetadata)
    (project : String) where
  -- A page whose events are all accepted, and that is not the last.
  sync_pages_on :
      (fuel : ℕ) (remote : List EventRecord) (cache cache' : Cache) (cursor : String)
      (page : EventPage)
      → events codec metadata remote (record { cursor = cursor; limit = pos sync_page_size })
        ≡ ok page
      → apply_all pf sg cache page.items ≡ (cache', ok tt)
      → (page.next_cursor == "") ≡ false
      → sync_pages pf sg codec metadata remote (suc fuel) cache cursor
        ≡ sync_pages pf sg codec metadata remote fuel cache' page.next_cursor
  unfolding sync_pages
  sync_pages_on fuel remote cache cache' cursor page e applied more =
      rw (sync_pages, e) rw (ap (λ x. x.1) applied) rw (more) rw (ap (λ x. x.0) applied) refl

  sync_pages_end :
      (fuel : ℕ) (remote : List EventRecord) (cache cache' : Cache) (cursor : String)
      (page : EventPage)
      → events codec metadata remote (record { cursor = cursor; limit = pos sync_page_size })
        ≡ ok page
      → apply_all pf sg cache page.items ≡ (cache', ok tt)
      → page.next_cursor ≡ ""
      → sync_pages pf sg codec metadata remote (suc fuel) cache cursor ≡ (cache', ok tt)
  unfolding sync_pages
  sync_pages_end fuel remote cache cache' cursor page e applied last =
      rw (sync_pages, e) rw (ap (λ x. x.1) applied) rw (last) applied

  sync_pages-Run :
      (fuel : ℕ) (cache : Cache) (cursor : String) (before : List EventRecord) (row : ProjectRow)
      (rest : List EventRecord) (after : ProjectRow)
      → IsCodec codec
      → decode_cursor codec cursor ≡ ok row.sequence
      → load_project cache project ≡ row
      → rows_of cache project ≡ before
      → Run pf sg cache.server_public_key project new_row before row
      → Run pf sg cache.server_public_key project row rest after
      → length rest < fuel
      → (next : Cache) × (sync_pages pf sg codec metadata (before ++ rest) fuel cache cursor
          ≡ (next, ok tt))
        × (load_project next project ≡ after)
        × (rows_of next project ≡ before ++ rest)
  unfolding sync_pages bounded_limit
  sync_pages-Run zero cache cursor before row rest after law at_row here kept done run h =
      absurd (omega arith)
  sync_pages-Run (suc fuel) cache cursor before row rest after law at_row here kept done run h =
      let key = cache.server_public_key in
      let selected = rows_after-Run pf sg key project new_row before row rest after done run in
      elim (Bool-cases (ltb sync_page_size (length rest))) [
        | inl more ↦
            let (middle, first, behind, number) =
              Run-split pf sg key project sync_page_size row rest after run in
            let (cache', applied, (trusted, reached, listed)) =
              apply_all-Run pf sg cache project before row (take sync_page_size rest) middle here
                kept done first in
            let whole : (before ++ take sync_page_size rest) ++ drop sync_page_size rest
                ≡ before ++ rest =
              append_assoc before (take sync_page_size rest) (drop sync_page_size rest)
              ∙ ap (λ xs. before ++ xs) (take-drop sync_page_size rest) in
            let left = length-drop sync_page_size rest in
            let (next, e, there, stored) =
              sync_pages-Run fuel cache' (codec.encode middle.sequence)
                (before ++ take sync_page_size rest) middle (drop sync_page_size rest) after law
                (decode_cursor-encode codec law middle.sequence) reached listed
                (rw (trusted) (
                  Run-concat pf sg key project new_row before (take sync_page_size rest) row middle
                    done first))
                (rw (trusted) behind) (ground arith) in
            let step =
              sync_pages_on fuel (before ++ rest) cache cache' cursor _
                (events_full codec metadata (before ++ rest) sync_page_size row.sequence cursor rest
                  refl at_row selected (ground arith))
                applied (law.not_empty (last_sequence row.sequence (take sync_page_size rest))) in
            (next, rw (step) rw (← number) rw (← whole) e, there, stored ∙ whole)
        | inr last ↦
            let (next, applied, (trusted, reached, listed)) =
              apply_all-Run pf sg cache project before row rest after here kept done run in
            (
              next,
              sync_pages_end fuel (before ++ rest) cache next cursor _
                  (events_last codec metadata (before ++ rest) sync_page_size row.sequence cursor
                    rest refl at_row selected (ground arith))
                  applied refl,
              reached,
              listed,
            )
      ]

  -- If the remote's rows of a project lead from the start to some row of the project, each event with a
  -- receipt that the key trusted by the cache has signed, the cache has the first of these rows and the
  -- state they lead to, and cursors are read back as they were written, then syncProject ends after at
  -- most as many pages as rows are missing, and one more, without an error, and the cache has then all
  -- of the remote's rows and the number, head and state to which they lead.
  pub sync_project_catches_up :
      (cache : Cache) (missing : List EventRecord) (after : ProjectRow)
      → IsCodec codec
      → get project cache.projects ≡ some (load_project cache project)
      → Run pf sg cache.server_public_key project new_row
          (rows_of cache project)
          (load_project cache project)
      → Run pf sg cache.server_public_key project (load_project cache project) missing after
      → (next : Cache) × (sync_project pf sg codec metadata
            (rows_of cache project ++ missing)
            (suc (length missing))
            cache
            project
          ≡ (next, ok tt))
        × (load_project next project ≡ after)
        × (rows_of next project ≡ rows_of cache project ++ missing)
  unfolding sync_project cached_sequence cached_state
  sync_project_catches_up cache missing after law there done run =
      let row = load_project cache project in
      let at_row : cached_sequence pf sg codec metadata (rows_of cache project ++ missing) cache
            project
          ≡ row.sequence =
        rw (cached_sequence, cached_state, there) refl in
      rw (at_row) (
        sync_pages-Run (suc (length missing)) cache (codec.encode row.sequence)
          (rows_of cache project) row missing after law
          (decode_cursor-encode codec law row.sequence) refl refl done run (omega arith))
