-- ===== src/Drafts/Saved.antt =====
-- internal/draftstore/store.go: what is found after a draft was saved or deleted.
use agent_comms.Base.{
  ℕ, zero, suc, ◌+◌, ◌<◌, ◌≤◌, ◌≡◌, refl, ap, inl, inr, String, Bool, true, false, ◌&&◌, ◌==◌, ltb,
  Option, none, some, List, [], ◌∷◌, arith, eq_iff, if◌then◌else◌, Option-cases, Bool-cases,
}
use text.Mathlib.TextPositions.{eq_refl}
use agent_comms.Protocol.Result.{ok, reject_if, then_ok, reject_if_ok, ok-injective}
use agent_comms.Contracts.Types.{Draft}
use agent_comms.Drafts.Store.{
  is_draft, count_drafts, used_bytes, find_draft, remove_draft, delete_draft, upsert, updated_draft,
  is_new, stamped, time_or, save_draft,
}
use agent_comms.Drafts.Quota.{save_draft-Saved}

-- The row of a draft: over the old row, or as it is.
abbrev pub row_over : Option Draft → Draft → Draft
row_over none d = d
row_over (some old) d = updated_draft old d

find_draft-upsert :
    (project id : String) (d : Draft) (ds : List Draft)
    → find_draft project id (upsert d ds) ≡ (
        if is_draft project id d
        then some (row_over (find_draft d.project_id d.id ds) d)
        else find_draft project id ds)
unfolding find_draft upsert
find_draft-upsert project id d [] = ground arith
find_draft-upsert project id d (x ∷ xs) = ground (
  arith,
  find_draft-upsert project id d xs,
  eq_iff x.project_id d.project_id,
  eq_iff d.project_id project,
  eq_iff x.project_id project,
  eq_iff x.id d.id,
  eq_iff d.id id,
  eq_iff x.id id,
)

-- The row that saving the draft `d` at `now` over what was stored leaves.
pub record Saves (preserve : Bool) (now : ℕ) (old : Option Draft) (d row : Draft) : Type 0 where
  pub project_id : row.project_id ≡ d.project_id
  pub id : row.id ≡ d.id
  pub kind : row.kind ≡ d.kind
  pub body : row.body ≡ d.body
  pub body_bytes : row.body_bytes ≡ d.body_bytes
  pub first_created :
      old ≡ none → row.created_at ≡ (if ltb 0 d.created_at then d.created_at else now)
  pub still_created : (before : Draft) → old ≡ some before → row.created_at ≡ before.created_at
  pub updated_at : row.updated_at ≡ (if preserve && ltb 0 d.updated_at then d.updated_at else now)

time_or_now : (t now : ℕ) → time_or t now ≡ (if ltb 0 t then t else now)
time_or_now zero now = refl
time_or_now (suc n) now = let later : ltb 0 (suc n) ≡ true = ground arith in rw (later) refl

stamped_update :
    (preserve : Bool) (now : ℕ) (d : Draft)
    → (stamped preserve now d).updated_at
      ≡ (if preserve && ltb 0 d.updated_at then d.updated_at else now)
stamped_update true now d = time_or_now d.updated_at now
stamped_update false now d = refl

-- A row that is found has the project and the ID.
found_draft :
    (project id : String) (ds : List Draft) {d : Draft}
    → find_draft project id ds ≡ some d
    → (d.project_id ≡ project) × (d.id ≡ id)
unfolding find_draft
found_draft project id [] h = absurd cc
found_draft project id (x ∷ xs) {d} h = elim (Bool-cases (is_draft project id x)) [
  | inr other ↦ found_draft project id xs (rw (other) at h)
  | inl here ↦
      let e : some x ≡ some d = rw (here) at h in
      let same : x ≡ d = cc in
      let (p, i) = both (x.project_id == project) (x.id == id) here in
      rw (← same) ((eq_iff x.project_id project).0 p, (eq_iff x.id id).0 i)
]
  where
    both : (a b : Bool) → (a && b) ≡ true → (a ≡ true) × (b ≡ true)
    both a b h = ground arith

row_over-Saves :
    (preserve : Bool) (now : ℕ) (ds : List Draft) (d : Draft)
    → Saves preserve now
        (find_draft d.project_id d.id ds)
        d
        (row_over (find_draft d.project_id d.id ds) (stamped preserve now d))
row_over-Saves preserve now ds d =
    over (find_draft d.project_id d.id ds) (λ old e. found_draft d.project_id d.id ds e)
  where
    over :
        (o : Option Draft)
        → ((old : Draft) → o ≡ some old → (old.project_id ≡ d.project_id) × (old.id ≡ d.id))
        → Saves preserve now o d (row_over o (stamped preserve now d))
    over none keyed = record {
      project_id = refl;
      id = refl;
      kind = refl;
      body = refl;
      body_bytes = refl;
      first_created = λ e. time_or_now d.created_at now;
      still_created = λ before e. absurd cc;
      updated_at = stamped_update preserve now d;
    }
    over (some old) keyed = record {
      project_id = (keyed old refl).0;
      id = (keyed old refl).1;
      kind = refl;
      body = refl;
      body_bytes = refl;
      first_created = λ e. absurd cc;
      still_created = λ before e. let same : old ≡ before = cc in ap (λ x. x.created_at) same;
      updated_at = stamped_update preserve now d;
    }

-- After saveDraft has accepted a draft, its project and ID find a row with the draft's project, ID, kind,
-- body and number of bytes. The row keeps the time of creation of the row it replaces; a new row has the
-- draft's own time of creation, or now where that is zero. It was updated now, or where times are
-- preserved at the draft's own time of update, unless that is zero. Every other project and ID finds
-- what it found before.
pub save_draft_found :
    (preserve : Bool) (now : ℕ) (ds : List Draft) (d : Draft) {next : List Draft}
    → save_draft preserve now ds d ≡ ok next
    → ((row : Draft) × (find_draft d.project_id d.id next ≡ some row)
        × Saves preserve now (find_draft d.project_id d.id ds) d row)
      × ((project id : String)
          → (d.project_id == project && d.id == id) ≡ false
          → find_draft project id next ≡ find_draft project id ds)
save_draft_found preserve now ds d h =
    let saved = save_draft-Saved preserve now ds d h in
    let new = stamped preserve now d in
    (
      (
        row_over (find_draft d.project_id d.id ds) new,
        rw (saved.stored) rw (find_draft-upsert d.project_id d.id new ds) rw (eq_refl d.project_id)
            rw (eq_refl d.id) refl,
        row_over-Saves preserve now ds d,
      ),
      λ project id other.
          rw (saved.stored) rw (find_draft-upsert project id new ds) rw (other) refl,
    )

find_draft-remove_draft :
    (project id project' id' : String) (ds : List Draft)
    → find_draft project' id' (remove_draft project id ds)
      ≡ (if project == project' && id == id' then none else find_draft project' id' ds)
unfolding find_draft remove_draft
find_draft-remove_draft project id project' id' [] = ground arith
find_draft-remove_draft project id project' id' (x ∷ xs) = ground (
  arith,
  find_draft-remove_draft project id project' id' xs,
  eq_iff x.project_id project,
  eq_iff x.id id,
  eq_iff project project',
  eq_iff id id',
  eq_iff x.project_id project',
  eq_iff x.id id',
)

remove_draft_le :
    (project id : String) (ds : List Draft)
    → (count_drafts project (remove_draft project id ds) ≤ count_drafts project ds)
      × (used_bytes project (remove_draft project id ds) ≤ used_bytes project ds)
unfolding count_drafts used_bytes remove_draft
remove_draft_le project id [] = (omega arith, omega arith)
remove_draft_le project id (x ∷ xs) = ground (arith, remove_draft_le project id xs)

remove_draft_lt :
    (project id : String) (ds : List Draft) {d : Draft}
    → find_draft project id ds ≡ some d
    → (count_drafts project (remove_draft project id ds) < count_drafts project ds)
      × (used_bytes project (remove_draft project id ds) + d.body_bytes ≤ used_bytes project ds)
unfolding count_drafts used_bytes remove_draft find_draft
remove_draft_lt project id [] h = absurd (ground arith)
remove_draft_lt project id (x ∷ xs) h =
    let less = remove_draft_le project id xs in
    elim (Bool-cases (is_draft project id x)) [
      | inl here ↦ ground (arith, less, here)
      | inr there ↦ ground (arith, there, remove_draft_lt project id xs (rw (there) at h))
    ]

-- What DeleteDraft has done, from the rows `ds` to the rows `next`.
pub record Deleted (ds : List Draft) (project id : String) (next : List Draft) : Type 0 where
  pub row : Draft
  pub was_there : find_draft project id ds ≡ some row
  pub is_gone : find_draft project id next ≡ none
  pub fewer : count_drafts project next < count_drafts project ds
  pub smaller : used_bytes project next + row.body_bytes ≤ used_bytes project ds
  pub others_stay :
      (project' id' : String)
      → (project == project' && id == id') ≡ false
      → find_draft project' id' next ≡ find_draft project' id' ds

-- When DeleteDraft succeeds, the draft was there and is gone, its project counts fewer drafts and at
-- least its bytes less, and every other project and ID finds what it found before.
pub delete_draft-Deleted :
    (ds : List Draft) (project id : String) {next : List Draft}
    → delete_draft ds project id ≡ ok next
    → Deleted ds project id next
unfolding delete_draft
delete_draft-Deleted ds project id {next} h =
    let (g1, h1) = then_ok (reject_if _ _) _ h in
    let (g2, h2) = then_ok (reject_if (is_new (find_draft project id ds)) "draft not found") _ h1 in
    let stored : remove_draft project id ds ≡ next = ok-injective h2 in
    elim (Option-cases (find_draft project id ds)) [
      | inl none_there ↦ absurd (ground (arith, reject_if_ok _ _ g2, none_there))
      | inr (row, there) ↦
          let (fewer, smaller) = remove_draft_lt project id ds there in
          rw (← stored) (record {
            row = row;
            was_there = there;
            is_gone =
                rw (find_draft-remove_draft project id project id ds) rw (eq_refl project) rw
                  (eq_refl id) refl;
            fewer = fewer;
            smaller = smaller;
            others_stay = λ project' id' other.
                rw (find_draft-remove_draft project id project' id' ds) rw (other) refl;
          })
    ]
