-- ===== src/Drafts/Quota.antt =====
-- internal/draftstore/store.go: the quotas of a project.
use agent_comms.Base.{
  ℕ, suc, ◌+◌, ◌-◌, ◌≤◌, ◌≡◌, sym, inl, inr, String, Bool, true, false, not, ◌&&◌, ◌||◌, ◌==◌, List,
  [], ◌∷◌, ltb, leb, arith, eq_iff, if◌then◌else◌, Bool-cases,
}
use agent_comms.Protocol.Result.{ok, reject_if, then_ok, require_ok, reject_if_ok, ok-injective}
use agent_comms.Protocol.Settings.{max_draft_storage_bytes}
use agent_comms.Contracts.Types.{Draft}
use agent_comms.Drafts.Store.{
  max_drafts_per_project, max_draft_bytes, count_drafts, used_bytes, find_draft, upsert,
  existing_bytes, is_new, stamped, check_quota, save_draft, known_kind,
}

-- Every project keeps to its number of drafts and to its bytes.
abbrev pub WithinQuota : List Draft → Type 0
WithinQuota ds =
    (project : String)
    → (count_drafts project ds ≤ max_drafts_per_project)
      × (used_bytes project ds ≤ max_draft_storage_bytes)

used_bytes-find_draft :
    (d : Draft) (ds : List Draft)
    → existing_bytes (find_draft d.project_id d.id ds) ≤ used_bytes d.project_id ds
unfolding used_bytes find_draft
used_bytes-find_draft d [] = omega arith
used_bytes-find_draft d (x ∷ xs) = ground (arith, used_bytes-find_draft d xs)

count_drafts-upsert :
    (project : String) (d : Draft) (ds : List Draft)
    → count_drafts project (upsert d ds) ≡ (
        if d.project_id == project && is_new (find_draft d.project_id d.id ds)
        then suc (count_drafts project ds)
        else count_drafts project ds)
unfolding count_drafts find_draft upsert
count_drafts-upsert project d [] = ground arith
count_drafts-upsert project d (x ∷ xs) = ground (
  arith,
  count_drafts-upsert project d xs,
  eq_iff x.project_id d.project_id,
  eq_iff d.project_id project,
  eq_iff x.project_id project,
)

used_bytes-upsert :
    (project : String) (d : Draft) (ds : List Draft)
    → used_bytes project (upsert d ds) ≡ (
        if d.project_id == project
        then used_bytes project ds - existing_bytes (find_draft d.project_id d.id ds) + d.body_bytes
        else used_bytes project ds)
unfolding used_bytes find_draft upsert
used_bytes-upsert project d [] = ground arith
used_bytes-upsert project d (x ∷ xs) = ground (
  arith,
  used_bytes-upsert project d xs,
  used_bytes-find_draft d xs,
  eq_iff x.project_id d.project_id,
  eq_iff d.project_id project,
  eq_iff x.project_id project,
)

-- What a saved draft has passed.
pub record Saved (preserve : Bool) (now : ℕ) (ds : List Draft) (d : Draft) (next : List Draft)
    : Type 0 where
  pub counted :
      (is_new (find_draft d.project_id d.id ds)
        && leb max_drafts_per_project (count_drafts d.project_id ds))
      ≡ false
  pub stored_bytes :
      ltb max_draft_storage_bytes (
        used_bytes d.project_id ds
        - existing_bytes (find_draft d.project_id d.id ds)
        + d.body_bytes)
      ≡ false
  pub kind : known_kind d.kind ≡ true
  pub body : (leb d.body_bytes 0 || ltb max_draft_bytes d.body_bytes) ≡ false
  pub stored : next ≡ upsert (stamped preserve now d) ds

pub save_draft-Saved :
    (preserve : Bool) (now : ℕ) (ds : List Draft) (d : Draft) {next : List Draft}
    → save_draft preserve now ds d ≡ ok next
    → Saved preserve now ds d next
unfolding save_draft check_quota
save_draft-Saved preserve now ds d h =
    let (g1, h1) = then_ok (reject_if _ _) _ h in
    let (g2, h2) = then_ok (reject_if (not (known_kind d.kind)) _) _ h1 in
    let (g3, h3) =
      then_ok (reject_if (leb d.body_bytes 0 || ltb max_draft_bytes d.body_bytes) _) _ h2 in
    let (g4, h4) = then_ok (check_quota ds d) _ h3 in
    let (g5, h5) = then_ok (reject_if _ _) _ g4 in
    record {
      counted = reject_if_ok _ _ g5;
      stored_bytes = reject_if_ok _ _ h5;
      kind = require_ok _ _ g2;
      body = reject_if_ok _ _ g3;
      stored = sym (ok-injective h4);
    }

-- If every project has at most 1000 drafts, of at most 50 MiB together, then this is so after every
-- draft that saveDraft accepts, new or replacing one.
pub save_draft-WithinQuota :
    (preserve : Bool) (now : ℕ) (ds : List Draft) (d : Draft) {next : List Draft}
    → WithinQuota ds
    → save_draft preserve now ds d ≡ ok next
    → WithinQuota next
save_draft-WithinQuota preserve now ds d within h project =
    let saved = save_draft-Saved preserve now ds d h in
    let count = count_drafts-upsert project (stamped preserve now d) ds in
    let bytes = used_bytes-upsert project (stamped preserve now d) ds in
    let here = eq_iff d.project_id project in
    let (few, small) = within project in
    let (few', small') = within d.project_id in
    rw (saved.stored) rw (count) rw (bytes) (elim (Bool-cases (d.project_id == project)) [
      | inl same ↦ rw (same) rw (← here.0 same) (ground (arith, saved.counted, saved.stored_bytes))
      | inr other ↦ rw (other) (few, small)
    ])
