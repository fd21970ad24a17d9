-- ===== src/Protocol/Tasks.antt =====
-- internal/protocol/transitions.go, ValidateTransition: the `task.` block, one function for each case
-- of its type switch. `t` is the task (or the zero task) and `exists` whether it is there.
use Prim.Native.String.{◌++◌}
use agent_comms.Base.{
  ℕ, ◌+◌, String, Bool, true, false, not, ◌&&◌, ◌||◌, ◌==◌, Option, none, some, List, [], ◌∷◌, ltb,
  if◌then◌else◌, is_empty,
}
use agent_comms.Base.Map.{Map, get, get_or}
use agent_comms.Base.Duration.{parse_duration, or_zero}
use agent_comms.Base.Text.{trim_space, has}
use agent_comms.Model.Payloads.{
  Payload, TaskCreated, TaskClaimed, TaskRenewed, TaskHandoff, TaskStatus, task_created,
  task_claimed, task_renewed, task_handoff, task_status,
}
use agent_comms.Model.State.{State, Task, effective_project_settings}
use agent_comms.Model.Zero.{zero_agent, zero_task}
use agent_comms.Protocol.Result.{Result, ok, err, ◌>>=◌, ◌>>◌, reject_if}
use agent_comms.Protocol.Scopes.{overlap, scope_allows}
use agent_comms.Protocol.Standing.{governs}
use agent_comms.Protocol.Approvals.{eligible_action_approval_id}

-- The lease and the grace that the project's settings give.
unfoldable pub default_lease : State → ℕ
default_lease st =
    or_zero (parse_duration (effective_project_settings st.project_settings).default_lease)

unfoldable pub stale_grace : State → ℕ
stale_grace st =
    or_zero (parse_duration (effective_project_settings st.project_settings).stale_grace)

join : List String → String
join [] = ""
join (x ∷ []) = x
join (x ∷ y ∷ ys) = let rest = join (y ∷ ys) in x ++ (", " ++ rest)

abbrev missing_if : Bool → String → List String → List String
missing_if true name rest = name ∷ rest
missing_if false name rest = rest

unfoldable pub missing_fields : TaskCreated → List String
missing_fields p = missing_if (p.title == "") "title" (
    missing_if (p.repository == "") "repository"
      (missing_if (p.branch == "") "branch" (missing_if (is_empty p.resources) "resources" [])))

unfoldable pub check_task_created : Bool → TaskCreated → Result Payload
unfolding missing_fields join
check_task_created exists p = do
  reject_if (not (is_empty (missing_fields p))) (join (missing_fields p) ++ " required")
  reject_if exists "task already exists"
  ok (task_created p)

-- A task that is owned and not over.
unfoldable pub is_held : Task → Bool
is_held v =
    not (v.owner == "")
    && not v.archived
    && not (v.status == "COMPLETED")
    && not (v.status == "CANCELLED")

-- Another held task that touches the same paths.
unfoldable pub conflicts : String → Task → Task → Bool
unfolding is_held
conflicts id t v = not (v.id == id) && is_held v && overlap t.resources v.resources

-- The shared-write approvals for a pair of tasks, one for each direction: whether there is one, and
-- whether one had expired.
unfoldable pub shared_write : State → ℕ → String → String → Bool × Bool
shared_write st now id other =
    let forward = eligible_action_approval_id st ("shared-write:" ++ (id ++ (":" ++ other))) now in
    let reverse = eligible_action_approval_id st ("shared-write:" ++ (other ++ (":" ++ id))) now in
    (not (forward.0 == "") || not (reverse.0 == ""), forward.1 || reverse.1)

unfoldable pub check_overlap : State → ℕ → String → Task → Task → Result (Unit {0})
unfolding conflicts
check_overlap st now id t v =
    let shared = shared_write st now id v.id in
    if conflicts id t v && not shared.0
    then (if shared.1
        then err
            ("write lease overlaps task " ++ (v.id ++ " and the shared-write approval has expired"))
        else err ("write lease overlaps task " ++ v.id))
    else ok tt

-- `for _, v := range st.Tasks`
unfoldable pub check_overlaps : State → ℕ → String → Task → Map Task → Result (Unit {0})
unfolding check_overlap
check_overlaps st now id t [] = ok tt
check_overlaps st now id t ((_, v) ∷ rest) =
    let later = check_overlaps st now id t rest in (check_overlap st now id t v >> later)

-- Another actor's live lease of the worktree.
unfoldable pub worktree_taken : String → ℕ → String → Task → Bool
worktree_taken actor now worktree v =
    if v.worktree == ""
      || v.owner == ""
      || v.archived
      || v.status == "COMPLETED"
      || v.status == "CANCELLED"
    then false
    else v.worktree == worktree && not (v.owner == actor) && ltb now v.lease_until

unfoldable pub check_worktrees : String → ℕ → String → Map Task → Result (Unit {0})
unfolding worktree_taken
check_worktrees actor now worktree [] = ok tt
check_worktrees actor now worktree ((_, v) ∷ rest) =
    let later = check_worktrees actor now worktree rest in
    if worktree_taken actor now worktree v
    then err ("worktree " ++ (worktree ++ (" is already leased by " ++ v.owner)))
    else later

-- The worktree of a claim: the task's own, where the claim names none.
unfoldable pub claim_worktree : Task → TaskClaimed → String
claim_worktree t p = if not (t.worktree == "") && p.worktree == "" then t.worktree else p.worktree

unfoldable pub check_task_claimed :
    State → String → String → Task → ℕ → TaskClaimed → Result Payload
unfolding get_or claim_worktree
check_task_claimed st actor id t now p = do
  reject_if (not (t.owner == "") || (not (t.status == "OPEN") && not (t.status == "OFFERED")))
      "task is no longer available to claim"
  reject_if (not (scope_allows (get_or zero_agent actor st.agents).scopes t.resources))
      "task resources exceed principal scopes"
  check_overlaps st now id t st.tasks
  let worktree = claim_worktree t p
  if worktree == "" then ok tt else check_worktrees actor now worktree st.tasks
  ok (task_claimed (record p { lease_until = now + default_lease st; worktree = worktree }))

unfoldable pub check_task_renewed : State → String → Task → ℕ → TaskRenewed → Result Payload
unfolding trim_space
check_task_renewed st actor t now p = do
  reject_if (not (t.owner == actor)) "task owner required"
  reject_if (trim_space p.progress == "") "progress summary is required"
  ok (task_renewed (record p { lease_until = now + default_lease st }))

unfoldable pub check_task_handoff : String → Task → TaskHandoff → Result Payload
check_task_handoff actor t p = do
  reject_if (not (t.owner == actor)) "task owner required"
  ok (task_handoff p)

-- The statuses from which a status event may start; `none` for an event that the table leaves free.
unfoldable pub allowed_status : String → Option (List String)
allowed_status typ =
    if typ == "task.start"
    then some ("CLAIMED" ∷ "BLOCKED" ∷ [])
    else if typ == "task.block"
    then some ("IN_PROGRESS" ∷ [])
    else if typ == "task.review"
    then some ("IN_PROGRESS" ∷ [])
    else if typ == "task.complete"
    then some ("IN_PROGRESS" ∷ "REVIEW" ∷ [])
    else if typ == "task.cancel"
    then some ("OPEN" ∷ "OFFERED" ∷ "CLAIMED" ∷ "IN_PROGRESS" ∷ "BLOCKED" ∷ "REVIEW" ∷ [])
    else none

unfoldable pub status_allowed : Option (List String) → String → Bool
unfolding has
status_allowed none status = true
status_allowed (some l) status = has l status

-- A takeover takes the approval that it will spend; any other event may not name one.
unfoldable pub name_approval : State → String → String → ℕ → TaskStatus → Result TaskStatus
name_approval st typ id now p =
    let (approval_id, expired) = eligible_action_approval_id st ("task.takeover:" ++ id) now in
    if typ == "task.takeover"
    then (if approval_id == ""
        then (if expired
            then err "takeover approval has expired"
            else err "approved takeover is required")
        else ok (record p { approval_id = approval_id }))
    else if not (p.approval_id == "")
    then err "approval_id is reserved for server-normalized task.takeover events"
    else ok p

unfoldable pub needs_review : State → Task → Bool
unfolding effective_project_settings
needs_review st t =
    not (t.risk == "ROUTINE") || (effective_project_settings st.project_settings).require_review

unfoldable pub check_task_status :
    State → String → String → String → Task → ℕ → TaskStatus → Result Payload
unfolding get_or governs allowed_status status_allowed name_approval needs_review
check_task_status st actor typ id t now p = do
  let role = (get_or zero_agent actor st.agents).role
  reject_if (not (status_allowed (allowed_status typ) t.status))
      (typ ++ (" is invalid while task is " ++ t.status))
  named ← name_approval st typ id now p
  reject_if (typ == "task.complete" && needs_review st t && not (t.status == "REVIEW"))
      "elevated task requires review before completion"
  reject_if (typ == "task.complete" && needs_review st t && not (governs role))
      "eligible reviewer required"
  reject_if (typ == "task.handoff.accept" && not (t.handoff_to == actor)) "handoff target required"
  reject_if
      (not (typ == "task.handoff.accept")
        && not (typ == "task.takeover")
        && not (t.owner == "")
        && not (t.owner == actor)
        && not (governs role))
      "task owner or orchestrator required"
  ok (task_status named)

abbrev is_there {ℓ} : {A : Type ℓ} → Option A → Bool
is_there none = false
is_there (some _) = true

-- The type switch; a payload with no case is accepted as it is, `task.offer`'s among them.
unfoldable pub switch_task :
    State → String → String → String → Task → Bool → Payload → ℕ → Result Payload
unfolding check_task_created check_task_claimed check_task_renewed check_task_handoff
    check_task_status
switch_task st actor typ id t exists (task_created p) now = check_task_created exists p
switch_task st actor typ id t exists (task_claimed p) now = check_task_claimed st actor id t now p
switch_task st actor typ id t exists (task_renewed p) now = check_task_renewed st actor t now p
switch_task st actor typ id t exists (task_handoff p) now = check_task_handoff actor t p
switch_task st actor typ id t exists (task_status p) now = check_task_status st actor typ id t now p
switch_task st actor typ id t exists payload now = ok payload

unfoldable pub check_task : State → String → String → String → Payload → ℕ → Result Payload
unfolding get get_or switch_task
check_task st actor typ id payload now = do
  reject_if (not (typ == "task.create") && not (is_there (get id st.tasks))) "task not found"
  switch_task st actor typ id (get_or zero_task id st.tasks) (is_there (get id st.tasks)) payload
      now
