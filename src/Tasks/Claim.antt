-- ===== src/Tasks/Claim.antt =====
-- internal/protocol/transitions.go and internal/projection/apply.go: a claim is exclusive.
use agent_comms.Base.{ℕ, ◌+◌, ◌≡◌, String, true, false, ◌==◌, [], ◌∷◌, arith, eq_iff}
use agent_comms.Base.Map.{Map, get_or}
use agent_comms.Model.Payloads.{Payload, TaskClaimed, task_claimed}
use agent_comms.Model.State.{State, Task}
use agent_comms.Model.Zero.{zero_task, zero_agent}
use agent_comms.Protocol.Scopes.{scope_allows}
use agent_comms.Protocol.Result.{ok, then_ok}
use agent_comms.Protocol.Tasks.{
  check_overlap, check_overlaps, conflicts, shared_write, check_task_claimed, worktree_taken,
  check_worktrees, default_lease, claim_worktree,
}

abbrev pub Every {ℓ κ} : {V : Type ℓ} → (V → Type κ) → Map V → Type κ
Every P [] = Unit
Every P ((k, v) ∷ m) = P v × Every P m

-- Every conflicting task of the list shares its paths by an approval.
abbrev pub IsShared : State → ℕ → String → Task → Task → Type 0
IsShared st now id t v = conflicts id t v ≡ true → (shared_write st now id v.id).0 ≡ true

check_overlap-IsShared :
    (st : State) (now : ℕ) (id : String) (t v : Task)
    → check_overlap st now id t v ≡ ok tt
    → IsShared st now id t v
unfolding check_overlap
check_overlap-IsShared st now id t v h c = ground arith

pub check_overlaps-Every :
    (st : State) (now : ℕ) (id : String) (t : Task) (m : Map Task)
    → check_overlaps st now id t m ≡ ok tt
    → Every (IsShared st now id t) m
unfolding check_overlaps
check_overlaps-Every st now id t [] h = tt
check_overlaps-Every st now id t ((k, v) ∷ m) h =
    let r = then_ok (check_overlap st now id t v) _ h in
    (check_overlap-IsShared st now id t v r.0, check_overlaps-Every st now id t m r.1)

check_worktrees-Every :
    (actor : String) (now : ℕ) (worktree : String) (m : Map Task)
    → check_worktrees actor now worktree m ≡ ok tt
    → Every (λ v. worktree_taken actor now worktree v ≡ false) m
unfolding check_worktrees
check_worktrees-Every actor now worktree [] h = tt
check_worktrees-Every actor now worktree ((k, v) ∷ m) h =
    (ground arith, check_worktrees-Every actor now worktree m (ground arith))

-- What a claim was checked for.
pub record ClaimChecked (st : State) (actor id : String) (now : ℕ) (p : TaskClaimed) (q : Payload)
    : Type 0 where
  pub unowned : (get_or zero_task id st.tasks).owner ≡ ""
  pub in_scope :
      scope_allows
        (get_or zero_agent actor st.agents).scopes
        (get_or zero_task id st.tasks).resources
      ≡ true
  pub exclusive : Every (IsShared st now id (get_or zero_task id st.tasks)) st.tasks
  pub worktree_free :
      (claim_worktree (get_or zero_task id st.tasks) p == "") ≡ false
      → Every
          (λ v.
            worktree_taken actor now (claim_worktree (get_or zero_task id st.tasks) p) v ≡ false)
          st.tasks
  pub normal :
      q
      ≡ task_claimed (record p {
        lease_until = now + default_lease st;
        worktree = claim_worktree (get_or zero_task id st.tasks) p;
      })

pub check_task_claimed-ClaimChecked :
    (st : State) (actor id : String) (now : ℕ) (p : TaskClaimed) {q : Payload}
    → check_task_claimed st actor id (get_or zero_task id st.tasks) now p ≡ ok q
    → ClaimChecked st actor id now p q
unfolding check_task_claimed
check_task_claimed-ClaimChecked st actor id now p h = record {
  unowned = ground (arith, eq_iff (get_or zero_task id st.tasks).owner "");
  in_scope = ground arith;
  exclusive = check_overlaps-Every st now id _ st.tasks (ground arith);
  worktree_free = λ named. check_worktrees-Every actor now _ st.tasks (ground arith);
  normal = ground arith;
}
