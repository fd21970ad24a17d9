-- ===== src/Tasks/Takeover.antt =====
-- internal/protocol/transitions.go and internal/projection/apply.go: a takeover and its approval.
use agent_comms.Base.{
  ℕ, ◌+◌, ◌≡◌, refl, sym, ◌∙◌, inl, inr, String, Bool, true, false, ◌||◌, ◌==◌, ◌⊎◌, none, some, [],
  ◌∷◌, arith, eq_iff, Bool-cases,
}
use agent_comms.Base.Map.{Map, get, put, get-put_self}
use Prim.Native.String.{◌++◌, compare}
use text.Mathlib.Text.{is_lt}
use agent_comms.Model.Payloads.{Payload, TaskStatus, task_status}
use agent_comms.Model.State.{State, Event, Task, Approval}
use agent_comms.Protocol.Validate.{validate_transition}
use agent_comms.Protocol.Validate.Inversion.{validate_takeover}
use agent_comms.Projection.Apply.{apply_event}
use agent_comms.Projection.Tasks.{apply_task_status, spend_takeover, move_task, set_task}
use agent_comms.Projection.Stamp.{stamp_entity, get-update-put}
use agent_comms.Protocol.Result.{Platform, ok}
use agent_comms.Protocol.Tasks.{
  check_task, name_approval, allowed_status, status_allowed, default_lease,
}
use agent_comms.Protocol.Approvals.{choose, choose_all, eligible_action_approval_id}
use agent_comms.Projection.Consume.{is_spendable, consumed, consume_named_approved_action}

-- An entry of the list under the chosen ID that the projection would spend.
abbrev pub Holds : String → ℕ → String → Map Approval → Type 0
Holds action now id [] = ⊥
Holds action now id ((k, a) ∷ m) =
    ((k ≡ id) × (is_spendable action now a ≡ true)) ⊎ Holds action now id m

-- The choice is nothing, the choice so far, or an entry that may be spent.
choose-Holds :
    (action : String) (now : ℕ) (k : String) (a : Approval) (acc : String × Bool)
    → ((choose action now (k, a) acc).0 ≡ acc.0)
      ⊎ ((k ≡ (choose action now (k, a) acc).0) × (is_spendable action now a ≡ true))
unfolding is_spendable
choose-Holds action now k a (chosen, expired) = elim (Bool-cases (is_spendable action now a)) [
  | inl good ↦ elim (Bool-cases (chosen == "" || is_lt (compare k chosen))) [
    | inl less ↦ inr (ground arith, good)
    | inr kept ↦ inl (ground arith)
  ]
  | inr bad ↦ inl (ground arith)
]

choose_all-Holds :
    (action : String) (now : ℕ) (m : Map Approval) (acc : String × Bool)
    → ((choose_all action now m acc).0 ≡ acc.0) ⊎ Holds action now (choose_all action now m acc).0 m
unfolding choose_all
choose_all-Holds action now [] acc = inl refl
choose_all-Holds action now ((k, a) ∷ m) acc =
    elim (choose_all-Holds action now m (choose action now (k, a) acc)) [
      | inr later ↦ inr (inr later)
      | inl same ↦ elim (choose-Holds action now k a acc) [
        | inl kept ↦ inl (same ∙ kept)
        | inr (here, good) ↦ inr (inl (here ∙ sym same, good))
      ]
    ]

-- The keys of a Go map occur once.
abbrev pub Unique : Map Approval → Type 0
Unique [] = Unit
Unique ((k, v) ∷ m) = (get k m ≡ none) × Unique m

Holds-get :
    (action : String) (now : ℕ) (id : String) (m : Map Approval)
    → Unique m
    → Holds action now id m
    → (a : Approval) × (get id m ≡ some a) × (is_spendable action now a ≡ true)
unfolding get
Holds-get action now id [] unique h = absurd h
Holds-get action now id ((k, a) ∷ m) unique (inl (here, good)) =
    (a, ground (arith, eq_iff k id), good)
Holds-get action now id ((k, a) ∷ m) (fresh, unique) (inr later) =
    let (b, there, good) = Holds-get action now id m unique later in
    (b, ground (arith, eq_iff k id, there, fresh), good)

module _ (pf : Platform) (st : State) (actor id event_id : String) (now sequence : ℕ)
    (p : TaskStatus) where
  abbrev pub takeover_event : TaskStatus → Event
  takeover_event body = record {
    id = event_id;
    sequence = sequence;
    time = now;
    actor = actor;
    typ = "task.takeover";
    entity_id = id;
    payload = task_status body;
  }

  abbrev pub takeover_action : String
  takeover_action = "task.takeover:" ++ id

  record TakeoverChecked (q : Payload) : Type 0 where
    approval_id : String
    named : (approval_id == "") ≡ false
    chosen : approval_id ≡ (eligible_action_approval_id st takeover_action now).0
    normal : q ≡ task_status (record p { approval_id = approval_id })

  takeover_checks :
      {q : Payload}
      → check_task st actor "task.takeover" id (task_status p) now ≡ ok q
      → TakeoverChecked q
  unfolding check_task name_approval allowed_status status_allowed
  takeover_checks h = record {
    approval_id = (eligible_action_approval_id st takeover_action now).0;
    named = ground arith;
    chosen = refl;
    normal = ground arith;
  }

  chosen_approval :
      (approval_id : String)
      → Unique st.approvals
      → (approval_id == "") ≡ false
      → approval_id ≡ (eligible_action_approval_id st takeover_action now).0
      → (a : Approval) × (get approval_id st.approvals ≡ some a)
        × (is_spendable takeover_action now a ≡ true)
  unfolding eligible_action_approval_id
  chosen_approval approval_id unique named chosen =
      elim (choose_all-Holds takeover_action now st.approvals ("", false)) [
        | inl nothing ↦ absurd (ground (arith, named, (eq_iff approval_id "").1 (chosen ∙ nothing)))
        | inr holds ↦
            Holds-get takeover_action now approval_id st.approvals unique (rw (chosen) holds)
      ]

  -- What a takeover leaves.
  pub record TakenOver (st' : State) : Type 0 where
    pub approval_id : String
    pub approval : Approval
    pub there : get approval_id st.approvals ≡ some approval
    pub approved : is_spendable takeover_action now approval ≡ true
    pub spent : Approval
    pub now_there : get approval_id st'.approvals ≡ some spent
    pub is_consumed : spent.status ≡ "CONSUMED"
    pub task : Task
    pub task_there : get id st'.tasks ≡ some task
    pub owner : task.owner ≡ actor
    pub claimed : task.status ≡ "CLAIMED"
    pub leased : task.lease_until ≡ now + default_lease st

  takeover_applies :
      (approval_id : String) (a : Approval)
      → (approval_id == "") ≡ false
      → get approval_id st.approvals ≡ some a
      → is_spendable takeover_action now a ≡ true
      → (st' : State) × (apply_event pf st (takeover_event (record p { approval_id = approval_id }))
          ≡ ok st')
        × TakenOver st'
  unfolding apply_event apply_task_status spend_takeover consume_named_approved_action stamp_entity
      move_task
  takeover_applies approval_id a named there good =
      let e = takeover_event (record p { approval_id = approval_id }) in
      let spent = record st { approvals = put approval_id (consumed e a) st.approvals } in
      (
        stamp_entity (set_task spent id (move_task st e)) e,
        rw (named, consume_named_approved_action, there, good) refl,
        record {
          approval_id = approval_id;
          approval = a;
          there = there;
          approved = good;
          spent = consumed e a;
          now_there = get-put_self approval_id _ st.approvals;
          is_consumed = refl;
          task = _;
          task_there = get-update-put id _ _ st.tasks;
          owner = refl;
          claimed = refl;
          leased = refl;
        },
      )

  -- A takeover that the validator accepts is projected, where no approval's key occurs twice: it names
  -- an approval of the takeover that is approved and unexpired, which is consumed by it, and the actor
  -- owns the task afterwards, claimed, for the lease of the settings.
  pub takeover_projects :
      {q : Payload}
      → Unique st.approvals
      → validate_transition pf st actor "task.takeover" id (task_status p) now ≡ ok q
      → (st' : State) × (apply_event pf st (record (takeover_event p) { payload = q }) ≡ ok st')
        × TakenOver st'
  takeover_projects unique h =
      let checked = takeover_checks (validate_takeover pf st actor id (task_status p) now h) in
      let (a, there, good) =
        chosen_approval checked.approval_id unique checked.named checked.chosen in
      rw (checked.normal) (takeover_applies checked.approval_id a checked.named there good)
