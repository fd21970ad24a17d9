-- ===== src/Projection/Stamp.antt =====
-- internal/projection/apply.go: the clocks of the entities.
use text.Mathlib.Text.{starts_with}
use agent_comms.Base.{
  ◌≡◌, arith, eq_iff, inl, inr, Option-cases, ◌==◌, ℕ, zero, suc, String, none, some, ◌||◌,
  if◌then◌else◌,
}
use mathlib.Core.Option
use agent_comms.Base.Map.{Map, get, put, get-put, get-put_self}
use agent_comms.Model.State.{
  EntityClock, Agent, Task, Invocation, AgentRuntime, Approval, Provider, Document, State, Event,
}

abbrev stamp_at : ℕ → ℕ → ℕ → EntityClock → EntityClock
stamp_at zero time sequence c = record {
  created_at = time;
  created_sequence = sequence;
  updated_at = time;
  updated_sequence = sequence;
}
stamp_at (suc t) time sequence c = record c { updated_at = time; updated_sequence = sequence }

-- The creation time is set once; the update time always.
unfoldable pub stamp_clock : EntityClock → Event → EntityClock
stamp_clock c e = stamp_at c.created_at e.time e.sequence c

-- `if value, ok := m[id]; ok { …; m[id] = value }`
unfoldable pub update {ℓ} : {V : Type ℓ} → String → (V → V) → Map V → Map V
unfolding get put
update id f m = elim (get id m) [ none ↦ m | some v ↦ put id (f v) m ]

unfoldable pub stamp_entity : State → Event → State
unfolding update stamp_clock
stamp_entity s e =
    if starts_with e.typ "agent."
    then record s {
      agents =
          update e.entity_id (λ (v : Agent). record v { clock = stamp_clock v.clock e }) s.agents;
    }
    else if starts_with e.typ "task."
    then record s {
      tasks = update e.entity_id (λ (v : Task). record v { clock = stamp_clock v.clock e }) s.tasks;
    }
    else if starts_with e.typ "invocation."
    then record s {
      invocations =
          update e.entity_id (λ (v : Invocation). record v { clock = stamp_clock v.clock e })
            s.invocations;
    }
    else if starts_with e.typ "runtime."
    then record s {
      runtimes =
          update e.entity_id (λ (v : AgentRuntime). record v { clock = stamp_clock v.clock e })
            s.runtimes;
    }
    else if starts_with e.typ "approval."
    then record s {
      approvals =
          update e.entity_id (λ (v : Approval). record v { clock = stamp_clock v.clock e })
            s.approvals;
    }
    else if starts_with e.typ "provider."
    then record s {
      providers =
          update e.entity_id (λ (v : Provider). record v { clock = stamp_clock v.clock e })
            s.providers;
    }
    else if starts_with e.typ "document." || starts_with e.typ "decision."
    then record s {
      documents =
          update e.entity_id (λ (v : Document). record v { clock = stamp_clock v.clock e })
            s.documents;
    }
    else s

pub get-update-put {ℓ} :
    {V : Type ℓ} (k : String) (f : V → V) (v : V) (m : Map V)
    → get k (update k f (put k v m)) ≡ some (f v)
unfolding update
get-update-put k f v m = rw (get-put_self k v m, update) (get-put_self k (f v) (put k v m))

pub get-update {ℓ} :
    {V : Type ℓ} (k j : String) (f : V → V) (m : Map V)
    → get j (update k f m) ≡ (if k == j then Option.map f (get k m) else get j m)
unfolding update
get-update k j f m = elim (Option-cases (get k m)) [
  | inl e ↦ ground (arith, eq_iff k j)
  | inr (v, e) ↦ rw (e, update) (get-put k j (f v) m)
]
