-- ===== src/Authority/Advance.antt =====
-- internal/personalauthority/engine.go, Mutate, after the bootstrap: the validated payload of an event
-- is the one that is projected.
use agent_comms.Base.{◌≡◌, inl, inr, true, not, if◌then◌else◌, arith, Bool-cases}
use agent_comms.Model.Payloads.{Payload}
use agent_comms.Model.State.{State, Event}
use agent_comms.Model.EventTypes.{decodes}
use agent_comms.Protocol.Result.{Platform, Result, ok, err, ◌>>=◌, bind_ok}
use agent_comms.Protocol.Validate.{validate_transition}
use agent_comms.Projection.Apply.{apply_event}

unfoldable pub advance : Platform → State → Event → Result State
advance pf st e =
    if not (decodes e.typ e.payload)
    then err "unsupported event type"
    else (validate_transition pf st e.actor e.typ e.entity_id e.payload e.time >>= λ q.
        apply_event pf st (record e { payload = q }))

-- Inversion of an accepted event.
pub advance_ok :
    (pf : Platform) (st : State) (e : Event) {st' : State}
    → advance pf st e ≡ ok st'
    → (q : Payload) × (decodes e.typ e.payload ≡ true)
      × (validate_transition pf st e.actor e.typ e.entity_id e.payload e.time ≡ ok q)
      × (apply_event pf st (record e { payload = q }) ≡ ok st')
unfolding advance
advance_ok pf st e h = elim (Bool-cases (decodes e.typ e.payload)) [
  | inl fits ↦
      let r =
        bind_ok (validate_transition pf st e.actor e.typ e.entity_id e.payload e.time) _
          (rw fits at h) in
      (r.0, fits, r.1, r.2)
  | inr other ↦ absurd (ground arith)
]
