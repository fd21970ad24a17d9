-- ===== src/Projection/Governance.antt =====
-- internal/projection/apply.go: settings, approvals, documents, artifacts, environment, providers.
use agent_comms.Base.{◌+◌, String, not, ◌==◌, none, some, [], ◌∷◌, if◌then◌else◌}
use agent_comms.Base.Map.{get, get_or, put, delete}
use agent_comms.Model.Payloads.{
  ProjectSettingsUpdated, ApprovalRequested, DecisionPayload, ArtifactAdded, DocumentPayload,
  EnvSetPayload, EnvDeletePayload, ProviderRegistered, ProviderRetired,
}
use agent_comms.Model.State.{State, Document, Event}
use agent_comms.Model.Zero.{zero_approval, zero_document, zero_env, zero_provider}
use agent_comms.Projection.Stamp.{stamp_clock}
use agent_comms.Projection.Runtimes.{renewed_clock}

unfoldable pub apply_settings_updated : State → Event → ProjectSettingsUpdated → State
apply_settings_updated s e p = record s {
  project_settings = record {
    default_lease = p.default_lease;
    stale_grace = p.stale_grace;
    active_retention = p.active_retention;
    summary_limit = p.summary_limit;
    artifact_limit_bytes = p.artifact_limit_bytes;
    require_review = p.require_review;
    updated_by = e.actor;
    updated_at = e.time;
  };
}

unfoldable pub apply_approval_requested : State → Event → ApprovalRequested → State
unfolding put
apply_approval_requested s e p = record s {
  approvals =
      put e.entity_id
        (record zero_approval {
          id = e.entity_id;
          tier = p.tier;
          action = p.action;
          subject_digest = p.subject_digest;
          subject = p.subject;
          reason = p.reason;
          status = "PENDING";
          requester = e.actor;
          affected = p.affected;
          expires_at = p.expires_at;
        })
        s.approvals;
}

unfoldable pub apply_approval_response : State → Event → State
unfolding get_or put
apply_approval_response s e = record s {
  approvals =
      put e.entity_id
        (record (get_or zero_approval e.entity_id s.approvals) {
          status = if e.typ == "approval.approve" then "APPROVED" else "REJECTED";
          approver = e.actor;
        })
        s.approvals;
}

unfoldable pub set_document : State → String → (Document → Document) → State
unfolding get_or put
set_document s id f = record s {
  documents = put id (f (get_or zero_document id s.documents)) s.documents;
}

unfoldable pub apply_decision : State → Event → DecisionPayload → State
unfolding put set_document
apply_decision s e p =
    let decided = record s {
      documents =
          put e.entity_id
            (record zero_document {
              id = e.entity_id;
              title = p.title;
              body = p.statement;
              tags = "decision" ∷ [];
              status = "ACTIVE";
              version = 1;
              author = e.actor;
              supersedes = p.supersedes;
            })
            s.documents;
    } in
    if not (p.supersedes == "")
    then set_document decided p.supersedes
        (λ d. record d { status = "SUPERSEDED"; clock = stamp_clock d.clock e })
    else decided

unfoldable pub apply_artifact_added : State → Event → ArtifactAdded → State
unfolding put
apply_artifact_added s e p = record s {
  artifacts =
      put p.sha256
        (record {
          created_at = e.time;
          created_sequence = e.sequence;
          sha256 = p.sha256;
          size = p.size;
          name = p.name;
          media_type = p.media_type;
          storage = p.storage;
        })
        s.artifacts;
}

unfoldable pub supersede_document : State → Event → DocumentPayload → State
unfolding set_document
supersede_document s e p =
    let superseded = set_document s e.entity_id (λ d. record d { status = "SUPERSEDED" }) in
    if not (p.replacement_id == "")
    then set_document superseded p.replacement_id (λ d. record d {
      status = "ACTIVE";
      supersedes = e.entity_id;
      clock = stamp_clock d.clock e;
    })
    else superseded

unfoldable pub apply_document : State → Event → DocumentPayload → State
unfolding put set_document supersede_document
apply_document s e p =
    if e.typ == "document.create"
    then record s {
      documents =
          put e.entity_id
            (record zero_document {
              id = e.entity_id;
              title = p.title;
              body = p.body;
              tags = p.tags;
              status = "ACTIVE";
              version = 1;
              author = e.actor;
            })
            s.documents;
    }
    else if e.typ == "document.update"
    then set_document s e.entity_id
        (λ d. record d { title = p.title; body = p.body; tags = p.tags; version = d.version + 1 })
    else if e.typ == "document.supersede"
    then supersede_document s e p
    else s

unfoldable pub apply_env_set : State → Event → EnvSetPayload → State
unfolding get_or put
apply_env_set s e p = record s {
  env =
      put p.key
        (record {
          key = p.key;
          value = p.value;
          clock = renewed_clock (get_or zero_env p.key s.env).clock e;
          updated_by = e.actor;
        })
        s.env;
}

unfoldable pub apply_env_delete : State → EnvDeletePayload → State
unfolding delete
apply_env_delete s p = record s { env = delete p.key s.env }

unfoldable pub apply_provider_registered : State → Event → ProviderRegistered → State
unfolding get_or put
apply_provider_registered s e p = record s {
  providers =
      put e.entity_id
        (record (get_or zero_provider e.entity_id s.providers) {
          name = e.entity_id;
          status = "ACTIVE";
          display_name = p.display_name;
          description = p.description;
          added_by = e.actor;
          retired_by = "";
          retire_reason = "";
        })
        s.providers;
}

unfoldable pub apply_provider_retired : State → Event → ProviderRetired → State
unfolding get put
apply_provider_retired s e p = elim (get e.entity_id s.providers) [
  | none ↦ s
  | some provider ↦ record s {
    providers =
        put e.entity_id
          (record provider { status = "RETIRED"; retired_by = e.actor; retire_reason = p.reason })
          s.providers;
  }
]
