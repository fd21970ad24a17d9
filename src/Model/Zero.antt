-- ===== src/Model/Zero.antt =====
-- internal/model/model.go: the zero values that a Go map gives for a missing key.
use agent_comms.Base.{false, none, []}
use agent_comms.Model.State.{
  EntityClock, Agent, Task, Message, Invocation, InvocationDelivery, AgentRuntime, InvocationPolicy,
  Approval, Document, EnvEntry, Provider,
}

abbrev pub zero_clock : EntityClock
zero_clock = record { created_at = 0; updated_at = 0; created_sequence = 0; updated_sequence = 0 }

abbrev pub zero_agent : Agent
zero_agent = record {
  clock = zero_clock;
  id = "";
  display_name = "";
  status = "";
  role = "";
  principal_type = "";
  public_key = "";
  key_fingerprint = "";
  capabilities = [];
  scopes = [];
  elevated_public_key = "";
  elevated_key_fingerprint = "";
}

abbrev pub zero_task : Task
zero_task = record {
  clock = zero_clock;
  id = "";
  title = "";
  summary = "";
  status = "";
  owner = "";
  repository = "";
  branch = "";
  worktree = "";
  resources = [];
  external_ref = "";
  risk = "";
  lease_until = 0;
  stale_until = 0;
  handoff_to = "";
  offers = [];
  completed_at = none;
  archived = false;
}

abbrev pub zero_message : Message
zero_message = record {
  id = "";
  kind = "";
  from = "";
  to = [];
  subject = "";
  body = "";
  task_id = "";
  status = "";
  recipients = [];
  clock = zero_clock;
}

abbrev pub zero_invocation : Invocation
zero_invocation = record {
  id = "";
  requested_by = "";
  target = "";
  message_id = "";
  task_id = "";
  instruction = "";
  expected_result = "";
  scopes = [];
  priority = "";
  consumer_mode = "";
  preferred_runtime_id = "";
  status = "";
  clock = zero_clock;
  deadline = none;
  claimed_by = "";
  claimed_at = none;
  runtime_id = "";
  claim_until = none;
  started_at = none;
  completed_at = none;
  next_attempt_at = none;
  result_message_id = "";
  summary = "";
  reason = "";
}

abbrev pub zero_delivery : InvocationDelivery
zero_delivery = record {
  id = "";
  invocation_id = "";
  runtime_id = "";
  transport = "";
  host_id = "";
  endpoint_id = "";
  attempt = 0;
  manual = false;
  status = "";
  attempted_at = none;
  attempt_until = none;
  notified_at = none;
  failed_at = none;
  next_retry_at = none;
  evidence = [];
  error = "";
}

abbrev pub zero_runtime : AgentRuntime
zero_runtime = record {
  id = "";
  agent_id = "";
  kind = "";
  connector = "";
  config_reference = "";
  host_id = "";
  endpoint_id = "";
  status = "";
  health = "";
  max_concurrent = 0;
  active_invocations = [];
  scopes = [];
  capabilities = [];
  registered_at = 0;
  clock = zero_clock;
  last_seen_at = 0;
  last_changed_by = "";
  reason = "";
  interactive_session = none;
}

abbrev pub zero_policy : InvocationPolicy
zero_policy = record {
  agent_id = "";
  mode = "";
  trusted_actors = [];
  allowed_scopes = [];
  default_consumer_mode = "";
  allowed_consumer_modes = [];
  preferred_interactive_runtime_id = "";
  require_human_for_sensitive = false;
  updated_by = "";
  clock = zero_clock;
}

abbrev pub zero_approval : Approval
zero_approval = record {
  clock = zero_clock;
  id = "";
  tier = "";
  action = "";
  subject_digest = "";
  subject = "";
  reason = "";
  status = "";
  requester = "";
  affected = [];
  expires_at = none;
  approver = "";
}

abbrev pub zero_document : Document
zero_document = record {
  clock = zero_clock;
  id = "";
  title = "";
  body = "";
  tags = [];
  status = "";
  version = 0;
  author = "";
  supersedes = "";
}

abbrev pub zero_env : EnvEntry
zero_env = record { key = ""; value = ""; clock = zero_clock; updated_by = "" }

abbrev pub zero_provider : Provider
zero_provider = record {
  clock = zero_clock;
  name = "";
  display_name = "";
  description = "";
  status = "";
  added_by = "";
  retired_by = "";
  retire_reason = "";
}
