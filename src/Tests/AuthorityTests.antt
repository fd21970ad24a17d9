-- ===== src/Tests/AuthorityTests.antt =====
-- The authority's log.
use Prim.Native.String.{◌++◌}
use agent_comms.Base.{◌≡◌, refl, ◌==◌, [], ◌∷◌, none, false}
use agent_comms.Base.Map.{Map}
use agent_comms.Model.Payloads.{agent_registered}
use agent_comms.Model.State.{empty_state}
use agent_comms.Protocol.Result.{Result, ok, err}
use agent_comms.Authority.Engine.{
  Command, Entry, Project, Crypto, mutate, mutate_project, find_entry, is_bootstrap,
}
use agent_comms.Authority.Accepted.{Accepted, mutate-Accepted}
use agent_comms.Authority.Ledger.{IsSound, mutate-IsSound}
use agent_comms.Authority.Replays.{Accepts, here, next, mutate_replays}
use agent_comms.Tests.Fixtures.{platform, run}

abbrev crypto : Crypto
crypto = record {
  intent_hash = λ c. c.idempotency_key;
  verify = λ key c. key == c.signature;
  signing = record {
    payload_sha256 = λ p. "p";
    event_sha256 = λ c. c.previous_hash ++ c.id;
    verify_signature = λ key receipt signature. key == signature;
  };
}

abbrev new_project : Project
new_project = record {
  project_id = "p1";
  owner = "ana";
  sequence = 0;
  head_hash = "";
  state = empty_state;
  log = [];
}

abbrev register : Command
register = record {
  project_id = "p1";
  actor = "ana";
  typ = "agent.register";
  entity_id = "ana";
  payload =
      agent_registered
        (record { display_name = "Ana"; public_key = "k1"; principal_type = "HUMAN" });
  payload_bytes = 100;
  idempotency_key = "key-1";
  issued_at = 5000;
  expected_sequence = 0;
  public_key = "k1";
  signature = "k1";
}

abbrev outcome : Result (Project × Entry) → Project × Entry → Project × Entry
outcome (ok r) other = r
outcome (err message) other = other

abbrev registered : Project × Entry
unfolding run
registered = outcome (mutate platform crypto new_project register 6000) (
  new_project,
  record {
    event = record {
      id = "";
      sequence = 0;
      time = 0;
      actor = "";
      typ = "";
      entity_id = "";
      payload = register.payload;
    };
    key_fingerprint = "";
    previous_hash = "";
    hash = "";
    intent_hash = "";
    idempotency_key = "";
  },
)

register_accepted :
    mutate platform crypto new_project register 6000 ≡ ok (registered.0, registered.1)
unfolding run
register_accepted = refl

mutate-IsSound_example : IsSound platform crypto registered.0
mutate-IsSound_example =
    mutate-IsSound platform crypto new_project register 6000 (refl, refl, refl) register_accepted

-- Another agent registers in between.
abbrev register_bob : Command
register_bob = record register {
  actor = "bob";
  entity_id = "bob";
  idempotency_key = "key-2";
  issued_at = 7000;
}

abbrev projects : Map Project
projects = ("p1", new_project) ∷ []

abbrev outcome_all : Result (Map Project × Entry) → Map Project × Entry → Map Project × Entry
outcome_all (ok r) other = r
outcome_all (err message) other = other

abbrev one_registered : Map Project × Entry
unfolding run registered
one_registered =
    outcome_all (mutate_project platform crypto projects register 6000) (projects, registered.1)

abbrev two_registered : Map Project × Entry
unfolding run registered one_registered
two_registered =
    outcome_all (mutate_project platform crypto one_registered.0 register_bob 8000) one_registered

one_accepted :
    mutate_project platform crypto projects register 6000 ≡ ok (one_registered.0, one_registered.1)
unfolding run mutate_project
one_accepted = refl

two_accepted :
    mutate_project platform crypto one_registered.0 register_bob 8000
    ≡ ok (two_registered.0, two_registered.1)
unfolding run mutate_project
two_accepted = refl

bob_in_between : Accepts platform crypto one_registered.0 two_registered.0
bob_in_between = next register_bob 8000 two_registered.1 here two_accepted

mutate_replays_example :
    mutate_project platform crypto two_registered.0 register 900_000_000_000_000
    ≡ ok (two_registered.0, one_registered.1)
mutate_replays_example =
    mutate_replays platform crypto projects register 6000 900_000_000_000_000 one_accepted
      bob_in_between

key_is_new : find_entry "key-1" new_project.log ≡ none
unfolding run
key_is_new = refl

no_bootstrap : is_bootstrap new_project register ≡ false
unfolding run
no_bootstrap = refl

mutate-Accepted_example : Accepted platform crypto new_project register 6000 registered.0
mutate-Accepted_example =
    mutate-Accepted platform crypto new_project register 6000 key_is_new no_bootstrap
      register_accepted
