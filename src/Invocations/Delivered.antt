-- ===== src/Invocations/Delivered.antt =====
-- internal/protocol/transitions.go: the evidence of a delivery.
use agent_comms.Base.{
  ℕ, ◌+◌, ◌≤◌, ◌≡◌, refl, sym, ◌∙◌, String, true, ◌==◌, ◌&&◌, ◌||◌, List, [], ◌∷◌, arith, eq_iff,
}
use agent_comms.Model.Payloads.{DeliveryEvidence}
use agent_comms.Protocol.Result.{ok}
use agent_comms.Protocol.Evidence.{
  validate_delivery_evidence, stage_of, allowed_stages, check_items, check_item, command_clock_skew,
}

-- The items of a delivery through an interactive session.
pub record TextAndEnter (first second : DeliveryEvidence) (attempted_at completed_at : ℕ)
    : Type 0 where
  pub both :
      ((stage_of first == "PTY_TEXT_ECHOED" && stage_of second == "PTY_ENTER_SENT")
        || (stage_of first == "PTY_ENTER_SENT" && stage_of second == "PTY_TEXT_ECHOED"))
      ≡ true
  pub starts : attempted_at ≤ first.at
  pub ordered : first.at ≤ second.at
  pub ends : second.at ≤ completed_at + command_clock_skew

not_both : (s : String) → ("PTY_TEXT_ECHOED" == s) ≡ true → ("PTY_ENTER_SENT" == s) ≡ true → ⊥
not_both s text enter = ground (
  arith,
  (eq_iff "PTY_TEXT_ECHOED" "PTY_ENTER_SENT").1 ((eq_iff _ s).0 text ∙ sym ((eq_iff _ s).0 enter)),
)

-- Evidence that is accepted for an interactive session has exactly two items, one for each of the
-- stages PTY_TEXT_ECHOED and PTY_ENTER_SENT, in either order; the first does not lie before the
-- attempt, the second not before the first and not behind the completion by more than the skew.
pub interactive_evidence :
    (endpoint_id : String) (evidence : List DeliveryEvidence) (attempted_at completed_at : ℕ)
    → validate_delivery_evidence "INTERACTIVE" endpoint_id evidence attempted_at completed_at
      ≡ ok tt
    → (first : DeliveryEvidence) × (second : DeliveryEvidence) × (evidence ≡ first ∷ second ∷ [])
      × TextAndEnter first second attempted_at completed_at
unfolding validate_delivery_evidence allowed_stages check_items check_item
interactive_evidence endpoint_id [] attempted_at completed_at h = absurd (ground arith)
interactive_evidence endpoint_id (a ∷ []) attempted_at completed_at h = absurd (
    ground (
      arith,
      eq_iff (stage_of a) "PTY_TEXT_ECHOED",
      eq_iff (stage_of a) "PTY_ENTER_SENT",
      eq_iff "PTY_TEXT_ECHOED" (stage_of a),
      eq_iff "PTY_ENTER_SENT" (stage_of a),
      not_both (stage_of a),
    ))
interactive_evidence endpoint_id (a ∷ b ∷ []) attempted_at completed_at h = (
  a,
  b,
  refl,
  record {
    both = ground (
      arith,
      not_both (stage_of b),
      eq_iff "PTY_TEXT_ECHOED" (stage_of b),
      eq_iff "PTY_ENTER_SENT" (stage_of b),
      eq_iff (stage_of b) "PTY_TEXT_ECHOED",
      eq_iff (stage_of b) "PTY_ENTER_SENT",
      eq_iff (stage_of a) (stage_of b),
      eq_iff (stage_of b) (stage_of a),
      eq_iff (stage_of a) "PTY_TEXT_ECHOED",
      eq_iff (stage_of a) "PTY_ENTER_SENT",
      eq_iff "PTY_TEXT_ECHOED" (stage_of a),
      eq_iff "PTY_ENTER_SENT" (stage_of a),
      not_both (stage_of a),
    );
    starts = ground arith;
    ordered = ground arith;
    ends = ground arith;
  },
)
interactive_evidence endpoint_id (a ∷ b ∷ c ∷ l) attempted_at completed_at h = absurd (
    ground (
      arith,
      not_both (stage_of a),
      not_both (stage_of b),
      not_both (stage_of c),
      eq_iff (stage_of a) (stage_of b),
      eq_iff (stage_of b) (stage_of a),
      eq_iff (stage_of c) (stage_of a),
      eq_iff (stage_of a) (stage_of c),
      eq_iff (stage_of b) (stage_of c),
      eq_iff (stage_of c) (stage_of b),
      eq_iff "PTY_TEXT_ECHOED" (stage_of a),
      eq_iff "PTY_ENTER_SENT" (stage_of a),
      eq_iff "PTY_TEXT_ECHOED" (stage_of b),
      eq_iff "PTY_ENTER_SENT" (stage_of b),
      eq_iff "PTY_TEXT_ECHOED" (stage_of c),
      eq_iff "PTY_ENTER_SENT" (stage_of c),
    ))
