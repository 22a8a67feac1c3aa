-- ===== src/Trust/Ladder.antt =====
-- The gates of src/lib/trust-tiers.ts against each other, and what they do with a tier that
-- nobody declared.
use a2a_comms.Common.{String, Bool, true, false, ◌≡◌, none, arith}
use a2a_comms.Trust.{
  text, TrustPolicyAgent, tier_of_text, normalize_agent_trust_tier, Gate, throws, returns,
  TrustGateResult, evaluate_project_member_invite, evaluate_handoff_invite,
  evaluate_escalation_broker, evaluate_observer_access, evaluate_generic_contract_invite,
}

-- The gate ran to its end and admitted the target.
abbrev pub admits : Gate TrustGateResult → Bool
admits (throws e) = false
admits (returns r) = r.allowed

-- A target that may take a handoff may also be a project member, broker an escalation, observe, and
-- be invited to a contract.
pub handoff_is_strictest :
    (c t : TrustPolicyAgent)
    → admits (evaluate_handoff_invite c t) ≡ true
    → (admits (evaluate_project_member_invite c t) ≡ true)
      × (admits (evaluate_escalation_broker c t) ≡ true)
      × (admits (evaluate_observer_access c t) ≡ true)
      × (admits (evaluate_generic_contract_invite c t) ≡ true)
unfolding evaluate_handoff_invite evaluate_project_member_invite evaluate_escalation_broker
    evaluate_observer_access evaluate_generic_contract_invite
handoff_is_strictest c t h = ground arith

-- A target whose tier column holds a text that names no tier is admitted to no handoff, no project
-- and no brokerage.
pub undeclared_fails_closed :
    (c t : TrustPolicyAgent) (s : String)
    → t.trust_tier ≡ text s
    → tier_of_text s ≡ none
    → (admits (evaluate_handoff_invite c t) ≡ false)
      × (admits (evaluate_project_member_invite c t) ≡ false)
      × (admits (evaluate_escalation_broker c t) ≡ false)
unfolding evaluate_handoff_invite evaluate_project_member_invite evaluate_escalation_broker
    normalize_agent_trust_tier
undeclared_fails_closed c t s e u = ground arith
