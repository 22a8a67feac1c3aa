-- ===== src/Trust/Contracts.antt =====
-- The gates of src/lib/trust-tiers.ts on a contract with several invitees and observers.
use a2a_comms.Common.{
  ℕ, ◌-◌, String, Bool, true, false, not, Option, none, some, List, [], ◌∷◌, if◌then◌else◌, get_or,
  length,
}
use a2a_comms.Trust.{
  ◌>>=◌, gate_tier, evaluate_observer_access, evaluate_generic_contract_invite, AgentTrustTier,
  TrustPolicyAgent, caller, Gate, returns, TrustGateResult,
}

pub record BlockedTarget : Type 0 where
  pub id : String
  pub name : String
  pub target_tier : AgentTrustTier
  pub reason : String

-- `${first.name}: ${first.reason} (+${more} more)`, the last part only if `more` is not 0.
pub record BlockedSummary : Type 0 where
  pub first_name : String
  pub first_reason : String
  pub more : ℕ

pub record MultiTargetTrustGateResult : Type 0 where
  pub allowed : Bool
  pub reason : Option BlockedSummary
  pub caller_tier : AgentTrustTier
  pub blocked_targets : List BlockedTarget

-- The `flatMap` over the targets; a gate that throws ends it.
unfoldable pub blocked_targets :
    (TrustPolicyAgent → Gate TrustGateResult)
    → String
    → List TrustPolicyAgent
    → Gate (List BlockedTarget)
blocked_targets gate fallback [] = returns []
blocked_targets gate fallback (t ∷ ts) = do
  g ← gate t
  rest ← blocked_targets gate fallback ts
  returns (
      if g.allowed
      then rest
      else record {
        id = t.id;
        name = t.name;
        target_tier = g.target_tier;
        reason = get_or g.reason fallback;
      }
        ∷ rest)

abbrev pub multi_target_result : AgentTrustTier → List BlockedTarget → MultiTargetTrustGateResult
multi_target_result tier [] = record {
  allowed = true;
  reason = none;
  caller_tier = tier;
  blocked_targets = [];
}
multi_target_result tier (b ∷ bs) = record {
  allowed = false;
  reason =
      some (record { first_name = b.name; first_reason = b.reason; more = length (b ∷ bs) - 1 });
  caller_tier = tier;
  blocked_targets = b ∷ bs;
}

unfoldable pub evaluate_contract_invitees :
    TrustPolicyAgent → List TrustPolicyAgent → Gate MultiTargetTrustGateResult
unfolding gate_tier
evaluate_contract_invitees c targets = do
  caller_tier ← gate_tier caller c
  blocked ←
      blocked_targets (evaluate_generic_contract_invite c)
        "Invitee trust tier blocks generic contract proposal" targets
  returns (multi_target_result caller_tier blocked)

unfoldable pub evaluate_contract_observers :
    TrustPolicyAgent → List TrustPolicyAgent → Gate MultiTargetTrustGateResult
unfolding gate_tier
evaluate_contract_observers c targets = do
  caller_tier ← gate_tier caller c
  blocked ←
      blocked_targets (evaluate_observer_access c)
        "Observer trust tier blocks contract observer access" targets
  returns (multi_target_result caller_tier blocked)

pub record ContractCollaborationGateResult : Type 0 where
  pub allowed : Bool
  pub reason : Option BlockedSummary
  pub caller_tier : AgentTrustTier
  pub blocked_invitees : List BlockedTarget
  pub blocked_observers : List BlockedTarget

abbrev pub collaboration_result :
    AgentTrustTier
    → MultiTargetTrustGateResult
    → MultiTargetTrustGateResult
    → ContractCollaborationGateResult
collaboration_result tier invitee_gate observer_gate =
    if not invitee_gate.allowed
    then record {
      allowed = false;
      reason = invitee_gate.reason;
      caller_tier = tier;
      blocked_invitees = invitee_gate.blocked_targets;
      blocked_observers = observer_gate.blocked_targets;
    }
    else if not observer_gate.allowed
    then record {
      allowed = false;
      reason = observer_gate.reason;
      caller_tier = tier;
      blocked_invitees = invitee_gate.blocked_targets;
      blocked_observers = observer_gate.blocked_targets;
    }
    else record {
      allowed = true;
      reason = none;
      caller_tier = tier;
      blocked_invitees = [];
      blocked_observers = [];
    }

unfoldable pub evaluate_contract_collaboration :
    TrustPolicyAgent
    → List TrustPolicyAgent
    → List TrustPolicyAgent
    → Gate ContractCollaborationGateResult
unfolding gate_tier evaluate_contract_invitees evaluate_contract_observers
evaluate_contract_collaboration c invitees observers = do
  caller_tier ← gate_tier caller c
  invitee_gate ← evaluate_contract_invitees c invitees
  observer_gate ← evaluate_contract_observers c observers
  returns (collaboration_result caller_tier invitee_gate observer_gate)
