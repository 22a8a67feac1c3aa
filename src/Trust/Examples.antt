-- ===== src/Trust/Examples.antt =====
-- Runs of the trust gates, and the theorems at concrete rows.
use a2a_comms.Common.{◌≡◌, refl, ◌↔◌, true, false, some, [], ◌∷◌, All}
use a2a_comms.Trust.{
  evaluate_project_member_invite, evaluate_handoff_invite, evaluate_escalation_broker,
  evaluate_observer_access, evaluate_generic_contract_invite, internal, external, null, text,
  TrustPolicyAgent, returns,
}
use a2a_comms.Trust.Contracts.{
  blocked_targets, evaluate_contract_collaboration, ContractCollaborationGateResult,
}
use a2a_comms.Trust.Collaboration.{
  MayReceive, ids_of_blocked, ids_of_refused, collaboration_allowed_iff,
}

trust_gates : Unit {0}
unfolding evaluate_contract_collaboration blocked_targets evaluate_generic_contract_invite
    evaluate_observer_access evaluate_handoff_invite evaluate_project_member_invite
    evaluate_escalation_broker
trust_gates = tt

abbrev alice : TrustPolicyAgent
alice = record {
  id = "a1";
  name = "alice";
  owner_user_id = text "u1";
  trust_tier = text "internal";
}

abbrev bob : TrustPolicyAgent
bob = record { id = "b1"; name = "bob"; owner_user_id = text "u2"; trust_tier = text "extern" }

abbrev carol : TrustPolicyAgent
carol = record { id = "c1"; name = "carol"; owner_user_id = text "u1"; trust_tier = null }

-- The caller's own external agent may observe, a stranger's with a misspelt tier may not be invited.
abbrev refused_result : ContractCollaborationGateResult
refused_result = record {
  allowed = false;
  reason = some (record {
    first_name = "bob";
    first_reason =
        "External-tier agents cannot receive generic contract proposals across owners until promoted to partner or invited into a narrower project observer flow first.";
    more = 0;
  });
  caller_tier = internal;
  blocked_invitees =
      record {
        id = "b1";
        name = "bob";
        target_tier = external;
        reason =
            "External-tier agents cannot receive generic contract proposals across owners until promoted to partner or invited into a narrower project observer flow first.";
      }
      ∷ [];
  blocked_observers = [];
}

refused_run : evaluate_contract_collaboration alice (bob ∷ []) (carol ∷ []) ≡ returns refused_result
unfolding trust_gates
refused_run = refl

collaboration_allowed_iff_example :
    ((refused_result.allowed ≡ true)
      ↔ (All (MayReceive alice) (bob ∷ []) × All (MayReceive alice) (carol ∷ [])))
    × (ids_of_blocked refused_result.blocked_invitees ≡ ids_of_refused alice (bob ∷ []))
    × (ids_of_blocked refused_result.blocked_observers ≡ ids_of_refused alice (carol ∷ []))
collaboration_allowed_iff_example =
    collaboration_allowed_iff alice (bob ∷ []) (carol ∷ []) refused_result refused_run
