-- ===== src/Trust.antt =====
-- src/lib/trust-tiers.ts: trust tiers of agents, and the gates on invitations and contracts.
-- A gate throws on a row that was loaded without its columns; a text that the source assembles
-- from parts is the record of those parts.
pub mod Contracts
pub mod Ladder
pub mod Collaboration
pub mod Returns
mod Examples
use a2a_comms.Common.{
  ℕ, ◌-◌, String, Bool, true, false, not, ◌&&◌, Option, none, some, List, [], ◌∷◌, ◌==◌, length,
  if◌then◌else◌, get_or,
}

pub data AgentTrustTier : Type 0 where
  internal partner external : AgentTrustTier

-- A column of a row: not selected, null, or a text.
pub data Column : Type 0 where
  unselected null : Column
  text : String → Column

pub record TrustPolicyAgent : Type 0 where
  pub id : String
  pub name : String
  pub owner_user_id : Column
  pub trust_tier : Column

-- `AGENT_TRUST_TIERS.includes(value)`, with the tier that it names.
unfoldable pub tier_of_text : String → Option AgentTrustTier
tier_of_text s =
    if s == "internal"
    then some internal
    else if s == "partner"
    then some partner
    else if s == "external"
    then some external
    else none

unfoldable pub normalize_agent_trust_tier : Column → AgentTrustTier
unfolding tier_of_text
normalize_agent_trust_tier unselected = external
normalize_agent_trust_tier null = external
normalize_agent_trust_tier (text s) = get_or (tier_of_text s) external

pub data GateRole : Type 0 where
  caller target : GateRole

-- The errors that a gate throws: which row lacked which column.
pub data GateError : Type 0 where
  without_trust_tier without_owner_user_id : GateRole → String → GateError

pub data Gate {ℓ} (A : Type ℓ) : Type ℓ where
  throws : GateError → Gate A
  returns : A → Gate A

infixl 5 ◌>>=◌
abbrev pub ◌>>=◌ {ℓ κ} : {A : Type ℓ} {B : Type κ} → Gate A → (A → Gate B) → Gate B
throws e >>= f = throws e
returns a >>= f = f a

abbrev is_selected : Column → Bool
is_selected unselected = false
is_selected _ = true

abbrev pub is_external : AgentTrustTier → Bool
is_external external = true
is_external _ = false

abbrev is_internal : AgentTrustTier → Bool
is_internal internal = true
is_internal _ = false

unfoldable pub gate_tier : GateRole → TrustPolicyAgent → Gate AgentTrustTier
unfolding normalize_agent_trust_tier
gate_tier role a =
    if is_selected a.trust_tier
    then returns (normalize_agent_trust_tier a.trust_tier)
    else throws (without_trust_tier role a.id)

-- `!!a && !!b && a === b`, on two owner columns.
abbrev pub owners_agree : Column → Column → Bool
owners_agree (text a) (text b) = not (a == "") && not (b == "") && a == b
owners_agree _ _ = false

unfoldable pub same_owner : TrustPolicyAgent → TrustPolicyAgent → Gate Bool
same_owner c t =
    if is_selected c.owner_user_id
    then if is_selected t.owner_user_id
      then returns (owners_agree c.owner_user_id t.owner_user_id)
      else throws (without_owner_user_id target t.id)
    else throws (without_owner_user_id caller c.id)

pub record TrustGateResult : Type 0 where
  pub allowed : Bool
  pub reason : Option String
  pub caller_tier : AgentTrustTier
  pub target_tier : AgentTrustTier

abbrev pub admit : AgentTrustTier → AgentTrustTier → TrustGateResult
admit c t = record { allowed = true; reason = none; caller_tier = c; target_tier = t }

abbrev pub deny : String → AgentTrustTier → AgentTrustTier → TrustGateResult
deny why c t = record { allowed = false; reason = some why; caller_tier = c; target_tier = t }

unfoldable pub evaluate_project_member_invite :
    TrustPolicyAgent → TrustPolicyAgent → Gate TrustGateResult
unfolding gate_tier
evaluate_project_member_invite c t = do
  caller_tier ← gate_tier caller c
  target_tier ← gate_tier target t
  returns (
      if is_external target_tier
      then deny
          "External-tier agents cannot be invited as project members. Start with observer access or raise their trust tier first."
          caller_tier target_tier
      else admit caller_tier target_tier)

unfoldable pub evaluate_handoff_invite : TrustPolicyAgent → TrustPolicyAgent → Gate TrustGateResult
unfolding gate_tier
evaluate_handoff_invite c t = do
  caller_tier ← gate_tier caller c
  target_tier ← gate_tier target t
  returns (
      if is_internal target_tier
      then admit caller_tier target_tier
      else deny
          "Only internal-tier agents can receive task handoff contracts. Third-party agents should be brought in as observers or brokers first."
          caller_tier target_tier)

unfoldable pub evaluate_escalation_broker :
    TrustPolicyAgent → TrustPolicyAgent → Gate TrustGateResult
unfolding gate_tier
evaluate_escalation_broker c t = do
  caller_tier ← gate_tier caller c
  target_tier ← gate_tier target t
  returns (
      if is_external target_tier
      then deny
          "External-tier agents cannot broker escalations. Promote them to partner if you trust them with coordination."
          caller_tier target_tier
      else admit caller_tier target_tier)

-- An external target passes only if both rows name one owner, which is looked at only then.
external_needs_same_owner :
    String
    → TrustPolicyAgent
    → TrustPolicyAgent
    → AgentTrustTier
    → AgentTrustTier
    → Gate TrustGateResult
unfolding same_owner
external_needs_same_owner why c t caller_tier external = do
  same ← same_owner c t
  returns (if same then admit caller_tier external else deny why caller_tier external)
external_needs_same_owner why c t caller_tier target_tier = returns (admit caller_tier target_tier)

unfoldable pub evaluate_observer_access : TrustPolicyAgent → TrustPolicyAgent → Gate TrustGateResult
unfolding gate_tier external_needs_same_owner
evaluate_observer_access c t = do
  caller_tier ← gate_tier caller c
  target_tier ← gate_tier target t
  external_needs_same_owner
      "External-tier agents need at least partner trust before they can observe another owner's project."
      c t caller_tier target_tier

unfoldable pub evaluate_generic_contract_invite :
    TrustPolicyAgent → TrustPolicyAgent → Gate TrustGateResult
unfolding gate_tier external_needs_same_owner
evaluate_generic_contract_invite c t = do
  caller_tier ← gate_tier caller c
  target_tier ← gate_tier target t
  external_needs_same_owner
      "External-tier agents cannot receive generic contract proposals across owners until promoted to partner or invited into a narrower project observer flow first."
      c t caller_tier target_tier
