-- ===== src/Proposals.antt =====
-- The proposal of a contract, before anything is written: the checks of `createContractProposal` in
-- src/lib/contract-proposals.ts, with
-- `validateExpiresInHours` of src/lib/contract-expiry-window.ts. The rows of a proposal are made here, and
-- written in Proposals.Create.
pub mod Create
pub mod Limits
pub mod Checks
pub mod Bounds
pub mod Names
pub mod Participants
mod Examples
use a2a_comms.Common.{
  ℕ, zero, suc, ◌+◌, ◌*◌, String, Bool, true, false, not, ◌&&◌, ◌||◌, Option, none, some, List, [],
  ◌∷◌, ◌++◌, map, ◌==◌, ltb, leb, eqb, if◌then◌else◌, get_or, is_some, length, filter, find?, every,
  any, Text, trim, same_text,
}
use a2a_comms.Messages.Structure.{
  validate_contract_description, escaped_breaks, unstructured, DescriptionCheck, ok, refused,
}
use a2a_comms.Common.Json.{Json, null, number, text, Items, no_items, item}
use a2a_comms.Trust.{Column, TrustPolicyAgent, Gate, throws, returns}
use a2a_comms.Trust.Contracts.{evaluate_contract_collaboration, ContractCollaborationGateResult}
use a2a_comms.Contract.{
  proposed, active, pending, accepted, proposer, invitee, observer, ContractStatus, proposed,
  active, ParticipantRole, proposer, invitee, observer, pending, accepted, Contract, Participant,
  ErrorCode, db_error, validation_error, invalid_invitees, trust_tier_blocked,
  max_contracts_reached, description_invalid, description_escaped_breaks, description_unstructured,
}
use a2a_comms.Contract.{proposed, active, pending, accepted, proposer, invitee, observer}
use a2a_comms.Contract.Store.{
  Action, pure, gets, modify, guard, require, ◌>>=◌, ◌>>◌, audit, contract_propose, Store, refuse,
  reply,
}

-- A row of `agents`; its name is that of the policy, as a text.
pub record AgentRow : Type 0 where
  pub policy : TrustPolicyAgent
  pub name : Text
  pub max_concurrent_contracts : Option ℕ

-- The source takes `max_turns` as it comes; here it is a whole number that is not negative.
pub record ProposeContractRequest : Type 0 where
  pub title : Text
  pub invitees : Option Items
  pub observers : Items
  pub description : Option Json
  pub expires_in_hours : Option Json
  pub max_turns : Option ℕ
  pub completion_requires_approval : Bool
  pub unlinked_reason : Option Text

-- JavaScript's `Number`: the milliseconds of that many hours, where the text is a finite positive
-- number.
pub record Clock : Type 0 where
  pub hours : Text → Option ℕ

abbrev pub default_contract_expiry : ℕ
default_contract_expiry = 168 * 60 * 60 * 1000

abbrev pub max_contract_expiry : ℕ
max_contract_expiry = 8760 * 60 * 60 * 1000

abbrev in_range : Option ℕ → Option ℕ
in_range none = none
in_range (some ms) = if eqb ms 0 || ltb max_contract_expiry ms then none else some ms

-- The window in milliseconds, `none` where it is refused.
unfoldable pub validate_expires_in_hours : Clock → Option Json → Option ℕ
unfolding trim
validate_expires_in_hours k none = some default_contract_expiry
validate_expires_in_hours k (some null) = some default_contract_expiry
validate_expires_in_hours k (some (number s)) = in_range (k.hours s)
validate_expires_in_hours k (some (text s)) =
    if eqb (length (trim s)) 0 then none else in_range (k.hours s)
validate_expires_in_hours k (some _) = none

-- The texts that are not blank, trimmed.
names_in : Items → List Text
unfolding trim
names_in no_items = []
names_in (item (text s) rest) =
    let later = names_in rest in if eqb (length (trim s)) 0 then later else trim s ∷ later
names_in (item _ rest) = names_in rest

-- `Array.from(new Set(names))`
unfoldable pub unique : List Text → List Text
unique [] = []
unique (n ∷ ns) = n ∷ filter (λ m. not (same_text n m)) (unique ns)

unfoldable pub normalized : Items → List Text
unfolding names_in unique
normalized xs = unique (names_in xs)

abbrev pub has_name : List Text → Text → Bool
has_name ns n = any (λ m. same_text m n) ns

abbrev pub agent_named : List AgentRow → Text → Option AgentRow
agent_named agents n = find? (λ a. same_text a.name n) agents

abbrev prepend {ℓ} : {A : Type ℓ} → Option A → List A → List A
prepend none xs = xs
prepend (some x) xs = x ∷ xs

unfoldable pub agents_named : List AgentRow → List Text → List AgentRow
agents_named agents [] = []
agents_named agents (n ∷ ns) = prepend (agent_named agents n) (agents_named agents ns)

abbrev pub is_open : ContractStatus → Bool
is_open proposed = true
is_open active = true
is_open _ = false

abbrev pub takes_part : String → String → List Participant → Bool
takes_part agent_id id ps = any (λ p. p.agent_id == agent_id && p.contract_id == id) ps

-- The contracts, active or proposed, that the agent takes part in.
unfoldable pub open_contracts : String → Store → ℕ
open_contracts agent_id s =
    length (filter (λ c. is_open c.status && takes_part agent_id c.id s.participants) s.contracts)

-- `max && count >= max`: a limit of 0 is none.
abbrev pub reached : Option ℕ → ℕ → Bool
reached none n = false
reached (some zero) n = false
reached (some (suc m)) n = leb (suc m) n

-- `max && count > max`
abbrev pub exceeded : Option ℕ → ℕ → Bool
exceeded none n = false
exceeded (some zero) n = false
exceeded (some (suc m)) n = ltb (suc m) n

abbrev pub gate_allows : Gate ContractCollaborationGateResult → Option Bool
gate_allows (throws e) = none
gate_allows (returns g) = some g.allowed

abbrev pub new_contract : ℕ → String → AgentRow → (max_turns window : ℕ) → Bool → Contract
new_contract now id actor max_turns window gated = record {
  id = id;
  status = proposed;
  proposer_id = actor.policy.id;
  max_turns = max_turns;
  current_turns = 0;
  close_reason = none;
  closed_by = none;
  closed_by_kind = none;
  expires_at = some (now + window);
  closed_at = none;
  completion_requires_approval = gated;
  completion_approved_at = none;
  completion_approved_by = none;
  closed_without_approval = false;
  updated_at = now;
}

abbrev pub takes_role : ℕ → String → ParticipantRole → AgentRow → Participant
takes_role now id invitee a = record {
  contract_id = id;
  agent_id = a.policy.id;
  role = invitee;
  status = pending;
  responded_at = none;
}
takes_role now id r a = record {
  contract_id = id;
  agent_id = a.policy.id;
  role = r;
  status = accepted;
  responded_at = some now;
}

abbrev pub new_participants :
    ℕ → String → AgentRow → (invitees observers : List AgentRow) → List Participant
new_participants now id actor invitees observers =
    takes_role now id proposer actor
    ∷ (map (takes_role now id invitee) invitees ++ map (takes_role now id observer) observers)

pub record Proposal : Type 0 where
  pub contract : Contract
  pub participants : List Participant
  pub title : Text
  pub description : Option Text
  pub unlinked_reason : Option Text
  pub invitee_owner_ids : List Column

abbrev description_value : DescriptionCheck → Option (Option Text)
description_value (ok d) = some d
description_value _ = none

abbrev description_refused : DescriptionCheck → ErrorCode
description_refused (refused escaped_breaks) = description_escaped_breaks
description_refused (refused unstructured) = description_unstructured
description_refused _ = description_invalid

-- What is settled before anything is written.
pub record Settled : Type 0 where
  pub invitees : List AgentRow
  pub observers : List AgentRow
  pub invitee_names : List Text
  pub observer_names : List Text
  pub description : Option Text
  pub window : ℕ

abbrev all_known : List AgentRow → List Text → Bool
all_known agents ns = every (λ n. is_some (agent_named agents n)) ns

-- The checks up to the trust gate; they read no table but the agents'.
unfoldable pub check_request :
    Clock → List AgentRow → AgentRow → ProposeContractRequest → Action Settled
unfolding normalized agents_named validate_contract_description validate_expires_in_hours
    evaluate_contract_collaboration ◌>>=◌
check_request k agents actor q = do
  items ← require q.invitees 400 validation_error
  guard (not (eqb (length q.title) 0)) 400 validation_error
  let invitees = normalized items
  let observers = normalized q.observers
  guard (not (eqb (length invitees) 0)) 400 validation_error
  description ←
      require (description_value (validate_contract_description q.description)) 400
        (description_refused (validate_contract_description q.description))
  window ← require (validate_expires_in_hours k q.expires_in_hours) 400 validation_error
  guard (all_known agents invitees && all_known agents observers) 400 invalid_invitees
  guard (not (has_name invitees actor.name) && not (has_name observers actor.name)) 400
      validation_error
  guard (not (any (has_name invitees) observers)) 400 validation_error
  let inv = agents_named agents invitees
  let obs = agents_named agents observers
  allowed ←
      require
        (gate_allows (
          evaluate_contract_collaboration actor.policy (map (λ a. a.policy) inv)
            (map (λ a. a.policy) obs)))
        500 db_error
  guard allowed 403 trust_tier_blocked
  pure (record {
    invitees = inv;
    observers = obs;
    invitee_names = invitees;
    observer_names = observers;
    description = description;
    window = window;
  })
