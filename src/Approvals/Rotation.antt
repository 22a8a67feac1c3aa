-- ===== src/Approvals/Rotation.antt =====
-- Deciding an approval, by an agent or from the dashboard, and the key rotation that an approval
-- sets off (src/lib/approvals.ts). The secret of a new key and its hash are left out.
use a2a_comms.Common.{
  ℕ, ◌+◌, ◌*◌, String, Bool, true, false, not, ◌&&◌, ◌||◌, Option, none, some, List, [], ◌∷◌, ◌==◌,
  if◌then◌else◌, get_or, truthy, update_where,
}
use a2a_comms.Approvals.{
  is_pending, agent_by_id, agent_by_name, is_authorized_reviewer, is_authorized_dashboard_reviewer,
  ApprovalStatus, approved, denied, PendingApproval, Agent, KeyRow, ApprovalEvent, decided_approved,
  decided_denied, key_rotated, Desk,
}
use a2a_comms.Approvals.Review.{log, notify, approval_by_id, compare_and_set, consume_approval}

-- `${agentName}-${Date.now().toString(36)}`: the runtime prints the number.
abbrev pub KeyName : Type 0
KeyName = String → ℕ → String

-- `a === b`, for owners that may be null
abbrev pub owners_equal : Option String → Option String → Bool
owners_equal none none = true
owners_equal (some u) (some v) = u == v
owners_equal _ _ = false

abbrev pub same_owner : Option Agent → Option Agent → Bool
same_owner (some a) (some b) = owners_equal a.owner_user_id b.owner_user_id
same_owner _ _ = false

-- The keys of the agent that are active run out in an hour, and a new one is added.
abbrev pub is_current_key : String → KeyRow → Bool
is_current_key agent_id k = k.agent_id == agent_id && k.is_active

abbrev pub run_out : ℕ → KeyRow → KeyRow
run_out now k = record k { expires_at = some (now + 60 * 60 * 1000); rotated_at = some now }

abbrev pub new_key : KeyName → ℕ → String → String → KeyRow
new_key key_name now agent_id agent_name = record {
  key_id = key_name agent_name now;
  agent_id = agent_id;
  is_active = true;
  expires_at = none;
  rotated_at = none;
}

abbrev pub shown_name : Option String → String
shown_name name = if truthy name then get_or name "unknown" else "unknown"

abbrev pub rotate_keys : KeyName → ℕ → String → String → String → Desk → Desk
rotate_keys key_name now reviewer agent_id agent_name s =
    let key = new_key key_name now agent_id agent_name in
    log reviewer (key_rotated key.key_id) agent_id
      (record s { keys = key ∷ update_where (is_current_key agent_id) (run_out now) s.keys })

abbrev pub rotate_if_consumed :
    KeyName → ℕ → String → String → String → Option PendingApproval × Desk → Desk
rotate_if_consumed key_name now reviewer agent_id agent_name (none, s) = s
rotate_if_consumed key_name now reviewer agent_id agent_name (some a, s) =
    rotate_keys key_name now reviewer agent_id agent_name s

-- The approval is consumed first; without that no key changes.
unfoldable pub execute_key_rotation_side_effect :
    (Desk → Desk) → KeyName → ℕ → String → String → PendingApproval → Desk → Desk
execute_key_rotation_side_effect others key_name now approval_id reviewer approval s =
    let agent_id = get_or approval.details.agent_id "" in
    let target = agent_by_id agent_id s in
    let actor = agent_by_name approval.actor s in
    let rotated =
      rotate_if_consumed key_name now reviewer agent_id (shown_name approval.details.agent_name)
        (consume_approval others now approval_id reviewer s) in
    if truthy approval.details.agent_id && same_owner target actor then rotated else s

pub data ReviewError : Type 0 where
  not_found own_request not_authorized already_decided : ReviewError
  already : ApprovalStatus → ReviewError

pub data Review : Type 0 where
  succeeds : Review
  fails : ReviewError → Review

pub data Decision : Type 0 where
  approve deny : Decision

abbrev pub decided_status : Decision → ApprovalStatus
decided_status approve = approved
decided_status deny = denied

abbrev pub decided_event : Decision → ApprovalEvent
decided_event approve = decided_approved
decided_event deny = decided_denied

abbrev pub decide : Decision → ℕ → String → PendingApproval → PendingApproval
decide d now reviewer a = record a {
  status = decided_status d;
  reviewed_by = some reviewer;
  reviewed_at = some now;
}

abbrev pub tell_actor : ApprovalEvent → String → Option Agent → Desk → Desk
tell_actor e id none s = s
tell_actor e id (some a) s = notify (a.id ∷ []) e id s

abbrev pub side_effect :
    Decision → (Desk → Desk) → KeyName → ℕ → String → String → PendingApproval → Desk → Desk
side_effect deny others key_name now id reviewer approval s = s
side_effect approve others key_name now id reviewer approval s =
    let executed = execute_key_rotation_side_effect others key_name now id reviewer approval s in
    if approval.action == "key.rotate" then executed else s

-- After the guarded write: the audit log, the actor, and the rotation.
abbrev pub finish :
    Decision
    → (Desk → Desk)
    → KeyName
    → ℕ
    → String
    → String
    → PendingApproval
    → Option PendingApproval × Desk
    → Review × Desk
finish d others key_name now id reviewer approval (none, s) = (fails already_decided, s)
finish d others key_name now id reviewer approval (some updated, s) =
    let s1 = log reviewer (decided_event d) id s in
    let s2 = tell_actor (decided_event d) id (agent_by_name approval.actor s1) s1 in
    (succeeds, side_effect d others key_name now id reviewer approval s2)

abbrev pub check_review : (own authorized : Bool) → ApprovalStatus → Review
check_review own authorized status =
    if not (is_pending status)
    then fails (already status)
    else if own
    then fails own_request
    else if not authorized
    then fails not_authorized
    else succeeds

abbrev pub go_on : Review → Review × Desk → Desk → Review × Desk
go_on succeeds after s = after
go_on (fails e) after s = (fails e, s)

-- The four functions below differ in who is asking: `own` is whether the approval is the
-- reviewer's own, `authorized` whether the reviewer may decide it.
abbrev pub review :
    Decision
    → (Desk → Desk)
    → KeyName
    → ℕ
    → String
    → String
    → (PendingApproval → Bool)
    → (PendingApproval → Bool)
    → Option PendingApproval
    → Desk
    → Review × Desk
review d others key_name now id reviewer own authorized none s = (fails not_found, s)
review d others key_name now id reviewer own authorized (some approval) s =
    go_on (check_review (own approval) (authorized approval) approval.status)
      (finish d others key_name now id reviewer approval
        (compare_and_set is_pending (decide d now reviewer) id (others s)))
      s

module _ (allowlist : Option (List String)) (others : Desk → Desk) (key_name : KeyName)
    (now : ℕ) where
  abbrev pub by_agent : Decision → String → String → String → Desk → Review × Desk
  by_agent d id reviewer_id reviewer s =
      review d others key_name now id reviewer (λ a. a.actor == reviewer || a.actor == reviewer_id)
        (λ a. is_authorized_reviewer allowlist reviewer_id (some a.actor) s) (approval_by_id id s) s

  abbrev pub by_user : Decision → String → String → String → Desk → Review × Desk
  by_user d id user name s =
      review d others key_name now id name (λ a. a.actor == name)
        (λ a. is_authorized_dashboard_reviewer allowlist user (some a.actor) s)
        (approval_by_id id s) s

  unfoldable pub approve_request : String → String → String → Desk → Review × Desk
  approve_request = by_agent approve

  unfoldable pub deny_request : String → String → String → Desk → Review × Desk
  deny_request = by_agent deny

  unfoldable pub approve_dashboard_request : String → String → String → Desk → Review × Desk
  approve_dashboard_request = by_user approve

  unfoldable pub deny_dashboard_request : String → String → String → Desk → Review × Desk
  deny_dashboard_request = by_user deny
