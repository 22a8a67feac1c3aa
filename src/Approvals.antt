-- ===== src/Approvals.antt =====
-- Approvals of sensitive actions: src/lib/approvals.ts. A desk is the tables that the file reads and
-- writes; `allowlist` is APPROVAL_REVIEWER_AGENTS, split and trimmed, or none when it is unset.
pub mod Review
pub mod Rotation
pub mod Reviewers
pub mod Told
pub mod Decided
pub mod Steps
pub mod Independence
pub mod Once
pub mod Examples
use a2a_comms.Common.{
  ℕ, zero, suc, ◌+◌, ◌-◌, ◌*◌, ◌/◌, ◌%◌, ◌≤◌, ◌<◌, String, ◌≡◌, refl, sym, ap, ◌∙◌, ◌≢◌, ◌↔◌, ◌⊎◌,
  inl, inr, Bool, true, false, not, ◌&&◌, ◌||◌, Option, none, some, List, [], ◌∷◌, ◌++◌, map, arith,
  ◌==◌, eq_iff, ltb, leb, eqb, if◌then◌else◌, get_or, is_some, truthy, is_text, Bool-cases,
  Option-cases, eq_self, leb→le, ltb→lt, length, filter, find?, every, any, All, update_where,
  includes, Text, is_space, trim_start, trim,
}

pub data ApprovalStatus : Type 0 where
  pending approved denied consumed : ApprovalStatus

-- The `details` that the code reads or writes.
pub record Details : Type 0 where
  pub agent_id : Option String
  pub agent_name : Option String
  pub executed_at : Option ℕ
  pub executed_by : Option String

pub record PendingApproval : Type 0 where
  pub id : String
  pub action : String
  pub actor : String
  pub details : Details
  pub status : ApprovalStatus
  pub reviewed_by : Option String
  pub reviewed_at : Option ℕ

pub record Agent : Type 0 where
  pub id : String
  pub name : String
  pub owner_user_id : Option String

pub record UserProfile : Type 0 where
  pub id : String
  pub is_super_admin : Bool

pub record KeyRow : Type 0 where
  pub key_id : String
  pub agent_id : String
  pub is_active : Bool
  pub expires_at : Option ℕ
  pub rotated_at : Option ℕ

pub data ApprovalEvent : Type 0 where
  requested decided_approved decided_denied used : ApprovalEvent
  key_rotated : (new_key_id : String) → ApprovalEvent

pub record LogEntry : Type 0 where
  pub actor : String
  pub event : ApprovalEvent
  pub resource_id : String

pub record Notice : Type 0 where
  pub recipients : List String
  pub event : ApprovalEvent
  pub approval_id : String

pub record Desk : Type 0 where
  pub agents : List Agent
  pub profiles : List UserProfile
  pub approvals : List PendingApproval
  pub keys : List KeyRow
  pub audit_log : List LogEntry
  pub notices : List Notice

abbrev pub is_pending : ApprovalStatus → Bool
is_pending pending = true
is_pending _ = false

abbrev pub is_approved : ApprovalStatus → Bool
is_approved approved = true
is_approved _ = false

abbrev pub agent_by_id : String → Desk → Option Agent
agent_by_id id s = find? (λ a. a.id == id) s.agents

abbrev pub agent_by_name : String → Desk → Option Agent
agent_by_name name s = find? (λ a. a.name == name) s.agents

abbrev pub owner_of : Option Agent → Option String
owner_of none = none
owner_of (some a) = a.owner_user_id

abbrev pub any_admin : Option UserProfile → Bool
any_admin none = false
any_admin (some p) = p.is_super_admin

-- `profile?.is_super_admin === true`, for the profile of a user
abbrev pub is_admin : String → Desk → Bool
is_admin user s = any_admin (find? (λ p. p.id == user) s.profiles)

-- No allowlist lets everyone pass.
abbrev pub on_allowlist : Option (List String) → String → Bool
on_allowlist none name = true
on_allowlist (some names) name = includes names name

-- The actor's agent has an owner, and it is this user. Without an actor there is nothing to check.
abbrev pub owns_actor : Option String → String → Desk → Bool
owns_actor actor user s =
    truthy actor
    && truthy (owner_of (agent_by_name (get_or actor "") s))
    && is_text (owner_of (agent_by_name (get_or actor "") s)) user

abbrev pub may_review : Option (List String) → Option String → Desk → Option Agent → Bool
may_review allowlist actor s none = false
may_review allowlist actor s (some agent) =
    truthy agent.owner_user_id
    && on_allowlist allowlist agent.name
    && is_admin (get_or agent.owner_user_id "") s
    && not (owns_actor actor (get_or agent.owner_user_id "") s)

unfoldable pub is_authorized_reviewer : Option (List String) → String → Option String → Desk → Bool
is_authorized_reviewer allowlist agent_id actor s =
    may_review allowlist actor s (agent_by_id agent_id s)

abbrev pub owns_allowed_agent : Option (List String) → String → Desk → Bool
owns_allowed_agent none user s = true
owns_allowed_agent (some names) user s =
    any (λ a. is_text a.owner_user_id user && (not (a.name == "") && includes names a.name))
      s.agents

unfoldable pub is_authorized_dashboard_reviewer :
    Option (List String) → String → Option String → Desk → Bool
is_authorized_dashboard_reviewer allowlist user actor s =
    is_admin user s && owns_allowed_agent allowlist user s && not (owns_actor actor user s)

-- The owner to leave out: the actor's, if there is an actor.
abbrev pub excluded_owner : Option String → Desk → Option String
excluded_owner actor s = if truthy actor then owner_of (agent_by_name (get_or actor "") s) else none

abbrev pub admin_user_ids : Desk → List String
admin_user_ids s = map (λ p. p.id) (filter (λ p. p.is_super_admin) s.profiles)

-- `.in('owner_user_id', adminUserIds)`
abbrev pub owned_by_any : List String → Option String → Bool
owned_by_any users none = false
owned_by_any users (some u) = includes users u

abbrev pub listed : Option (List String) → String → Bool
listed none name = true
listed (some names) name = not (name == "") && includes names name

abbrev pub is_eligible : Option (List String) → Option String → Desk → Agent → Bool
is_eligible allowlist actor s a =
    owned_by_any (admin_user_ids s) a.owner_user_id
    && (not (truthy (excluded_owner actor s))
        || not (is_text a.owner_user_id (get_or (excluded_owner actor s) "")))
    && listed allowlist a.name

unfoldable pub get_admin_agent_ids : Option (List String) → Option String → Desk → List String
get_admin_agent_ids allowlist actor s =
    map (λ a. a.id) (filter (is_eligible allowlist actor s) s.agents)
