-- ===== src/Approvals/Independence.antt =====
-- Who may decide an approval: `approveRequest` and `denyRequest` of src/lib/approvals.ts, and the
-- reviewer check that they make.
use a2a_comms.Common.{
  ℕ, String, ◌≡◌, refl, ◌≢◌, inl, inr, Bool, true, false, ◌||◌, Option, none, some, List, arith,
  ◌==◌, eq_iff, Option-cases, eq_self,
}
use a2a_comms.Approvals.{
  is_pending, agent_by_id, agent_by_name, owner_of, is_admin, on_allowlist, may_review,
  is_authorized_reviewer, ApprovalStatus, PendingApproval, Agent, Desk,
}
use a2a_comms.Approvals.Review.{approval_by_id, compare_and_set}
use a2a_comms.Approvals.Rotation.{
  KeyName, decide, finish, check_review, go_on, review, by_agent, Review, succeeds, Decision,
}

-- An agent that may decide the approval: its owner is a user who is a super admin and does not own
-- the actor's agent, its name is on the allowlist, and it is not the actor itself.
pub record Independent (allowlist : Option (List String)) (s : Desk) (reviewer_id reviewer : String)
    (a : PendingApproval) : Type 0 where
  pub agent : Agent
  pub user : String
  pub agent_found : agent_by_id reviewer_id s ≡ some agent
  pub agent_owner : agent.owner_user_id ≡ some user
  pub user_admin : is_admin user s ≡ true
  pub name_listed : on_allowlist allowlist agent.name ≡ true
  pub not_self : (a.actor ≢ reviewer) × (a.actor ≢ reviewer_id)
  pub other_owner : a.actor ≢ "" → owner_of (agent_by_name a.actor s) ≢ some user

reviewer_sound :
    (allowlist : Option (List String)) (s : Desk) (actor : String) (o : Option Agent)
    → may_review allowlist (some actor) s o ≡ true
    → (agent : Agent) × (user : String) × (o ≡ some agent)
      × (agent.owner_user_id ≡ some user)
      × (is_admin user s ≡ true)
      × (on_allowlist allowlist agent.name ≡ true)
      × (actor ≢ "" → owner_of (agent_by_name actor s) ≢ some user)
reviewer_sound allowlist s actor none h = cc
reviewer_sound allowlist s actor (some a) h = elim (Option-cases a.owner_user_id) [
  | inl unowned ↦ ground (arith, h, unowned)
  | inr (u, owned) ↦ (
    a,
    u,
    refl,
    owned,
    ground (arith, h, owned),
    ground (arith, h, owned),
    λ real same. ground (arith, h, owned, same, eq_iff actor "", eq_self u, real),
  )
]

pub same_text_eq : (s t : String) → (s == t) ≡ false → s ≢ t
same_text_eq s t h e = ground (arith, h, (eq_iff s t).1 e)

pub go_on_succeeds :
    (own authorized : Bool) (st : ApprovalStatus) (after : Review × Desk) (s : Desk)
    → (go_on (check_review own authorized st) after s).0 ≡ succeeds
    → (is_pending st ≡ true) × (own ≡ false) × (authorized ≡ true) × (after.0 ≡ succeeds)
go_on_succeeds own authorized st after s h = ground (arith, h)

module _ (others : Desk → Desk) (key_name : KeyName) (now : ℕ) (d : Decision)
    (id reviewer : String) where
  review_succeeds :
      (own authorized : PendingApproval → Bool) (o : Option PendingApproval) (s : Desk)
      → (review d others key_name now id reviewer own authorized o s).0 ≡ succeeds
      → (a : PendingApproval) × (o ≡ some a)
        × (is_pending a.status ≡ true)
        × (own a ≡ false)
        × (authorized a ≡ true)
  review_succeeds own authorized none s h = cc
  review_succeeds own authorized (some a) s h =
      let (p, o, k, _) =
        go_on_succeeds (own a) (authorized a) a.status
          (finish d others key_name now id reviewer a
            (compare_and_set is_pending (decide d now reviewer) id (others s)))
          s h in
      (a, refl, p, o, k)

module _ (allowlist : Option (List String)) (others : Desk → Desk) (key_name : KeyName) (now : ℕ)
    (d : Decision) (id reviewer_id reviewer : String) where
  -- An agent's decision, to approve or to deny, succeeds only on an approval that was pending, and
  -- only if the agent is independent of its actor: on the allowlist, not the actor itself, and
  -- owned by a super admin who, unless the actor's name is empty, does not own the actor's agent.
  pub decides_only_if_qualified :
      (s : Desk)
      → (by_agent allowlist others key_name now d id reviewer_id reviewer s).0 ≡ succeeds
      → (a : PendingApproval) × (approval_by_id id s ≡ some a)
        × (is_pending a.status ≡ true)
        × Independent allowlist s reviewer_id reviewer a
  unfolding is_authorized_reviewer
  decides_only_if_qualified s h =
      let (a, found, p, not_own, ok) =
        review_succeeds others key_name now d id reviewer
          (λ a. a.actor == reviewer || a.actor == reviewer_id)
          (λ a. is_authorized_reviewer allowlist reviewer_id (some a.actor) s) (approval_by_id id s)
          s h in
      let (g, u, here, owned, admin, named, others_agent) =
        reviewer_sound allowlist s a.actor (agent_by_id reviewer_id s) ok in
      (
        a,
        found,
        p,
        record {
          agent = g;
          user = u;
          agent_found = here;
          agent_owner = owned;
          user_admin = admin;
          name_listed = named;
          not_self = (
            same_text_eq a.actor reviewer (ground (arith, not_own)),
            same_text_eq a.actor reviewer_id (ground (arith, not_own)),
          );
          other_owner = others_agent;
        },
      )
