-- ===== src/Approvals/Steps.antt =====
-- Each operation of src/lib/approvals.ts leaves approvals that continue the ones before it.
use a2a_comms.Common.{
  ℕ, String, ◌≡◌, refl, inl, inr, Bool, true, ◌&&◌, Option, none, some, List, ◌==◌, get_or, truthy,
  Bool-cases, find?,
}
use a2a_comms.Approvals.{
  is_pending, is_approved, agent_by_id, agent_by_name, ApprovalStatus, PendingApproval, Agent,
  ApprovalEvent, Desk,
}
use a2a_comms.Approvals.Review.{
  log, compare_and_set, consume, log_used, consume_current, consume_approval, consume_found,
}
use a2a_comms.Approvals.Rotation.{
  KeyName, same_owner, shown_name, rotate_if_consumed, execute_key_rotation_side_effect,
  decided_event, decide, tell_actor, side_effect, finish, check_review, go_on, review, Review,
  succeeds, fails, Decision, approve, deny,
}
use a2a_comms.Approvals.Decided.{
  Continues, Continues-refl, Continues-trans, update-Continues, consume-Line, decide-Line, Line,
}

same-Continues :
    (as' : List PendingApproval) (s t : Desk)
    → t.approvals ≡ s.approvals
    → Continues as' s.approvals
    → Continues as' t.approvals
same-Continues as' s t e h = rw e h

module _ (others : Desk → Desk)
    (polite : (s : Desk) → Continues s.approvals (others s).approvals) where
  log_used_same :
      (executor id : String) (r : Option PendingApproval × Desk)
      → (log_used executor id r).1.approvals ≡ r.1.approvals
  log_used_same executor id (none, s) = refl
  log_used_same executor id (some a, s) = refl

  set-Continues :
      (test : ApprovalStatus → Bool) (f : PendingApproval → PendingApproval) (id : String)
      (s : Desk)
      → ((a : PendingApproval) → a.id == id && test a.status ≡ true → Line a (f a))
      → Continues s.approvals (compare_and_set test f id (others s)).1.approvals
  set-Continues test f id s keep =
      Continues-trans s.approvals (others s).approvals _ (polite s)
        (update-Continues (λ a. a.id == id && test a.status) f (others s).approvals keep)

  consume_current-Continues :
      (now : ℕ) (id executor : String) (o : Option PendingApproval) (s : Desk)
      → Continues s.approvals (consume_current others now id executor o s).1.approvals
  consume_current-Continues now id executor none s = Continues-refl s.approvals
  consume_current-Continues now id executor (some c) s =
      let set = compare_and_set is_approved (consume now executor c.details) id (others s) in
      same-Continues s.approvals set.1 (log_used executor id set).1 (log_used_same executor id set)
        (set-Continues is_approved (consume now executor c.details) id s
          (consume-Line now executor c.details id))

  pub consume-Continues :
      (now : ℕ) (id executor : String) (s : Desk)
      → Continues s.approvals (consume_approval others now id executor s).1.approvals
  unfolding consume_approval
  consume-Continues now id executor s =
      consume_current-Continues now id executor
        (find? (λ a. a.id == id && is_approved a.status) s.approvals) s

  pub found-Continues :
      (now : ℕ) (executor : String) (o : Option PendingApproval) (s : Desk)
      → Continues s.approvals (consume_found others now executor o s).1.approvals
  unfolding consume_approval
  found-Continues now executor none s = Continues-refl s.approvals
  found-Continues now executor (some a) s = consume-Continues now a.id executor s

  rotate_same :
      (key_name : KeyName) (now : ℕ) (reviewer agent_id name : String)
      (r : Option PendingApproval × Desk)
      → (rotate_if_consumed key_name now reviewer agent_id name r).approvals ≡ r.1.approvals
  rotate_same key_name now reviewer agent_id name (none, s) = refl
  rotate_same key_name now reviewer agent_id name (some a, s) = refl

  rotation-Continues :
      (key_name : KeyName) (now : ℕ) (id reviewer : String) (a : PendingApproval) (s : Desk)
      → Continues s.approvals
          (execute_key_rotation_side_effect others key_name now id reviewer a s).approvals
  unfolding execute_key_rotation_side_effect
  rotation-Continues key_name now id reviewer a s =
      elim (Bool-cases (
        truthy a.details.agent_id
        && same_owner (agent_by_id (get_or a.details.agent_id "") s) (agent_by_name a.actor s))) [
          | inl owned ↦
              let used = consume_approval others now id reviewer s in
              rw owned (
                same-Continues s.approvals used.1
                  (rotate_if_consumed key_name now reviewer (get_or a.details.agent_id "")
                    (shown_name a.details.agent_name) used)
                  (rotate_same key_name now reviewer (get_or a.details.agent_id "")
                    (shown_name a.details.agent_name) used)
                  (consume-Continues now id reviewer s))
          | inr refused ↦ rw refused (Continues-refl s.approvals)
        ]

  side_effect-Continues :
      (d : Decision) (key_name : KeyName) (now : ℕ) (id reviewer : String) (a : PendingApproval)
      (s : Desk)
      → Continues s.approvals (side_effect d others key_name now id reviewer a s).approvals
  side_effect-Continues deny key_name now id reviewer a s = Continues-refl s.approvals
  side_effect-Continues approve key_name now id reviewer a s =
      elim (Bool-cases (a.action == "key.rotate")) [
        | inl rotation ↦ rw rotation (rotation-Continues key_name now id reviewer a s)
        | inr another ↦ rw another (Continues-refl s.approvals)
      ]

  tell_same :
      (e : ApprovalEvent) (id : String) (o : Option Agent) (s : Desk)
      → (tell_actor e id o s).approvals ≡ s.approvals
  tell_same e id none s = refl
  tell_same e id (some a) s = refl

  finish-Continues :
      (d : Decision) (key_name : KeyName) (now : ℕ) (id reviewer : String) (a : PendingApproval)
      (as' : List PendingApproval) (r : Option PendingApproval × Desk)
      → Continues as' r.1.approvals
      → Continues as' (finish d others key_name now id reviewer a r).1.approvals
  finish-Continues d key_name now id reviewer a as' (none, s) h = h
  finish-Continues d key_name now id reviewer a as' (some b, s) h =
      let s1 = log reviewer (decided_event d) id s in
      let actor = agent_by_name a.actor s1 in
      let s2 = tell_actor (decided_event d) id actor s1 in
      let s3 = side_effect d others key_name now id reviewer a s2 in
      Continues-trans as' s.approvals s3.approvals h (
        Continues-trans s.approvals s2.approvals s3.approvals
          (same-Continues s.approvals s1 s2 (tell_same (decided_event d) id actor s1)
            (Continues-refl s.approvals))
          (side_effect-Continues d key_name now id reviewer a s2))

  go_on-Continues :
      (v : Review) (after : Review × Desk) (s : Desk)
      → Continues s.approvals after.1.approvals
      → Continues s.approvals (go_on v after s).1.approvals
  go_on-Continues succeeds after s h = h
  go_on-Continues (fails e) after s h = Continues-refl s.approvals

  pub review-Continues :
      (d : Decision) (key_name : KeyName) (now : ℕ) (id reviewer : String)
      (own authorized : PendingApproval → Bool) (o : Option PendingApproval) (s : Desk)
      → Continues s.approvals
          (review d others key_name now id reviewer own authorized o s).1.approvals
  review-Continues d key_name now id reviewer own authorized none s = Continues-refl s.approvals
  review-Continues d key_name now id reviewer own authorized (some a) s =
      let set = compare_and_set is_pending (decide d now reviewer) id (others s) in
      go_on-Continues (check_review (own a) (authorized a) a.status)
        (finish d others key_name now id reviewer a set) s
        (finish-Continues d key_name now id reviewer a s.approvals set
          (set-Continues is_pending (decide d now reviewer) id s (decide-Line d now reviewer id)))
