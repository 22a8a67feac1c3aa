-- ===== src/Approvals/Examples.antt =====
-- A desk with two owners, and the laws of approvals on it.
use a2a_comms.Common.{
  ◌≢◌, ◌↔◌, String, ◌≡◌, refl, true, Option, none, some, List, [], ◌∷◌, map, includes,
}
use a2a_comms.Approvals.{
  is_pending, is_authorized_reviewer, get_admin_agent_ids, Details, PendingApproval, Desk,
}
use a2a_comms.Approvals.Review.{approval_by_id, new_approval, consume, consume_approval}
use a2a_comms.Approvals.Rotation.{KeyName, decide, by_agent, succeeds, approve}
use a2a_comms.Approvals.Decided.{Continues}
use a2a_comms.Approvals.Once.{
  approvals_continue, consumed_once, rests, before, agent_decides, consumes,
}
use a2a_comms.Approvals.Reviewers.{distinct_ids}
use a2a_comms.Approvals.Told.{told_decide}
use a2a_comms.Approvals.Independence.{decides_only_if_qualified, Independent}

abbrev no_details : Details
no_details = record { agent_id = none; agent_name = none; executed_at = none; executed_by = none }

abbrev request : PendingApproval
request = new_approval "p1" "killswitch.activate" "beta" no_details

-- u1 is a super admin and owns alpha; u2 owns beta, who asks.
abbrev desk : Desk
desk = record {
  agents =
      (record { id = "a1"; name = "alpha"; owner_user_id = some "u1" }
        ∷ record { id = "a2"; name = "beta"; owner_user_id = some "u2" }
        ∷ []);
  profiles =
      (record { id = "u1"; is_super_admin = true }
        ∷ record { id = "u2"; is_super_admin = true }
        ∷ []);
  approvals = request ∷ [];
  keys = [];
  audit_log = [];
  notices = [];
}

abbrev keys_of_time : KeyName
keys_of_time = λ name t. name

-- The allowlist names alpha only, so nobody else may review.
abbrev only_alpha : Option (List String)
only_alpha = some ("alpha" ∷ [])

abbrev approved_desk : Desk
approved_desk = (by_agent only_alpha (λ s. s) keys_of_time 7 approve "p1" "a1" "alpha" desk).1

approves : (by_agent only_alpha (λ s. s) keys_of_time 7 approve "p1" "a1" "alpha" desk).0 ≡ succeeds
unfolding is_authorized_reviewer
approves = refl

abbrev used_desk : Desk
used_desk = (consume_approval (λ s. s) 8 "p1" "alpha" approved_desk).1

abbrev used_row : PendingApproval
used_row = consume 8 "alpha" no_details (decide approve 7 "alpha" request)

uses : (consume_approval (λ s. s) 8 "p1" "alpha" approved_desk).0 ≡ some used_row
unfolding consume_approval is_authorized_reviewer
uses = refl

decides_only_if_qualified_example :
    (a : PendingApproval) × (approval_by_id "p1" desk ≡ some a)
    × (is_pending a.status ≡ true)
    × Independent only_alpha desk "a1" "alpha" a
decides_only_if_qualified_example =
    decides_only_if_qualified only_alpha (λ s. s) keys_of_time 7 approve "p1" "a1" "alpha" desk
      approves

approvals_continue_example : Continues desk.approvals used_desk.approvals
approvals_continue_example = approvals_continue desk used_desk (
    before
      (agent_decides only_alpha (λ s. s) keys_of_time 7 approve "p1" "a1" "alpha" desk (λ t. rests))
      (consumes (λ s. s) 8 "p1" "alpha" approved_desk (λ t. rests)))

used_distinct : distinct_ids (map (λ r. r.id) used_desk.approvals) ≡ true
unfolding consume_approval is_authorized_reviewer
used_distinct = refl

consumed_once_example : (consume_approval (λ s. s) 9 "p1" "beta" used_desk).0 ≡ none
consumed_once_example =
    consumed_once (λ s. s) (λ s. s) 8 9 "p1" "alpha" "beta" approved_desk used_desk used_row
      used_distinct used_distinct uses rests

told_decide_example :
    ((by_agent only_alpha (λ s. s) keys_of_time 7 approve "p1" "a1" "alpha" desk).0 ≡ succeeds) ↔ (
      (includes (get_admin_agent_ids only_alpha (some "beta") desk) "a1" ≡ true)
      × (request.actor ≢ "alpha")
      × (request.actor ≢ "a1"))
told_decide_example =
    told_decide only_alpha keys_of_time 7 approve "p1" "a1" "alpha" desk request refl refl refl refl
      refl refl
