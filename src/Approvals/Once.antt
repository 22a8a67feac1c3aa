-- ===== src/Approvals/Once.antt =====
-- The operations of src/lib/approvals.ts in runs, one between another's read and write: the life of
-- an approval, and that it is used up once.
use a2a_comms.Common.{
  ℕ, String, ◌≡◌, refl, inl, inr, Bool, true, false, ◌&&◌, Option, none, some, List, [], ◌∷◌, map,
  arith, ◌==◌, eq_iff, Bool-cases, Option-cases, find?, any, update_where, includes,
}
use a2a_comms.Approvals.{
  is_approved, get_admin_agent_ids, ApprovalStatus, consumed, Details, PendingApproval,
  ApprovalEvent, requested, Desk,
}
use a2a_comms.Approvals.Review.{
  log, notify_some, approval_by_id, new_approval, request_approval, consume, consume_current,
  consume_approval, consume_found,
}
use a2a_comms.Approvals.Rotation.{KeyName, by_agent, by_user, Decision}
use a2a_comms.Approvals.Decided.{
  may_turn, find_approval, Continues, Continues-refl, Continues-trans, fresh-Continues, Line,
}
use a2a_comms.Approvals.Steps.{consume-Continues, found-Continues, review-Continues}
use a2a_comms.Approvals.Reviewers.{distinct_ids}

-- The database gives a new request an id that no other has.
pub data Runs : Desk → Desk → Type 0 where
  rests : {s : Desk} → Runs s s
  before : {r s t : Desk} → Runs r s → Runs s t → Runs r t
  requests :
      (allowlist : Option (List String)) (id action actor : String) (d : Details) (s : Desk)
      → find_approval id s.approvals ≡ none
      → Runs s (request_approval allowlist id action actor d s)
  agent_decides :
      (allowlist : Option (List String)) (others : Desk → Desk) (key_name : KeyName) (now : ℕ)
      (d : Decision) (id reviewer_id reviewer : String) (s : Desk)
      → ((t : Desk) → Runs t (others t))
      → Runs s (by_agent allowlist others key_name now d id reviewer_id reviewer s).1
  user_decides :
      (allowlist : Option (List String)) (others : Desk → Desk) (key_name : KeyName) (now : ℕ)
      (d : Decision) (id user name : String) (s : Desk)
      → ((t : Desk) → Runs t (others t))
      → Runs s (by_user allowlist others key_name now d id user name s).1
  consumes :
      (others : Desk → Desk) (now : ℕ) (id executor : String) (s : Desk)
      → ((t : Desk) → Runs t (others t))
      → Runs s (consume_approval others now id executor s).1
  consumes_found :
      (others : Desk → Desk) (now : ℕ) (executor : String) (o : Option PendingApproval) (s : Desk)
      → ((t : Desk) → Runs t (others t))
      → Runs s (consume_found others now executor o s).1

notify_same :
    (to : List String) (e : ApprovalEvent) (id : String) (s : Desk)
    → (notify_some to e id s).approvals ≡ s.approvals
notify_same [] e id s = refl
notify_same (i ∷ is) e id s = refl

request-Continues :
    (allowlist : Option (List String)) (id action actor : String) (d : Details) (s : Desk)
    → find_approval id s.approvals ≡ none
    → Continues s.approvals (request_approval allowlist id action actor d s).approvals
unfolding request_approval
request-Continues allowlist id action actor d s new =
    let x = new_approval id action actor d in
    let s1 = log actor requested id (record s { approvals = x ∷ s.approvals }) in
    rw (notify_same (get_admin_agent_ids allowlist (some actor) s1) requested id s1)
      (fresh-Continues x s.approvals new)

-- Whatever requests, decisions and uses took place, in whatever interleaving of reads and guarded
-- writes: every approval is still there under its id, for the same action and actor; what was
-- approved is still so or was consumed, and what was denied or consumed is still so; what was decided
-- or consumed keeps its reviewer; and what was pending and is not any more, consumed included, has a
-- reviewer recorded.
pub approvals_continue : (s t : Desk) → Runs s t → Continues s.approvals t.approvals
approvals_continue s t rests = Continues-refl s.approvals
approvals_continue s t (before {s = m} first next) =
    Continues-trans s.approvals m.approvals t.approvals (approvals_continue s m first)
      (approvals_continue m t next)
approvals_continue s t (requests allowlist id action actor d r new) =
    request-Continues allowlist id action actor d s new
approvals_continue s t (agent_decides allowlist others key_name now d id rid reviewer r polite) =
    review-Continues others (λ u. approvals_continue u (others u) (polite u)) d key_name now id
      reviewer _ _ (approval_by_id id s) s
approvals_continue s t (user_decides allowlist others key_name now d id user name r polite) =
    review-Continues others (λ u. approvals_continue u (others u) (polite u)) d key_name now id name
      _ _ (approval_by_id id s) s
approvals_continue s t (consumes others now id executor r polite) =
    consume-Continues others (λ u. approvals_continue u (others u) (polite u)) now id executor s
approvals_continue s t (consumes_found others now executor o r polite) =
    found-Continues others (λ u. approvals_continue u (others u) (polite u)) now executor o s

abbrev ids : List PendingApproval → List String
ids rows = map (λ a. a.id) rows

abbrev pub is_consumed : ApprovalStatus → Bool
is_consumed consumed = true
is_consumed _ = false

absent :
    (test : ApprovalStatus → Bool) (id : String) (rows : List PendingApproval)
    → includes (ids rows) id ≡ false
    → (find? (λ a. a.id == id && test a.status) rows ≡ none)
      × (any (λ a. a.id == id && test a.status) rows ≡ false)
absent test id [] h = (refl, refl)
absent test id (x ∷ rows) h = ground (arith, absent test id rows)

only_row :
    (test : ApprovalStatus → Bool) (id : String) (rows : List PendingApproval) (a : PendingApproval)
    → distinct_ids (ids rows) ≡ true
    → find_approval id rows ≡ some a
    → test a.status ≡ false
    → find? (λ b. b.id == id && test b.status) rows ≡ none
only_row test id [] a d h k = refl
only_row test id (x ∷ rows) a d h k = elim (Bool-cases (x.id == id)) [
  | inl here ↦ ground (arith, absent test x.id rows, (eq_iff x.id id).0 here)
  | inr below ↦ ground (arith, only_row test id rows a)
]

any_row :
    (test : ApprovalStatus → Bool) (id : String) (rows : List PendingApproval)
    → distinct_ids (ids rows) ≡ true
    → any (λ b. b.id == id && test b.status) rows ≡ true
    → (a : PendingApproval) × (find_approval id rows ≡ some a) × (test a.status ≡ true)
any_row test id [] d h = cc
any_row test id (x ∷ rows) d h = elim (Bool-cases (x.id == id)) [
  | inl here ↦ (x, ground arith, ground (arith, absent test x.id rows, (eq_iff x.id id).0 here))
  | inr below ↦
      let (a, found, k) = any_row test id rows (ground arith) (ground arith) in (a, ground arith, k)
]

set_any :
    (id executor : String) (now : ℕ) (d : Details) (rows : List PendingApproval)
    (a : PendingApproval)
    → find? (λ b. b.id == id && is_approved b.status) rows ≡ some a
    → any
        (λ b. b.id == id && is_consumed b.status)
        (update_where (λ b. b.id == id && is_approved b.status) (consume now executor d) rows)
      ≡ true
set_any id executor now d [] a h = cc
set_any id executor now d (x ∷ rows) a h = ground (arith, set_any id executor now d rows a)

module _ (others : Desk → Desk) (now : ℕ) (id executor : String) where
  current_any :
      (o : Option PendingApproval) (s : Desk) (a : PendingApproval)
      → (consume_current others now id executor o s).0 ≡ some a
      → any
          (λ b. b.id == id && is_consumed b.status)
          (consume_current others now id executor o s).1.approvals
        ≡ true
  current_any none s a h = cc
  current_any (some c) s a h =
      elim (Option-cases (find? (λ b. b.id == id && is_approved b.status) (others s).approvals)) [
        | inl missing ↦ ground (arith, h, missing)
        | inr (b, found) ↦ rw found (set_any id executor now c.details (others s).approvals b found)
      ]

unusable :
    (others : Desk → Desk) (now : ℕ) (id executor : String) (s : Desk)
    → find? (λ a. a.id == id && is_approved a.status) s.approvals ≡ none
    → (consume_approval others now id executor s).0 ≡ none
unfolding consume_approval
unusable others now id executor s missing = rw missing refl

consumed_stays :
    (a b : PendingApproval) → Line a b → is_consumed a.status ≡ true → is_approved b.status ≡ false
unfolding may_turn
consumed_stays a b h k = ground arith

consumed_any :
    (others : Desk → Desk) (now : ℕ) (id executor : String) (s : Desk) (a : PendingApproval)
    → (consume_approval others now id executor s).0 ≡ some a
    → any
        (λ b. b.id == id && is_consumed b.status)
        (consume_approval others now id executor s).1.approvals
      ≡ true
unfolding consume_approval
consumed_any others now id executor s a h =
    current_any others now id executor (find? (λ b. b.id == id && is_approved b.status) s.approvals)
      s a h

-- Ids are a primary key: once an approval was consumed, no later attempt to consume it succeeds,
-- whoever makes it and whatever took place in between.
pub consumed_once :
    (others others' : Desk → Desk) (now now' : ℕ) (id executor executor' : String) (s t : Desk)
    (a : PendingApproval)
    → distinct_ids (map (λ r. r.id) (consume_approval others now id executor s).1.approvals) ≡ true
    → distinct_ids (map (λ r. r.id) t.approvals) ≡ true
    → (consume_approval others now id executor s).0 ≡ some a
    → Runs (consume_approval others now id executor s).1 t
    → (consume_approval others' now' id executor' t).0 ≡ none
consumed_once others others' now now' id executor executor' s t a d d' ok run =
    let s' = (consume_approval others now id executor s).1 in
    let (b, found, spent) =
      any_row is_consumed id s'.approvals d (consumed_any others now id executor s a ok) in
    let (c, later, line) = approvals_continue s' t run id b found in
    unusable others' now' id executor' t
      (only_row is_approved id t.approvals c d' later (consumed_stays b c line spent))
