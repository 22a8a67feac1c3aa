-- ===== src/Approvals/Review.antt =====
-- Requesting, deciding and using up an approval (src/lib/approvals.ts). `others` is what other
-- requests do to the desk between a read and the guarded write that follows it.
use a2a_comms.Common.{
  ℕ, String, Bool, true, false, ◌&&◌, Option, none, some, List, [], ◌∷◌, ◌==◌, ltb, if◌then◌else◌,
  find?, update_where,
}
use a2a_comms.Approvals.{
  is_approved, get_admin_agent_ids, ApprovalStatus, pending, consumed, Details, PendingApproval,
  ApprovalEvent, requested, used, Desk,
}

-- The entry appended to the audit log, and the webhook delivery.
abbrev pub log : String → ApprovalEvent → String → Desk → Desk
log who e id s = record s {
  audit_log = record { actor = who; event = e; resource_id = id } ∷ s.audit_log;
}

abbrev pub notify : List String → ApprovalEvent → String → Desk → Desk
notify to e id s = record s {
  notices = record { recipients = to; event = e; approval_id = id } ∷ s.notices;
}

abbrev pub notify_some : List String → ApprovalEvent → String → Desk → Desk
notify_some [] e id s = s
notify_some (i ∷ is) e id s = notify (i ∷ is) e id s

abbrev pub approval_by_id : String → Desk → Option PendingApproval
approval_by_id id s = find? (λ a. a.id == id) s.approvals

abbrev pub new_approval : String → String → String → Details → PendingApproval
new_approval id action actor details = record {
  id = id;
  action = action;
  actor = actor;
  details = details;
  status = pending;
  reviewed_by = none;
  reviewed_at = none;
}

-- The database gives the new row its id. An insert that fails is an exception, and leaves no trace.
unfoldable pub request_approval :
    Option (List String) → String → String → String → Details → Desk → Desk
request_approval allowlist id action actor details s =
    let s1 = record s { approvals = new_approval id action actor details ∷ s.approvals } in
    let s2 = log actor requested id s1 in
    notify_some (get_admin_agent_ids allowlist (some actor) s2) requested id s2

abbrev pub after_update {ℓ} : {A : Type ℓ} → (A → A) → Option A → Option A
after_update f none = none
after_update f (some a) = some (f a)

-- The guarded write: the row by its id, if it still has the status; the row as it was written.
abbrev pub compare_and_set :
    (ApprovalStatus → Bool)
    → (PendingApproval → PendingApproval)
    → String
    → Desk
    → Option PendingApproval × Desk
compare_and_set test f id s =
    let selects : PendingApproval → Bool = λ a. a.id == id && test a.status in
    (
      after_update f (find? selects s.approvals),
      record s { approvals = update_where selects f s.approvals },
    )

abbrev pub consume : ℕ → String → Details → PendingApproval → PendingApproval
consume now executor original a = record a {
  status = consumed;
  details = record original { executed_at = some now; executed_by = some executor };
}

abbrev pub log_used :
    String → String → Option PendingApproval × Desk → Option PendingApproval × Desk
log_used executor id (none, s) = (none, s)
log_used executor id (some a, s) = (some a, log executor used id s)

abbrev pub consume_current :
    (Desk → Desk)
    → ℕ
    → String
    → String
    → Option PendingApproval
    → Desk
    → Option PendingApproval × Desk
consume_current others now id executor none s = (none, s)
consume_current others now id executor (some current) s =
    log_used executor id
      (compare_and_set is_approved (consume now executor current.details) id (others s))

-- The row is read while it is approved, and written if it still is.
unfoldable pub consume_approval :
    (Desk → Desk) → ℕ → String → String → Desk → Option PendingApproval × Desk
consume_approval others now id executor s =
    consume_current others now id executor
      (find? (λ a. a.id == id && is_approved a.status) s.approvals) s

-- `order by reviewed_at desc`: a null comes before every time.
abbrev pub reviewed_after : Option ℕ → Option ℕ → Bool
reviewed_after none none = false
reviewed_after none (some t) = true
reviewed_after (some t) none = false
reviewed_after (some t) (some u) = ltb u t

abbrev pub later_of : PendingApproval → Option PendingApproval → PendingApproval
later_of a none = a
later_of a (some b) = if reviewed_after b.reviewed_at a.reviewed_at then b else a

-- The most recently reviewed of the approved requests for an action, the first of equals.
abbrev pub latest_approved : String → List PendingApproval → Option PendingApproval
latest_approved action [] = none
latest_approved action (a ∷ as') =
    let best = latest_approved action as' in
    if a.action == action && is_approved a.status then some (later_of a best) else best

abbrev pub consume_found :
    (Desk → Desk) → ℕ → String → Option PendingApproval → Desk → Option PendingApproval × Desk
consume_found others now executor none s = (none, s)
consume_found others now executor (some a) s = consume_approval others now a.id executor s

unfoldable pub consume_approval_by_action :
    (Desk → Desk) → ℕ → String → String → Desk → Option PendingApproval × Desk
consume_approval_by_action others now action executor s =
    consume_found others now executor (latest_approved action s.approvals) (others s)
