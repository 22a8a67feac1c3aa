-- ===== src/Approvals/Told.antt =====
-- Who may decide a request, and who is told of it (src/lib/approvals.ts).
use a2a_comms.Common.{
  ℕ, String, ◌≡◌, refl, sym, ◌∙◌, ◌≢◌, ◌↔◌, inl, inr, Bool, true, false, ◌&&◌, ◌||◌, Option, some,
  List, [], ◌∷◌, map, arith, ◌==◌, eq_iff, Bool-cases, find?, includes,
}
use a2a_comms.Approvals.{
  is_pending, is_authorized_reviewer, get_admin_agent_ids, PendingApproval, Desk,
}
use a2a_comms.Approvals.Review.{approval_by_id, compare_and_set}
use a2a_comms.Approvals.Rotation.{
  KeyName, decide, finish, check_review, go_on, by_agent, succeeds, Decision,
}
use a2a_comms.Approvals.Reviewers.{distinct_ids, has_names, told_may_review}
use a2a_comms.Approvals.Independence.{go_on_succeeds, same_text_eq}

found_both :
    (p q : PendingApproval → Bool) (rows : List PendingApproval) (a : PendingApproval)
    → find? p rows ≡ some a
    → q a ≡ true
    → find? (λ b. p b && q b) rows ≡ some a
found_both p q [] a h k = cc
found_both p q (x ∷ rows) a h k = elim (Bool-cases (p x)) [
  | inl here ↦ ground (arith, here, h, k)
  | inr below ↦ ground (arith, below, h, found_both p q rows a, k)
]

own_not : (actor x y : String) → (actor == x || actor == y) ≡ false → (actor ≢ x) × (actor ≢ y)
own_not actor x y h =
    (same_text_eq actor x (ground (arith, h)), same_text_eq actor y (ground (arith, h)))

not_own : (actor x y : String) → actor ≢ x → actor ≢ y → (actor == x || actor == y) ≡ false
not_own actor x y h k = ground (arith, h, k, eq_iff actor x, eq_iff actor y)

-- With nobody else at work: the checks on the row that the id finds, and the guarded write.
on_row :
    (allowlist : Option (List String)) (key_name : KeyName) (now : ℕ) (d : Decision)
    (id reviewer_id reviewer : String) (s : Desk) (a : PendingApproval)
    → approval_by_id id s ≡ some a
    → (by_agent allowlist (λ t. t) key_name now d id reviewer_id reviewer s).0
      ≡ (go_on
          (check_review
            (a.actor == reviewer || a.actor == reviewer_id)
            (is_authorized_reviewer allowlist reviewer_id (some a.actor) s)
            a.status)
          (finish d
            (λ t. t)
            key_name
            now
            id
            reviewer
            a
            (compare_and_set is_pending (decide d now reviewer) id s))
          s).0
on_row allowlist key_name now d id reviewer_id reviewer s a found = rw found refl

-- Profiles and agents have distinct ids, no profile has an empty one, and no name on the allowlist is
-- empty. With nobody else at work, an agent's decision on an approval that is pending succeeds
-- exactly when the agent is one of those who are told of a request by the same actor, and neither its
-- name nor its id is the actor.
pub told_decide :
    (allowlist : Option (List String)) (key_name : KeyName) (now : ℕ) (d : Decision)
    (id reviewer_id reviewer : String) (s : Desk) (a : PendingApproval)
    → has_names allowlist ≡ true
    → distinct_ids (map (λ p. p.id) s.profiles) ≡ true
    → includes (map (λ p. p.id) s.profiles) "" ≡ false
    → distinct_ids (map (λ g. g.id) s.agents) ≡ true
    → approval_by_id id s ≡ some a
    → is_pending a.status ≡ true
    → ((by_agent allowlist (λ t. t) key_name now d id reviewer_id reviewer s).0 ≡ succeeds) ↔ (
        (includes (get_admin_agent_ids allowlist (some a.actor) s) reviewer_id ≡ true)
        × (a.actor ≢ reviewer)
        × (a.actor ≢ reviewer_id))
told_decide allowlist key_name now d id reviewer_id reviewer s a names unique real distinct found
      p =
    let told = told_may_review allowlist (some a.actor) s names unique real reviewer_id distinct in
    let row = found_both (λ b. b.id == id) (λ b. is_pending b.status) s.approvals a found p in
    let ran = on_row allowlist key_name now d id reviewer_id reviewer s a found in
    (
      λ h.
          let (_, not_self, may, _) =
            go_on_succeeds (a.actor == reviewer || a.actor == reviewer_id)
              (is_authorized_reviewer allowlist reviewer_id (some a.actor) s) a.status
              (finish d (λ t. t) key_name now id reviewer a
                (compare_and_set is_pending (decide d now reviewer) id s))
              s (sym ran ∙ h) in
          let (other, other_id) = own_not a.actor reviewer reviewer_id not_self in
          (told ∙ may, other, other_id),
      λ h.
          let (among, other, other_id) = h in
          let may = sym told ∙ among in
          let not_self = not_own a.actor reviewer reviewer_id other other_id in
          ran ∙ rw row (ground (arith, p, may, not_self)),
    )
