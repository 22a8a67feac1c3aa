-- ===== src/Approvals/Decided.antt =====
-- What a row of the approvals may go through, and the writes of src/lib/approvals.ts on it.
use a2a_comms.Common.{
  ℕ, String, ◌≡◌, inl, inr, Bool, true, false, ◌&&◌, Option, none, some, List, [], ◌∷◌, arith, ◌==◌,
  eq_iff, Bool-cases, find?, update_where, is_some,
}
use a2a_comms.Approvals.{
  is_pending, is_approved, ApprovalStatus, pending, approved, denied, consumed, Details,
  PendingApproval,
}
use a2a_comms.Approvals.Review.{consume}
use a2a_comms.Approvals.Rotation.{decide, Decision, approve, deny}

-- Pending may become anything, approved may be used up, and what is denied or used up stays so.
unfoldable pub may_turn : ApprovalStatus → ApprovalStatus → Bool
may_turn pending _ = true
may_turn approved approved = true
may_turn approved consumed = true
may_turn approved _ = false
may_turn denied denied = true
may_turn denied _ = false
may_turn consumed consumed = true
may_turn consumed _ = false

-- The later row is the same request: its status moved along, a decision that was taken is signed by
-- the same reviewer, and one that was taken since is signed.
pub record Line (a b : PendingApproval) : Type 0 where
  pub same : (b.id ≡ a.id) × (b.action ≡ a.action) × (b.actor ≡ a.actor)
  pub moved : may_turn a.status b.status ≡ true
  pub signed : is_pending a.status ≡ false → b.reviewed_by ≡ a.reviewed_by
  pub decided :
      is_pending a.status ≡ true → is_pending b.status ≡ false → is_some b.reviewed_by ≡ true

pub Line-refl : (a : PendingApproval) → Line a a
unfolding may_turn
Line-refl a = ground arith

pub Line-trans : (a b c : PendingApproval) → Line a b → Line b c → Line a c
unfolding may_turn
Line-trans a b c h k = ground arith

abbrev pub find_approval : String → List PendingApproval → Option PendingApproval
find_approval id rows = find? (λ a. a.id == id) rows

abbrev pub Continues : List PendingApproval → List PendingApproval → Type 0
Continues as' bs =
    (id : String) (a : PendingApproval)
    → find_approval id as' ≡ some a
    → (b : PendingApproval) × (find_approval id bs ≡ some b) × Line a b

pub Continues-refl : (as' : List PendingApproval) → Continues as' as'
Continues-refl as' id a e = (a, e, Line-refl a)

pub Continues-trans :
    (as' bs cs : List PendingApproval) → Continues as' bs → Continues bs cs → Continues as' cs
Continues-trans as' bs cs h k id a e =
    let (b, f, hb) = h id a e in let (c, g, hc) = k id b f in (c, g, Line-trans a b c hb hc)

pub update-Continues :
    (p : PendingApproval → Bool) (f : PendingApproval → PendingApproval)
    (rows : List PendingApproval)
    → ((a : PendingApproval) → p a ≡ true → Line a (f a))
    → Continues rows (update_where p f rows)
update-Continues p f [] keep id a e = cc
update-Continues p f (x ∷ rows) keep id a e = elim (Bool-cases (x.id == id)) [
  | inl here ↦ elim (Bool-cases (p x)) [
    | inl hit ↦ (f x, ground (arith, (keep x hit).same), ground (arith, keep x hit))
    | inr miss ↦ (x, ground arith, ground (arith, Line-refl x))
  ]
  | inr below ↦
      let (b, found, h) = update-Continues p f rows keep id a (ground arith) in
      elim (Bool-cases (p x)) [
        | inl hit ↦ (b, ground (arith, (keep x hit).same), h)
        | inr miss ↦ (b, ground arith, h)
      ]
]

pub fresh-Continues :
    (x : PendingApproval) (rows : List PendingApproval)
    → find_approval x.id rows ≡ none
    → Continues rows (x ∷ rows)
fresh-Continues x rows new id a e = elim (Bool-cases (x.id == id)) [
  | inl here ↦ ground (arith, new, e, (eq_iff x.id id).0 here)
  | inr below ↦ (a, ground arith, Line-refl a)
]

pub consume-Line :
    (now : ℕ) (executor : String) (d : Details) (id : String) (a : PendingApproval)
    → a.id == id && is_approved a.status ≡ true
    → Line a (consume now executor d a)
unfolding may_turn
consume-Line now executor d id a h = ground arith

pub decide-Line :
    (d : Decision) (now : ℕ) (reviewer id : String) (a : PendingApproval)
    → a.id == id && is_pending a.status ≡ true
    → Line a (decide d now reviewer a)
unfolding may_turn
decide-Line approve now reviewer id a h = ground arith
decide-Line deny now reviewer id a h = ground arith
