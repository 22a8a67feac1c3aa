-- ===== src/Contract/Writes.antt =====
-- The statements that the contract routes issue, one by one: each leaves a table that follows the
-- one before it.
use a2a_comms.Common.{
  ℕ, String, ◌≡◌, refl, ◌≢◌, inl, inr, Bool, true, Option, some, List, [], ◌∷◌, map, arith, ◌==◌,
  eq_iff, eqb, Bool-cases, Option-cases, length, update_where,
}
use a2a_comms.Contract.Store.{
  Action, gets, modify, require, ◌>>=◌, select_contract, participants_of, update_contract, deliver,
  audit, emit_contract_closed, Event, AuditAction, Store, Caller,
}
use a2a_comms.Contract.{ClosedByKind, ContractStatus, Contract, ErrorCode, CloseReason, is_proposed}
use a2a_comms.Contract.History.{
  may_become, Quiet, Quiet-refl, Succeeds, Follows, Follows-refl, Follows-trans, quiet-Follows,
  Same, Follows-Same, Keeps-modify, Keeps-update_contract, Keeps,
}
use a2a_comms.Contract.Policy
use a2a_comms.Contract.Policy.{ContractMutationAction, evaluate_contract_participant_mutation}
use a2a_comms.Contract.Closure.{GatedCloseDecision}
use a2a_comms.Contract.Routes.{
  expiry_status, expiry_reason, expire, auto_close_if_expired, still, activate, reject_contract,
  cancel_contract, is_due, announce_cancelled, enforce,
}
use a2a_comms.Contract.Close.{parse_body, may_write_close, close_contract, CloseBody, pass_gate}

-- A write by one id leaves the contracts of other ids alone.
pub update_other :
    (id j : String) (f : Contract → Contract) (cs : List Contract)
    → ((x : Contract) → (f x).id ≡ x.id)
    → id ≢ j
    → select_contract j (update_where (λ r. r.id == id) f cs) ≡ select_contract j cs
update_other id j f [] same ne = refl
update_other id j f (x ∷ cs) same ne =
    ground (arith, same x, eq_iff x.id id, eq_iff x.id j, update_other id j f cs same ne)

pub update_hit :
    (id : String) (f : Contract → Contract) (cs : List Contract) (c : Contract)
    → ((x : Contract) → (f x).id ≡ x.id)
    → select_contract id cs ≡ some c
    → select_contract id (update_where (λ r. r.id == id) f cs) ≡ some (f c)
update_hit id f [] c same h = cc
update_hit id f (x ∷ cs) c same h =
    ground (arith, same x, eq_iff x.id id, update_hit id f cs c same)

pub update_by_id-Succeeds :
    (id : String) (f : Contract → Contract) (cs : List Contract) (c : Contract)
    → ((x : Contract) → (f x).id ≡ x.id)
    → select_contract id cs ≡ some c
    → Quiet c (f c)
    → Succeeds cs (update_where (λ r. r.id == id) f cs)
update_by_id-Succeeds id f [] c same e h j d g = cc
update_by_id-Succeeds id f (x ∷ cs) c same e h j d g = elim (Bool-cases (x.id == id)) [
  | inl hit ↦ elim (Bool-cases (x.id == j)) [
    | inl here ↦ (f x, ground (arith, same x), ground (arith, h))
    | inr below ↦ (
      d,
      ground (arith, same x, eq_iff x.id id, eq_iff x.id j, update_other id j f cs same),
      Quiet-refl d,
    )
  ]
  | inr miss ↦ elim (Bool-cases (x.id == j)) [
    | inl here ↦ (x, ground arith, ground (arith, Quiet-refl x))
    | inr below ↦
        let (b, found, k) =
          update_by_id-Succeeds id f cs c same (ground arith) h j d (ground arith) in
        (b, ground arith, k)
  ]
]

-- A row, fetched, and the rest of the route, which may use where it came from.
pub Keeps-select :
    {B : Type 0} (id : String) (st : ℕ) (code : ErrorCode) (k : Contract → Action B)
    → ((c : Contract) (s : Store) → select_contract id s.contracts ≡ some c → Follows s (k c s).1)
    → Keeps (gets (λ s. select_contract id s.contracts) >>= λ row. require row st code >>= k)
unfolding ◌>>=◌
Keeps-select id st code k h = record {
  at = λ s. elim (Option-cases (select_contract id s.contracts)) [
    | inl missing ↦ rw missing (Follows-refl s)
    | inr (c, found) ↦ rw found (h c s found)
  ];
}

pub deliver-Same :
    (to : List String) (e : Event) (id : String) (s : Store) → Same s (deliver to e id s)
unfolding deliver
deliver-Same to e id s = (record { contracts_kept = refl; messages_kept = refl })

pub audit-Same :
    (who : String) (what : AuditAction) (id : String) (s : Store) → Same s (audit who what id s)
unfolding audit
audit-Same who what id s = (record { contracts_kept = refl; messages_kept = refl })

pub emit_Same :
    (id : String) (st : ContractStatus) (by : Option String) (kind : Option ClosedByKind)
    (why : Option CloseReason) (c : Contract) (w : Bool) (s : Store)
    → Same s (emit_contract_closed id st by kind why c w s)
unfolding emit_contract_closed
emit_Same id st by kind why c w s =
    elim (Bool-cases (eqb (length (map (λ p. p.agent_id) (participants_of id s.participants))) 0)) [
      | inl nobody_there ↦ rw nobody_there (record { contracts_kept = refl; messages_kept = refl })
      | inr someone ↦ rw someone (deliver-Same _ _ id s)
    ]

pub emit_contracts :
    (id : String) (st : ContractStatus) (by : Option String) (kind : Option ClosedByKind)
    (why : Option CloseReason) (c : Contract) (w : Bool) (s : Store)
    → (emit_contract_closed id st by kind why c w s).contracts ≡ s.contracts
emit_contracts id st by kind why c w s = (emit_Same id st by kind why c w s).contracts_kept

pub expire-Quiet :
    (now : ℕ) (c : Contract)
    → is_due now c ≡ true
    → Quiet c (expire now (expiry_status c.status) (expiry_reason c.status) c)
unfolding may_become
expire-Quiet now c due = ground arith

pub auto_close-Follows :
    (now : ℕ) (c : Contract) (s : Store)
    → select_contract c.id s.contracts ≡ some c
    → Follows s (auto_close_if_expired (λ s. s) now c s).1
unfolding auto_close_if_expired ◌>>=◌ update_contract
auto_close-Follows now c s found = elim (Bool-cases (is_due now c)) [
  | inl due ↦
      let over = expire now (expiry_status c.status) (expiry_reason c.status) in
      let u = record s { contracts = update_where (λ r. r.id == c.id) over s.contracts } in
      rw due (
        Follows-trans
          (quiet-Follows {s = s} {t = u} refl (
            update_by_id-Succeeds c.id over s.contracts c (λ x. refl) found
              (expire-Quiet now c due)))
          (Follows-Same (emit_Same _ _ _ _ _ _ _ u)))
  | inr kept ↦ rw kept (Follows-refl s)
]

pub Keeps-deliver : (to : List String) (e : Event) (id : String) → Keeps (modify (deliver to e id))
Keeps-deliver to e id = Keeps-modify _ (λ s. Follows-Same (deliver-Same to e id s))

pub Keeps-audit :
    (who : String) (what : AuditAction) (id : String) → Keeps (modify (audit who what id))
Keeps-audit who what id = Keeps-modify _ (λ s. Follows-Same (audit-Same who what id s))

pub enforce-Keeps : (d : Policy.ContractParticipantPolicyDecision) → Keeps (enforce d)
unfolding enforce
enforce-Keeps Policy.ContractParticipantPolicyDecision.allowed = record { at = λ s. Follows-refl s }
enforce-Keeps (Policy.ContractParticipantPolicyDecision.refused st code) = record {
  at = λ s. Follows-refl s;
}

pub pass_gate-Keeps : (d : GatedCloseDecision) → Keeps (pass_gate d)
unfolding pass_gate
pass_gate-Keeps (GatedCloseDecision.allowed w) = record { at = λ s. Follows-refl s }
pass_gate-Keeps (GatedCloseDecision.refused st code) = record { at = λ s. Follows-refl s }

pub parse_body-Keeps : (b : CloseBody) → Keeps (parse_body b)
unfolding parse_body
parse_body-Keeps CloseBody.absent = record { at = λ s. Follows-refl s }
parse_body-Keeps CloseBody.malformed = record { at = λ s. Follows-refl s }
parse_body-Keeps (CloseBody.parsed r) = record { at = λ s. Follows-refl s }

module _ (now : ℕ) (auth : Caller) (id : String) where
  pub activate_write-Keeps : Keeps (update_contract (still is_proposed id) (activate now))
  unfolding may_become
  activate_write-Keeps = Keeps-update_contract _ _ (λ c h. ground arith)

  pub reject_write-Keeps : Keeps (update_contract (still is_proposed id) (reject_contract now auth))
  unfolding may_become
  reject_write-Keeps = Keeps-update_contract _ _ (λ c h. ground arith)

  pub cancel_write-Keeps : Keeps (update_contract (still is_proposed id) (cancel_contract now auth))
  unfolding may_become
  cancel_write-Keeps = Keeps-update_contract _ _ (λ c h. ground arith)

  pub close_write-Keeps :
      (why : CloseReason) (w : Bool)
      → Keeps (update_contract (may_write_close id w) (close_contract now auth why w))
  unfolding may_become
  close_write-Keeps why w = Keeps-update_contract _ _ (λ c h. ground arith)

  pub announce_cancelled-Keeps : Keeps (modify (announce_cancelled auth id))
  announce_cancelled-Keeps = Keeps-modify _ (λ s. Follows-Same (deliver-Same _ _ id s))
