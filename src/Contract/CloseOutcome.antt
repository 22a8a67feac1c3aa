-- ===== src/Contract/CloseOutcome.antt =====
-- What a request to close a contract comes to, with nobody else at work: the route
-- src/app/api/v1/contracts/[id]/close/route.ts.
use a2a_comms.Common.{
  ℕ, String, ◌≡◌, refl, ◌⊎◌, inl, inr, Bool, true, false, not, ◌||◌, Option, none, some, List, [],
  ◌∷◌, arith, ◌==◌, is_some, Bool-cases, Option-cases, find?, update_where, Text,
}
use a2a_comms.Contract.{
  is_active, is_proposer, is_observer, closed, ClosedByKind, Contract, Participant,
}
use a2a_comms.Contract.Store.{
  ◌>>=◌, select_contract, update_contract, deliver, audit, Store, Caller, reply,
}
use a2a_comms.Contract.Routes.{get_participant, enforce}
use a2a_comms.Contract.Close.{
  parse_body, reason_for_close, gate_pending, pass_gate, may_write_close, close_contract, close,
  CloseContractRequest, CloseBody,
}
use a2a_comms.Contract.Policy.{evaluate_contract_participant_mutation}
use a2a_comms.Contract.Closure.{GatedCloseDecision, evaluate_gated_close}
use a2a_comms.Contract.Writes.{emit_contracts}
use a2a_comms.Contract.Outcomes.{is_reply}

-- The fields of the body, if it can be read.
abbrev pub request_of : CloseBody → Option CloseContractRequest
request_of CloseBody.absent = some (record { reason = none; without_approval = false })
request_of CloseBody.malformed = none
request_of (CloseBody.parsed r) = some r

abbrev pub gate_of : Contract → Caller → CloseContractRequest → GatedCloseDecision
gate_of c auth r =
    evaluate_gated_close (gate_pending c) (c.proposer_id == auth.id) r.without_approval r.reason

-- A refusal of the work is let through only while the gate is pending.
refusal_pending :
    (pending is_proposer without_approval : Bool) (reason : Option Text)
    → evaluate_gated_close pending is_proposer without_approval reason
      ≡ GatedCloseDecision.allowed true
    → pending ≡ true
unfolding evaluate_gated_close
refusal_pending true is_proposer without_approval reason h = refl
refusal_pending false is_proposer without_approval reason h = ground (arith, h)

may_write :
    (id : String) (auth : Caller) (r : CloseContractRequest) (w : Bool) (c : Contract)
    → gate_of c auth r ≡ GatedCloseDecision.allowed w
    → not w || not (is_some c.completion_approved_at) ≡ true
may_write id auth r true c h = ground (
  arith,
  refusal_pending (gate_pending c) (c.proposer_id == auth.id) r.without_approval r.reason h,
)
may_write id auth r false c h = refl

write_find :
    (id : String) (w : Bool) (cs : List Contract) (c : Contract)
    → select_contract id cs ≡ some c
    → is_active c.status ≡ true
    → not w || not (is_some c.completion_approved_at) ≡ true
    → find? (may_write_close id w) cs ≡ some c
write_find id w [] c h k a = cc
write_find id w (x ∷ cs) c h k a = ground (arith, write_find id w cs c)

write_select :
    (id : String) (w : Bool) (f : Contract → Contract) (cs : List Contract) (c : Contract)
    → ((x : Contract) → (f x).id ≡ x.id)
    → select_contract id cs ≡ some c
    → is_active c.status ≡ true
    → not w || not (is_some c.completion_approved_at) ≡ true
    → select_contract id (update_where (may_write_close id w) f cs) ≡ some (f c)
write_select id w f [] c same h k a = cc
write_select id w f (x ∷ cs) c same h k a = ground (arith, same x, write_select id w f cs c same)

module _ (now : ℕ) (auth : Caller) (id : String) (body : CloseBody) where
  close_active :
      (p : Participant) (c : Contract) (r : CloseContractRequest) (w : Bool) (s : Store)
      → get_participant id auth.id s ≡ some p
      → is_observer p.role ≡ false
      → select_contract id s.contracts ≡ some c
      → is_active c.status ≡ true
      → request_of body ≡ some r
      → gate_of c auth r ≡ GatedCloseDecision.allowed w
      → (close (λ t. t) now auth id body s).0
        ≡ reply (some (close_contract now auth (reason_for_close auth r.reason) w c))
  unfolding close ◌>>=◌ enforce update_contract audit deliver evaluate_contract_participant_mutation
      parse_body pass_gate
  close_active p c r w s found role row active_row read gate =
      let why = reason_for_close auth r.reason in
      let after : Store = record s {
        contracts = update_where (may_write_close id w) (close_contract now auth why w) s.contracts;
      } in
      ground (
        arith,
        found,
        role,
        row,
        active_row,
        read,
        gate,
        emit_contracts id closed (some auth.name) (some ClosedByKind.agent) (some why) c w after,
        write_find id w s.contracts c row active_row (may_write id auth r w c gate),
        write_select id w (close_contract now auth why w) s.contracts c (λ x. refl) row active_row
            (may_write id auth r w c gate),
      )

  -- A request that every check of the route lets through.
  abbrev pub MayClose : Store → Type 0
  MayClose s =
      (p : Participant) × (c : Contract) × (r : CloseContractRequest) × (w : Bool)
      × (get_participant id auth.id s ≡ some p)
      × (is_observer p.role ≡ false)
      × (select_contract id s.contracts ≡ some c)
      × (is_active c.status ≡ true)
      × (request_of body ≡ some r)
      × (gate_of c auth r ≡ GatedCloseDecision.allowed w)

  abbrev Refused : Store → Type 0
  Refused s =
      (is_reply (close (λ t. t) now auth id body s).0 ≡ false)
      × ((close (λ t. t) now auth id body s).1 ≡ s)

  gate_cases :
      (p : Participant) (c : Contract) (r : CloseContractRequest) (s : Store)
      (d : GatedCloseDecision)
      → get_participant id auth.id s ≡ some p
      → is_observer p.role ≡ false
      → select_contract id s.contracts ≡ some c
      → is_active c.status ≡ true
      → request_of body ≡ some r
      → gate_of c auth r ≡ d
      → MayClose s ⊎ Refused s
  unfolding close ◌>>=◌ enforce evaluate_contract_participant_mutation parse_body pass_gate
  gate_cases p c r s (GatedCloseDecision.allowed w) found role row active_row read gate =
      inl (p, c, r, w, found, role, row, active_row, read, gate)
  gate_cases p c r s (GatedCloseDecision.refused st code) found role row active_row read gate =
      inr (ground (arith, found, role, row, active_row, read, gate))

  close_cases : (s : Store) → MayClose s ⊎ Refused s
  unfolding close ◌>>=◌ enforce evaluate_contract_participant_mutation parse_body
  close_cases s = elim (Option-cases (get_participant id auth.id s)) [
    | inl missing ↦ inr (ground (arith, missing))
    | inr (p, found) ↦ elim (Bool-cases (is_observer p.role)) [
      | inl barred ↦ inr (ground (arith, found, barred))
      | inr role ↦ elim (Option-cases (select_contract id s.contracts)) [
        | inl gone ↦ inr (ground (arith, found, role, gone))
        | inr (c, row) ↦ elim (Bool-cases (is_active c.status)) [
          | inr later ↦ inr (ground (arith, found, role, row, later))
          | inl active_row ↦ elim (Option-cases (request_of body)) [
            | inl unread ↦ inr (ground (arith, found, role, row, active_row, unread))
            | inr (r, read) ↦
                gate_cases p c r s (gate_of c auth r) found role row active_row read refl
          ]
        ]
      ]
    ]
  ]

  -- With nobody else at work, a request to close either comes from a participant that is no
  -- observer, of a contract that is active, with a body that can be read and that the completion
  -- gate lets through, and is answered by that contract as closed by the caller, with the reason
  -- and the refusal of the work that it asked for; or it is refused, and nothing was written.
  pub close_outcome :
      (s : Store)
      → ((p : Participant) × (c : Contract) × (r : CloseContractRequest) × (w : Bool)
          × (get_participant id auth.id s ≡ some p)
          × (is_observer p.role ≡ false)
          × (select_contract id s.contracts ≡ some c)
          × (is_active c.status ≡ true)
          × (request_of body ≡ some r)
          × (gate_of c auth r ≡ GatedCloseDecision.allowed w)
          × ((close (λ t. t) now auth id body s).0
              ≡ reply (some (close_contract now auth (reason_for_close auth r.reason) w c))))
        ⊎ ((is_reply (close (λ t. t) now auth id body s).0 ≡ false)
            × ((close (λ t. t) now auth id body s).1 ≡ s))
  close_outcome s = elim (close_cases s) [
    | inr nothing ↦ inr nothing
    | inl (p, c, r, w, found, role, row, active_row, read, gate) ↦ inl (
      p,
      c,
      r,
      w,
      found,
      role,
      row,
      active_row,
      read,
      gate,
      close_active p c r w s found role row active_row read gate,
    )
  ]
