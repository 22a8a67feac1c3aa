-- ===== src/Contract/Outcomes.antt =====
-- What a request to cancel a contract comes to, with nobody else at work: the route under
-- src/app/api/v1/contracts/[id]/cancel/.
use a2a_comms.Common.{
  ℕ, String, ◌≡◌, refl, ◌⊎◌, inl, inr, Bool, true, false, some, List, [], ◌∷◌, arith, Bool-cases,
  Option-cases, find?, update_where,
}
use a2a_comms.Contract.{is_proposed, is_proposer, ContractStatus, Contract, Participant}
use a2a_comms.Contract.Store.{
  ◌>>=◌, select_contract, update_contract, deliver, audit, Store, Caller, Reply, refuse, reply,
}
use a2a_comms.Contract.Routes.{get_participant, enforce, still, cancel_contract, cancel}
use a2a_comms.Contract.Policy.{evaluate_contract_participant_mutation}

abbrev pub is_reply {ℓ} : {A : Type ℓ} → Reply A → Bool
is_reply (refuse st c) = false
is_reply (reply a) = true

still_find :
    (test : ContractStatus → Bool) (id : String) (cs : List Contract) (c : Contract)
    → select_contract id cs ≡ some c
    → test c.status ≡ true
    → find? (still test id) cs ≡ some c
still_find test id [] c h k = cc
still_find test id (x ∷ cs) c h k = ground (arith, still_find test id cs c)

written :
    (test : ContractStatus → Bool) (id : String) (f : Contract → Contract) (cs : List Contract)
    (c : Contract)
    → ((x : Contract) → (f x).id ≡ x.id)
    → select_contract id cs ≡ some c
    → test c.status ≡ true
    → select_contract id (update_where (still test id) f cs) ≡ some (f c)
written test id f [] c same h k = cc
written test id f (x ∷ cs) c same h k = ground (arith, same x, written test id f cs c same)

module _ (now : ℕ) (auth : Caller) (id : String) where
  -- A contract that is proposed is cancelled by its proposer: the reply is the row as it was, as
  -- cancelled by the caller now.
  cancel_proposed :
      (p : Participant) (c : Contract) (s : Store)
      → get_participant id auth.id s ≡ some p
      → is_proposer p.role ≡ true
      → select_contract id s.contracts ≡ some c
      → is_proposed c.status ≡ true
      → (cancel (λ t. t) now auth id s).0 ≡ reply (some (cancel_contract now auth c))
  unfolding cancel ◌>>=◌ enforce update_contract audit deliver
      evaluate_contract_participant_mutation
  cancel_proposed p c s found role row proposed_row = ground (
    arith,
    found,
    role,
    row,
    proposed_row,
    still_find is_proposed id s.contracts c row proposed_row,
    written is_proposed id (cancel_contract now auth) s.contracts c (λ x. refl) row proposed_row,
  )

  -- The proposer of a contract that is proposed.
  abbrev pub MayCancel : Store → Type 0
  MayCancel s =
      (p : Participant) × (c : Contract) × (get_participant id auth.id s ≡ some p)
      × (is_proposer p.role ≡ true)
      × (select_contract id s.contracts ≡ some c)
      × (is_proposed c.status ≡ true)

  cancel_cases :
      (s : Store)
      → MayCancel s
        ⊎ ((is_reply (cancel (λ t. t) now auth id s).0 ≡ false)
            × ((cancel (λ t. t) now auth id s).1 ≡ s))
  unfolding cancel ◌>>=◌ enforce evaluate_contract_participant_mutation
  cancel_cases s = elim (Option-cases (get_participant id auth.id s)) [
    | inl missing ↦ inr (ground (arith, missing))
    | inr (p, found) ↦ elim (Bool-cases (is_proposer p.role)) [
      | inr barred ↦ inr (ground (arith, found, barred))
      | inl role ↦ elim (Option-cases (select_contract id s.contracts)) [
        | inl gone ↦ inr (ground (arith, found, role, gone))
        | inr (c, row) ↦ elim (Bool-cases (is_proposed c.status)) [
          | inr later ↦ inr (ground (arith, found, role, row, later))
          | inl proposed_row ↦ inl (p, c, found, role, row, proposed_row)
        ]
      ]
    ]
  ]

  -- With nobody else at work, a request to cancel either comes from the proposer of a contract that
  -- is proposed, and is answered by that contract as cancelled by the caller; or it is refused, and
  -- nothing was written.
  pub cancel_outcome :
      (s : Store)
      → ((p : Participant) × (c : Contract) × (get_participant id auth.id s ≡ some p)
          × (is_proposer p.role ≡ true)
          × (select_contract id s.contracts ≡ some c)
          × (is_proposed c.status ≡ true)
          × ((cancel (λ t. t) now auth id s).0 ≡ reply (some (cancel_contract now auth c))))
        ⊎ ((is_reply (cancel (λ t. t) now auth id s).0 ≡ false)
            × ((cancel (λ t. t) now auth id s).1 ≡ s))
  cancel_outcome s = elim (cancel_cases s) [
    | inr nothing ↦ inr nothing
    | inl (p, c, found, role, row, proposed_row) ↦
        inl
          (p, c, found, role, row, proposed_row, cancel_proposed p c s found role row proposed_row)
  ]
