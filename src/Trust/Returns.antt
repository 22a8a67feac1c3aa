-- ===== src/Trust/Returns.antt =====
-- When the gates of src/lib/trust-tiers.ts return: on rows that hold the columns they read.
use a2a_comms.Common.{String, ◌≡◌, refl, ◌≢◌, Bool, true, false, List, [], ◌∷◌, arith, All}
use a2a_comms.Trust.{
  ◌>>=◌, gate_tier, evaluate_observer_access, evaluate_generic_contract_invite, unselected,
  TrustPolicyAgent, GateRole, caller, Gate, throws, returns, TrustGateResult,
}
use a2a_comms.Trust.Contracts.{
  blocked_targets, evaluate_contract_invitees, evaluate_contract_observers,
  evaluate_contract_collaboration,
}

-- Both columns that the gates read were selected.
abbrev pub IsComplete : TrustPolicyAgent → Type 0
IsComplete a = (a.owner_user_id ≢ unselected) × (a.trust_tier ≢ unselected)

-- The evaluation ends with a result, not with a thrown error.
abbrev pub has_returned {ℓ} : {A : Type ℓ} → Gate A → Bool
has_returned (throws e) = false
has_returned (returns a) = true

bind_returned {ℓ κ} :
    {A : Type ℓ} {B : Type κ} (m : Gate A) (f : A → Gate B)
    → has_returned m ≡ true
    → ((a : A) → has_returned (f a) ≡ true)
    → has_returned (m >>= f) ≡ true
bind_returned (throws e) f h k = cc
bind_returned (returns a) f h k = k a

blocked_returned :
    (gate : TrustPolicyAgent → Gate TrustGateResult)
    → ((t : TrustPolicyAgent) → IsComplete t → has_returned (gate t) ≡ true)
    → (fallback : String) (ts : List TrustPolicyAgent) → All IsComplete ts
    → has_returned (blocked_targets gate fallback ts) ≡ true
unfolding blocked_targets
blocked_returned gate total fallback [] h = refl
blocked_returned gate total fallback (t ∷ ts) (h, hs) = bind_returned (gate t) _ (total t h) (λ r.
    bind_returned (blocked_targets gate fallback ts) _ (blocked_returned gate total fallback ts hs)
      (λ rest. refl))

gate_tier_returned :
    (role : GateRole) (a : TrustPolicyAgent) → IsComplete a → has_returned (gate_tier role a) ≡ true
unfolding gate_tier
gate_tier_returned role a h = ground arith

generic_invite_returned :
    (c t : TrustPolicyAgent)
    → IsComplete c
    → IsComplete t
    → has_returned (evaluate_generic_contract_invite c t) ≡ true
unfolding evaluate_generic_contract_invite
generic_invite_returned c t hc ht = ground arith

observer_access_returned :
    (c t : TrustPolicyAgent)
    → IsComplete c
    → IsComplete t
    → has_returned (evaluate_observer_access c t) ≡ true
unfolding evaluate_observer_access
observer_access_returned c t hc ht = ground arith

-- On complete rows the contract gate returns; it never throws.
pub collaboration_returns :
    (c : TrustPolicyAgent) (invitees observers : List TrustPolicyAgent)
    → IsComplete c
    → All IsComplete invitees
    → All IsComplete observers
    → has_returned (evaluate_contract_collaboration c invitees observers) ≡ true
unfolding evaluate_contract_collaboration
collaboration_returns c invitees observers hc hi ho =
    let invite = λ (t : TrustPolicyAgent) (h : IsComplete t). generic_invite_returned c t hc h in
    let observe = λ (t : TrustPolicyAgent) (h : IsComplete t). observer_access_returned c t hc h in
    bind_returned (gate_tier caller c) _ (gate_tier_returned caller c hc) (λ tier.
      bind_returned (evaluate_contract_invitees c invitees) _
        (bind_returned (gate_tier caller c) _ (gate_tier_returned caller c hc) (λ tier'.
          bind_returned (blocked_targets (evaluate_generic_contract_invite c) _ invitees) _
            (blocked_returned _ invite _ invitees hi) (λ bs. refl)))
        (λ i.
          bind_returned (evaluate_contract_observers c observers) _
            (bind_returned (gate_tier caller c) _ (gate_tier_returned caller c hc) (λ tier'.
              bind_returned (blocked_targets (evaluate_observer_access c) _ observers) _
                (blocked_returned _ observe _ observers ho) (λ bs. refl)))
            (λ o. refl)))
