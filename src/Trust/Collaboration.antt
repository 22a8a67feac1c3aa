-- ===== src/Trust/Collaboration.antt =====
-- The contract gate of src/lib/trust-tiers.ts over all invitees and observers.
use a2a_comms.Common.{
  String, ◌≡◌, refl, sym, ap, ◌∙◌, ◌≢◌, ◌↔◌, ◌⊎◌, inl, inr, Bool, true, not, ◌||◌, List, [], ◌∷◌,
  map, arith, eq_iff, Bool-cases, filter, All,
}
use a2a_comms.Trust.{
  normalize_agent_trust_tier, ◌>>=◌, is_external, gate_tier, owners_agree, evaluate_observer_access,
  evaluate_generic_contract_invite, AgentTrustTier, external, Column, text, TrustPolicyAgent,
  caller, Gate, throws, returns, TrustGateResult,
}
use a2a_comms.Trust.Contracts.{
  blocked_targets, evaluate_contract_invitees, evaluate_contract_observers,
  evaluate_contract_collaboration, BlockedTarget, MultiTargetTrustGateResult,
  ContractCollaborationGateResult, multi_target_result, collaboration_result,
}

-- The target's tier is not external, or both rows name one owner.
abbrev pub MayReceive : TrustPolicyAgent → TrustPolicyAgent → Type 0
MayReceive c t =
    (normalize_agent_trust_tier t.trust_tier ≢ external)
    ⊎ ((o : String) × (o ≢ "") × (c.owner_user_id ≡ text o) × (t.owner_user_id ≡ text o))

agree_of_same :
    (a b : Column) (o : String) → o ≢ "" → a ≡ text o → b ≡ text o → owners_agree a b ≡ true
agree_of_same a b o n p q = rw (p, q) (ground (arith, eq_iff o "", eq_iff o o))

same_of_agree :
    (a b : Column) → owners_agree a b ≡ true → (o : String) × (o ≢ "") × (a ≡ text o) × (b ≡ text o)
same_of_agree (text a) (text b) h =
    (a, ground (arith, eq_iff a "", eq_iff a b), refl, ground (arith, eq_iff a b))
same_of_agree _ _ h = cc

-- The decision of the two gates, as a test.
abbrev pub may_receive : TrustPolicyAgent → TrustPolicyAgent → Bool
may_receive c t =
    not (is_external (normalize_agent_trust_tier t.trust_tier))
    || owners_agree c.owner_user_id t.owner_user_id

may_receive→MayReceive : (c t : TrustPolicyAgent) → may_receive c t ≡ true → MayReceive c t
may_receive→MayReceive c t h = elim (Bool-cases (owners_agree c.owner_user_id t.owner_user_id)) [
  | inl same ↦ inr (same_of_agree c.owner_user_id t.owner_user_id same)
  | inr other ↦ inl (ground arith)
]

MayReceive→may_receive : (c t : TrustPolicyAgent) → MayReceive c t → may_receive c t ≡ true
MayReceive→may_receive c t (inl near) = ground arith
MayReceive→may_receive c t (inr (o, n, p, q)) =
    ground (arith, agree_of_same c.owner_user_id t.owner_user_id o n p q)

generic_invite_decides :
    (c t : TrustPolicyAgent) (r : TrustGateResult)
    → evaluate_generic_contract_invite c t ≡ returns r
    → r.allowed ≡ may_receive c t
unfolding evaluate_generic_contract_invite
generic_invite_decides c t r h = ground arith

observer_access_decides :
    (c t : TrustPolicyAgent) (r : TrustGateResult)
    → evaluate_observer_access c t ≡ returns r
    → r.allowed ≡ may_receive c t
unfolding evaluate_observer_access
observer_access_decides c t r h = ground arith

>>=-eq-returns {ℓ κ} :
    {A : Type ℓ} {B : Type κ} (m : Gate A) (f : A → Gate B) {b : B}
    → (m >>= f) ≡ returns b
    → (a : A) × (m ≡ returns a) × (f a ≡ returns b)
>>=-eq-returns (throws e) f h = cc
>>=-eq-returns (returns a) f h = (a, refl, h)

-- What the `flatMap` returns, for a gate that decides by the test `decide`.
module _ (gate : TrustPolicyAgent → Gate TrustGateResult) (decide : TrustPolicyAgent → Bool)
    (decides : (t : TrustPolicyAgent) (r : TrustGateResult)
      → gate t ≡ returns r
      → r.allowed ≡ decide t) where
  blocked_ids :
      (fallback : String) (ts : List TrustPolicyAgent) (bs : List BlockedTarget)
      → blocked_targets gate fallback ts ≡ returns bs
      → map (λ b. b.id) bs ≡ map (λ t. t.id) (filter (λ t. not (decide t)) ts)
  unfolding blocked_targets
  blocked_ids fallback [] bs h = ground arith
  blocked_ids fallback (t ∷ ts) bs h =
      let (g, ran, h') = >>=-eq-returns (gate t) _ h in
      let (rest, later, last) = >>=-eq-returns (blocked_targets gate fallback ts) _ h' in
      ground (arith, decides t g ran, blocked_ids fallback ts rest later)

abbrev pub ids_of_blocked : List BlockedTarget → List String
ids_of_blocked = map (λ b. b.id)

-- The ids of the targets that may not receive the proposal, in order.
abbrev pub ids_of_refused : TrustPolicyAgent → List TrustPolicyAgent → List String
ids_of_refused c ts = map (λ t. t.id) (filter (λ t. not (may_receive c t)) ts)

every-refused :
    (c : TrustPolicyAgent) (ts : List TrustPolicyAgent)
    → ids_of_refused c ts ≡ []
    → All (MayReceive c) ts
every-refused c [] h = tt
every-refused c (t ∷ ts) h = elim (Bool-cases (may_receive c t)) [
  | inl may ↦ (may_receive→MayReceive c t may, every-refused c ts (ground arith))
  | inr not_may ↦ absurd (ground arith)
]

refused-every :
    (c : TrustPolicyAgent) (ts : List TrustPolicyAgent)
    → All (MayReceive c) ts
    → ids_of_refused c ts ≡ []
refused-every c [] h = refl
refused-every c (t ∷ ts) (h, hs) =
    ground (arith, MayReceive→may_receive c t h, refused-every c ts hs)

-- What the two lists of a collaboration gate's result hold, before the code looks at them.
abbrev IsDecided : TrustPolicyAgent → List TrustPolicyAgent → MultiTargetTrustGateResult → Type 0
IsDecided c ts r =
    (ids_of_blocked r.blocked_targets ≡ ids_of_refused c ts)
    × ((r.allowed ≡ true) ↔ (r.blocked_targets ≡ []))

result_IsDecided :
    (c : TrustPolicyAgent) (ts : List TrustPolicyAgent) (tier : AgentTrustTier)
    (bs : List BlockedTarget) (r : MultiTargetTrustGateResult)
    → multi_target_result tier bs ≡ r
    → ids_of_blocked bs ≡ ids_of_refused c ts
    → IsDecided c ts r
result_IsDecided c ts tier [] r h same = (ground arith, ground arith)
result_IsDecided c ts tier (b ∷ bs) r h same = (ground arith, ground arith)

invitees_decide :
    (c : TrustPolicyAgent) (ts : List TrustPolicyAgent) (r : MultiTargetTrustGateResult)
    → evaluate_contract_invitees c ts ≡ returns r
    → IsDecided c ts r
unfolding evaluate_contract_invitees
invitees_decide c ts r h =
    let gate = evaluate_generic_contract_invite c in
    let (tier, ran, h') = >>=-eq-returns (gate_tier caller c) _ h in
    let (bs, later, last) = >>=-eq-returns (blocked_targets gate _ ts) _ h' in
    let same = blocked_ids gate (may_receive c) (generic_invite_decides c) _ ts bs later in
    result_IsDecided c ts tier bs r (cc) same

observers_decide :
    (c : TrustPolicyAgent) (ts : List TrustPolicyAgent) (r : MultiTargetTrustGateResult)
    → evaluate_contract_observers c ts ≡ returns r
    → IsDecided c ts r
unfolding evaluate_contract_observers
observers_decide c ts r h =
    let gate = evaluate_observer_access c in
    let (tier, ran, h') = >>=-eq-returns (gate_tier caller c) _ h in
    let (bs, later, last) = >>=-eq-returns (blocked_targets gate _ ts) _ h' in
    let same = blocked_ids gate (may_receive c) (observer_access_decides c) _ ts bs later in
    result_IsDecided c ts tier bs r (cc) same

ids-eq-nil : (bs : List BlockedTarget) → ids_of_blocked bs ≡ [] → bs ≡ []
ids-eq-nil [] h = refl
ids-eq-nil (b ∷ bs) h = absurd (ground arith)

allowed_of_every :
    (c : TrustPolicyAgent) (ts : List TrustPolicyAgent) (r : MultiTargetTrustGateResult)
    → IsDecided c ts r
    → (r.allowed ≡ true) ↔ All (MayReceive c) ts
allowed_of_every c ts r (same, (to, from)) = (
  λ a. every-refused c ts (sym same ∙ ap ids_of_blocked (to a)),
  λ e. from (ids-eq-nil r.blocked_targets (same ∙ refused-every c ts e)),
)

collaboration_result_lem :
    (c : TrustPolicyAgent) (invitees observers : List TrustPolicyAgent) (tier : AgentTrustTier)
    (i o : MultiTargetTrustGateResult) (g : ContractCollaborationGateResult)
    → collaboration_result tier i o ≡ g
    → IsDecided c invitees i
    → IsDecided c observers o
    → ((g.allowed ≡ true) ↔ (All (MayReceive c) invitees × All (MayReceive c) observers))
      × (ids_of_blocked g.blocked_invitees ≡ ids_of_refused c invitees)
      × (ids_of_blocked g.blocked_observers ≡ ids_of_refused c observers)
collaboration_result_lem c invitees observers tier i o g h di do' =
    let every_i = allowed_of_every c invitees i di in
    let every_o = allowed_of_every c observers o do' in
    elim (Bool-cases i.allowed) [
      | inl yes_i ↦ elim (Bool-cases o.allowed) [
        | inl yes_o ↦ (
          (λ _. (every_i.0 yes_i, every_o.0 yes_o), λ _. ground arith),
          ground (arith, refused-every c invitees (every_i.0 yes_i)),
          ground (arith, refused-every c observers (every_o.0 yes_o)),
        )
        | inr no_o ↦ (
          (λ a. absurd (ground arith), λ e. absurd (ground (arith, every_o.1 e.1))),
          ground arith,
          ground arith,
        )
      ]
      | inr no_i ↦ (
        (λ a. absurd (ground arith), λ e. absurd (ground (arith, every_i.1 e.0))),
        ground arith,
        ground arith,
      )
    ]

-- A run of the contract gate that returns allows the contract exactly when every invitee and every
-- observer may receive it: its tier is not external, or caller and target name one owner that is
-- not empty. Allowed or not, it lists as blocked exactly the ids of those that may not, in order.
pub collaboration_allowed_iff :
    (c : TrustPolicyAgent) (invitees observers : List TrustPolicyAgent)
    (g : ContractCollaborationGateResult)
    → evaluate_contract_collaboration c invitees observers ≡ returns g
    → ((g.allowed ≡ true) ↔ (All (MayReceive c) invitees × All (MayReceive c) observers))
      × (ids_of_blocked g.blocked_invitees ≡ ids_of_refused c invitees)
      × (ids_of_blocked g.blocked_observers ≡ ids_of_refused c observers)
unfolding evaluate_contract_collaboration
collaboration_allowed_iff c invitees observers g h =
    let (tier, ran, h1) = >>=-eq-returns (gate_tier caller c) _ h in
    let (i, ran_i, h2) = >>=-eq-returns (evaluate_contract_invitees c invitees) _ h1 in
    let (o, ran_o, h3) = >>=-eq-returns (evaluate_contract_observers c observers) _ h2 in
    collaboration_result_lem c invitees observers tier i o g (cc)
      (invitees_decide c invitees i ran_i) (observers_decide c observers o ran_o)
