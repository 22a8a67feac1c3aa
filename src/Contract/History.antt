-- ===== src/Contract/History.antt =====
-- What a contract's row may go through, and the actions that keep to it.
use a2a_comms.Common.{
  ◌∙◌, ℕ, ◌+◌, ◌≤◌, String, ◌≡◌, refl, inl, inr, Bool, true, false, ◌&&◌, Option, none, some, List,
  [], ◌∷◌, arith, ◌==◌, if◌then◌else◌, is_some, Bool-cases, update_where,
}
use a2a_comms.Contract.Store.{
  Action, pure, gets, modify, guard, require, ◌>>=◌, select_contract, update_contract,
  update_participant, Message, Store, Reply, refuse, reply,
}
use a2a_comms.Contract.{ContractStatus, proposed, active, closed, Contract, Participant, ErrorCode}

-- Proposed may become anything, active may close, and what has ended stays as it ended.
unfoldable pub may_become : ContractStatus → ContractStatus → Bool
may_become proposed _ = true
may_become active active = true
may_become active closed = true
may_become active _ = false
may_become ContractStatus.rejected ContractStatus.rejected = true
may_become ContractStatus.rejected _ = false
may_become ContractStatus.expired ContractStatus.expired = true
may_become ContractStatus.expired _ = false
may_become ContractStatus.cancelled ContractStatus.cancelled = true
may_become ContractStatus.cancelled _ = false
may_become closed closed = true
may_become closed _ = false

-- The later row is the same contract: its status moved along the diagram, no turn was given back,
-- no turn spent past the limit, its terms stand, and an approval that was recorded is still the same.
pub record History (c d : Contract) : Type 0 where
  pub same_id : d.id ≡ c.id
  pub moved : may_become c.status d.status ≡ true
  pub turns_kept : c.current_turns ≤ d.current_turns
  pub budget_kept : c.current_turns ≤ c.max_turns → d.current_turns ≤ d.max_turns
  pub same_terms :
      (d.max_turns ≡ c.max_turns)
      × (d.proposer_id ≡ c.proposer_id)
      × (d.completion_requires_approval ≡ c.completion_requires_approval)
  pub approval_kept :
      is_some c.completion_approved_at ≡ true → d.completion_approved_at ≡ c.completion_approved_at

pub History-refl : (c : Contract) → History c c
unfolding may_become
History-refl c = ground arith

pub History-trans : (c d e : Contract) → History c d → History d e → History c e
unfolding may_become
History-trans c d e h k = ground arith

-- A step on the row that spends no turn.
abbrev pub Quiet : Contract → Contract → Type 0
Quiet c d = History c d × (d.current_turns ≡ c.current_turns)

pub Quiet-refl : (c : Contract) → Quiet c c
Quiet-refl c = (History-refl c, refl)

-- Every contract of the first table is in the second, with no turn spent between.
abbrev pub Succeeds : List Contract → List Contract → Type 0
Succeeds cs ds =
    (id : String) (c : Contract)
    → select_contract id cs ≡ some c
    → (d : Contract) × (select_contract id ds ≡ some d) × Quiet c d

pub Succeeds-refl : (cs : List Contract) → Succeeds cs cs
Succeeds-refl cs id c h = (c, h, Quiet-refl c)

-- The messages of a contract that took a turn.
abbrev pub spent : String → List Message → ℕ
spent id [] = 0
spent id (m ∷ ms) = (if m.contract_id == id && m.consumes_turn then 1 else 0) + spent id ms

-- Every contract of the first store is in the second, with a history between, and what its count
-- of turns grew by is the number of messages that took one.
pub record Follows (s t : Store) : Type 0 where
  pub row :
      (id : String) (c : Contract)
      → select_contract id s.contracts ≡ some c
      → (d : Contract) × (select_contract id t.contracts ≡ some d)
        × History c d
        × (d.current_turns + spent id s.messages ≡ c.current_turns + spent id t.messages)

pub Follows-refl : (s : Store) → Follows s s
Follows-refl s = record { row = λ id c h. (c, h, History-refl c, refl) }

pub Follows-trans : {r s t : Store} → Follows r s → Follows s t → Follows r t
Follows-trans {r} {s} {t} h k = record {
  row = λ id a e.
      let (b, f, hb, nb) = h.row id a e in
      let (c, g, hc, nc) = k.row id b f in (c, g, History-trans a b c hb hc, omega arith);
}

-- A step that writes no message.
pub quiet-Follows :
    {s t : Store} → t.messages ≡ s.messages → Succeeds s.contracts t.contracts → Follows s t
quiet-Follows {s} {t} same h = record {
  row = λ id c e. let (d, found, (k, n)) = h id c e in (d, found, k, rw (same, n) refl);
}

-- A step that leaves both tables.
pub record Same (s t : Store) : Type 0 where
  pub contracts_kept : t.contracts ≡ s.contracts
  pub messages_kept : t.messages ≡ s.messages

pub Same-refl : (s : Store) → Same s s
Same-refl s = record { contracts_kept = refl; messages_kept = refl }

pub Same-trans : {r s t : Store} → Same r s → Same s t → Same r t
Same-trans h k = record {
  contracts_kept = k.contracts_kept ∙ h.contracts_kept;
  messages_kept = k.messages_kept ∙ h.messages_kept;
}

pub Follows-Same : {s t : Store} → Same s t → Follows s t
Follows-Same {s} {t} h = record {
  row = λ id c e. (c, rw h.contracts_kept e, History-refl c, rw h.messages_kept refl);
}

pub update_where-Succeeds :
    (p : Contract → Bool) (f : Contract → Contract) (cs : List Contract)
    → ((c : Contract) → p c ≡ true → Quiet c (f c))
    → Succeeds cs (update_where p f cs)
update_where-Succeeds p f [] keep id c e = cc
update_where-Succeeds p f (x ∷ cs) keep id c e = elim (Bool-cases (x.id == id)) [
  | inl here ↦ elim (Bool-cases (p x)) [
    | inl hit ↦ (f x, ground (arith, (keep x hit).0.same_id), ground (arith, keep x hit))
    | inr miss ↦ (x, ground arith, ground (arith, Quiet-refl x))
  ]
  | inr below ↦
      let (d, found, h) = update_where-Succeeds p f cs keep id c (ground arith) in
      elim (Bool-cases (p x)) [
        | inl hit ↦ (d, ground (arith, (keep x hit).0.same_id), h)
        | inr miss ↦ (d, ground arith, h)
      ]
]

-- Whatever the reply, the store that the action leaves follows the one that it found.
pub record Keeps {A : Type 0} (m : Action A) : Type 0 where
  pub at : (s : Store) → Follows s (m s).1

module _ {A : Type 0} where
  pub Keeps-pure : (a : A) → Keeps (pure a)
  unfolding pure
  Keeps-pure a = record { at = λ s. Follows-refl s }

  pub Keeps-gets : (f : Store → A) → Keeps (gets f)
  unfolding gets
  Keeps-gets f = record { at = λ s. Follows-refl s }

  pub Keeps-require : (o : Option A) (st : ℕ) (c : ErrorCode) → Keeps (require o st c)
  unfolding require
  Keeps-require none st c = record { at = λ s. Follows-refl s }
  Keeps-require (some a) st c = record { at = λ s. Follows-refl s }

  pub Keeps-if : (b : Bool) (m n : Action A) → Keeps m → Keeps n → Keeps (if b then m else n)
  Keeps-if true m n km kn = km
  Keeps-if false m n km kn = kn

pub Keeps-guard : (b : Bool) (st : ℕ) (c : ErrorCode) → Keeps (guard b st c)
unfolding guard
Keeps-guard true st c = record { at = λ s. Follows-refl s }
Keeps-guard false st c = record { at = λ s. Follows-refl s }

pub Keeps-modify : (f : Store → Store) → ((s : Store) → Follows s (f s)) → Keeps (modify f)
unfolding modify
Keeps-modify f h = record { at = h }

pub Keeps-update_contract :
    (p : Contract → Bool) (f : Contract → Contract)
    → ((c : Contract) → p c ≡ true → Quiet c (f c))
    → Keeps (update_contract p f)
unfolding update_contract
Keeps-update_contract p f keep = record {
  at = λ s. quiet-Follows refl (update_where-Succeeds p f s.contracts keep);
}

pub Keeps-update_participant :
    (p : Participant → Bool) (f : Participant → Participant) → Keeps (update_participant p f)
unfolding update_participant
Keeps-update_participant p f = record {
  at = λ s. Follows-Same (record { contracts_kept = refl; messages_kept = refl });
}

module _ {A B : Type 0} where
  Keeps-continue :
      (r : Reply A) (s : Store) (f : A → Action B)
      → ((a : A) → Keeps (f a))
      → Follows s (
          let x : Reply B × Store = elim r [ reply a ↦ f a s | refuse st c ↦ (refuse st c, s) ] in
          x.1)
  Keeps-continue (reply a) s f kf = (kf a).at s
  Keeps-continue (refuse st c) s f kf = Follows-refl s

  -- At one store, the first action may use what is known of it.
  pub bind-Follows :
      (m : Action A) (f : A → Action B) (s : Store)
      → Follows s (m s).1
      → ((a : A) → Keeps (f a))
      → Follows s ((m >>= f) s).1
  unfolding ◌>>=◌
  bind-Follows m f s hm kf = Follows-trans hm (Keeps-continue (m s).0 (m s).1 f kf)

  pub Keeps-bind :
      (m : Action A) (f : A → Action B) → Keeps m → ((a : A) → Keeps (f a)) → Keeps (m >>= f)
  Keeps-bind m f km kf = record { at = λ s. bind-Follows m f s (km.at s) kf }
