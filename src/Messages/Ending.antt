-- ===== src/Messages/Ending.antt =====
-- A conversation comes to an end: the turns run out, and the proposer's approval closes what they
-- left open.
use a2a_comms.Common.{
  suc, ◌+◌, ◌≤◌, ◌<◌, String, ◌≡◌, refl, sym, ap, ◌∙◌, inl, inr, true, false, some, List, [], ◌∷◌,
  ◌++◌, arith, ◌==◌, Bool-cases, length, All,
}
use a2a_comms.Contract.{is_active, consumes_turn, Contract}
use a2a_comms.Contract.Store.{select_contract, Store}
use a2a_comms.Messages.Ledger.{
  play, view, move_of, IsLive, insert_all, play_all, insert_all_refines, Ledger, Call,
}

-- A message that takes a turn and approves nothing.
abbrev pub TakesTurn : Call → Type 0
TakesTurn x = (consumes_turn x.draft.message_type ≡ true) × (x.draft.approves_completion ≡ false)

-- What has ended moves no more.
ended_stays :
    (p : String) (xs : List Call) (l : Ledger)
    → l.running ≡ false
    → (play_all p xs l).running ≡ false
unfolding play
ended_stays p [] l h = h
ended_stays p (x ∷ xs) l h = ended_stays p xs (play (move_of p x.draft) l) (ground (arith, h))

play_turn :
    (p : String) (x : Call) (l : Ledger)
    → TakesTurn x
    → l.running ≡ true
    → l.taken < l.limit
    → ((play (move_of p x.draft) l).taken ≡ suc l.taken)
      × ((play (move_of p x.draft) l).limit ≡ l.limit)
unfolding play
play_turn p x l (turn, plain) runs left = (ground arith, ground arith)

-- After as many turns as were left, what still runs has none.
turns_run_out :
    (p : String) (xs : List Call) (l : Ledger)
    → All TakesTurn xs
    → l.taken + length xs ≡ l.limit
    → (play_all p xs l).running ≡ true
    → (play_all p xs l).limit ≤ (play_all p xs l).taken
turns_run_out p [] l all n runs = ground arith
turns_run_out p (x ∷ xs) l (this, rest) n runs = elim (Bool-cases l.running) [
  | inl going ↦
      let (t, m) = play_turn p x l this going (omega arith) in
      turns_run_out p xs (play (move_of p x.draft) l) rest (rw (t, m) (omega arith)) runs
  | inr over ↦ let stopped = ended_stays p (x ∷ xs) l over in cc (sym stopped ∙ runs)
]

approval_ends :
    (p : String) (y : Call) (l : Ledger)
    → y.draft.approves_completion ≡ true
    → consumes_turn y.draft.message_type ≡ false
    → (y.draft.sender_id == p) ≡ true
    → (l.running ≡ true → l.limit ≤ l.taken)
    → (play (move_of p y.draft) l).running ≡ false
unfolding play
approval_ends p y l approving free own spent_out = elim (Bool-cases l.running) [
  | inl going ↦ ground (arith, spent_out going)
  | inr over ↦ ground arith
]

play_all-++ :
    (p : String) (xs ys : List Call) (l : Ledger)
    → play_all p (xs ++ ys) l ≡ play_all p ys (play_all p xs l)
play_all-++ p [] ys l = refl
play_all-++ p (x ∷ xs) ys l = play_all-++ p xs ys (play (move_of p x.draft) l)

All-++ : {A : Type 0} (P : A → Type 0) (xs ys : List A) → All P xs → All P ys → All P (xs ++ ys)
All-++ P [] ys h k = k
All-++ P (x ∷ xs) ys (this, rest) k = (this, All-++ P xs ys rest k)

ledger_ends :
    (p : String) (xs : List Call) (y : Call) (l : Ledger)
    → All TakesTurn xs
    → l.taken + length xs ≡ l.limit
    → y.draft.approves_completion ≡ true
    → consumes_turn y.draft.message_type ≡ false
    → (y.draft.sender_id == p) ≡ true
    → (play_all p (xs ++ (y ∷ [])) l).running ≡ false
ledger_ends p xs y l turns n approving free own =
    rw (play_all-++ p xs (y ∷ []) l)
      (approval_ends p y (play_all p xs l) approving free own (turns_run_out p xs l turns n))

-- A contract that does not run without a turn left or an approval to wait for, gated or not: once as
-- many messages that take a turn were sent to it as it had turns left, whoever sent them, and then an
-- approval by its proposer, it is active no more.
pub conversation_ends :
    (id : String) (xs : List Call) (y : Call) (s : Store) (c : Contract)
    → All (λ x. x.draft.contract_id ≡ id) xs
    → y.draft.contract_id ≡ id
    → All TakesTurn xs
    → c.current_turns + length xs ≡ c.max_turns
    → y.draft.approves_completion ≡ true
    → consumes_turn y.draft.message_type ≡ false
    → (y.draft.sender_id == c.proposer_id) ≡ true
    → select_contract id s.contracts ≡ some c
    → IsLive (view c)
    → (e : Contract) × (select_contract id (insert_all (xs ++ (y ∷ [])) s).contracts ≡ some e)
      × (is_active e.status ≡ false)
conversation_ends id xs y s c on_id y_on turns n approving free own found live =
    let (e, at_e, shown) =
      insert_all_refines id (xs ++ (y ∷ [])) s c (All-++ _ xs (y ∷ []) on_id (y_on, tt)) found
        live in
    (
      e,
      at_e,
      ap (λ l. l.running) shown
          ∙ ledger_ends c.proposer_id xs y (view c) turns n approving free own,
    )
