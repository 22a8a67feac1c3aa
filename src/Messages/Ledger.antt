-- ===== src/Messages/Ledger.antt =====
-- What the database function promises of a contract's turns, without its rows: a ledger that runs
-- as long as it has a turn left or waits for its approval.
use a2a_comms.Common.{
  ℕ, ◌+◌, String, ◌≡◌, refl, inl, inr, Bool, true, false, not, ◌&&◌, ◌||◌, none, some, List, [],
  ◌∷◌, arith, ◌==◌, ltb, if◌then◌else◌, is_some, Bool-cases, Option-cases, All,
}
use a2a_comms.Contract.Store.{select_contract, Store}
use a2a_comms.Contract.{is_active, consumes_turn, Contract}
use a2a_comms.Messages.Accounting.{insert_into-row}
use a2a_comms.Messages.Insert.{
  write_contract, refusal, insert_message_atomic, RpcResult, error, success, Draft,
}

pub record Ledger : Type 0 where
  pub taken : ℕ
  pub limit : ℕ
  pub gated : Bool
  pub is_approved : Bool
  pub running : Bool

pub record Move : Type 0 where
  pub takes_turn : Bool
  pub approves : Bool
  pub by_proposer : Bool

-- A turn left, or an approval to wait for.
abbrev pub has_more : Ledger → Bool
has_more l = ltb l.taken l.limit || (l.gated && not l.is_approved)

abbrev pub settle : Ledger → Ledger
settle l = record l { running = has_more l }

abbrev pub may_move : Move → Ledger → Bool
may_move m l =
    l.running && (not m.takes_turn || ltb l.taken l.limit) && (not m.approves || m.by_proposer)

abbrev pub moved : Move → Ledger → Ledger
moved m l = settle (record l {
  taken = l.taken + (if m.takes_turn then 1 else 0);
  is_approved = l.is_approved || m.approves;
})

-- A move that may not be made changes nothing.
unfoldable pub play : Move → Ledger → Ledger
play m l = if may_move m l then moved m l else l

abbrev pub view : Contract → Ledger
view c = record {
  taken = c.current_turns;
  limit = c.max_turns;
  gated = c.completion_requires_approval;
  is_approved = is_some c.completion_approved_at;
  running = is_active c.status;
}

abbrev pub move_of : String → Draft → Move
move_of proposer_id d = record {
  takes_turn = consumes_turn d.message_type;
  approves = d.approves_completion;
  by_proposer = d.sender_id == proposer_id;
}

-- What runs has a reason to.
abbrev pub IsLive : Ledger → Type 0
IsLive l = l.running ≡ true → has_more l ≡ true

play-IsLive : (m : Move) (l : Ledger) → IsLive l → IsLive (play m l)
unfolding play
play-IsLive m l live = elim (Bool-cases (may_move m l)) [
  | inl may ↦ rw may (λ h. h)
  | inr barred ↦ rw barred live
]

refusal-may_move :
    (d : Draft) (c : Contract)
    → is_some (refusal d c) ≡ not (may_move (move_of c.proposer_id d) (view c))
unfolding refusal
refusal-may_move d c = ground arith

view-write_contract :
    (now : ℕ) (d : Draft) (c : Contract)
    → IsLive (view c)
    → refusal d c ≡ none
    → view (write_contract now d c c) ≡ moved (move_of c.proposer_id d) (view c)
unfolding refusal write_contract consumes_turn
view-write_contract now d c live free = ground arith

abbrev pub is_success : RpcResult → Bool
is_success (error e) = false
is_success (success r) = true

IsLive-still : (l k : Ledger) (m : Move) → k ≡ play m l → IsLive l → IsLive k
IsLive-still l k m e live = rw e (play-IsLive m l live)

-- One call: the row shows what the ledger plays, and the call succeeds when the move may be made.
insert-view :
    (now : ℕ) (id : String) (d : Draft) (s : Store) (c : Contract)
    → select_contract d.contract_id s.contracts ≡ some c
    → IsLive (view c)
    → (e : Contract) × (select_contract d.contract_id (insert_message_atomic now id d s).1.contracts
        ≡ some e)
      × (view e ≡ play (move_of c.proposer_id d) (view c))
      × (e.proposer_id ≡ c.proposer_id)
      × (is_success (insert_message_atomic now id d s).0
          ≡ may_move (move_of c.proposer_id d) (view c))
unfolding insert_message_atomic play write_contract
insert-view now id d s c found live = elim (Option-cases (refusal d c)) [
  | inl free ↦ (
    write_contract now d c c,
    rw (found, free) (insert_into-row now id d c s found),
    ground (arith, view-write_contract now d c live free, refusal-may_move d c, free),
    ground arith,
    ground (arith, found, free, refusal-may_move d c),
  )
  | inr (x, barred) ↦ (
    c,
    rw (found, barred) found,
    ground (arith, refusal-may_move d c, barred),
    refl,
    ground (arith, found, barred, refusal-may_move d c),
  )
]

-- A call, with the time and the id that the database gives it.
pub record Call : Type 0 where
  pub now : ℕ
  pub message_id : String
  pub draft : Draft

-- The calls on one contract, in the order in which they take its lock.
unfoldable pub insert_all : List Call → Store → Store
unfolding insert_message_atomic
insert_all [] s = s
insert_all (x ∷ xs) s = insert_all xs (insert_message_atomic x.now x.message_id x.draft s).1

abbrev pub play_all : String → List Call → Ledger → Ledger
play_all proposer_id [] l = l
play_all proposer_id (x ∷ xs) l = play_all proposer_id xs (play (move_of proposer_id x.draft) l)

played_on :
    (l k j : Ledger) (p q : String) (xs : List Call)
    → q ≡ p
    → k ≡ j
    → l ≡ play_all q xs k
    → l ≡ play_all p xs j
played_on l k j p q xs same shown played = rw (played, same, shown) refl

-- Whatever messages are sent to a contract, in the order in which they take its lock, refused ones
-- included, if it does not run without a turn left or an approval to wait for: its row shows what a
-- ledger of turns shows after the same moves. On the ledger a move is made if the contract runs, has
-- the turn that it takes and, where it approves, is its proposer's; and after a move that
-- is made the contract runs exactly while it has a turn left or is gated and not approved.
pub insert_all_refines :
    (id : String) (xs : List Call) (s : Store) (c : Contract)
    → All (λ x. x.draft.contract_id ≡ id) xs
    → select_contract id s.contracts ≡ some c
    → IsLive (view c)
    → (e : Contract) × (select_contract id (insert_all xs s).contracts ≡ some e)
      × (view e ≡ play_all c.proposer_id xs (view c))
unfolding insert_all
insert_all_refines id [] s c on_id found live = (c, found, refl)
insert_all_refines id (x ∷ xs) s c (here, rest) found live =
    let (b, at_b, shown, same, ok) =
      insert-view x.now x.message_id x.draft s c (rw here found) live in
    let (e, at_e, played) =
      insert_all_refines id xs (insert_message_atomic x.now x.message_id x.draft s).1 b rest
        (rw (← here) at_b) (IsLive-still (view c) (view b) _ shown live) in
    (e, at_e, played_on (view e) (view b) _ c.proposer_id b.proposer_id xs same shown played)
