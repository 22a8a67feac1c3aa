-- ===== src/Contract/Interleavings.antt =====
-- Requests on the contracts, one inside another: while a route is between its read and its guarded
-- write, any run of further requests may take place.
use a2a_comms.Channel.Ask.{QuestionBody, post_question, post_question-Keeps}
use a2a_comms.Common.{ℕ, ◌≤◌, String, ◌≡◌, refl, true, some, arith}
use a2a_comms.Contract.{Contract}
use a2a_comms.Contract.Store.{◌>>=◌, select_contract, update_contract, Store, Caller}
use a2a_comms.Contract.History.{spent, Follows-refl, Follows-trans, Follows}
use a2a_comms.Messages.Request.{Platform, MessageBody}
use a2a_comms.Messages.Send.{post_message}
use a2a_comms.Messages.Accounting.{post_message-Keeps}
use a2a_comms.Contract.Routes.{
  expiry_status, expiry_reason, expire, is_due, auto_close_if_expired, accept, reject, cancel,
}
use a2a_comms.Contract.Close.{close, CloseBody}
use a2a_comms.Contract.Lifecycle.{cancel-Keeps, accept-Keeps, reject-Keeps, close-Keeps}
use a2a_comms.Contract.Writes.{update_hit, emit_contracts, auto_close-Follows}

-- A run takes one store to another. `others` is a run too, from whatever store it starts in.
pub data Runs : Store → Store → Type 0 where
  rests : {s : Store} → Runs s s
  before : {r s t : Store} → Runs r s → Runs s t → Runs r t
  accepts :
      (others : ℕ → Store → Store) (now : ℕ) (auth : Caller) (id : String) (s : Store)
      → ((n : ℕ) (t : Store) → Runs t (others n t))
      → Runs s (accept others now auth id s).1
  rejects :
      (others : ℕ → Store → Store) (now : ℕ) (auth : Caller) (id : String) (s : Store)
      → ((n : ℕ) (t : Store) → Runs t (others n t))
      → Runs s (reject others now auth id s).1
  cancels :
      (others : Store → Store) (now : ℕ) (auth : Caller) (id : String) (s : Store)
      → ((t : Store) → Runs t (others t))
      → Runs s (cancel others now auth id s).1
  closes :
      (others : Store → Store) (now : ℕ) (auth : Caller) (id : String) (b : CloseBody) (s : Store)
      → ((t : Store) → Runs t (others t))
      → Runs s (close others now auth id b s).1
  sends :
      (m : Platform) (others : Store → Store) (now : ℕ) (auth : Caller) (id : String)
      (b : MessageBody) (s : Store)
      → ((t : Store) → Runs t (others t))
      → Runs s (post_message m others now auth id b s).1
  asks :
      (qid : String) (auth : Caller) (id : String) (b : QuestionBody) (s : Store)
      → Runs s (post_question qid auth id b s).1
  expires :
      (now : ℕ) (c : Contract) (s : Store)
      → select_contract c.id s.contracts ≡ some c
      → Runs s (auto_close_if_expired (λ t. t) now c s).1

-- Whatever accept, reject, cancel, close, send and question requests ran, in whatever interleaving of reads
-- and guarded writes, whatever they replied, and with expiry checks that nobody interrupts between
-- their read and their unguarded write: every contract is still there under its id, its status
-- moved along the life cycle (one that had ended stays as it ended), no turn was given back or spent
-- past the limit, its turn limit, proposer and completion gate stand, a recorded completion approval
-- is the same, and its count of turns grew by the number of turn messages stored for it.
pub life_cycle_kept : (s t : Store) → Runs s t → Follows s t
life_cycle_kept s t rests = Follows-refl s
life_cycle_kept s t (before {s = m} first next) =
    Follows-trans (life_cycle_kept s m first) (life_cycle_kept m t next)
life_cycle_kept s t (accepts others now auth id r polite) =
    (accept-Keeps others (λ n u. life_cycle_kept u (others n u) (polite n u)) now auth id).at s
life_cycle_kept s t (rejects others now auth id r polite) =
    (reject-Keeps others (λ n u. life_cycle_kept u (others n u) (polite n u)) now auth id).at s
life_cycle_kept s t (cancels others now auth id r polite) =
    (cancel-Keeps others (λ u. life_cycle_kept u (others u) (polite u)) now auth id).at s
life_cycle_kept s t (closes others now auth id body r polite) =
    (close-Keeps others (λ u. life_cycle_kept u (others u) (polite u)) now auth id body).at s
life_cycle_kept s t (sends m others now auth id body r polite) =
    (post_message-Keeps m others now auth id body (λ u. life_cycle_kept u (others u) (polite u))).at
      s
life_cycle_kept s t (asks qid auth id body r) = (post_question-Keeps qid auth id body).at s
life_cycle_kept s t (expires now c r found) = auto_close-Follows now c s found

-- However requests ran on a store where the turns counted for a contract were its turn messages and
-- within its limit: the contract is there, its turns are again its turn messages, and they are
-- within the limit that it had.
pub turns_bounded :
    (s t : Store) (id : String) (c : Contract)
    → Runs s t
    → select_contract id s.contracts ≡ some c
    → c.current_turns ≡ spent id s.messages
    → c.current_turns ≤ c.max_turns
    → (d : Contract) × (select_contract id t.contracts ≡ some d)
      × (d.current_turns ≡ spent id t.messages)
      × (spent id t.messages ≤ c.max_turns)
turns_bounded s t id c run found counted within =
    let (d, at_t, h, n) = (life_cycle_kept s t run).row id c found in
    let kept = h.budget_kept within in
    let terms = h.same_terms.0 in (d, at_t, omega arith, omega arith)

-- When the expiry check writes, it writes over whatever the row has become since it was read, an
-- ended contract included: the row it leaves is that one, with the status and the closing fields of
-- an expiry.
pub expiry_overwrites :
    (others : Store → Store) (now : ℕ) (c d : Contract) (s : Store)
    → is_due now c ≡ true
    → select_contract c.id (others s).contracts ≡ some d
    → select_contract c.id (auto_close_if_expired others now c s).1.contracts
      ≡ some (expire now (expiry_status c.status) (expiry_reason c.status) d)
unfolding auto_close_if_expired ◌>>=◌ update_contract
expiry_overwrites others now c d s due found =
    rw (due, emit_contracts)
      (update_hit c.id (expire now _ _) (others s).contracts d (λ x. refl) found)
