-- ===== src/Messages/Reading.antt =====
-- The part of the send route that reads the request and checks it writes nothing.
use a2a_comms.Common.{ℕ, String, ◌≡◌, refl, ◌∙◌, Bool, true, false, Option, none, some}
use a2a_comms.Contract.{MessageType, Contract, ErrorCode}
use a2a_comms.Contract.Store.{
  Action, pure, gets, guard, require, ◌>>=◌, Store, Caller, Reply, refuse, reply,
}
use a2a_comms.Common.Json.{Json, null, object, array, text, number, boolean}
use a2a_comms.Channel.{Checked, refused, valid, ValidatedQuestion}
use a2a_comms.Messages.Request.{
  read_body, as_object, message_type_of, check_channel_write_access, accept_question, ask,
  check_needs_human, pass_structure, read_message, MessageBody, malformed, parsed, Platform,
}
use a2a_comms.Messages.Structure.{StructureRefusal, escaped_breaks, unstructured}

-- Whatever the reply, the store is the one that was found.
pub record Reads {A : Type 0} (m : Action A) : Type 0 where
  pub kept : (s : Store) → (m s).1 ≡ s

module _ {A : Type 0} where
  pub Reads-pure : (a : A) → Reads (pure a)
  unfolding pure
  Reads-pure a = record { kept = λ s. refl }

  pub Reads-gets : (f : Store → A) → Reads (gets f)
  unfolding gets
  Reads-gets f = record { kept = λ s. refl }

  pub Reads-require : (o : Option A) (st : ℕ) (c : ErrorCode) → Reads (require o st c)
  unfolding require
  Reads-require none st c = record { kept = λ s. refl }
  Reads-require (some a) st c = record { kept = λ s. refl }

pub Reads-guard : (b : Bool) (st : ℕ) (c : ErrorCode) → Reads (guard b st c)
unfolding guard
Reads-guard true st c = record { kept = λ s. refl }
Reads-guard false st c = record { kept = λ s. refl }

module _ {A B : Type 0} where
  continue_kept :
      (r : Reply A) (s t : Store) (f : A → Action B)
      → ((a : A) → Reads (f a))
      → t ≡ s
      → (let x : Reply B × Store = elim r [ reply a ↦ f a t | refuse st c ↦ (refuse st c, t) ] in
          x.1)
        ≡ s
  continue_kept (reply a) s t f kf e = (kf a).kept t ∙ e
  continue_kept (refuse st c) s t f kf e = e

  pub Reads-bind :
      (m : Action A) (f : A → Action B) → Reads m → ((a : A) → Reads (f a)) → Reads (m >>= f)
  unfolding ◌>>=◌
  Reads-bind m f km kf = record { kept = λ s. continue_kept (m s).0 s (m s).1 f kf (km.kept s) }

read_body-Reads : (b : MessageBody) → Reads (read_body b)
unfolding read_body
read_body-Reads malformed = record { kept = λ s. refl }
read_body-Reads (parsed r) = record { kept = λ s. refl }

pass_structure-Reads : (o : Option StructureRefusal) → Reads (pass_structure o)
unfolding pass_structure
pass_structure-Reads none = record { kept = λ s. refl }
pass_structure-Reads (some escaped_breaks) = record { kept = λ s. refl }
pass_structure-Reads (some unstructured) = record { kept = λ s. refl }

pub accept_question-Reads : (q : Checked ValidatedQuestion) → Reads (accept_question q)
unfolding accept_question
accept_question-Reads (refused st code) = record { kept = λ s. refl }
accept_question-Reads (valid q) = record { kept = λ s. refl }

pub check_channel-Reads : (id agent_id : String) → Reads (check_channel_write_access id agent_id)
unfolding check_channel_write_access
check_channel-Reads id agent_id =
    Reads-bind _ _ (Reads-gets _)
      (λ found. Reads-bind _ _ (Reads-require found _ _) (λ p. Reads-guard _ _ _))

ask-Reads : (id : String) (auth : Caller) (t : MessageType) (v : Json) → Reads (ask id auth t v)
unfolding ask
ask-Reads id auth t v = Reads-bind _ _ (accept_question-Reads _) (λ q.
    Reads-bind _ _ (Reads-guard _ _ _)
      (λ _. Reads-bind _ _ (check_channel-Reads id auth.id) (λ _. Reads-pure _)))

needs_human-Reads :
    (id : String) (auth : Caller) (t : MessageType) (v : Option Json)
    → Reads (check_needs_human id auth t v)
unfolding check_needs_human
needs_human-Reads id auth t none = Reads-pure none
needs_human-Reads id auth t (some null) = Reads-pure none
needs_human-Reads id auth t (some (boolean b)) = ask-Reads id auth t (boolean b)
needs_human-Reads id auth t (some (number n)) = ask-Reads id auth t (number n)
needs_human-Reads id auth t (some (text s)) = ask-Reads id auth t (text s)
needs_human-Reads id auth t (some (array xs)) = ask-Reads id auth t (array xs)
needs_human-Reads id auth t (some (object fs)) = ask-Reads id auth t (object fs)

pub read_message-Reads :
    (m : Platform) (auth : Caller) (id : String) (body : MessageBody) (c : Contract)
    → Reads (read_message m auth id body c)
unfolding read_message
read_message-Reads m auth id body c = Reads-bind _ _ (read_body-Reads body) (λ sent.
    Reads-bind _ _ (Reads-require (as_object sent.content) _ _) (λ content.
      Reads-bind _ _ (Reads-guard _ _ _) (λ _.
        Reads-bind _ _ (Reads-require (message_type_of sent.message_type) _ _) (λ t.
          Reads-bind _ _ (needs_human-Reads id auth t sent.needs_human) (λ asked.
            Reads-bind _ _ (Reads-guard _ _ _) (λ _. Reads-bind _ _ (pass_structure-Reads _) (λ _.
              Reads-bind _ _ (Reads-guard _ _ _) (λ _.
                Reads-bind _ _ (Reads-guard _ _ _)
                  (λ _. Reads-bind _ _ (Reads-guard _ _ _) (λ _. Reads-pure _))))))))))
