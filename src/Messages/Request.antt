-- ===== src/Messages/Request.antt =====
-- What the handler `POST` of src/app/api/v1/contracts/[id]/messages/route.ts reads of a request, and
-- the checks that it makes before it writes anything.
use a2a_comms.Common.{
  String, Bool, true, false, not, ◌&&◌, ◌||◌, Option, none, some, [], ◌∷◌, ◌==◌, leb, if◌then◌else◌,
  is_some, Text, codes, same_text,
}
use a2a_comms.Common.Json.{Json, null, text, object, Fields, no_fields, field}
use a2a_comms.Channel.{Checked, refused, valid, ValidatedQuestion, validate_needs_human}
use a2a_comms.Contract.{
  is_observer, is_request, consumes_turn, MessageType, message, request, response, update, receipt,
  approval, Contract, ErrorCode, not_found, forbidden, invalid_body, validation_error,
  empty_message, message_escaped_breaks, message_unstructured, schema_validation_error,
}
use a2a_comms.Contract.Store.{
  Action, pure, gets, guard, require, ◌>>=◌, ◌>>◌, Caller, refuse, reply,
}
use a2a_comms.Contract.Routes.{get_participant}
use a2a_comms.Messages.Attention.{
  resolve_requires_action, is_prose, validate_receipt_content, validate_completion_approval_content,
}
use a2a_comms.Messages.Structure.{
  validate_message_structure, StructureRefusal, escaped_breaks, unstructured,
}
use a2a_comms.Messages.Insert.{Draft}

pub record SendMessageRequest : Type 0 where
  pub message_type : Option Text
  pub content : Option Json
  pub requires_action : Option Bool
  pub needs_human : Option Json

-- The request's body: what `JSON.parse` refuses, or its fields.
pub data MessageBody : Type 0 where
  malformed : MessageBody
  parsed : SendMessageRequest → MessageBody

-- `toLowerCase` of the runtime, and `validateContent` on the contract's schema, which rests on zod.
-- The ids that the database gives to the message and to its question.
pub record Platform : Type 0 where
  pub lower : Text → Text
  pub accepts_content : Contract → Fields → Bool
  pub message_id : String
  pub question_id : String

unfoldable pub read_body : MessageBody → Action SendMessageRequest
read_body malformed s = (refuse 400 invalid_body, s)
read_body (parsed r) s = (reply r, s)

abbrev pub as_object : Option Json → Option Fields
as_object (some (object fs)) = some fs
as_object _ = none

-- Neither null nor a blank text.
unfoldable pub is_meaningful : Json → Bool
unfolding is_prose
is_meaningful null = false
is_meaningful (text s) = is_prose (some s)
is_meaningful _ = true

unfoldable pub has_substance : Fields → Bool
unfolding is_meaningful
has_substance no_fields = false
has_substance (field k v fs) =
    is_meaningful v && not (same_text k (codes "from")) && not (same_text k (codes "type"))
    || has_substance fs

named_type : Text → Option MessageType
named_type s =
    if same_text s (codes "message")
    then some message
    else if same_text s (codes "request")
    then some request
    else if same_text s (codes "response")
    then some response
    else if same_text s (codes "update")
    then some update
    else if same_text s (codes "status")
    then some MessageType.status
    else if same_text s (codes "receipt")
    then some receipt
    else if same_text s (codes "approval")
    then some approval
    else none

-- `parsed.message_type || 'message'`, if it is a valid one.
unfoldable pub message_type_of : Option Text → Option MessageType
unfolding named_type
message_type_of none = some message
message_type_of (some []) = some message
message_type_of (some (c ∷ s)) = named_type (c ∷ s)

abbrev pub is_approval : MessageType → Bool
is_approval approval = true
is_approval _ = false

-- `checkChannelWriteAccess` of src/lib/contract-operator-channel-server.ts
unfoldable pub check_channel_write_access : String → String → Action (Unit {0})
unfolding get_participant
check_channel_write_access id agent_id = do
  found ← gets (get_participant id agent_id)
  participant ← require found 404 not_found
  guard (not (is_observer participant.role)) 403 forbidden

unfoldable pub accept_question : Checked ValidatedQuestion → Action ValidatedQuestion
accept_question (refused st code) s = (refuse st code, s)
accept_question (valid q) s = (reply q, s)

unfoldable pub ask : String → Caller → MessageType → Json → Action (Option ValidatedQuestion)
unfolding accept_question check_channel_write_access validate_needs_human
ask id auth t input = do
  q ← accept_question (validate_needs_human input)
  guard (not (is_request t)) 400 validation_error
  check_channel_write_access id auth.id
  pure (some q)

-- The question that a message puts to a person, if it puts one.
unfoldable pub check_needs_human :
    String → Caller → MessageType → Option Json → Action (Option ValidatedQuestion)
unfolding ask
check_needs_human id auth t none = pure none
check_needs_human id auth t (some null) = pure none
check_needs_human id auth t (some input) = ask id auth t input

unfoldable pub is_valid_control : MessageType → Fields → Bool
unfolding validate_receipt_content validate_completion_approval_content
is_valid_control receipt content = validate_receipt_content content
is_valid_control approval content = validate_completion_approval_content content
is_valid_control _ content = true

unfoldable pub pass_structure : Option StructureRefusal → Action (Unit {0})
pass_structure none s = (reply tt, s)
pass_structure (some escaped_breaks) s = (refuse 400 message_escaped_breaks, s)
pass_structure (some unstructured) s = (refuse 400 message_unstructured, s)

-- The turn cap bounds the conversation, not the bookkeeping about it.
abbrev pub has_turn_left : MessageType → Contract → Bool
has_turn_left t c = not (consumes_turn t) || not (leb c.max_turns c.current_turns)

abbrev pub draft : String → Caller → MessageType → Fields → Bool → Draft
draft id auth t content requires_action = record {
  contract_id = id;
  sender_id = auth.id;
  message_type = t;
  content = content;
  approves_completion = is_approval t;
  requires_action = some requires_action;
}

-- The part of the route that reads the request: what is to be sent, and the question it puts.
unfoldable pub read_message :
    Platform → Caller → String → MessageBody → Contract → Action (Draft × Option ValidatedQuestion)
unfolding read_body has_substance message_type_of check_needs_human is_valid_control pass_structure
    validate_message_structure resolve_requires_action consumes_turn
read_message m auth id body checked = do
  sent ← read_body body
  content ← require (as_object sent.content) 400 validation_error
  guard (has_substance content) 400 empty_message
  t ← require (message_type_of sent.message_type) 400 validation_error
  asked ← check_needs_human id auth t sent.needs_human
  let requires_action =
      if is_some asked then false else resolve_requires_action t sent.requires_action
  guard (is_valid_control t content) 400 validation_error
  pass_structure (if consumes_turn t then validate_message_structure content else none)
  guard (has_turn_left t checked) 409 ErrorCode.max_turns
  guard (not (is_approval t) || auth.id == checked.proposer_id) 403 forbidden
  guard (not (consumes_turn t) || m.accepts_content checked content) 400 schema_validation_error
  pure (draft id auth t content requires_action, asked)
