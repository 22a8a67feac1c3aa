-- ===== src/Messages/Attention.antt =====
-- src/lib/contract-message-notifications.ts: how the recipients of a message are to treat it.
-- `lower` is `toLowerCase`.
use a2a_comms.Common.{
  Bool, true, false, not, ◌&&◌, ◌||◌, Option, none, some, List, [], ◌∷◌, ◌++◌, map, eqb,
  if◌then◌else◌, get_or, length, any, Text, trim, codes, same_text, contains, ends_with,
}
use a2a_comms.Common.Json.{
  Json, boolean, text, array, object, Items, no_items, item, Fields, no_fields, field, get_field,
  as_text, as_boolean,
}
use a2a_comms.Contract.{MessageType, consumes_turn, is_request}

pub data ContractAsyncSignal : Type 0 where
  pending_approval waiting blocked completed : ContractAsyncSignal

pub data ContractAttention : Type 0 where
  signalled : ContractAsyncSignal → ContractAttention
  action_required informational for_the_record : ContractAttention

abbrev pub same_signal : ContractAsyncSignal → ContractAsyncSignal → Bool
same_signal pending_approval pending_approval = true
same_signal waiting waiting = true
same_signal blocked blocked = true
same_signal completed completed = true
same_signal _ _ = false

-- `signals.includes(s)`
abbrev pub has_signal : ContractAsyncSignal → List ContractAsyncSignal → Bool
has_signal s signals = any (same_signal s) signals

-- The first of the priorities that is among the signals, or what is said without one.
first_of :
    List ContractAsyncSignal → List ContractAsyncSignal → ContractAttention → ContractAttention
first_of [] signals default = default
first_of (s ∷ priorities) signals default =
    if has_signal s signals then signalled s else first_of priorities signals default

abbrev signal_priority : List ContractAsyncSignal
signal_priority = blocked ∷ pending_approval ∷ waiting ∷ completed ∷ []

unfoldable pub resolve_primary_attention :
    MessageType → List ContractAsyncSignal → Bool → ContractAttention
unfolding first_of consumes_turn
resolve_primary_attention t signals requires_action =
    if not (consumes_turn t)
    then for_the_record
    else first_of signal_priority signals
        (if requires_action then action_required else informational)

unfoldable pub resolve_requires_action : MessageType → Option Bool → Bool
unfolding consumes_turn
resolve_requires_action t requested =
    if not (consumes_turn t) then false else if is_request t then true else get_or requested true

-- A text that is not blank.
unfoldable pub is_prose : Option Text → Bool
unfolding trim
is_prose none = false
is_prose (some s) = not (eqb (length (trim s)) 0)

-- Whether the content says what it acknowledges.
unfoldable pub validate_receipt_content : Fields → Bool
unfolding is_prose
validate_receipt_content content = is_prose (as_text (get_field (codes "acknowledges") content))

-- `value === true`
abbrev is_true : Option Bool → Bool
is_true (some true) = true
is_true _ = false

unfoldable pub validate_completion_approval_content : Fields → Bool
validate_completion_approval_content content =
    is_true (as_boolean (get_field (codes "approves_completion") content))

-- `replace(/_/g, '-')`
abbrev pub dashes : Text → Text
dashes s = map (λ c. if eqb c 95 then 45 else c) s

unfoldable pub normalize : (lower : Text → Text) → Text → Text
unfolding trim
normalize lower s = dashes (lower (trim s))

abbrev one_of : List Text → Text → Bool
one_of ts s = any (same_text s) ts

unfoldable pub to_signal : Option Text → Option ContractAsyncSignal
to_signal none = none
to_signal (some s) =
    if same_text s (codes "pending-approval")
    then some pending_approval
    else if same_text s (codes "waiting")
    then some waiting
    else if same_text s (codes "blocked")
    then some blocked
    else if one_of
        (codes "completed"
          ∷ codes "complete"
          ∷ codes "done"
          ∷ codes "succeeded"
          ∷ codes "success"
          ∷ [])
        s
    then some completed
    else none

-- `truthy`: not JavaScript's, but the words for yes.
unfoldable pub is_affirmative : (lower : Text → Text) → Json → Bool
unfolding normalize
is_affirmative lower (boolean b) = b
is_affirmative lower (text s) =
    one_of
      (codes "true"
        ∷ codes "yes"
        ∷ codes "done"
        ∷ codes "completed"
        ∷ codes "blocked"
        ∷ codes "waiting"
        ∷ [])
      (normalize lower s)
is_affirmative lower _ = false

-- The signals found in one field.
abbrev when : Bool → ContractAsyncSignal → List ContractAsyncSignal
when b s = if b then s ∷ [] else []

abbrev listed : Option ContractAsyncSignal → List ContractAsyncSignal
listed none = []
listed (some s) = s ∷ []

names_state : Text → Bool
names_state k =
    same_text k (codes "status")
    || ends_with (codes "-status") k
    || same_text k (codes "state")
    || ends_with (codes "-state") k

normalized : (lower : Text → Text) → Json → Option Text
unfolding normalize
normalized lower (text s) = some (normalize lower s)
normalized lower _ = none

abbrev contains_in : Text → Option Text → Bool
contains_in s none = false
contains_in s (some t) = contains s t

unfoldable pub visit : (lower : Text → Text) → Text → Json → List ContractAsyncSignal
unfolding names_state normalized to_signal is_affirmative
visit lower key value =
    let k = dashes (lower key) in
    let v = normalized lower value in
    (if names_state k then listed (to_signal v) else [])
    ++ when (contains (codes "waiting") k && is_affirmative lower value) waiting
    ++ when (contains (codes "blocked") k && is_affirmative lower value) blocked
    ++ when (contains (codes "approval") k && contains_in (codes "pending") v) pending_approval
    ++ when (contains (codes "completed") k && is_affirmative lower value) completed

-- Every field of a value, at any depth, an object's own before those inside it.
unfoldable mutual
  pub walk : (lower : Text → Text) → Json → List ContractAsyncSignal
  walk lower (array xs) = walk_items lower xs
  walk lower (object fs) = walk_fields lower fs
  walk lower _ = []

  pub walk_items : (lower : Text → Text) → Items → List ContractAsyncSignal
  walk_items lower no_items = []
  walk_items lower (item x xs) = walk lower x ++ walk_items lower xs

  pub walk_fields : (lower : Text → Text) → Fields → List ContractAsyncSignal
  walk_fields lower no_fields = []
  walk_fields lower (field k v fs) = visit lower k v ++ walk lower v ++ walk_fields lower fs

-- A `Set` keeps the first of what is added twice.
abbrev pub distinct : List ContractAsyncSignal → List ContractAsyncSignal → List ContractAsyncSignal
distinct seen [] = []
distinct seen (s ∷ ss) =
    let rest = distinct seen ss in
    let more = distinct (s ∷ seen) ss in if has_signal s seen then rest else s ∷ more

unfoldable pub extract_signals : (lower : Text → Text) → Fields → List ContractAsyncSignal
unfolding walk_fields
extract_signals lower content = distinct [] (walk_fields lower content)
