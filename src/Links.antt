-- ===== src/Links.antt =====
-- Links between contracts: src/lib/contract-links.ts, with the table `contract_links` and the trigger
-- that guards it (migrations/20260918070000_contract_links.sql). A row reads "`from_contract_id`
-- `link_type` `to_contract_id`". An id is a text; `lower` is `toLowerCase`.
pub mod Acyclic
pub mod Related
pub mod Batch
pub mod Undo
mod Examples
use a2a_comms.Common.{
  ℕ, zero, suc, Bool, true, false, not, ◌&&◌, ◌||◌, Option, none, some, List, [], ◌∷◌, ltb, leb,
  eqb, if◌then◌else◌, get_or, is_some, length, filter, any, Text, trim, codes, same_text,
}
use a2a_comms.Common.Json.{Json, null, text, Fields, get_field, as_text}
use a2a_comms.Contract.{ParticipantRole, is_observer}

pub data LinkType : Type 0 where
  continues supersedes delegates_to : LinkType

pub data LinkError : Type 0 where
  validation_error contract_link_self contract_link_type_invalid not_found forbidden : LinkError
  contract_link_cycle db_error : LinkError

pub record LinkRefusal : Type 0 where
  pub status : ℕ
  pub code : LinkError

abbrev refusal : ℕ → LinkError → LinkRefusal
refusal st c = record { status = st; code = c }

pub data Validated {ℓ} (A : Type ℓ) : Type ℓ where
  refused : LinkRefusal → Validated A
  ok : A → Validated A

pub record ValidatedLinkRequest : Type 0 where
  pub to_contract_id : Text
  pub link_type : LinkType
  pub note : Option Text

-- `[0-9a-f]`, in either case
abbrev is_hex : ℕ → Bool
is_hex c = (leb 48 c && leb c 57) || (leb 97 c && leb c 102) || (leb 65 c && leb c 70)

-- Runs of hexadecimal digits of these lengths, with a dash between two of them.
hex_runs : List ℕ → Text → Bool
hex_runs [] s = false
hex_runs (zero ∷ []) s = eqb (length s) 0
hex_runs (zero ∷ n ∷ ns) [] = false
hex_runs (zero ∷ n ∷ ns) (c ∷ s) = eqb c 45 && hex_runs (n ∷ ns) s
hex_runs (suc k ∷ ns) [] = false
hex_runs (suc k ∷ ns) (c ∷ s) = is_hex c && hex_runs (k ∷ ns) s

unfoldable pub is_uuid : Text → Bool
unfolding hex_runs
is_uuid s = hex_runs (8 ∷ 4 ∷ 4 ∷ 4 ∷ 12 ∷ []) s

link_type_of_text : Text → Option LinkType
link_type_of_text s =
    if same_text s (codes "continues")
    then some continues
    else if same_text s (codes "supersedes")
    then some supersedes
    else if same_text s (codes "delegates_to")
    then some delegates_to
    else none

unfoldable pub read_link_type : Option Json → Option LinkType
unfolding link_type_of_text
read_link_type (some (text s)) = link_type_of_text s
read_link_type _ = none

abbrev non_empty : Text → Option Text
non_empty [] = none
non_empty (c ∷ s) = some (c ∷ s)

-- A note that is no text, or too long, is refused; a blank one is none.
unfoldable pub read_note : (max : ℕ) → Option Json → Validated (Option Text)
unfolding trim
read_note max none = ok none
read_note max (some null) = ok none
read_note max (some (text s)) =
    if ltb max (length (trim s))
    then refused (refusal 400 validation_error)
    else ok (non_empty (trim s))
read_note max (some _) = refused (refusal 400 validation_error)

-- `CONTRACT_LINK_NOTE_MAX`
abbrev pub link_note_max : ℕ
link_note_max = 500

with_note : Text → LinkType → Validated (Option Text) → Validated ValidatedLinkRequest
with_note to t (refused r) = refused r
with_note to t (ok note) = ok (record { to_contract_id = to; link_type = t; note = note })

with_type : Text → Option LinkType → Validated (Option Text) → Validated ValidatedLinkRequest
unfolding with_note
with_type to none note = refused (refusal 400 contract_link_type_invalid)
with_type to (some t) note = with_note to t note

-- `body` holds the fields of the request, none of them where it has no fields.
unfoldable pub validate_link_request :
    (lower : Text → Text) → Text → Fields → Validated ValidatedLinkRequest
unfolding with_type is_uuid read_link_type read_note trim
validate_link_request lower from body =
    let to = trim (get_or (as_text (get_field (codes "to_contract_id") body)) []) in
    if not (is_uuid to)
    then refused (refusal 400 validation_error)
    else if same_text (lower to) (lower from)
    then refused (refusal 400 contract_link_self)
    else with_type to (read_link_type (get_field (codes "link_type") body))
        (read_note link_note_max (get_field (codes "note") body))

pub record LinkRow : Type 0 where
  pub from_contract_id : Text
  pub to_contract_id : Text
  pub link_type : LinkType
  pub note : Option Text
  pub created_at : ℕ
  pub created_by_agent_id : Option Text

pub record RoleRow : Type 0 where
  pub contract_id : Text
  pub agent_id : Text
  pub role : ParticipantRole

-- `participantRoles`: the last row for a contract stands in the map.
unfoldable pub participant_role : List RoleRow → Text → Text → Option ParticipantRole
participant_role [] agent_id id = none
participant_role (r ∷ rs) agent_id id =
    let later = participant_role rs agent_id id in
    if is_some later
    then later
    else if same_text r.agent_id agent_id && same_text r.contract_id id
    then some r.role
    else none

unfoldable pub check_contract_link_read_access : List RoleRow → Text → Text → Option LinkRefusal
unfolding participant_role
check_contract_link_read_access roles id agent_id =
    if is_some (participant_role roles agent_id id) then none else some (refusal 404 not_found)

abbrev role_refusal : Option ParticipantRole → Option LinkRefusal
role_refusal none = some (refusal 404 not_found)
role_refusal (some role) = if is_observer role then some (refusal 403 forbidden) else none

-- The refusal of the first contract that gives one.
unfoldable pub check_contract_link_permission : List RoleRow → List Text → Text → Option LinkRefusal
unfolding participant_role
check_contract_link_permission roles [] agent_id = none
check_contract_link_permission roles (id ∷ ids) agent_id =
    let later = check_contract_link_permission roles ids agent_id in
    elim (role_refusal (participant_role roles agent_id id)) [ some r ↦ some r | none ↦ later ]

abbrev pub same_type : LinkType → LinkType → Bool
same_type continues continues = true
same_type supersedes supersedes = true
same_type delegates_to delegates_to = true
same_type _ _ = false

abbrev pub same_edge : Text → Text → LinkType → LinkRow → Bool
same_edge from to t l =
    same_text l.from_contract_id from && same_text l.to_contract_id to && same_type l.link_type t

-- The recursive walk of the trigger: whether `goal` is met within so many links from `x`.
unfoldable pub reaches : ℕ → Text → List LinkRow → Text → Bool
reaches zero goal rows x = same_text x goal
reaches (suc depth) goal rows x =
    same_text x goal
    || any (λ l. same_text l.from_contract_id x && reaches depth goal rows l.to_contract_id) rows

-- `r.depth < 64`, counted from 1
abbrev pub walk_depth : ℕ
walk_depth = 63

pub data Insert : Type 0 where
  inserted unique_violation check_violation : Insert

-- What PostgreSQL answers to the insert: the trigger fires first, then the row is checked against
-- a link to itself, then against the unique index.
unfoldable pub insert_link : LinkRow → List LinkRow → Insert × List LinkRow
unfolding reaches
insert_link l rows =
    if reaches walk_depth l.from_contract_id rows l.to_contract_id
    then (check_violation, rows)
    else if same_text l.from_contract_id l.to_contract_id
    then (check_violation, rows)
    else if any (same_edge l.from_contract_id l.to_contract_id l.link_type) rows
    then (unique_violation, rows)
    else (inserted, l ∷ rows)

abbrev link_outcome : Insert → Option LinkRefusal
link_outcome inserted = none
link_outcome unique_violation = none
link_outcome check_violation = some (refusal 409 contract_link_cycle)

-- An identical link that is there already is success.
unfoldable pub create_contract_link : LinkRow → List LinkRow → Option LinkRefusal × List LinkRow
unfolding insert_link
create_contract_link l rows = let (r, after') = insert_link l rows in (link_outcome r, after')

-- Whether a link was there, and the table without it.
unfoldable pub delete_contract_link : Text → Text → LinkType → List LinkRow → Bool × List LinkRow
delete_contract_link from to t rows =
    (any (same_edge from to t) rows, filter (λ l. not (same_edge from to t l)) rows)
