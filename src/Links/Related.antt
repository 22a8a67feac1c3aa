-- ===== src/Links/Related.antt =====
-- The contracts that a contract is linked to: `normalizeLinkRow`, `getRelatedContracts` and
-- `getRelatedContractsForContracts` of src/lib/contract-links.ts. The table is listed newest link
-- first, as both queries order it.
use a2a_comms.Common.{
  ℕ, Bool, ◌||◌, Option, none, some, List, [], ◌∷◌, ◌++◌, eqb, if◌then◌else◌, get_or, length,
  filter, find?, any, every, not, is_some, false, Text, same_text,
}
use a2a_comms.Contract.{ContractStatus, closed}
use a2a_comms.Links.{is_uuid, LinkType, LinkRow}

pub record LinkedContract : Type 0 where
  pub id : Text
  pub title : Option Text
  pub status : Option ContractStatus

pub data LinkDirection : Type 0 where
  outgoing incoming : LinkDirection

pub record RelatedContractSummary : Type 0 where
  pub contract_id : Text
  pub title : Text
  pub status : ContractStatus
  pub link_type : LinkType
  pub direction : LinkDirection
  pub note : Option Text
  pub linked_at : ℕ
  pub linked_by_agent_id : Option Text

-- The contract that an embed of the query finds.
abbrev pub embed : List LinkedContract → Text → Option LinkedContract
embed contracts id = find? (λ c. same_text c.id id) contracts

abbrev is_empty : Text → Bool
is_empty s = eqb (length s) 0

summary : LinkRow → Text → LinkDirection → LinkedContract → Text → RelatedContractSummary
summary l far_id direction far title = record {
  contract_id = far_id;
  title = title;
  status = get_or far.status closed;
  link_type = l.link_type;
  direction = direction;
  note = l.note;
  linked_at = l.created_at;
  linked_by_agent_id = l.created_by_agent_id;
}

-- Nothing, where the far contract did not come back or has no title.
summarise : LinkRow → Text → LinkDirection → Option LinkedContract → Option RelatedContractSummary
unfolding summary
summarise l far_id direction none = none
summarise l far_id direction (some far) =
    let title = get_or far.title [] in
    if is_empty far.id || is_empty title then none else some (summary l far_id direction far title)

unfoldable pub normalize_link_row :
    List LinkedContract → LinkRow → Text → Option RelatedContractSummary
unfolding summarise
normalize_link_row contracts l self =
    if same_text l.from_contract_id self
    then summarise l l.to_contract_id outgoing (embed contracts l.to_contract_id)
    else summarise l l.from_contract_id incoming (embed contracts l.from_contract_id)

abbrev pub listed : Option RelatedContractSummary → List RelatedContractSummary
listed none = []
listed (some s) = s ∷ []

-- How PostgreSQL reads a text as a value of type `uuid`: the text it prints for that value, in lower
-- case, or nothing where it refuses the text. The ids of rows are texts that it printed.
abbrev pub UuidInput : Type 0
UuidInput = Text → Option Text

abbrev pub ends_at : Text → LinkRow → Bool
ends_at id l = same_text l.from_contract_id id || same_text l.to_contract_id id

abbrev ends_at_value : Option Text → LinkRow → Bool
ends_at_value none l = false
ends_at_value (some v) l = ends_at v l

-- `from_contract_id.eq.${id},to_contract_id.eq.${id}`, on values; an id that is refused fails the query,
-- whose rows are then none.
abbrev pub has_end : UuidInput → Text → LinkRow → Bool
has_end read id l = ends_at_value (read id) l

abbrev pub flat_map {ℓ κ} : {A : Type ℓ} {B : Type κ} → (A → List B) → List A → List B
flat_map f [] = []
flat_map f (x ∷ xs) = f x ++ flat_map f xs

unfoldable pub get_related_contracts :
    UuidInput → List LinkedContract → List LinkRow → Text → List RelatedContractSummary
unfolding normalize_link_row
get_related_contracts read contracts rows id =
    flat_map (λ l. listed (normalize_link_row contracts l id)) (filter (has_end read id) rows)

pub record Bucket : Type 0 where
  pub id : Text
  pub summaries : List RelatedContractSummary

-- `out.get(end)?.push(summary)`, or a new bucket.
abbrev pub push : Text → RelatedContractSummary → List Bucket → List Bucket
push id s [] = record { id = id; summaries = s ∷ [] } ∷ []
push id s (b ∷ bs) =
    let rest = push id s bs in
    if same_text b.id id then record b { summaries = b.summaries ++ (s ∷ []) } ∷ bs else b ∷ rest

-- `out.get(id)`, empty where there is no bucket.
abbrev pub bucket_of : Text → List Bucket → List RelatedContractSummary
bucket_of id [] = []
bucket_of id (b ∷ bs) =
    let rest = bucket_of id bs in if same_text b.id id then b.summaries else rest

abbrev pub includes_text : List Text → Text → Bool
includes_text ids id = any (λ i. same_text i id) ids

unfoldable pub push_all : Text → List RelatedContractSummary → List Bucket → List Bucket
push_all id [] out = out
push_all id (s ∷ ss) out = push_all id ss (push id s out)

-- One end of a link, where its contract is wanted.
unfoldable pub add_end :
    List LinkedContract → List Text → LinkRow → Text → List Bucket → List Bucket
unfolding push_all
add_end contracts wanted l end out =
    if includes_text wanted end
    then push_all end (listed (normalize_link_row contracts l end)) out
    else out

unfoldable pub collect : List LinkedContract → List Text → List LinkRow → List Bucket → List Bucket
unfolding add_end
collect contracts wanted [] out = out
collect contracts wanted (l ∷ ls) out = collect contracts wanted ls (
    add_end contracts wanted l l.to_contract_id (add_end contracts wanted l l.from_contract_id out))

-- `from_contract_id.in.(…),to_contract_id.in.(…)`, on values.
abbrev pub some_end : UuidInput → List Text → LinkRow → Bool
some_end read ids l = any (λ i. has_end read i l) ids

-- Only well-formed ids are let into the query, which fails if one of them is refused.
unfoldable pub get_related_contracts_for_contracts :
    UuidInput → List LinkedContract → List LinkRow → List Text → List Bucket
unfolding collect is_uuid
get_related_contracts_for_contracts read contracts rows ids =
    let clean = filter is_uuid ids in
    if eqb (length clean) 0 || not (every (λ i. is_some (read i)) clean)
    then []
    else collect contracts ids (filter (some_end read clean) rows) []
