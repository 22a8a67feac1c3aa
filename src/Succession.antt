-- ===== src/Succession.antt =====
-- src/lib/contract-succession.ts: what a new contract carries on, where its link to a task comes from,
-- and the earlier contracts that it may have meant to carry on. An id of a contract is a text in a
-- request, as in Links.
pub mod Tasks
pub mod SameSet
pub mod Likely
pub mod Read
pub mod Planned
pub mod Predecessors
mod Examples
use a2a_comms.Common.{
  ℕ, String, Bool, true, false, not, ◌&&◌, Option, none, some, List, [], ◌∷◌, map, ◌==◌, leb, eqb,
  if◌then◌else◌, get_or, length, filter, every, includes, Text, trim, codes,
}
use a2a_comms.Common.Json.{get_field, as_text, Json, null, text, Fields}
use a2a_comms.Links.{is_uuid}
use a2a_comms.Contract.{
  ContractStatus, active, expired, closed, invalid_body, contract_link_required,
}
use a2a_comms.Contract.Store.{Reply, refuse, reply}
use a2a_comms.Contract.Closure.{resolve_close_outcome, outcome_is_success, expired}

abbrev pub unlinked_reason_min : ℕ
unlinked_reason_min = 10

pub data SuccessionLinkType : Type 0 where
  continues supersedes : SuccessionLinkType

pub record Predecessor : Type 0 where
  pub id : Text
  pub link_type : SuccessionLinkType

pub record ProposalSuccessionFields : Type 0 where
  pub predecessor : Option Predecessor
  pub unlinked_reason : Option Text

-- `value !== undefined && value !== null && value !== ''`
abbrev pub present : Option Json → Bool
present none = false
present (some null) = false
present (some (text [])) = false
present (some _) = true

-- `isContractId`, and the id without the blanks around it.
abbrev pub contract_id : Option Json → Option Text
contract_id (some (text s)) = if is_uuid (trim s) then some (trim s) else none
contract_id _ = none

abbrev invalid_body_reply : {A : Type 0} → Reply A
invalid_body_reply = refuse 400 invalid_body

-- One turn of the loop over the two kinds of link.
abbrev pub read_predecessor :
    SuccessionLinkType → Option Json → Option Predecessor → Reply (Option Predecessor)
read_predecessor kind value before =
    if not (present value) then reply before else elim (contract_id value) [
      | none ↦ refuse 400 invalid_body
      | some id ↦ reply (some (record { id = id; link_type = kind }))
    ]

-- `value.trim() || null`
abbrev pub trimmed_or_none : Text → Option Text
trimmed_or_none s = if eqb (length (trim s)) 0 then none else some (trim s)

abbrev pub read_reason : Option Json → Reply (Option Text)
read_reason value = if not (present value) then reply none else elim (as_text value) [
  | none ↦ refuse 400 invalid_body
  | some s ↦ reply (trimmed_or_none s)
]

abbrev then_reason : Option Json → Reply (Option Predecessor) → Reply ProposalSuccessionFields
then_reason value (refuse st c) = refuse st c
then_reason value (reply p) = elim (read_reason value) [
  | refuse st c ↦ refuse st c
  | reply r ↦ reply (record { predecessor = p; unlinked_reason = r })
]

abbrev then_supersedes : Option Json → Reply (Option Predecessor) → Reply (Option Predecessor)
then_supersedes value (refuse st c) = refuse st c
then_supersedes value (reply p) = read_predecessor supersedes value p

-- `body` holds the fields of the request, none of them where it has no fields.
unfoldable pub validate_proposal_succession : Fields → Reply ProposalSuccessionFields
unfolding is_uuid trim
validate_proposal_succession body =
    let continued = get_field (codes "continues") body in
    let superseded = get_field (codes "supersedes") body in
    if present continued && present superseded
    then refuse 400 invalid_body
    else then_reason (get_field (codes "unlinked_reason") body)
        (then_supersedes superseded (read_predecessor continues continued none))

pub record LinkedTaskSummary : Type 0 where
  pub task_id : String
  pub task_title : Option Text
  pub task_status : Option Text
  pub project_id : String
  pub project_title : Option Text

pub data TaskLinkPlan : Type 0 where
  task : TaskLinkPlan
  inherit : LinkedTaskSummary → TaskLinkPlan
  unlinked : Text → TaskLinkPlan

-- The predecessor is only named in the sentence of the refusal, which is left out.
unfoldable pub resolve_task_link_plan :
    (has_task : Bool)
    → (unlinked_reason : Option Text) → Option LinkedTaskSummary
    → Reply TaskLinkPlan
resolve_task_link_plan true unlinked_reason predecessor_task = reply task
resolve_task_link_plan false unlinked_reason (some t) = reply (inherit t)
resolve_task_link_plan false unlinked_reason none =
    let reason = get_or unlinked_reason [] in
    if leb unlinked_reason_min (length reason)
    then reply (unlinked reason)
    else refuse 400 contract_link_required

pub record PredecessorCandidateRow : Type 0 where
  pub id : String
  pub title : Text
  pub status : ContractStatus
  pub current_turns : ℕ
  pub max_turns : ℕ
  pub closed_by : Option String
  pub completion_approved_at : Option ℕ
  pub closed_without_approval : Option Bool
  pub participant_ids : Option (List String)

pub record LikelyPredecessorSummary : Type 0 where
  pub id : String
  pub title : Text
  pub status : ContractStatus
  pub current_turns : ℕ
  pub max_turns : ℕ

-- The members of `new Set(ids)`.
unfoldable pub members : List String → List String
members [] = []
members (x ∷ xs) = x ∷ filter (λ y. not (x == y)) (members xs)

unfoldable pub same_set : List String → List String → Bool
unfolding members
same_set a b =
    eqb (length (members a)) (length (members b)) && every (includes (members b)) (members a)

unfoldable pub is_unaccepted : PredecessorCandidateRow → Bool
unfolding resolve_close_outcome outcome_is_success
is_unaccepted row = elim row.status [
  | active ↦ leb row.max_turns row.current_turns
  | closed ↦ not (
      outcome_is_success (
        resolve_close_outcome row.closed_by row.completion_approved_at
          (get_or row.closed_without_approval false)))
  | expired ↦ not (
      outcome_is_success (
        resolve_close_outcome row.closed_by row.completion_approved_at
          (get_or row.closed_without_approval false)))
  | _ ↦ false
]

abbrev pub summarize : PredecessorCandidateRow → LikelyPredecessorSummary
summarize row = record {
  id = row.id;
  title = row.title;
  status = row.status;
  current_turns = row.current_turns;
  max_turns = row.max_turns;
}

unfoldable pub filter_likely_predecessors :
    List PredecessorCandidateRow → List String → List LikelyPredecessorSummary
unfolding same_set is_unaccepted
filter_likely_predecessors rows participant_ids = map summarize (
    filter is_unaccepted
      (filter (λ r. same_set (get_or r.participant_ids []) participant_ids) rows))
