-- ===== src/Succession/Tasks.antt =====
-- src/lib/contract-task-link.ts: the task that a contract is linked to, for one contract and for many.
use a2a_comms.Common.{
  ℕ, length, filter, String, ◌≡◌, Bool, true, false, not, ◌&&◌, ◌||◌, Option, none, some, List, [],
  ◌∷◌, ◌++◌, ◌==◌, if◌then◌else◌, get_or, is_some, truthy, find?, All, includes, Text,
}
use a2a_comms.Succession.{LinkedTaskSummary}

-- An embed of a query: nothing, one row, or a list of rows.
pub data Embed (A : Type 0) : Type 0 where
  missing : Embed A
  single : A → Embed A
  several : List A → Embed A

abbrev pub one : {A : Type 0} → Embed A → Option A
one missing = none
one (single a) = some a
one (several []) = none
one (several (a ∷ rest)) = some a

pub record RawProject : Type 0 where
  pub title : Option Text

pub record RawTaskEmbed : Type 0 where
  pub id : Option String
  pub title : Option Text
  pub status : Option Text
  pub project_id : Option String
  pub project : Embed RawProject

abbrev title_of : Option RawProject → Option Text
title_of none = none
title_of (some p) = p.title

abbrev pub summary_of : RawTaskEmbed → Option LinkedTaskSummary
summary_of t =
    if not (truthy t.project_id) || not (truthy t.id)
    then none
    else some (record {
      task_id = get_or t.id "";
      task_title = t.title;
      task_status = t.status;
      project_id = get_or t.project_id "";
      project_title = title_of (one t.project);
    })

unfoldable pub normalize_linked_task_row : Embed RawTaskEmbed → Option LinkedTaskSummary
normalize_linked_task_row e = elim (one e) [ none ↦ none | some t ↦ summary_of t ]

-- `true` where exactly one of the two was given.
unfoldable pub validate_link_fields : Option String → Option String → Bool
validate_link_fields project_id task_id = elim (truthy project_id) [
  | true ↦ not (truthy task_id)
  | false ↦ truthy task_id
]

-- A row of `task_contracts`, with the task that its key finds.
pub record TaskContract : Type 0 where
  pub contract_id : String
  pub task : Embed RawTaskEmbed

-- The query has no order: the first row that matches is taken, of the rows in the order in which the
-- database comes upon them in this query.
unfoldable pub get_linked_task : String → List TaskContract → Option LinkedTaskSummary
unfolding normalize_linked_task_row
get_linked_task id rows = elim (find? (λ r. r.contract_id == id) rows) [
  | none ↦ none
  | some r ↦ normalize_linked_task_row r.task
]

pub record LinkedEntry : Type 0 where
  pub contract_id : String
  pub summary : LinkedTaskSummary

-- `out.get(id)`
abbrev pub entry_of : String → List LinkedEntry → Option LinkedTaskSummary
entry_of id [] = none
entry_of id (e ∷ out) = if e.contract_id == id then some e.summary else entry_of id out

abbrev add_entry : String → Option LinkedTaskSummary → List LinkedEntry → List LinkedEntry
add_entry id none out = out
add_entry id (some s) out = out ++ (record { contract_id = id; summary = s } ∷ [])

-- The loop over the rows that the query for these ids returns, in an order of this query's own.
unfoldable pub collect_linked :
    List String → List TaskContract → List LinkedEntry → List LinkedEntry
unfolding normalize_linked_task_row
collect_linked ids [] out = out
collect_linked ids (r ∷ rows) out =
    let passed = collect_linked ids rows out in
    let added =
      collect_linked ids rows (add_entry r.contract_id (normalize_linked_task_row r.task) out) in
    if includes ids r.contract_id && not (is_some (entry_of r.contract_id out))
    then added
    else passed

unfoldable pub get_linked_tasks_for_contracts : List String → List TaskContract → List LinkedEntry
unfolding collect_linked
get_linked_tasks_for_contracts ids rows = collect_linked ids rows []

-- The keys of the table find a task in a project for each row.
abbrev pub HasTasks : List TaskContract → Type 0
HasTasks = All (λ r. is_some (normalize_linked_task_row r.task) ≡ true)

abbrev or_else : Option LinkedTaskSummary → Option LinkedTaskSummary → Option LinkedTaskSummary
or_else none d = d
or_else (some s) d = some s

-- How many links the contract has.
abbrev pub links_of : String → List TaskContract → ℕ
links_of id rows = length (filter (λ r. r.contract_id == id) rows)
