-- ===== src/Succession/Examples.antt =====
-- Succession on concrete requests and rows, and the laws at them.
use a2a_comms.Common.{
  ◌≤◌, String, ◌≡◌, refl, ◌↔◌, false, Option, none, some, List, [], ◌∷◌, ◌++◌, length, Text, trim,
  codes,
}
use a2a_comms.Common.Json.{get_field, text, Fields, no_fields, field}
use a2a_comms.Succession.Tasks.{Embed, single, several, RawTaskEmbed, TaskContract}
use a2a_comms.Succession.{
  validate_proposal_succession, resolve_task_link_plan, summarize, filter_likely_predecessors,
  continues, Predecessor, ProposalSuccessionFields, LinkedTaskSummary, unlinked,
  PredecessorCandidateRow,
}
use a2a_comms.Contract.{ContractStatus, active, closed, contract_link_required}
use a2a_comms.Contract.Store.{continues, refuse, reply}
use a2a_comms.Succession.Planned.{unlinked_iff}
use a2a_comms.Succession.Predecessors.{Names, predecessor_iff}
use a2a_comms.Succession.Likely.{SameAgents, IsUnaccepted, likely_iff}
use mathlib.Core.List.{Memᴰ}

abbrev earlier : Text
earlier = codes "11111111-1111-1111-1111-111111111111"

abbrev request_fields : Fields
request_fields =
    field (codes "continues") (text (codes " " ++ earlier))
      (field (codes "unlinked_reason") (text (codes " exploratory work ")) no_fields)

abbrev settled : ProposalSuccessionFields
settled = record {
  predecessor = some (record { id = earlier; link_type = continues });
  unlinked_reason = some (codes "exploratory work");
}

passes : validate_proposal_succession request_fields ≡ reply settled
unfolding validate_proposal_succession
passes = refl

given_reason :
    resolve_task_link_plan false (some (codes "exploratory work")) none
    ≡ reply (unlinked (codes "exploratory work"))
unfolding resolve_task_link_plan
given_reason = refl

no_reason :
    resolve_task_link_plan false (some (codes "short")) none ≡ refuse 400 contract_link_required
unfolding resolve_task_link_plan
no_reason = refl

unlinked_iff_example :
    (resolve_task_link_plan false (some (codes "exploratory work")) none
      ≡ reply (unlinked (codes "exploratory work")))
    ↔ ((false ≡ false)
        × (◌≡◌ {A = Option LinkedTaskSummary} none none)
        × ((s : Text) × (get_field (codes "unlinked_reason") request_fields ≡ some (text s))
            × (trim s ≡ codes "exploratory work"))
        × (10 ≤ length (codes "exploratory work")))
unlinked_iff_example =
    unlinked_iff request_fields settled false none (codes "exploratory work") passes

abbrev named : Predecessor
named = record { id = earlier; link_type = continues }

predecessor_iff_example :
    (settled.predecessor ≡ some named) ↔ Names (codes "continues") request_fields earlier
predecessor_iff_example = predecessor_iff request_fields settled named passes

abbrev stuck : PredecessorCandidateRow
stuck = record {
  id = "k1";
  title = codes "work";
  status = active;
  current_turns = 4;
  max_turns = 4;
  closed_by = none;
  completion_approved_at = none;
  closed_without_approval = none;
  participant_ids = some ("a1" ∷ "b1" ∷ []);
}

abbrev done : PredecessorCandidateRow
done = record stuck { id = "k2"; status = closed; closed_by = some "system:completion-approved" }

abbrev lapsed : PredecessorCandidateRow
lapsed = record stuck {
  id = "k3";
  status = ContractStatus.expired;
  closed_by = some "system:expiry";
}

abbrev candidates : List PredecessorCandidateRow
candidates = stuck ∷ done ∷ lapsed ∷ []

two_likely :
    filter_likely_predecessors candidates ("b1" ∷ "a1" ∷ "b1" ∷ [])
    ≡ summarize stuck ∷ summarize lapsed ∷ []
unfolding filter_likely_predecessors
two_likely = refl

likely_iff_example :
    Memᴰ (summarize lapsed) (filter_likely_predecessors candidates ("b1" ∷ "a1" ∷ "b1" ∷ [])) ↔ (
      (r : PredecessorCandidateRow) × Memᴰ r candidates
      × SameAgents r ("b1" ∷ "a1" ∷ "b1" ∷ [])
      × IsUnaccepted r
      × (summarize r ≡ summarize lapsed))
likely_iff_example = likely_iff candidates ("b1" ∷ "a1" ∷ "b1" ∷ []) (summarize lapsed)

abbrev task_of : String → Embed RawTaskEmbed
task_of id = single (record {
  id = some id;
  title = none;
  status = none;
  project_id = some "p1";
  project = several (record { title = some (codes "plan") } ∷ []);
})

abbrev links : List TaskContract
links =
    record { contract_id = "k1"; task = task_of "t1" }
    ∷ record { contract_id = "k2"; task = task_of "t2" }
    ∷ record { contract_id = "k2"; task = task_of "t3" }
    ∷ []

abbrev links_swapped : List TaskContract
links_swapped =
    record { contract_id = "k2"; task = task_of "t2" }
    ∷ record { contract_id = "k1"; task = task_of "t1" }
    ∷ record { contract_id = "k2"; task = task_of "t3" }
    ∷ []
