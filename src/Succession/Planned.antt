-- ===== src/Succession/Planned.antt =====
-- Where the contract of a proposal gets its task from.
use a2a_comms.Common.{
  ◌≤◌, ◌≡◌, refl, sym, ap, ◌∙◌, ◌↔◌, ◌⊎◌, inl, inr, Bool, true, false, Option, none, some, [], ◌∷◌,
  arith, eqb, Bool-cases, length, Text, trim, codes,
}
use a2a_comms.Succession.{
  unlinked_reason_min, read_reason, validate_proposal_succession, resolve_task_link_plan,
  ProposalSuccessionFields, LinkedTaskSummary, unlinked,
}
use a2a_comms.Common.Json.{get_field, Json, null, text, Fields}
use a2a_comms.Contract.Store.{reply}
use a2a_comms.Succession.Read.{read}

reason_given :
    (value : Option Json) (r : Option Text)
    → read_reason value ≡ reply r
    → (r ≡ none) ⊎ ((s : Text) × (value ≡ some (text s)) × (r ≡ some (trim s)))
unfolding trim
reason_given none r h = ground (arith, h)
reason_given (some null) r h = ground (arith, h)
reason_given (some (text [])) r h = ground (arith, h)
reason_given (some (text (c ∷ s))) r h = elim (Bool-cases (eqb (length (trim (c ∷ s))) 0)) [
  | inl blank ↦ inl (ground (arith, blank, h))
  | inr kept ↦ inr (c ∷ s, refl, ground (arith, kept, h))
]
reason_given (some _) r h = cc

text_reason : (s : Text) → 1 ≤ length (trim s) → read_reason (some (text s)) ≡ reply (some (trim s))
unfolding trim
text_reason [] h = ground (arith, h)
text_reason (c ∷ s) h = ground (arith, h)

planned_unlinked :
    (has_task : Bool) (r : Option Text) (t : Option LinkedTaskSummary) (reason : Text)
    → resolve_task_link_plan has_task r t ≡ reply (unlinked reason)
    → (has_task ≡ false) × (t ≡ none) × (r ≡ some reason) × (unlinked_reason_min ≤ length reason)
unfolding resolve_task_link_plan
planned_unlinked true r t reason h = cc
planned_unlinked false r (some t) reason h = cc
planned_unlinked false none none reason h = ground (arith, h)
planned_unlinked false (some s) none reason h = ground (arith, h)

-- A request that is let through leaves its contract without a task exactly when it names no task, its
-- predecessor has none to hand down, and it gives a text as the reason that, without the blanks
-- around it, has ten characters at least; this trimmed text is the reason that is kept.
pub unlinked_iff :
    (body : Fields) (f : ProposalSuccessionFields) (has_task : Bool)
    (predecessor_task : Option LinkedTaskSummary) (reason : Text)
    → validate_proposal_succession body ≡ reply f
    → (resolve_task_link_plan has_task f.unlinked_reason predecessor_task ≡ reply (unlinked reason))
      ↔ ((has_task ≡ false)
          × (predecessor_task ≡ none)
          × ((s : Text) × (get_field (codes "unlinked_reason") body ≡ some (text s))
              × (trim s ≡ reason))
          × (unlinked_reason_min ≤ length reason))
unfolding resolve_task_link_plan
unlinked_iff body f has_task predecessor_task reason h = (
  λ planned.
      let (own, handed, kept, long) =
        planned_unlinked has_task f.unlinked_reason predecessor_task reason planned in
      let given : (s : Text) × (get_field (codes "unlinked_reason") body ≡ some (text s))
          × (trim s ≡ reason) =
        elim (reason_given (get_field (codes "unlinked_reason") body) f.unlinked_reason
          (read body f h).explained) [
            | inl missing ↦ cc
            | inr (s, here, trimmed) ↦ (s, here, cc)
          ] in
      (own, handed, given, long),
  λ e.
      let (own, handed, (s, here, trimmed), long) = e in
      let enough : 1 ≤ length (trim s) = rw trimmed (omega (arith, long)) in
      let both : reply f.unlinked_reason ≡ reply (some (trim s)) =
        sym ((read body f h).explained) ∙ (ap read_reason here ∙ text_reason s enough) in
      let same : f.unlinked_reason ≡ some reason = cc in
      rw (own, handed, same) (ground (arith, long)),
)
