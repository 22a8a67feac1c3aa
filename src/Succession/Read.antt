-- ===== src/Succession/Read.antt =====
-- A request that `validateProposalSuccession` lets through, part by part.
use a2a_comms.Common.{◌≡◌, inl, inr, false, ◌&&◌, Option, none, arith, Bool-cases, codes}
use a2a_comms.Succession.{then_supersedes, then_reason}
use a2a_comms.Succession.{
  present, read_predecessor, read_reason, validate_proposal_succession, continues, Predecessor,
  ProposalSuccessionFields,
}
use a2a_comms.Common.Json.{get_field, Json, Fields}
use a2a_comms.Contract.Store.{Reply, refuse, reply}

-- The three parts of a request that is let through.
pub record IsRead (body : Fields) (f : ProposalSuccessionFields) : Type 0 where
  pub one :
      (present (get_field (codes "continues") body)
        && present (get_field (codes "supersedes") body))
      ≡ false
  pub linked :
      then_supersedes
        (get_field (codes "supersedes") body)
        (read_predecessor continues (get_field (codes "continues") body) none)
      ≡ reply f.predecessor
  pub explained : read_reason (get_field (codes "unlinked_reason") body) ≡ reply f.unlinked_reason

reason_of :
    (value : Option Json) (q : Reply (Option Predecessor)) (f : ProposalSuccessionFields)
    → then_reason value q ≡ reply f
    → (q ≡ reply f.predecessor) × (read_reason value ≡ reply f.unlinked_reason)
reason_of value (refuse st c) f h = cc
reason_of value (reply p) f h = ground (arith, h)

pub read :
    (body : Fields) (f : ProposalSuccessionFields)
    → validate_proposal_succession body ≡ reply f
    → IsRead body f
unfolding validate_proposal_succession
read body f h =
    elim (Bool-cases (
      present (get_field (codes "continues") body)
      && present (get_field (codes "supersedes") body))) [
        | inl both ↦ absurd (ground (arith, both, h))
        | inr one ↦
            let (linked, explained) =
              reason_of (get_field (codes "unlinked_reason") body)
                (then_supersedes (get_field (codes "supersedes") body)
                  (read_predecessor continues (get_field (codes "continues") body) none))
                f (ground (arith, one, h)) in
            record { one = one; linked = linked; explained = explained }
      ]
