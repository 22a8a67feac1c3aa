-- ===== src/Succession/Predecessors.antt =====
-- The predecessor that a proposal names.
use a2a_comms.Common.{
  ◌≡◌, refl, sym, ap, ◌∙◌, ◌↔◌, ◌⊎◌, inl, inr, true, false, Option, none, some, [], ◌∷◌, arith,
  Bool-cases, Text, trim, codes,
}
use a2a_comms.Succession.{then_supersedes}
use a2a_comms.Succession.{
  present, read_predecessor, validate_proposal_succession, SuccessionLinkType, continues,
  supersedes, Predecessor, ProposalSuccessionFields,
}
use a2a_comms.Common.Json.{get_field, Json, null, text, Fields}
use a2a_comms.Links.{is_uuid}
use a2a_comms.Contract.Store.{after, Reply, refuse, reply}
use a2a_comms.Succession.Read.{read}

-- The id in a field of the request, well-formed.
abbrev pub Names : Text → Fields → Text → Type 0
Names key body id =
    (s : Text) × (get_field key body ≡ some (text s)) × (trim s ≡ id) × (is_uuid id ≡ true)

abbrev pub field_of : SuccessionLinkType → Text
field_of continues = codes "continues"
field_of supersedes = codes "supersedes"

read_one :
    (kind : SuccessionLinkType) (value : Option Json) (before after : Option Predecessor)
    → read_predecessor kind value before ≡ reply after
    → ((present value ≡ false) × (after ≡ before))
      ⊎ ((s : Text) × (value ≡ some (text s))
          × (is_uuid (trim s) ≡ true)
          × (after ≡ some (record { id = trim s; link_type = kind })))
read_one kind none before after h = inl (refl, ground (arith, h))
read_one kind (some null) before after h = inl (refl, ground (arith, h))
read_one kind (some (text [])) before after h = inl (refl, ground (arith, h))
read_one kind (some (text (c ∷ s))) before after h = elim (Bool-cases (is_uuid (trim (c ∷ s)))) [
  | inl good ↦ inr (c ∷ s, refl, good, ground (arith, good, h))
  | inr bad ↦ absurd (ground (arith, bad, h))
]
read_one kind (some _) before after h = cc

first_of :
    (value : Option Json) (q : Reply (Option Predecessor)) (after : Option Predecessor)
    → then_supersedes value q ≡ reply after
    → (before : Option Predecessor) × (q ≡ reply before)
      × (read_predecessor supersedes value before ≡ reply after)
first_of value (refuse st c) after h = cc
first_of value (reply p) after h = (p, refl, h)

names_present : (s : Text) → is_uuid (trim s) ≡ true → present (some (text s)) ≡ true
unfolding is_uuid trim
names_present [] h = ground (arith, h)
names_present (c ∷ s) h = refl

-- The two fields as they were read, one after the other.
both_read :
    (body : Fields) (f : ProposalSuccessionFields)
    → validate_proposal_succession body ≡ reply f
    → (before : Option Predecessor) × (read_predecessor continues
          (get_field (codes "continues") body)
          none
        ≡ reply before)
      × (read_predecessor supersedes (get_field (codes "supersedes") body) before
          ≡ reply f.predecessor)
both_read body f h =
    first_of (get_field (codes "supersedes") body)
      (read_predecessor continues (get_field (codes "continues") body) none) f.predecessor
      (read body f h).linked

abbrev predecessor_of : SuccessionLinkType → Text → Predecessor
predecessor_of kind id = record { id = id; link_type = kind }

found_by :
    (body : Fields) (f : ProposalSuccessionFields) (p : Predecessor)
    → validate_proposal_succession body ≡ reply f
    → f.predecessor ≡ some p
    → Names (field_of p.link_type) body p.id
found_by body f p h e =
    let (before, first, second) = both_read body f h in
    elim (read_one supersedes (get_field (codes "supersedes") body) before f.predecessor second) [
      | inr (s, here, good, last) ↦
          let same : p ≡ predecessor_of supersedes (trim s) = cc in rw same (s, here, refl, good)
      | inl (absent, kept) ↦
          elim (read_one continues (get_field (codes "continues") body) none before first) [
            | inr (s, here, good, last) ↦
                let same : p ≡ predecessor_of continues (trim s) = cc in
                rw same (s, here, refl, good)
            | inl (missing, nothing) ↦ absurd (ground (arith, e, kept, nothing))
          ]
    ]

is_present :
    (value : Option Json) (s : Text)
    → value ≡ some (text s)
    → is_uuid (trim s) ≡ true
    → present value ≡ true
is_present value s here good = ap present here ∙ names_present s good

given_one :
    (kind : SuccessionLinkType) (value : Option Json) (before after : Option Predecessor)
    (s id : Text)
    → value ≡ some (text s)
    → trim s ≡ id
    → is_uuid id ≡ true
    → read_predecessor kind value before ≡ reply after
    → after ≡ some (predecessor_of kind id)
given_one kind value before after s id here e good h =
    let there = is_present value s here (ap is_uuid e ∙ good) in
    elim (read_one kind value before after h) [
      | inl (absent, kept) ↦ cc
      | inr (t, here', good', last) ↦
          let same : some (text t) ≡ some (text s) = sym here' ∙ here in
          let texts : t ≡ s = cc in
          last ∙ ap (λ y. some (predecessor_of kind y)) (ap trim texts ∙ e)
    ]

finds :
    (body : Fields) (f : ProposalSuccessionFields) (kind : SuccessionLinkType) (id : Text)
    → validate_proposal_succession body ≡ reply f
    → Names (field_of kind) body id
    → f.predecessor ≡ some (predecessor_of kind id)
finds body f supersedes id h (s, here, e, good) =
    let (before, first, second) = both_read body f h in
    given_one supersedes (get_field (codes "supersedes") body) before f.predecessor s id here e good
      second
finds body f continues id h (s, here, e, good) =
    let (before, first, second) = both_read body f h in
    let there = is_present (get_field (codes "continues") body) s here (ap is_uuid e ∙ good) in
    let own =
      given_one continues (get_field (codes "continues") body) none before s id here e good first in
    elim (read_one supersedes (get_field (codes "supersedes") body) before f.predecessor second) [
      | inl (absent, kept) ↦ kept ∙ own
      | inr (t, here', good', last) ↦
          let also = is_present (get_field (codes "supersedes") body) t here' good' in
          let one = (read body f h).one in absurd (ground (arith, there, also, one))
    ]

-- A request that is let through has a predecessor exactly when one of the fields `continues` and
-- `supersedes` is a text that, without the blanks around it, is a well-formed id; the predecessor is
-- of this id, and carried on or replaced as the field says.
pub predecessor_iff :
    (body : Fields) (f : ProposalSuccessionFields) (p : Predecessor)
    → validate_proposal_succession body ≡ reply f
    → (f.predecessor ≡ some p) ↔ Names (field_of p.link_type) body p.id
predecessor_iff body f p h = (found_by body f p h, finds body f p.link_type p.id h)
