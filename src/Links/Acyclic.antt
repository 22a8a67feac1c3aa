-- ===== src/Links/Acyclic.antt =====
-- Links never lead back, as long as no chain of them is longer than the walk of the trigger.
use a2a_comms.Common.{
  same_text_self, ℕ, zero, suc, ◌+◌, ◌≤◌, ◌≡◌, refl, sym, ◌∙◌, ◌⊎◌, inl, inr, Bool, true, false,
  ◌&&◌, List, [], ◌∷◌, arith, if◌then◌else◌, Bool-cases, filter, any, Text, same_text,
}
use a2a_comms.Links.{
  same_edge, reaches, walk_depth, create_contract_link, delete_contract_link, LinkType, LinkRow,
}

pub data In {A : Type 0} (x : A) : List A → Type 0 where
  here : {xs : List A} → In x (x ∷ xs)
  there : {y : A} {xs : List A} → In x xs → In x (y ∷ xs)

-- Links that follow each other, so many of them.
pub data Walk (rows : List LinkRow) : Text → Text → ℕ → Type 0 where
  stays : {x : Text} → Walk rows x x 0
  goes :
      {z : Text} {n : ℕ} (l : LinkRow)
      → In l rows
      → Walk rows l.to_contract_id z n
      → Walk rows l.from_contract_id z (suc n)

-- No contract leads back to itself.
abbrev pub IsAcyclic : List LinkRow → Type 0
IsAcyclic rows = (x : Text) (n : ℕ) → ¬ Walk rows x x (suc n)

any-In : {A : Type 0} (p : A → Bool) {x : A} {xs : List A} → In x xs → p x ≡ true → any p xs ≡ true
any-In p here h = ground (arith, h)
any-In p (there i) h = ground (arith, any-In p i h)

-- The walk of the trigger finds what can be found in so many links.
reaches-Walk :
    {rows : List LinkRow} {x z : Text} {n : ℕ} (depth : ℕ)
    → Walk rows x z n
    → n ≤ depth
    → reaches depth z rows x ≡ true
unfolding reaches
reaches-Walk zero (stays {x}) h = same_text_self x
reaches-Walk (suc depth) (stays {x}) h = rw (same_text_self x) refl
reaches-Walk zero (goes l i w) h = ground arith
reaches-Walk {rows} {z = z} (suc depth) (goes l i w) h =
    let found =
      any-In
        (λ k.
          same_text k.from_contract_id l.from_contract_id && reaches depth z rows k.to_contract_id)
        i (rw (same_text_self l.from_contract_id) (reaches-Walk depth w (omega arith))) in
    ground (arith, found)

Walk-cast : {rows : List LinkRow} {x z : Text} {m n : ℕ} → m ≡ n → Walk rows x z m → Walk rows x z n
Walk-cast e w = rw (← e) w

Walk-++ :
    {rows : List LinkRow} {x y z : Text} {m n : ℕ}
    → Walk rows x y m
    → Walk rows y z n
    → Walk rows x z (m + n)
Walk-++ stays w = Walk-cast (omega arith) w
Walk-++ (goes l i v) w = Walk-cast (omega arith) (goes l i (Walk-++ v w))

In-if :
    {l r : LinkRow} {kept rows : List LinkRow} (b : Bool)
    → (In l kept → In l rows)
    → In l (if b then r ∷ kept else kept)
    → In l (r ∷ rows)
In-if true below here = here
In-if true below (there i) = there (below i)
In-if false below i = there (below i)

In-filter :
    (p : LinkRow → Bool) (rows : List LinkRow) {l : LinkRow} → In l (filter p rows) → In l rows
In-filter p [] i = i
In-filter p (r ∷ rows) i = In-if (p r) (In-filter p rows) i

-- A walk on the table with one more row is one on the old table, or leads to the row's first end and
-- on from its second.
Walk-split :
    {rows : List LinkRow} (l : LinkRow) {x z : Text} {n : ℕ}
    → Walk (l ∷ rows) x z n
    → Walk rows x z n
      ⊎ ((j : ℕ) × (k : ℕ) × Walk rows x l.from_contract_id j × Walk rows l.to_contract_id z k)
Walk-split l stays = inl stays
Walk-split l (goes e here w) = elim (Walk-split l w) [
  | inl old ↦ inr (0, _, stays, old)
  | inr (j, k, v, u) ↦ inr (0, k, stays, u)
]
Walk-split l (goes e (there i) w) = elim (Walk-split l w) [
  | inl old ↦ inl (goes e i old)
  | inr (j, k, v, u) ↦ inr (suc j, k, goes e i v, u)
]

-- Fewer rows, fewer walks.
Walk-filter :
    (p : LinkRow → Bool) (rows : List LinkRow) {x z : Text} {n : ℕ}
    → Walk (filter p rows) x z n
    → Walk rows x z n
Walk-filter p rows stays = stays
Walk-filter p rows (goes l i w) = goes l (In-filter p rows i) (Walk-filter p rows w)

-- Chains short enough for the walk of the trigger.
abbrev pub IsShallow : List LinkRow → Type 0
IsShallow rows = (x z : Text) (n : ℕ) → Walk rows x z n → n ≤ walk_depth

-- What PostgreSQL does to the table, request by request.
pub data Evolves : List LinkRow → List LinkRow → Type 0 where
  unchanged : {rows : List LinkRow} → Evolves rows rows
  creates :
      {rows rows' : List LinkRow} (l : LinkRow)
      → IsShallow rows
      → Evolves (create_contract_link l rows).1 rows'
      → Evolves rows rows'
  deletes :
      {rows rows' : List LinkRow} (from to : Text) (t : LinkType)
      → Evolves (delete_contract_link from to t rows).1 rows'
      → Evolves rows rows'

-- A link that the walk of the trigger does not refuse closes no chain.
insert-IsAcyclic :
    (l : LinkRow) (rows : List LinkRow)
    → IsShallow rows
    → IsAcyclic rows
    → reaches walk_depth l.from_contract_id rows l.to_contract_id ≡ false
    → IsAcyclic (l ∷ rows)
insert-IsAcyclic l rows shallow acyclic clear x n w = elim (Walk-split l w) [
  | inl old ↦ acyclic x n old
  | inr (j, k, v, u) ↦
      let back = Walk-++ u v in
      let found = reaches-Walk walk_depth back (shallow _ _ _ back) in cc (sym found ∙ clear)
]

create-IsAcyclic :
    (l : LinkRow) (rows : List LinkRow)
    → IsShallow rows
    → IsAcyclic rows
    → IsAcyclic (create_contract_link l rows).1
unfolding create_contract_link
create-IsAcyclic l rows shallow acyclic =
    elim (Bool-cases (reaches walk_depth l.from_contract_id rows l.to_contract_id)) [
      | inl back ↦ rw back acyclic
      | inr clear ↦ elim (Bool-cases (same_text l.from_contract_id l.to_contract_id)) [
        | inl loop ↦ rw (clear, loop) acyclic
        | inr apart ↦
            elim (Bool-cases
              (any (same_edge l.from_contract_id l.to_contract_id l.link_type) rows)) [
                | inl present ↦ rw (clear, apart, present) acyclic
                | inr new ↦ rw (clear, apart, new) (insert-IsAcyclic l rows shallow acyclic clear)
              ]
      ]
    ]

delete-IsAcyclic :
    (from to : Text) (t : LinkType) (rows : List LinkRow)
    → IsAcyclic rows
    → IsAcyclic (delete_contract_link from to t rows).1
unfolding delete_contract_link
delete-IsAcyclic from to t rows acyclic x n w = acyclic x n (Walk-filter _ rows w)

-- However links are created and deleted, a table without a chain that leads back to its start gets
-- none, as long as each link that is created finds no chain of more than 63 links.
pub Evolves-IsAcyclic :
    (rows rows' : List LinkRow) → Evolves rows rows' → IsAcyclic rows → IsAcyclic rows'
Evolves-IsAcyclic rows rows' unchanged h = h
Evolves-IsAcyclic rows rows' (creates l shallow next) h =
    Evolves-IsAcyclic _ rows' next (create-IsAcyclic l rows shallow h)
Evolves-IsAcyclic rows rows' (deletes from to t next) h =
    Evolves-IsAcyclic _ rows' next (delete-IsAcyclic from to t rows h)
