-- ===== src/Links/Undo.antt =====
-- A link that was created is taken back by deleting it: src/lib/contract-links.ts.
use a2a_comms.Common.{
  same_text_self, ◌≡◌, refl, ap, inl, inr, Bool, true, false, not, List, [], ◌∷◌, arith, Bool-cases,
  filter, any, same_text,
}
use a2a_comms.Links.{
  same_type, same_edge, reaches, walk_depth, insert_link, create_contract_link,
  delete_contract_link, LinkType, continues, supersedes, delegates_to, LinkRow, inserted,
}

same_type_self : (t : LinkType) → same_type t t ≡ true
same_type_self continues = refl
same_type_self supersedes = refl
same_type_self delegates_to = refl

edge_self : (l : LinkRow) → same_edge l.from_contract_id l.to_contract_id l.link_type l ≡ true
edge_self l = ground (
  arith,
  same_text_self l.from_contract_id,
  same_text_self l.to_contract_id,
  same_type_self l.link_type,
)

filter_none :
    (p : LinkRow → Bool) (rows : List LinkRow)
    → any p rows ≡ false
    → filter (λ l. not (p l)) rows ≡ rows
filter_none p [] h = refl
filter_none p (r ∷ rows) h = ground (arith, h, filter_none p rows)

-- A link whose insert the database accepted is there when it is deleted, and the deletion leaves the
-- table as it was before.
pub create-delete :
    (l : LinkRow) (rows : List LinkRow)
    → (insert_link l rows).0 ≡ inserted
    → delete_contract_link l.from_contract_id l.to_contract_id l.link_type
        (create_contract_link l rows).1
      ≡ (true, rows)
unfolding create_contract_link delete_contract_link
create-delete l rows h =
    elim (Bool-cases (reaches walk_depth l.from_contract_id rows l.to_contract_id)) [
      | inl back ↦ ground (arith, back, h)
      | inr clear ↦ elim (Bool-cases (same_text l.from_contract_id l.to_contract_id)) [
        | inl loop ↦ ground (arith, clear, loop, h)
        | inr apart ↦
            elim (Bool-cases
              (any (same_edge l.from_contract_id l.to_contract_id l.link_type) rows)) [
                | inl present ↦ ground (arith, clear, apart, present, h)
                | inr new ↦
                    rw (clear, apart, new)
                      (rw (edge_self l) (ap (λ x. (true, x)) (filter_none _ rows new)))
              ]
      ]
    ]
