-- ===== src/Links/Examples.antt =====
-- Links on a concrete table, and the laws at it.
use a2a_comms.Common.{
  ℕ, suc, ◌+◌, ◌≡◌, refl, true, ◌&&◌, none, some, List, [], ◌∷◌, map, arith, leb, if◌then◌else◌,
  Text, codes,
}
use a2a_comms.Contract.{closed}
use a2a_comms.Links.{
  is_uuid, insert_link, create_contract_link, delete_contract_link, continues, contract_link_cycle,
  LinkRow, inserted,
}
use a2a_comms.Links.Acyclic.{
  IsAcyclic, IsShallow, Evolves-IsAcyclic, Walk, stays, goes, unchanged, creates, deletes,
}
use a2a_comms.Links.Related.{
  UuidInput, get_related_contracts, bucket_of, get_related_contracts_for_contracts, LinkedContract,
}
use a2a_comms.Links.Batch.{batch_agrees}
use a2a_comms.Links.Undo.{create-delete}

abbrev first_id : Text
first_id = codes "11111111-1111-1111-1111-111111111111"

abbrev second_id : Text
second_id = codes "22222222-2222-2222-2222-222222222222"

first-is_uuid : is_uuid first_id ≡ true
unfolding is_uuid
first-is_uuid = refl

abbrev link : LinkRow
link = record {
  from_contract_id = second_id;
  to_contract_id = first_id;
  link_type = continues;
  note = none;
  created_at = 5;
  created_by_agent_id = none;
}

empty_still : (x z : Text) (n : ℕ) → Walk [] x z n → n ≡ 0
empty_still x z n stays = refl
empty_still x z n (goes l i w) = elim i [ ]

empty-IsShallow : IsShallow []
empty-IsShallow x z n w = let none_gone = empty_still x z n w in omega arith

empty-IsAcyclic : IsAcyclic []
empty-IsAcyclic x n w = ground (arith, empty_still x x (suc n) w)

Evolves-IsAcyclic_example :
    IsAcyclic (delete_contract_link second_id first_id continues (create_contract_link link []).1).1
Evolves-IsAcyclic_example =
    Evolves-IsAcyclic [] _
      (creates link empty-IsShallow (deletes second_id first_id continues unchanged))
      empty-IsAcyclic

link_inserted : (insert_link link []).0 ≡ inserted
unfolding insert_link
link_inserted = refl

create-delete_example :
    delete_contract_link second_id first_id continues (create_contract_link link []).1 ≡ (true, [])
create-delete_example = create-delete link [] link_inserted

-- The way back is refused.
back_refused :
    (create_contract_link
      (record link { from_contract_id = first_id; to_contract_id = second_id })
      (link ∷ [])).0
    ≡ some (record { status = 409; code = contract_link_cycle })
unfolding create_contract_link
back_refused = refl

abbrev linked : List LinkedContract
linked =
    record { id = first_id; title = some (codes "one"); status = some closed }
    ∷ record { id = second_id; title = some (codes "two"); status = none }
    ∷ []

-- The digits of an id in lower case, as PostgreSQL prints them.
abbrev lower_code : ℕ → ℕ
lower_code c = if leb 65 c && leb c 90 then c + 32 else c

abbrev lower_case : UuidInput
lower_case id = some (map lower_code id)

batch_agrees_example :
    bucket_of first_id (
      get_related_contracts_for_contracts lower_case linked (link ∷ []) (second_id ∷ first_id ∷ []))
    ≡ get_related_contracts lower_case linked (link ∷ []) first_id
batch_agrees_example =
    batch_agrees lower_case linked (link ∷ []) (second_id ∷ first_id ∷ []) first_id (λ i u. refl)
      refl first-is_uuid refl (refl, tt)

abbrev lettered : Text
lettered = codes "aaaaaaaa-1111-1111-1111-111111111111"

abbrev shouted : Text
shouted = codes "AAAAAAAA-1111-1111-1111-111111111111"

abbrev lettered_link : LinkRow
lettered_link = record link { from_contract_id = lettered }

abbrev lettered_contracts : List LinkedContract
lettered_contracts = record { id = lettered; title = some (codes "three"); status = none } ∷ linked

-- Asked for in upper case, a contract is shown as linked to itself, by a link that comes in.
shown_as_itself :
    map
      (λ s. s.contract_id)
      (get_related_contracts lower_case lettered_contracts (lettered_link ∷ []) shouted)
    ≡ lettered ∷ []
unfolding get_related_contracts
shown_as_itself = refl

lost_in_batch :
    get_related_contracts_for_contracts lower_case lettered_contracts
      (lettered_link ∷ [])
      (shouted ∷ [])
    ≡ []
unfolding get_related_contracts_for_contracts
lost_in_batch = refl
