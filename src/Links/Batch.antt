-- ===== src/Links/Batch.antt =====
-- The related contracts of many contracts at once are those of each: src/lib/contract-links.ts.
use mathlib.Core.List.{append_assoc, append-nil}
use a2a_comms.Common.{
  same_text_self, same_text-eq, ◌≡◌, refl, sym, ap, ◌∙◌, inl, inr, Bool, true, false, some, List,
  [], ◌∷◌, ◌++◌, arith, eqb, if◌then◌else◌, is_some, Bool-cases, length, filter, every, All, Text,
  same_text,
}
use a2a_comms.Links.{is_uuid, LinkRow}
use a2a_comms.Links.Related.{
  normalize_link_row, listed, UuidInput, has_end, get_related_contracts, push, bucket_of,
  includes_text, push_all, add_end, collect, some_end, get_related_contracts_for_contracts,
  LinkedContract, RelatedContractSummary, Bucket,
}

module _ (read : UuidInput) (contracts : List LinkedContract) (wanted : List Text) (id : Text)
    (printed : read id ≡ some id) where
  push-same :
      (s : RelatedContractSummary) (out : List Bucket)
      → bucket_of id (push id s out) ≡ bucket_of id out ++ (s ∷ [])
  push-same s [] = ground (arith, same_text_self id)
  push-same s (b ∷ out) = elim (Bool-cases (same_text b.id id)) [
    | inl hit ↦ rw hit (rw hit refl)
    | inr miss ↦ ground (arith, miss, push-same s out)
  ]

  push-other :
      (other : Text) (s : RelatedContractSummary) (out : List Bucket)
      → same_text other id ≡ false
      → bucket_of id (push other s out) ≡ bucket_of id out
  push-other other s [] h = ground (arith, h)
  push-other other s (b ∷ out) h =
      ground (arith, h, push-other other s out, same_text-eq b.id other)

  push_all-same :
      (ss : List RelatedContractSummary) (out : List Bucket)
      → bucket_of id (push_all id ss out) ≡ bucket_of id out ++ ss
  unfolding push_all
  push_all-same [] out = sym (append-nil (bucket_of id out))
  push_all-same (s ∷ ss) out =
      push_all-same ss (push id s out)
      ∙ ap (λ x. x ++ ss) (push-same s out)
      ∙ append_assoc (bucket_of id out) (s ∷ []) ss

  push_all-other :
      (other : Text) (ss : List RelatedContractSummary) (out : List Bucket)
      → same_text other id ≡ false
      → bucket_of id (push_all other ss out) ≡ bucket_of id out
  unfolding push_all
  push_all-other other [] out h = refl
  push_all-other other (s ∷ ss) out h =
      push_all-other other ss (push other s out) h ∙ push-other other s out h

  unwanted :
      (b : Bool) (other : Text) (ss : List RelatedContractSummary) (out : List Bucket)
      → same_text other id ≡ false
      → bucket_of id (if b then push_all other ss out else out) ≡ bucket_of id out
  unwanted true other ss out h = push_all-other other ss out h
  unwanted false other ss out h = refl

  -- What an end of a link adds to the bucket of `id`.
  abbrev end_adds : LinkRow → Text → List RelatedContractSummary
  end_adds l end = if same_text end id then listed (normalize_link_row contracts l id) else []

  add_end-adds :
      (l : LinkRow) (end : Text) (out : List Bucket)
      → includes_text wanted id ≡ true
      → bucket_of id (add_end contracts wanted l end out) ≡ bucket_of id out ++ end_adds l end
  unfolding add_end
  add_end-adds l end out h = elim (Bool-cases (same_text end id)) [
    | inl hit ↦
        let same = same_text-eq end id hit in
        rw (same, h, same_text_self id)
          (push_all-same (listed (normalize_link_row contracts l id)) out)
    | inr miss ↦ rw miss (
        unwanted (includes_text wanted end) end (listed (normalize_link_row contracts l end)) out
          miss
        ∙ sym (append-nil (bucket_of id out)))
  ]

  -- What a link adds, which has two ends that differ.
  link_adds :
      (l : LinkRow)
      → same_text l.from_contract_id l.to_contract_id ≡ false
      → end_adds l l.from_contract_id ++ end_adds l l.to_contract_id
        ≡ (if has_end read id l then listed (normalize_link_row contracts l id) else [])
  link_adds l apart = elim (Bool-cases (same_text l.from_contract_id id)) [
    | inl out_of ↦ elim (Bool-cases (same_text l.to_contract_id id)) [
      | inl both ↦
          let f = same_text-eq l.from_contract_id id out_of in
          let t = same_text-eq l.to_contract_id id both in
          let looped : same_text l.from_contract_id l.to_contract_id ≡ true =
            rw (f, t) (same_text_self id) in
          cc (sym looped ∙ apart)
      | inr other ↦
          rw (out_of, other, printed)
            (rw (out_of) (append-nil (listed (normalize_link_row contracts l id))))
    ]
    | inr not_from ↦ rw (not_from, printed) (rw not_from refl)
  ]

  nothing :
      (xs : List RelatedContractSummary) → xs ≡ xs ++ get_related_contracts read contracts [] id
  unfolding get_related_contracts
  nothing xs = sym (append-nil xs)

  related_cons :
      (l : LinkRow) (ls : List LinkRow)
      → get_related_contracts read contracts (l ∷ ls) id
        ≡ (if has_end read id l then listed (normalize_link_row contracts l id) else [])
          ++ get_related_contracts read contracts ls id
  unfolding get_related_contracts
  related_cons l ls = elim (Bool-cases (has_end read id l)) [
    | inl there ↦ rw there refl
    | inr elsewhere ↦ rw elsewhere refl
  ]

  collect-adds :
      (ls : List LinkRow) (out : List Bucket)
      → includes_text wanted id ≡ true
      → All (λ l. same_text l.from_contract_id l.to_contract_id ≡ false) ls
      → bucket_of id (collect contracts wanted ls out)
        ≡ bucket_of id out ++ get_related_contracts read contracts ls id
  unfolding collect
  collect-adds [] out h apart = nothing (bucket_of id out)
  collect-adds (l ∷ ls) out h (apart, rest) =
      let one = add_end contracts wanted l l.from_contract_id out in
      let two = add_end contracts wanted l l.to_contract_id one in
      collect-adds ls two h rest
      ∙ ap (λ x. x ++ get_related_contracts read contracts ls id)
          (add_end-adds l l.to_contract_id one h
            ∙ ap (λ x. x ++ end_adds l l.to_contract_id) (add_end-adds l l.from_contract_id out h)
            ∙ append_assoc (bucket_of id out) _ _
            ∙ ap (λ x. bucket_of id out ++ x) (link_adds l apart))
      ∙ append_assoc (bucket_of id out) _ _
      ∙ ap (λ x. bucket_of id out ++ x) (sym (related_cons l ls))

All-filter :
    {A : Type 0} (P : A → Type 0) (p : A → Bool) (xs : List A) → All P xs → All P (filter p xs)
All-filter P p [] h = tt
All-filter P p (x ∷ xs) (this, rest) = elim (Bool-cases (p x)) [
  | inl hit ↦ rw hit (this, All-filter P p xs rest)
  | inr miss ↦ rw miss (All-filter P p xs rest)
]

-- An id that is wanted and well-formed is let into the query.
clean_includes :
    (ids : List Text) (id : Text)
    → includes_text ids id ≡ true
    → is_uuid id ≡ true
    → includes_text (filter is_uuid ids) id ≡ true
clean_includes [] id h u = cc
clean_includes (i ∷ ids) id h u = elim (Bool-cases (same_text i id)) [
  | inl hit ↦ rw (same_text-eq i id hit, u) (ground (arith, same_text_self id))
  | inr miss ↦ ground (arith, miss, h, u, clean_includes ids id)
]

selected :
    (read : UuidInput) (clean : List Text) (id : Text) (l : LinkRow)
    → includes_text clean id ≡ true
    → has_end read id l ≡ true
    → some_end read clean l ≡ true
selected read [] id l h e = cc
selected read (i ∷ clean) id l h e = elim (Bool-cases (same_text i id)) [
  | inl hit ↦
      let first : has_end read i l ≡ true = rw (same_text-eq i id hit) e in ground (arith, first)
  | inr miss ↦
      let rest = selected read clean id l (ground (arith, h, miss)) e in ground (arith, rest)
]

unselected :
    (read : UuidInput) (clean : List Text) (id : Text) (l : LinkRow)
    → includes_text clean id ≡ true
    → some_end read clean l ≡ false
    → has_end read id l ≡ false
unselected read clean id l h left = elim (Bool-cases (has_end read id l)) [
  | inl there ↦ let chosen = selected read clean id l h there in cc (sym chosen ∙ left)
  | inr elsewhere ↦ elsewhere
]

-- The database reads every well-formed UUID.
abbrev pub ReadsUuids : UuidInput → Type 0
ReadsUuids read = (i : Text) → is_uuid i ≡ true → is_some (read i) ≡ true

clean_read :
    (read : UuidInput) (ids : List Text)
    → ReadsUuids read
    → every (λ i. is_some (read i)) (filter is_uuid ids) ≡ true
clean_read read [] h = refl
clean_read read (i ∷ ids) h = elim (Bool-cases (is_uuid i)) [
  | inl good ↦ rw good (ground (arith, h i good, clean_read read ids h))
  | inr bad ↦ rw bad (clean_read read ids h)
]

includes_some :
    (clean : List Text) (id : Text) → includes_text clean id ≡ true → eqb (length clean) 0 ≡ false
includes_some [] id h = cc
includes_some (i ∷ clean) id h = ground arith

-- The query leaves out no link of a contract that it asks for.
query_selects :
    (read : UuidInput) (contracts : List LinkedContract) (clean : List Text) (id : Text)
    (printed : read id ≡ some id) (rows : List LinkRow)
    → includes_text clean id ≡ true
    → get_related_contracts read contracts (filter (some_end read clean) rows) id
      ≡ get_related_contracts read contracts rows id
query_selects read contracts clean id printed [] h = refl
query_selects read contracts clean id printed (l ∷ rows) h =
    let here = if has_end read id l then listed (normalize_link_row contracts l id) else [] in
    elim (Bool-cases (some_end read clean l)) [
      | inl chosen ↦ rw chosen (
          related_cons read contracts clean id printed l (filter (some_end read clean) rows)
          ∙ ap (λ x. here ++ x) (query_selects read contracts clean id printed rows h)
          ∙ sym (related_cons read contracts clean id printed l rows))
      | inr left ↦
          let elsewhere = unselected read clean id l h left in
          rw left (
            query_selects read contracts clean id printed rows h
            ∙ sym (related_cons read contracts clean id printed l rows ∙ rw elsewhere refl))
    ]

-- On links of two different contracts, where the database reads every well-formed UUID: for each id
-- that is asked for, is a well-formed UUID and is spelled as the database prints it, the query for
-- many contracts gives what the query for that contract alone gives, in the same order, if both get
-- links of one time in the same order.
pub batch_agrees :
    (read : UuidInput) (contracts : List LinkedContract) (rows : List LinkRow) (ids : List Text)
    (id : Text)
    → ReadsUuids read
    → includes_text ids id ≡ true
    → is_uuid id ≡ true
    → read id ≡ some id
    → All (λ l. same_text l.from_contract_id l.to_contract_id ≡ false) rows
    → bucket_of id (get_related_contracts_for_contracts read contracts rows ids)
      ≡ get_related_contracts read contracts rows id
unfolding get_related_contracts_for_contracts
batch_agrees read contracts rows ids id reads h u printed apart =
    let clean = filter is_uuid ids in
    let in_clean = clean_includes ids id h u in
    rw (includes_some clean id in_clean, clean_read read ids reads)
      (collect-adds read contracts ids id printed (filter (some_end read clean) rows) [] h
          (All-filter _ (some_end read clean) rows apart)
        ∙ query_selects read contracts clean id printed rows in_clean)
