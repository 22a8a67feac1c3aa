-- ===== src/Signing/KeyOrder.antt =====
-- A signature does not depend on the order of an object's keys: the laws of `canonicalize`
-- (src/lib/hmac.ts).
use a2a_comms.Common.{
  ◌≡◌, refl, ◌∙◌, ◌≢◌, true, false, Option, none, some, List, [], ◌∷◌, arith, Text,
}
use a2a_comms.Common.Json.{Json, array, object, Items, no_items, item, Fields, no_fields, field}
use a2a_comms.Signing.Canonical.{
  leb_text, insert_pair, sort_pairs, canonicalize, canonical_items, canonical_pairs,
  derive_signing_body, Pair,
}

leb_text_total : (s t : Text) → leb_text s t ≡ false → leb_text t s ≡ true
leb_text_total [] t h = cc
leb_text_total (c ∷ s) [] h = refl
leb_text_total (c ∷ s) (d ∷ t) h = ground (arith, leb_text_total s t)

leb_text_antisym : (s t : Text) → leb_text s t ≡ true → leb_text t s ≡ true → s ≡ t
leb_text_antisym [] [] h k = refl
leb_text_antisym [] (d ∷ t) h k = cc
leb_text_antisym (c ∷ s) [] h k = cc
leb_text_antisym (c ∷ s) (d ∷ t) h k = ground (arith, leb_text_antisym s t)

leb_text_trans : (s t u : Text) → leb_text s t ≡ true → leb_text t u ≡ true → leb_text s u ≡ true
leb_text_trans [] t u h k = refl
leb_text_trans (c ∷ s) [] u h k = cc
leb_text_trans (c ∷ s) (d ∷ t) [] h k = cc
leb_text_trans (c ∷ s) (d ∷ t) (e ∷ u) h k = ground (arith, leb_text_trans s t u)

insert-insert :
    (p q : Pair) (ps : List Pair)
    → p.key ≢ q.key
    → insert_pair p (insert_pair q ps) ≡ insert_pair q (insert_pair p ps)
insert-insert p q [] ne = ground (arith, leb_text_total p.key q.key, leb_text_antisym p.key q.key)
insert-insert p q (r ∷ ps) ne = ground (
  arith,
  insert-insert p q ps ne,
  leb_text_total p.key q.key,
  leb_text_antisym p.key q.key,
  leb_text_total q.key p.key,
  leb_text_trans p.key q.key r.key,
  leb_text_trans q.key p.key r.key,
  leb_text_total q.key r.key,
  leb_text_total p.key r.key,
  leb_text_trans p.key r.key q.key,
  leb_text_trans q.key r.key p.key,
)

-- The same value, up to the order of the keys of the objects in it, at any depth.
mutual
  pub data SameJson : Json → Json → Type 0 where
    same_json : {v : Json} → SameJson v v
    same_array : {xs ys : Items} → SameItems xs ys → SameJson (array xs) (array ys)
    same_object : {fs gs : Fields} → SameFields fs gs → SameJson (object fs) (object gs)

  pub data SameItems : Items → Items → Type 0 where
    same_none : SameItems no_items no_items
    same_item :
        {x y : Json} {xs ys : Items}
        → SameJson x y
        → SameItems xs ys
        → SameItems (item x xs) (item y ys)

  pub data SameFields : Fields → Fields → Type 0 where
    same_empty : SameFields no_fields no_fields
    same_field :
        {k : Text} {x y : Json} {fs gs : Fields}
        → SameJson x y
        → SameFields fs gs
        → SameFields (field k x fs) (field k y gs)
    swapped :
        {k l : Text} {x y : Json} {fs : Fields}
        → k ≢ l
        → SameFields (field k x (field l y fs)) (field l y (field k x fs))
    through : {fs gs hs : Fields} → SameFields fs gs → SameFields gs hs → SameFields fs hs

module _ (quote : Text → Text) where
  mutual
    unfolding canonicalize

    same-canonical : (v w : Json) → SameJson v w → canonicalize quote v ≡ canonicalize quote w
    same-canonical v w same_json = refl
    same-canonical v w (same_array {xs} {ys} h) = rw (same-items xs ys h) refl
    same-canonical v w (same_object {fs} {gs} h) = rw (same-fields fs gs h) refl

    same-items :
        (xs ys : Items) → SameItems xs ys → canonical_items quote xs ≡ canonical_items quote ys
    same-items xs ys same_none = refl
    same-items xs ys (same_item {x} {y} {xs = zs} {ys = ws} h k) =
        rw (same-canonical x y h, same-items zs ws k) refl

    same-fields :
        (fs gs : Fields)
        → SameFields fs gs
        → sort_pairs (canonical_pairs quote fs) ≡ sort_pairs (canonical_pairs quote gs)
    same-fields fs gs same_empty = refl
    same-fields fs gs (same_field {x} {y} {fs = hs} {gs = is} h k) =
        rw (same-canonical x y h, same-fields hs is k) refl
    same-fields fs gs (swapped {fs = hs} ne) =
        insert-insert _ _ (sort_pairs (canonical_pairs quote hs)) ne
    same-fields fs gs (through {gs = hs} h k) = same-fields fs hs h ∙ same-fields hs gs k

  -- Two bodies that parse, to values that differ only in the order of the keys of their objects at
  -- any depth, are signed as the same text, when the parser refuses the empty text.
  pub key_order_signs_same :
      (parse : Text → Option Json) (s t : Text) (v w : Json)
      → parse [] ≡ none
      → parse s ≡ some v
      → parse t ≡ some w
      → SameJson v w
      → derive_signing_body parse quote s ≡ derive_signing_body parse quote t
  unfolding derive_signing_body
  key_order_signs_same parse [] t v w empty ps pt h = cc
  key_order_signs_same parse (c ∷ s) [] v w empty ps pt h = cc
  key_order_signs_same parse (c ∷ s) (d ∷ t) v w empty ps pt h = rw (ps, pt) (same-canonical v w h)
