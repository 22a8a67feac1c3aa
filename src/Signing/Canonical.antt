-- ===== src/Signing/Canonical.antt =====
-- The body that a signature covers (`canonicalize` and `deriveSigningBody` of src/lib/hmac.ts).
use a2a_comms.Common.{
  Bool, true, false, ◌&&◌, ◌||◌, Option, none, some, List, [], ◌∷◌, ◌++◌, map, ltb, eqb,
  if◌then◌else◌, Text,
}
use a2a_comms.Common.Json.{
  Json, null, boolean, number, text, array, object, Items, no_items, item, Fields, no_fields, field,
}

-- The order of `Array.prototype.sort` on texts: by code units, a prefix first.
abbrev pub leb_text : Text → Text → Bool
leb_text [] t = true
leb_text (c ∷ s) [] = false
leb_text (c ∷ s) (d ∷ t) = ltb c d || (eqb c d && leb_text s t)

-- A key of an object, with the text of its pair.
pub record Pair : Type 0 where
  pub key : Text
  pub shown : Text

abbrev pub insert_pair : Pair → List Pair → List Pair
insert_pair p [] = p ∷ []
insert_pair p (q ∷ qs) =
    let rest = insert_pair p qs in if leb_text p.key q.key then p ∷ q ∷ qs else q ∷ rest

abbrev pub sort_pairs : List Pair → List Pair
sort_pairs [] = []
sort_pairs (p ∷ ps) = insert_pair p (sort_pairs ps)

-- `join(',')`
abbrev pub join : List Text → Text
join [] = []
join (s ∷ []) = s
join (s ∷ t ∷ ts) = s ++ (44 ∷ join (t ∷ ts))

abbrev pub show_boolean : Bool → Text
show_boolean true = 116 ∷ 114 ∷ 117 ∷ 101 ∷ []
show_boolean false = 102 ∷ 97 ∷ 108 ∷ 115 ∷ 101 ∷ []

-- `quote` is `JSON.stringify` on a text. The values of an object are printed before its keys are
-- sorted; keys are distinct, as in any JavaScript object.
unfoldable mutual
  pub canonicalize : (quote : Text → Text) → Json → Text
  canonicalize quote null = 110 ∷ 117 ∷ 108 ∷ 108 ∷ []
  canonicalize quote (boolean b) = show_boolean b
  canonicalize quote (number n) = n
  canonicalize quote (text s) = quote s
  canonicalize quote (array xs) = 91 ∷ (join (canonical_items quote xs) ++ (93 ∷ []))
  canonicalize quote (object fs) =
      123 ∷ (join (map (λ p. p.shown) (sort_pairs (canonical_pairs quote fs))) ++ (125 ∷ []))

  pub canonical_items : (quote : Text → Text) → Items → List Text
  canonical_items quote no_items = []
  canonical_items quote (item x xs) = canonicalize quote x ∷ canonical_items quote xs

  pub canonical_pairs : (quote : Text → Text) → Fields → List Pair
  canonical_pairs quote no_fields = []
  canonical_pairs quote (field k x fs) =
      record { key = k; shown = quote k ++ (58 ∷ canonicalize quote x) } ∷ canonical_pairs quote fs

abbrev pub canonical_body : (quote : Text → Text) → Text → Option Json → Text
canonical_body quote body none = body
canonical_body quote body (some v) = canonicalize quote v

-- The canonical text of a body that parses, and the body itself otherwise; an empty one is signed
-- as it is.
unfoldable pub derive_signing_body :
    (parse : Text → Option Json) (quote : Text → Text) → Text → Text
derive_signing_body parse quote [] = []
derive_signing_body parse quote (c ∷ s) = canonical_body quote (c ∷ s) (parse (c ∷ s))
