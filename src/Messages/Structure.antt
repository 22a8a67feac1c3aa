-- ===== src/Messages/Structure.antt =====
-- The form of a long text: `hasEscapedBreakOutsideCode` and `validateContractDescription` of
-- src/lib/contract-description.ts and `validateMessageStructure` of src/lib/message-structure.ts. An
-- index into the text is what is left of it from there on.
use a2a_comms.Common.{
  ℕ, zero, suc, Bool, true, false, not, ◌&&◌, ◌||◌, Option, none, some, List, [], ◌∷◌, ltb, eqb,
  if◌then◌else◌, get_or, length, any, Text, trim, codes, starts_with,
}
use a2a_comms.Common.Json.{Json, null, text, Fields, get_field, as_text}

abbrev pub backtick : ℕ
backtick = 96

-- A backslash and `n` or `r`; the four of `\r\n` begin with two of these.
unfoldable pub escaped_break : Text → Bool
escaped_break s = starts_with (codes "\\n") s || starts_with (codes "\\r") s

-- A run of backticks: its length, and what follows it.
abbrev pub ticks : Text → ℕ × Text
ticks [] = (0, [])
ticks (c ∷ s) = let (n, rest) = ticks s in if eqb c backtick then (suc n, rest) else (0, c ∷ s)

abbrev pub delimiter : ℕ → Text
delimiter zero = []
delimiter (suc n) = backtick ∷ delimiter n

abbrev pub drop : ℕ → Text → Text
drop zero s = s
drop (suc n) [] = []
drop (suc n) (c ∷ s) = drop n s

-- What follows the first place where the delimiter occurs, if it does.
abbrev pub after_delimiter : ℕ → Text → Option Text
after_delimiter n [] = none
after_delimiter n (c ∷ s) =
    let later = after_delimiter n s in
    if starts_with (delimiter n) (c ∷ s) then some (drop n (c ∷ s)) else later

-- One turn of the loop: it ends with an answer, or goes on from a later place.
pub data Scan : Type 0 where
  ends : Bool → Scan
  goes_on : Text → Scan

abbrev pub closing : Option Text → Scan
closing none = ends false
closing (some rest) = goes_on rest

unfoldable pub scan : Text → Scan
unfolding escaped_break
scan [] = ends false
scan (c ∷ s) =
    let (n, rest) = ticks (c ∷ s) in
    if eqb c backtick
    then closing (after_delimiter n rest)
    else if escaped_break (c ∷ s)
    then ends true
    else goes_on s

-- The loop, with a number of turns that it may take; `none` when they are used up.
unfoldable pub loop : ℕ → Text → Option Bool
unfolding scan
loop zero s = none
loop (suc fuel) s = elim (scan s) [ ends b ↦ some b | goes_on rest ↦ loop fuel rest ]

-- A turn for each place of the text and one at its end.
unfoldable pub has_escaped_break_outside_code : Text → Bool
unfolding loop
has_escaped_break_outside_code s = get_or (loop (suc (length s)) s) false

pub data StructureRefusal : Type 0 where
  escaped_breaks unstructured : StructureRefusal

abbrev pub newline : ℕ
newline = 10

-- The two rules that a description and a message share, on a trimmed text.
unfoldable pub check_structure : ℕ → Text → Option StructureRefusal
unfolding has_escaped_break_outside_code
check_structure threshold prose =
    if has_escaped_break_outside_code prose
    then some escaped_breaks
    else if ltb threshold (length prose) && not (any (eqb newline) prose)
    then some unstructured
    else none

abbrev pub message_structure_threshold : ℕ
message_structure_threshold = 400

abbrev pub description_structure_threshold : ℕ
description_structure_threshold = 600

abbrev pub prose_keys : List Text
prose_keys = codes "text" ∷ codes "markdown" ∷ codes "message" ∷ codes "summary" ∷ []

abbrev check_value : Option Text → Option StructureRefusal
check_value none = none
check_value (some s) = check_structure message_structure_threshold (trim s)

-- The refusal of the first key whose text is refused.
check_keys : List Text → Fields → Option StructureRefusal
unfolding check_structure trim
check_keys [] content = none
check_keys (k ∷ ks) content =
    let later = check_keys ks content in
    elim (check_value (as_text (get_field k content))) [ some r ↦ some r | none ↦ later ]

unfoldable pub validate_message_structure : Fields → Option StructureRefusal
unfolding check_keys
validate_message_structure content = check_keys prose_keys content

pub data DescriptionCheck : Type 0 where
  ok : Option Text → DescriptionCheck
  not_a_string : DescriptionCheck
  refused : StructureRefusal → DescriptionCheck

abbrev check_description : Text → DescriptionCheck
check_description value =
    if eqb (length value) 0
    then ok none
    else elim (check_structure description_structure_threshold value) [
      | some r ↦ refused r
      | none ↦ ok (some value)
    ]

-- `undefined` is none.
unfoldable pub validate_contract_description : Option Json → DescriptionCheck
unfolding check_structure trim
validate_contract_description none = ok none
validate_contract_description (some null) = ok none
validate_contract_description (some (text s)) = check_description (trim s)
validate_contract_description (some _) = not_a_string
