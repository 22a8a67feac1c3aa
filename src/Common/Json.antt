-- ===== src/Common/Json.antt =====
-- What `JSON.parse` returns, and how the source reads a field of it.
use mathlib.Core.Bool.{Bool}
use mathlib.Core.Option.{Option, none, some}
use a2a_comms.Common.Units.{Text, same_text}
use a2a_comms.Common.Tests.{if◌then◌else◌}

-- A number is held as the text that `JSON.stringify` prints for it.
mutual
  pub data Json : Type 0 where
    null : Json
    boolean : Bool → Json
    number text : Text → Json
    array : Items → Json
    object : Fields → Json

  pub data Items : Type 0 where
    no_items : Items
    item : Json → Items → Items

  pub data Fields : Type 0 where
    no_fields : Fields
    field : Text → Json → Fields → Fields

-- `value[key]`, undefined where there is no such key.
abbrev pub get_field : Text → Fields → Option Json
get_field key no_fields = none
get_field key (field k v fs) = if same_text k key then some v else get_field key fs

-- `typeof value === 'string' ? value : undefined`
abbrev pub as_text : Option Json → Option Text
as_text (some (text s)) = some s
as_text _ = none

-- `typeof value === 'boolean' ? value : undefined`
abbrev pub as_boolean : Option Json → Option Bool
as_boolean (some (boolean b)) = some b
as_boolean _ = none
