-- ===== src/Json.antt =====
-- Go's `any` as encoding/json decodes it, and maps with string keys. A number is kept as its text
-- in Go's shortest form, since the program never computes with a decoded number.
pub mod Laws
use web3_rpc_proxy.Prelude.{
  ℕ, String, Bool, true, false, Option, none, some, List, [], ◌∷◌, ◌==◌, string_comparable,
  if◌then◌else◌,
}

mutual
  pub data Value : Type 0 where
    null : Value
    bool : Bool → Value
    num : String → Value
    str : String → Value
    arr : Items → Value
    obj : Fields → Value

  pub data Items : Type 0 where
    nil : Items
    cons : Value → Items → Items

  pub data Fields : Type 0 where
    end : Fields
    entry : String → Value → Fields → Fields

unfoldable pub to_list : Items → List Value
to_list nil = []
to_list (cons v vs) = v ∷ to_list vs

unfoldable pub from_list : List Value → Items
from_list [] = nil
from_list (v ∷ vs) = cons v (from_list vs)

-- `m[key]`: a missing key reads as nil.
unfoldable pub field : String → Fields → Value
field k end = null
field k (entry j v fs) = if j == k then v else field k fs

-- `m[key] = v`
unfoldable pub set_field : String → Value → Fields → Fields
set_field k v end = entry k v end
set_field k v (entry j w fs) = if j == k then entry k v fs else entry j w (set_field k v fs)

-- `v == nil`
abbrev pub is_null : Value → Bool
is_null null = true
is_null _ = false

-- json.Unmarshal of a value into `map[string]any`: null leaves the map nil, which reads as empty.
unfoldable pub as_object : Value → Option Fields
as_object null = some end
as_object (obj fs) = some fs
as_object _ = none

unfoldable pub as_objects : List Value → Option (List Fields)
unfolding as_object
as_objects [] = some []
as_objects (v ∷ vs) = elim (as_object v) [
  | none ↦ none
  | some fs ↦ elim (as_objects vs) [ none ↦ none | some rest ↦ some (fs ∷ rest) ]
]

-- json.Unmarshal of a value into `[]map[string]any`.
unfoldable pub as_array : Value → Option (List Fields)
unfolding as_objects to_list
as_array null = some []
as_array (arr vs) = as_objects (to_list vs)
as_array _ = none
