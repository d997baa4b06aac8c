-- ===== src/Endpoint.antt =====
-- internal/core/endpoint/endpoint.go and provider.go: the attributes of an endpoint, the typed
-- readers over them, and the updates. `none` is a panic of the Go code.
pub mod Creation
pub mod Clients
pub mod Merging
pub mod Metrics
pub mod Updates
use web3_rpc_proxy.Prelude.{
  ℕ, ◌+◌, ◌^◌, String, Bool, true, false, not, ◌&&◌, ◌||◌, Option, none, some, List, [], ◌∷◌, ◌==◌,
  nat_comparable, string_comparable, leb, ltb, if◌then◌else◌,
}
use web3_rpc_proxy.Prelude.Dict
use web3_rpc_proxy.Prelude.Dict.{Dict, insert}
use web3_rpc_proxy.Prelude.Int.{ℤ, pos, negsuc, ◌+ℤ◌, wrap_signed, wrap_unsigned, ltb_ℤ}

pub data IntKind : Type 0 where
  int int8 int16 int32 int64 uint uint8 uint16 uint32 uint64 : IntKind

-- float64 as the program uses it; the arithmetic itself is Go's.
pub record FloatOps (F : Type 0) : Type 0 where
  pub of_ℤ : ℤ → F
  pub trunc : F → ℤ
  pub add : F → F → F
  pub sub : F → F → F
  pub mul : F → F → F
  pub div : F → F → F
  pub min : F → F → F
  pub lt : F → F → Bool
  pub eq : F → F → Bool

-- The dynamic types that stand in an endpoint's `map[string]any`. A time counts from the zero time.
pub data Any (F : Type 0) : Type 0 where
  nil : Any F
  integer : IntKind → ℤ → Any F
  float32 : F → Any F
  float64 : F → Any F
  bool : Bool → Any F
  str : String → Any F
  time : ℤ → Any F
  url : String → Any F
  headers : List (String × String) → Any F

abbrev pub State : Type 0 → Type 0
State F = Dict String (Any F)

-- An endpoint is a pointer: `ref` is its identity, by which maps are keyed.
pub record Endpoint (F : Type 0) : Type 0 where
  pub ref : ℕ
  pub state : State F

-- Wrap-around of the ten integer types; int and uint have 64 bits.
unfoldable pub wrap : IntKind → ℤ → ℤ
wrap int v = wrap_signed (2 ^ 63) v
wrap int8 v = wrap_signed (2 ^ 7) v
wrap int16 v = wrap_signed (2 ^ 15) v
wrap int32 v = wrap_signed (2 ^ 31) v
wrap int64 v = wrap_signed (2 ^ 63) v
wrap uint v = wrap_unsigned (2 ^ 64) v
wrap uint8 v = wrap_unsigned (2 ^ 8) v
wrap uint16 v = wrap_unsigned (2 ^ 16) v
wrap uint32 v = wrap_unsigned (2 ^ 32) v
wrap uint64 v = wrap_unsigned (2 ^ 64) v

abbrev kind_index : IntKind → ℕ
kind_index int = 0
kind_index int8 = 1
kind_index int16 = 2
kind_index int32 = 3
kind_index int64 = 4
kind_index uint = 5
kind_index uint8 = 6
kind_index uint16 = 7
kind_index uint32 = 8
kind_index uint64 = 9

-- `attribute`, as `WithAttr` and `WithAttrIncrease` build it.
pub record Attribute (F : Type 0) : Type 0 where
  pub name : String
  pub increment : Bool
  pub value : Any F

-- What `Update` sends to the two summaries: the duration and the status, with their labels.
pub record Observation (F : Type 0) : Type 0 where
  pub code : String
  pub url : String
  pub duration : F
  pub status : ℕ

abbrev bool_eq : Bool → Bool → Bool
bool_eq true b = b
bool_eq false b = not b

module _ {F : Type 0} where
  -- `e.state[name]`: a missing attribute reads as nil.
  unfoldable pub read : String → State F → Any F
  read name s = elim (Dict.lookup name s) [ none ↦ nil | some v ↦ v ]

  abbrev pub is_nil : Any F → Bool
  is_nil nil = true
  is_nil _ = false

  abbrev pub as_uint64 : Any F → ℕ
  as_uint64 (integer uint64 (pos n)) = n
  as_uint64 _ = 0

  abbrev pub as_int : Any F → ℤ
  as_int (integer int v) = v
  as_int _ = pos 0

  abbrev pub as_float64 : FloatOps F → Any F → F
  as_float64 fl (float64 x) = x
  as_float64 fl _ = fl.of_ℤ (pos 0)

  abbrev pub as_string : Any F → String
  as_string (str s) = s
  as_string _ = ""

  abbrev pub as_bool : Any F → Bool
  as_bool (bool b) = b
  as_bool _ = false

  abbrev pub as_time : Any F → ℤ
  as_time (time t) = t
  as_time _ = pos 0

  abbrev pub as_url : Any F → Option String
  as_url (url u) = some u
  as_url _ = none

  unfoldable pub chain_id : State F → ℕ
  unfolding read
  chain_id s = as_uint64 (read "chain_id" s)

  unfoldable pub chain_code : State F → String
  unfolding read
  chain_code s = as_string (read "chain_code" s)

  unfoldable pub type : State F → String
  unfolding read
  type s = as_string (read "type" s)

  unfoldable pub count : State F → ℕ
  unfolding read
  count s = as_uint64 (read "count" s)

  unfoldable pub last_update_time : State F → ℤ
  unfolding read
  last_update_time s = as_time (read "last_update_time" s)

  unfoldable pub health : State F → Bool
  unfolding read
  health s = as_bool (read "health" s)

  unfoldable pub duration : FloatOps F → State F → F
  unfolding read
  duration fl s = as_float64 fl (read "duration" s)

  unfoldable pub p95_health : State F → Bool
  unfolding read
  p95_health s = as_bool (read "p95_health" s)

  unfoldable pub endpoint_url : State F → Option String
  unfolding read
  endpoint_url s = as_url (read "url" s)

  unfoldable pub weight : State F → ℤ
  unfolding read
  weight s = as_int (read "weight" s)

  -- `New(url)` at the time `now`.
  unfoldable pub new : ℤ → String → State F
  unfolding insert
  new now u =
      ("type", str "default")
      ∷ ("url", url u)
      ∷ ("health", bool true)
      ∷ ("p95_health", bool true)
      ∷ ("duration", integer int (pos 0))
      ∷ ("p95_duration", integer int (pos 0))
      ∷ ("count", integer int (pos 0))
      ∷ ("last_update_time", time now)
      ∷ []

  abbrev pub with_attr : String → Any F → Attribute F
  with_attr n v = record { name = n; increment = false; value = v }

  abbrev pub with_attr_increase : String → Any F → Attribute F
  with_attr_increase n v = record { name = n; increment = true; value = v }

  -- The `switch` of `apply`: a value of another type than the stored number is a failed type
  -- assertion, and a stored value that is no number is left as it is.
  unfoldable pub increase : FloatOps F → Any F → Any F → Option (Any F)
  increase fl (integer k a) (integer j b) =
      if kind_index k == kind_index j then some (integer k (wrap k (a +ℤ b))) else none
  increase fl (integer k a) _ = none
  increase fl (float32 a) (float32 b) = some (float32 (fl.add a b))
  increase fl (float32 a) _ = none
  increase fl (float64 a) (float64 b) = some (float64 (fl.add a b))
  increase fl (float64 a) _ = none
  increase fl old _ = some old

  -- What `apply` stores, if its type assertions hold.
  unfoldable pub new_value : FloatOps F → Attribute F → State F → Option (Any F)
  new_value fl a s =
      if a.increment && not (is_nil (read a.name s)) && not (is_nil a.value)
      then increase fl (read a.name s) a.value
      else some a.value

  unfoldable pub apply : FloatOps F → Attribute F → State F → Option (State F)
  unfolding new_value
  apply fl a s = elim (new_value fl a s) [ none ↦ none | some v ↦ some (insert a.name v s) ]

  -- The loop of `Update`.
  unfoldable pub apply_all : FloatOps F → List (Attribute F) → State F → Option (State F)
  apply_all fl [] s = some s
  apply_all fl (a ∷ as') s = elim (apply fl a s) [ none ↦ none | some t ↦ apply_all fl as' t ]

  -- With a changed count, health or duration the summaries are told; a nil URL panics there.
  unfoldable pub observe : FloatOps F → State F → State F → Option (List (Observation F))
  observe fl s t =
      if count t == count s
        && (bool_eq (health t) (health s) && fl.eq (duration fl t) (duration fl s))
      then some []
      else elim (endpoint_url t) [
        | none ↦ none
        | some u ↦ some (
            record {
              code = chain_code t;
              url = u;
              duration = duration fl t;
              status = if health t then 200 else 500;
            }
            ∷ [])
      ]

  -- `Update`
  unfoldable pub update :
      FloatOps F → List (Attribute F) → State F → Option (State F × List (Observation F))
  update fl as' s = elim (apply_all fl as' s) [
    | none ↦ none
    | some t ↦ elim (observe fl s t) [ none ↦ none | some obs ↦ some (t, obs) ]
  ]
