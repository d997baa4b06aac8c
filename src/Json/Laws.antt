-- ===== src/Json/Laws.antt =====
-- Lemmas on decoded values: lists, map reads after map writes, and decoding of arrays.
use web3_rpc_proxy.Prelude.{
  String, ◌≡◌, refl, ap, arith, ◌==◌, string_comparable, eq_iff, some, List, [], ◌∷◌, length,
  if◌then◌else◌,
}
use web3_rpc_proxy.Json.{
  Value, Fields, end, entry, to_list, from_list, field, set_field, as_objects,
}

pub to_list-from_list : (vs : List Value) → to_list (from_list vs) ≡ vs
unfolding to_list from_list
to_list-from_list [] = refl
to_list-from_list (v ∷ vs) = ap (◌∷◌ v) (to_list-from_list vs)

pub field-set_field :
    (j k : String) (v : Value) (fs : Fields)
    → field j (set_field k v fs) ≡ (if k == j then v else field j fs)
unfolding field set_field
field-set_field j k v end = refl
field-set_field j k v (entry i w fs) =
    ground (arith, eq_iff k j, eq_iff i k, eq_iff i j, field-set_field j k v fs)

pub length-as_objects :
    (vs : List Value) (fs : List Fields) → as_objects vs ≡ some fs → length fs ≡ length vs
unfolding as_objects
length-as_objects [] fs h = ground arith
length-as_objects (v ∷ vs) [] h = ground arith
length-as_objects (v ∷ vs) (f ∷ fs) h = ground (arith, length-as_objects vs fs)
