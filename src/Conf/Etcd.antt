-- ===== src/Conf/Etcd.antt =====
-- NewEtcdClient of internal/app/shared/etcd.go: a client from the addresses in the environment. The library
-- of etcd is the parameter `new`, which gives a client or an error.
use Prim.Native.Char.{code}
use web3_rpc_proxy.Prelude.{
  ◌≤◌, String, ◌≢◌, Option, none, some, List, [], ◌∷◌, length, ◌==◌, nat_comparable, arith,
  if◌then◌else◌, Option-cases, inl, inr,
}

abbrev first_or : String → List String → String
first_or d [] = d
first_or d (t ∷ ts) = t

abbrev rest_of : List String → List String
rest_of [] = []
rest_of (t ∷ ts) = ts

-- `strings.Split(v, " ")`
unfoldable pub split_spaces : String → List String
split_spaces String.[] = "" ∷ []
split_spaces (String.◌∷◌ c s) =
    let parts = split_spaces s in
    if code c == b' ' then "" ∷ parts else (String.◌∷◌ c (first_or "" parts)) ∷ rest_of parts

pub data Etcd (C : Type 0) : Type 0 where
  absent : Etcd C
  exited : Etcd C
  client : C → Etcd C

abbrev of_new : {C : Type 0} → Option C → Etcd C
of_new none = exited
of_new (some c) = client c

unfoldable pub new_etcd_client : {C : Type 0} → (List String → Option C) → String → Etcd C
unfolding split_spaces
new_etcd_client new v =
    if length (split_spaces v) == 0 then absent else of_new (new (split_spaces v))

split_spaces-some : (v : String) → 1 ≤ length (split_spaces v)
unfolding split_spaces
split_spaces-some String.[] = omega arith
split_spaces-some (String.◌∷◌ c s) = ground arith

-- Whatever the environment says, also where it says nothing: there is a client or the process has exited,
-- never no client, so that a proxy without etcd does not start from its local files alone.
pub new_etcd_client-ne-absent :
    {C : Type 0} (new : List String → Option C) (v : String) → new_etcd_client new v ≢ absent
unfolding new_etcd_client
new_etcd_client-ne-absent new v h = elim (Option-cases (new (split_spaces v))) [
  | inl n ↦ ground (arith, split_spaces-some v, n, h)
  | inr (c, n) ↦ ground (arith, split_spaces-some v, n, h)
]
