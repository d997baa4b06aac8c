-- ===== src/WsClient/Moves.antt =====
-- What single moves of the sessions change.
use web3_rpc_proxy.Prelude.{
  ℕ, String, ◌≡◌, refl, false, none, some, List, ◌==◌, nat_comparable, string_comparable,
  nat_beq_iff, eq_iff, arith, Option-cases, inl, inr,
}
use web3_rpc_proxy.Prelude.Dict.{lookup, lookup-remove}
use web3_rpc_proxy.Rpc.{Reply}
use web3_rpc_proxy.WsClient.{Ending}
use web3_rpc_proxy.WsClient.Sessions.{finished, Client, at, received, left}

pub at_same {ℓ} : {A : Type ℓ} (i : ℕ) (v : A) (f : ℕ → A) → at i v f i ≡ v
at_same i v f = ground (arith, nat_beq_iff i i)

module _ (key : ℕ → String) (result_key : List Reply → String) where
  pub received-some :
      (rs : List Reply) (c : ℕ) (s : Client)
      → lookup (result_key rs) s.sessions ≡ some c
      → record s { holding = some (c, rs) } ≡ received key result_key rs s
  unfolding received
  received-some rs c s n = rw (n, received) refl

  pub left_phase :
      (i : ℕ) (e : Ending) (s : Client) → (left key result_key i e s).phase i ≡ finished e
  unfolding left
  left_phase i e s = elim (Option-cases (lookup (key i) s.sessions)) [
    | inl n ↦ rw (n, left) (at_same i (finished e) s.phase)
    | inr (c, n) ↦ rw (n, left) (at_same i (finished e) s.phase)
  ]

  pub left_reader :
      (i : ℕ) (e : Ending) (s : Client)
      → ((left key result_key i e s).alive ≡ s.alive)
        × ((left key result_key i e s).holding ≡ s.holding)
  unfolding left
  left_reader i e s = elim (Option-cases (lookup (key i) s.sessions)) [
    | inl n ↦ rw (n, left) (refl, refl)
    | inr (c, n) ↦ rw (n, left) (refl, refl)
  ]

  -- Other requests keep their phases.
  pub left-other :
      (i j : ℕ) (e : Ending) (s : Client)
      → (i == j) ≡ false
      → (left key result_key i e s).phase j ≡ s.phase j
  unfolding left
  left-other i j e s n = elim (Option-cases (lookup (key i) s.sessions)) [
    | inl m ↦ rw (m, left) (ground (arith, n))
    | inr (c, m) ↦ rw (m, left) (ground (arith, n))
  ]

  pub left_session :
      (i : ℕ) (e : Ending) (s : Client) → lookup (key i) (left key result_key i e s).sessions ≡ none
  unfolding left
  left_session i e s = elim (Option-cases (lookup (key i) s.sessions)) [
    | inl m ↦ rw (m, left) m
    | inr (c, m) ↦
        rw (m, left)
          (ground (arith, lookup-remove (key i) (key i) s.sessions, eq_iff (key i) (key i)))
  ]

  pub received-none :
      (rs : List Reply) (s : Client)
      → lookup (result_key rs) s.sessions ≡ none
      → received key result_key rs s ≡ s
  unfolding received
  received-none rs s n = rw (n, received) refl
