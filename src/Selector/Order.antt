-- ===== src/Selector/Order.antt =====
-- The order `best` of the endpoints.
use web3_rpc_proxy.Prelude.{◌≡◌, ◌⊎◌, true, false, arith}
use web3_rpc_proxy.Endpoint.{Endpoint, FloatOps}
use web3_rpc_proxy.Selector.{best, endpoint_health}

module _ {F : Type 0} (fl : FloatOps F) (scores : Endpoint F → F) where
  -- A healthy endpoint comes before an unhealthy one, and never the other way round, whatever their
  -- scores; among endpoints of the same health the same holds of the health of the last period.
  pub best-health :
      (a b : Endpoint F)
      → endpoint_health a ≡ true
      → endpoint_health b ≡ false
      → (best fl scores a b ≡ true) × (best fl scores b a ≡ false)
  unfolding best
  best-health a b h k = (ground arith, ground arith)

  -- Of two endpoints at least one may come first, where at most one of two scores is below the other.
  pub best_total :
      (a b : Endpoint F)
      → (fl.lt (scores a) (scores b) ≡ false) ⊎ (fl.lt (scores b) (scores a) ≡ false)
      → (best fl scores a b ≡ true) ⊎ (best fl scores b a ≡ true)
  unfolding best
  best_total a b h = ground arith

  -- The order is not strict: where no score is below itself, each endpoint is before itself.
  pub best_not_strict :
      (a : Endpoint F) → fl.lt (scores a) (scores a) ≡ false → best fl scores a a ≡ true
  unfolding best
  best_not_strict a h = ground arith
