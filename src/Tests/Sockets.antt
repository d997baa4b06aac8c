-- ===== src/Tests/Sockets.antt =====
-- Examples of the sessions of a connection, over requests whose keys are tallies of their number, and of a
-- client's messages.
use Prim.Native.String.{◌∷◌ as char_cons}
use web3_rpc_proxy.Prelude.{
  ℕ, zero, suc, String, ◌≡◌, ◌≢◌, refl, ap, true, none, List, [], ◌∷◌, length, nat_comparable,
  string_comparable,
}
use web3_rpc_proxy.Prelude.Dict.{lookup, insert}
use web3_rpc_proxy.Rpc.{Reply}
use web3_rpc_proxy.Tests.{reply_of}
use web3_rpc_proxy.WsClient.{answered}
use web3_rpc_proxy.WsClient.Sessions.{
  finished, Client, new_client, started, received, handed, left, stopped, starts, breaks, receives,
  hands, leaves, Reach, here, next,
}
use web3_rpc_proxy.WsClient.Delivery.{Reach-answered}
use web3_rpc_proxy.WsClient.Answering.{Reach-answers}
use web3_rpc_proxy.WsClient.Races.{Reach-unanswered}

abbrev tally : ℕ → String
tally zero = ""
tally (suc n) = char_cons "1" (tally n)

tally-injective : (i j : ℕ) → tally i ≡ tally j → i ≡ j
tally-injective zero zero h = refl
tally-injective zero (suc j) h = absurd (cc h)
tally-injective (suc i) zero h = absurd (cc h)
tally-injective (suc i) (suc j) h =
    let q : tally i ≡ tally j = cc h in ap suc (tally-injective i j q)

abbrev tally_of : List Reply → String
tally_of rs = tally (length rs)

abbrev one : List Reply
one = reply_of "1" "0x10" ∷ []

abbrev asked : Client
asked = started tally tally_of 1 new_client

asked-Reach : Reach tally tally_of new_client asked
asked-Reach = next here (starts 1 refl refl)

Reach-answers_example :
    (t : Client) × Reach tally tally_of asked t
    × (t.phase 1 ≡ finished (answered one))
    × (t.alive ≡ true)
    × (t.holding ≡ none)
unfolding started
Reach-answers_example =
    Reach-answers tally tally_of tally-injective asked 1 one asked-Reach refl refl refl refl

abbrev held : Client
held = received tally tally_of one asked

abbrev given : Client
given = handed tally tally_of 1 one held

abbrev over : Client
over = left tally tally_of 1 (answered one) given

over-Reach : Reach tally tally_of new_client over
unfolding started received handed lookup insert
over-Reach =
    next (next (next asked-Reach (receives one refl refl refl)) (hands 1 one refl refl refl refl))
      (leaves 1 (answered one) refl refl)

Reach-answered_example : tally_of one ≡ tally 1
unfolding started received handed left lookup insert
Reach-answered_example = Reach-answered tally tally_of over 1 one over-Reach refl

abbrev cut : Client
cut = stopped tally tally_of new_client

Reach-unanswered_example : (started tally tally_of 1 cut).phase 1 ≢ finished (answered one)
unfolding stopped started
Reach-unanswered_example =
    Reach-unanswered tally tally_of 1 one new_client cut (started tally tally_of 1 cut)
      (breaks refl refl refl) (next here (starts 1 refl refl)) refl refl refl
