-- ===== src/Tests/SigningService.antt =====
-- The server while two parties of the small curve sign.
use vdexnode.Common.{
  sym, ◌^◌, ◌≤◌, ◌<◌, ◌≢◌, inl, inr, refl, ap, String, some, List, [], ◌∷◌, All, arith,
}
use vdexnode.Mpt.Transport.{Entry, TupleKey, message_key}
use vdexnode.Mpt.Program.Scripts.{message}
use vdexnode.Mpt.Sign.Signers.{round0}
use vdexnode.Common.Decimal.{to_string}
use vdexnode.Api.Handler.{Handler, info}
use vdexnode.Api.Server.{keygen_key, sign_key, set}
use vdexnode.Api.Server.Calls.{Call, set_call, goes_on}
use vdexnode.Api.Server.Service.{Unused, Comes, Answers}
use vdexnode.Api.Server.Service.Signing.{Signer, sets_of, signing_served}
use vdexnode.Tests.Toy.{toy}
use vdexnode.Tests.Programs.{delays, toy-IsSound, toy_server-IsServer}
use vdexnode.Tests.SignRun.{
  shared, draws, gamma_small, w_small, coordinate, product, wire, wire-IsWire,
}
use vdexnode.Tests.Server.{start}
use vdexnode.Tests.ToyNetwork.{
  toy_network, toy_network-IsStore, toy_place_injective, expire, found-expire,
}

one : 1 ≤ 1
one = omega arith

two : 1 ≤ 2
two = omega arith

few : 2 < 2 ^ 32
few = omega arith

-- The first message of signer 1, and one of another session.
abbrev first : Entry
first =
    message toy_server-IsServer delays 1 2 "id" 1 "" "round0"
      (round0 toy shared draws toy_server-IsServer delays "id" wire wire-IsWire.party_id_read 1 1)

abbrev foreign : Entry
foreign = record {
  key = record { first = "1"; second = "round0"; third = "other"; fourth = "" };
  value = "v";
}

abbrev sets_by : Signer 2 → List Entry
sets_by =
    sets_of toy toy-IsSound shared draws gamma_small w_small 5 1 coordinate product
      toy_server-IsServer (λ i. delays) "id" wire-IsWire 1 refl one few

apart : ◌≢◌ {A = String} "other" "id"
apart e = absurd cc

-- The key is no signup's.
no_signup : first.key.first ≢ "signup"
unfolding message_key to_string
no_signup e = absurd cc

other_session : foreign.key.third ≢ "id"
other_session e = apart e

unused : Unused toy_network toy_network-IsStore "me" first start
unfolding info
unused = record {
  same_id = refl;
  no_keygen = λ e.
      no_signup (ap (λ (k : TupleKey). k.first) (toy_place_injective "me" first.key keygen_key e));
  no_sign = λ e.
      no_signup (ap (λ (k : TupleKey). k.first) (toy_place_injective "me" first.key sign_key e));
  nothing_put = λ v has. has;
}

-- Another session's message, the first of this one, and then the network forgets one.
abbrev calls : List (Call toy_network)
calls = set_call foreign ∷ set_call first ∷ goes_on expire ∷ []

calls_come : All (Comes toy_network toy_network-IsStore "me" "id" sets_by first) calls
calls_come = (
  (inl other_session, λ e. sym (toy_place_injective "me" first.key foreign.key e)),
  (((inr ((1, one, two), inl refl), λ e. refl)), ((λ s k v has. found-expire s k v has), tt)),
)

abbrev after : Handler toy_network
after =
    let h = set toy_network first (set toy_network foreign start) in
    record h { eosnode = record h.eosnode { dht = expire h.eosnode.dht } }

signing_served_example :
    Answers toy_network toy_network-IsStore "me" first (foreign ∷ first ∷ []) after
signing_served_example =
    signing_served toy toy-IsSound shared draws gamma_small w_small 5 1 coordinate product
      toy_server-IsServer (λ i. delays) "id" wire-IsWire 1 refl one few toy_network
      toy_network-IsStore (some "") "me" (1, one, two) first (inl refl) start after calls unused
      calls_come refl
