-- ===== src/Tests/Service.antt =====
-- The server while two parties of the small curve generate keys.
use vdexnode.Common.{
  sym, ℕ, ◌^◌, ◌<◌, ◌≡◌, ◌≢◌, inl, inr, refl, some, List, [], ◌∷◌, All, get_elem?, arith, String,
  ap,
}
use vdexnode.Mpt.Transport.{Entry, TupleKey, message_key}
use vdexnode.Mpt.Program.Scripts.{message}
use vdexnode.Mpt.GenerateKey.Complete.{round1}
use vdexnode.Common.Decimal.{to_string}
use vdexnode.Api.Handler.{Handler, info}
use vdexnode.Api.Server.{keygen_key, sign_key, set}
use vdexnode.Api.Server.Calls.{Call, set_call, goes_on}
use vdexnode.Api.Server.Service.{Unused, Comes, Answers}
use vdexnode.Api.Server.Service.Generation.{sets_of, generation_served}
use vdexnode.Tests.Toy.{F3, f1, copies_at, toy}
use vdexnode.Tests.Programs.{
  delays, toy-IsSound, toy_aead-IsAead, toy_draws, toy_server-IsServer, toy_wire-IsWire,
}
use vdexnode.Tests.Server.{start}
use vdexnode.Tests.ToyNetwork.{
  toy_network, toy_network-IsStore, toy_place_injective, expire, found-expire,
}

few : 2 < 2 ^ 32
few = omega arith

abbrev part : ℕ → ℕ → F3
part j i = f1

abbrev dealt :
    (j i : ℕ)
    → i < 2
    → get_elem? (toy.share 1 2 (toy_draws j).u (toy_draws j).sharing).1 i ≡ some (part j i)
dealt j i lt = copies_at 2 i f1 lt

-- The first message of party 1, and one of another session.
abbrev first : Entry
first = message toy_server-IsServer delays 1 2 "id" 1 "" "round1" (
    round1 toy toy-IsSound 1 2 toy_draws (λ i j. 1) (λ i j. refl) part dealt toy_aead-IsAead
      (λ i j. refl) toy_server-IsServer delays "id" toy_wire-IsWire 1)

abbrev foreign : Entry
foreign = record {
  key = record { first = "1"; second = "round1"; third = "other"; fourth = "" };
  value = "v";
}

abbrev sets_by : ℕ → List Entry
sets_by =
    sets_of toy toy-IsSound 1 2 toy_draws (λ i j. 1) (λ i j. refl) part dealt toy_aead-IsAead
      (λ i j. refl) toy_server-IsServer (λ i. delays) "id" toy_wire-IsWire few

apart : ◌≢◌ {A = String} "other" "id"
apart e = absurd cc

-- The key is no signup's.
no_signup : first.key.first ≢ "signup"
unfolding message_key to_string
no_signup e = absurd cc

other_session : foreign.key.third ≢ "id"
other_session e = apart e

unused : Unused toy_network toy_network-IsStore "me" first start
unfolding info
unused = record {
  same_id = refl;
  no_keygen = λ e.
      no_signup (ap (λ (k : TupleKey). k.first) (toy_place_injective "me" first.key keygen_key e));
  no_sign = λ e.
      no_signup (ap (λ (k : TupleKey). k.first) (toy_place_injective "me" first.key sign_key e));
  nothing_put = λ v has. has;
}

-- Another session's message, the first of this one, and then the network forgets one.
abbrev calls : List (Call toy_network)
calls = set_call foreign ∷ set_call first ∷ goes_on expire ∷ []

calls_come : All (Comes toy_network toy_network-IsStore "me" "id" sets_by first) calls
calls_come = (
  (inl other_session, λ e. sym (toy_place_injective "me" first.key foreign.key e)),
  (((inr (1, inl refl), λ e. refl)), ((λ s k v has. found-expire s k v has), tt)),
)

abbrev after : Handler toy_network
after =
    let h = set toy_network first (set toy_network foreign start) in
    record h { eosnode = record h.eosnode { dht = expire h.eosnode.dht } }

generation_served_example :
    Answers toy_network toy_network-IsStore "me" first (foreign ∷ first ∷ []) after
generation_served_example =
    generation_served toy toy-IsSound 1 2 toy_draws (λ i j. 1) (λ i j. refl) part dealt
      toy_aead-IsAead (λ i j. refl) toy_server-IsServer (λ i. delays) "id" toy_wire-IsWire few
      toy_network toy_network-IsStore (some "") "me" 1 first (inl refl) start after calls unused
      calls_come refl
