-- ===== src/Tests/Sessions.antt =====
-- A server of two parties on the small network that has dealt out one number.
use vdexnode.Common.{
  ◌+◌, ◌^◌, ◌≤◌, ◌<◌, ◌≡◌, ◌≢◌, refl, ap, String, some, List, [], ◌∷◌, arith, as_bytes,
}
use vdexnode.Common.Outcome.{ok}
use vdexnode.Common.Decimal.{parse}
use vdexnode.Mpt.Transport.{TupleKey}
use vdexnode.Api.Handler.{Handler, info}
use vdexnode.Api.Server.{
  keygen_key, sign_key, read_params, signup_keygen, signup_sign, announce_signups,
}
use vdexnode.Api.Server.Calls.{Call, keygen_call, place, serve_all}
use vdexnode.Api.Server.Signups.{Deals}
use vdexnode.Api.Server.Sessions.{signups-Numbered}
use vdexnode.Tests.ToyNetwork.{
  toy_network, toy_network-IsStore, toy_network-IsSerialised, toy_place_injective,
}
use vdexnode.Tests.Server.{params, start}

abbrev calls : List (Call toy_network)
calls = keygen_call "new" ∷ []

two_kinds : ◌≢◌ {A = String} "keygen" "sign"
two_kinds e = absurd cc

two_places : place toy_network "me" keygen_key ≢ place toy_network "me" sign_key
two_places e =
    two_kinds (ap (λ (k : TupleKey). k.second) (toy_place_injective "me" keygen_key sign_key e))

some_party : 1 ≤ 2
some_party = omega arith

few : 1 + 1 < 2 ^ 32
few = omega arith

served :
    (h' : Handler toy_network) × (serve_all toy_network
        (some "{}")
        calls
        (announce_signups toy_network "a" "b" start)
      ≡ ok h')
unfolding announce_signups signup_keygen read_params parse as_bytes info
served = (_, refl)

signups-Numbered_example :
    Deals toy_network toy_network-IsStore "me" keygen_key 2 served.0
      (signup_keygen toy_network (some "{}"))
    × Deals toy_network toy_network-IsStore "me" sign_key 2 served.0
        (signup_sign toy_network (some "{}"))
unfolding read_params parse info
signups-Numbered_example =
    signups-Numbered toy_network toy_network-IsStore toy_network-IsSerialised "me" (some "{}")
      params 2 1 refl refl refl some_party few two_places "a" "b" start served.0 calls refl
      (λ v has. has) (λ v has. has) (tt, tt) served.1
