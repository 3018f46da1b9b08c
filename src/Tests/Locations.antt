-- ===== src/Tests/Locations.antt =====
-- A node with three addresses, of which the second is located.
use vdexnode.Common.{◌≡◌, refl, String, Option, some, none, [], ◌∷◌, if◌then◌else◌, str_eq}
use vdexnode.Common.Dict.{Dict, lookup}
use vdexnode.Api.Network.{EosNodeInfo}
use vdexnode.Api.Handler.{Handler}
use vdexnode.Api.Handler.Nodes.{IsTable}
use vdexnode.Api.Locations.{nodes_location}
use vdexnode.Api.Locations.Told.{located, nodes_location-lookup}
use vdexnode.Tests.ToyNetwork.{toy_network}

abbrev seen : EosNodeInfo
seen = record { id = "n"; ips = "1.2.3.4" ∷ "5.6.7.8" ∷ "9.9.9.9" ∷ []; key = "k"; public_key = "" }

abbrev watcher : Handler toy_network
watcher = record {
  eosnode = record {
    info = record { id = "me"; ips = []; key = ""; public_key = "" };
    dht = [];
    nodes = ("n", seen) ∷ [];
  };
  chat_events = [];
  chat_readers_idx = 0;
  bitcoin = record { app = ""; rpcuser = ""; rpcpassword = ""; rpcport = ""; rpcconnect = "" };
}

abbrev socket : String → Option String
socket ip = some ip

abbrev locator : String → Option (Option (Dict String))
locator url =
    if str_eq url "https://ipinfo.io/5.6.7.8/json"
    then some (some (("city", "Rome") ∷ ("loc", "41,12") ∷ []))
    else some none

watched-IsTable : IsTable watcher.eosnode.nodes
unfolding IsTable lookup
watched-IsTable = (refl, refl, tt)

nodes_location-lookup_example :
    lookup "n" (nodes_location socket locator toy_network watcher)
    ≡ located socket locator (lookup "n" watcher.eosnode.nodes)
nodes_location-lookup_example =
    nodes_location-lookup socket locator toy_network watcher "n" watched-IsTable

the_second_is_told :
    lookup "n" (nodes_location socket locator toy_network watcher) ≡ some ("Rome" ∷ "41,12" ∷ [])
unfolding nodes_location lookup
the_second_is_told = refl
