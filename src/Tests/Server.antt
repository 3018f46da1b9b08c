-- ===== src/Tests/Server.antt =====
-- A server of two parties on the small network, with one known node.
use vdexnode.Common.{
  ◌≡◌, ◌↔◌, refl, String, false, Option, some, none, [], ◌∷◌, map, arith, if◌then◌else◌, str_eq,
  as_bytes,
}
use vdexnode.Common.Outcome.{ok, panic}
use vdexnode.Common.Dict.{lookup}
use vdexnode.Api.Network.{EosNodeInfo, Params}
use vdexnode.Api.Handler.{ChatMessage, ChatReader, EosNode, Handler, follow}
use vdexnode.Api.Handler.Nodes.{
  IsTable, HasMute, key_or, follow-IsTable, connected_nodes-lookup, connected_ips-panic,
}
use vdexnode.Api.Server.{connected_nodes, connected_ips}
use vdexnode.Api.Chat.{Filled, wire, read}
use vdexnode.Api.Chat.Bounds.{Fits, read-Fits}
use vdexnode.Api.Chat.Reads.{padded, reader_of, reads, read-too_long, reads-in_order}
use vdexnode.Tests.ToyNetwork.{toy_network}

abbrev pub known : EosNodeInfo
known = record { id = "n"; ips = "1.2.3.4:4222" ∷ []; key = "k"; public_key = "" }

abbrev pub node : EosNode toy_network
node = record {
  info = record { id = "me"; ips = []; key = ""; public_key = "" };
  dht = [];
  nodes = ("n", known) ∷ [];
}

abbrev pub start : Handler toy_network
start = record {
  eosnode = node;
  chat_events = [];
  chat_readers_idx = 0;
  bitcoin = record { app = ""; rpcuser = ""; rpcpassword = ""; rpcport = ""; rpcconnect = "" };
}

abbrev pub params : Params
params = record { parties = "2"; threshold = "1" }

one_node-IsTable : IsTable (("n", known) ∷ [])
unfolding IsTable lookup
one_node-IsTable = (refl, refl, tt)

follow-IsTable_example : IsTable (follow toy_network "other" false (("n", known) ∷ []))
follow-IsTable_example =
    follow-IsTable toy_network "other" false (("n", known) ∷ []) one_node-IsTable

connected_nodes-lookup_example : lookup "n" (connected_nodes toy_network start) ≡ (
    if str_eq "Result" "n"
    then some "Success"
    else key_or toy_network (lookup "n" start.eosnode.nodes) none)
connected_nodes-lookup_example = connected_nodes-lookup toy_network start "n" one_node-IsTable

connected_ips-panic_example :
    (connected_ips toy_network start ≡ panic) ↔ HasMute toy_network start.eosnode.nodes
connected_ips-panic_example = connected_ips-panic toy_network start

abbrev hello : ChatMessage
hello = record { author = "a"; body = "hello"; encrypted = false }

abbrev bye : ChatMessage
bye = record { author = "a"; body = "bye"; encrypted = false }

abbrev to_json : ChatMessage → Option String
to_json m = some m.body

reads-in_order_example :
    reads to_json 8 2 (reader_of 1 "room" (hello ∷ bye ∷ []))
    ≡ ok (
      map
          (λ (m : ChatMessage). record { buf = padded to_json 8 m.body; returned = 8 })
          (hello ∷ bye ∷ []),
      reader_of 1 "room" [],
    )
unfolding wire as_bytes
reads-in_order_example =
    reads-in_order to_json (λ m. m.body) 8 1 "room" (hello ∷ bye ∷ []) (λ m. refl)
      (omega arith, (omega arith, tt))

read-too_long_example : read to_json 4 (reader_of 1 "room" (hello ∷ [])) ≡ panic
unfolding wire as_bytes
read-too_long_example = read-too_long to_json 4 1 "room" "hello" hello [] refl (omega arith)

abbrev taken : Filled × ChatReader
taken = (
  record { buf = 97 ∷ 10 ∷ 0 ∷ 0 ∷ []; returned = 4 },
  record { id = 1; room = "r"; chat = bye ∷ []; stopped = false },
)

one_read :
    read (λ m. some "a") 4 (record { id = 1; room = "r"; chat = hello ∷ bye ∷ []; stopped = false })
    ≡ ok taken
unfolding read as_bytes
one_read = refl

read-Fits_example :
    Fits 4 (record { id = 1; room = "r"; chat = hello ∷ bye ∷ []; stopped = false }) taken
read-Fits_example =
    read-Fits (λ m. some "a") 4
      (record { id = 1; room = "r"; chat = hello ∷ bye ∷ []; stopped = false }) taken one_read
