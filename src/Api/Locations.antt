-- ===== src/Api/Locations.antt =====
-- Handler::get_nodes_location of vDexNode/api/src/handler.rs and its route in server.rs. The reading
-- of a socket address and the service that locates it are parameters.
pub mod Told
use vdexnode.Common.{String, ◌<>◌, Option, none, some, List, [], ◌∷◌}
use vdexnode.Common.Dict.{Dict, lookup, insert}
use vdexnode.Api.Network.{Network, EosNodeInfo}
use vdexnode.Api.Handler.{Handler}

-- The city and the location of an answer that holds both.
unfoldable pub place : Dict String → Option (List String)
unfolding lookup
place resp = elim (lookup "loc" resp) [
  | none ↦ none
  | some loc ↦ elim (lookup "city" resp) [ none ↦ none | some city ↦ some (city ∷ loc ∷ []) ]
]

-- `socket_ip` is the address in the text of a socket address, if it is one. `http_get` is
-- `reqwest::get` with the answer read as JSON: `none` is a request that failed, and `some none` an
-- answer that is not a table of texts.
module _ (socket_ip : String → Option String)
    (http_get : String → Option (Option (Dict String))) where
  -- One round of the inner loop: what it inserts, if it does not `continue`.
  unfoldable pub locate : String → Option (List String)
  unfolding place
  locate ip = elim (socket_ip ip) [
    | none ↦ none
    | some address ↦ elim (http_get ("https://ipinfo.io/" <> address <> "/json")) [
      | none ↦ none
      | some answer ↦ elim answer [ none ↦ place [] | some resp ↦ place resp ]
    ]
  ]

  -- `for ip in &node.ips`
  unfoldable pub locate_node : String → List String → Dict (List String) → Dict (List String)
  unfolding locate insert
  locate_node id [] locations = locations
  locate_node id (ip ∷ ips) locations =
      locate_node id ips
        (elim (locate ip) [ none ↦ locations | some found ↦ insert id found locations ])

  unfoldable pub locate_nodes : Dict EosNodeInfo → Dict (List String) → Dict (List String)
  unfolding locate_node
  locate_nodes [] locations = locations
  locate_nodes ((key, node) ∷ nodes) locations =
      locate_nodes nodes (locate_node node.id node.ips locations)

  module _ (n : Network) where
    unfoldable pub get_nodes_location : Handler n → Dict (List String)
    unfolding locate_nodes
    get_nodes_location h = locate_nodes h.eosnode.nodes []

    unfoldable pub nodes_location : Handler n → Dict (List String)
    unfolding get_nodes_location
    nodes_location h = get_nodes_location h
