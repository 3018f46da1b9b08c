-- ===== src/Api/Locations/Told.antt =====
-- What the route nodes_location tells of each node.
use text.Mathlib.TextPositions.{eq_refl}
use vdexnode.Common.{
  ◌<>◌, ◌≡◌, refl, sym, ap, ◌∙◌, inl, inr, String, true, false, Option, none, some, List, [], ◌∷◌,
  Bool-cases, str_eq, eq_iff,
}
use vdexnode.Common.Dict.{Dict, lookup, insert, lookup-insert}
use vdexnode.Api.Network.{Network, EosNodeInfo}
use vdexnode.Api.Handler.{Handler}
use vdexnode.Api.Handler.Nodes.{IsTable}
use vdexnode.Api.Locations.{
  locate, place, locate_node, locate_nodes, get_nodes_location, nodes_location,
}

-- The first, or else the second.
abbrev pub or_else : {A : Type 0} → Option A → Option A → Option A
or_else none o = o
or_else (some a) o = some a

or_else_assoc : {A : Type 0} (a b c : Option A) → or_else a (or_else b c) ≡ or_else (or_else a b) c
or_else_assoc none b c = refl
or_else_assoc (some a) b c = refl

or_else-none : {A : Type 0} (a : Option A) → or_else a none ≡ a
or_else-none none = refl
or_else-none (some a) = refl

abbrev pub pair : Option String → Option String → Option (List String)
pair none loc = none
pair (some city) none = none
pair (some city) (some loc) = some (city ∷ loc ∷ [])

module _ (socket_ip : String → Option String)
    (http_get : String → Option (Option (Dict String))) where
  -- What an answer of the service tells: its city and its location, both of which it must hold.
  abbrev pub told : Option (Option (Dict String)) → Option (List String)
  told none = none
  told (some none) = none
  told (some (some answer)) = pair (lookup "city" answer) (lookup "loc" answer)

  abbrev pub found_at : Option String → Option (List String)
  found_at none = none
  found_at (some address) = told (http_get ("https://ipinfo.io/" <> (address <> "/json")))

  locate-told : (ip : String) → locate socket_ip http_get ip ≡ found_at (socket_ip ip)
  unfolding locate place lookup
  locate-told ip = asked (socket_ip ip)
    where
      both :
          (city loc : Option String)
          → (elim loc [
            | none ↦ none
            | some l ↦ elim city [ none ↦ none | some c ↦ some (c ∷ l ∷ []) ]
          ])
            ≡ pair city loc
      both none none = refl
      both none (some l) = refl
      both (some c) none = refl
      both (some c) (some l) = refl

      got :
          (o : Option (Option (Dict String)))
          → (elim o [
            | none ↦ none
            | some answer ↦ elim answer [ none ↦ place [] | some resp ↦ place resp ]
          ])
            ≡ told o
      got none = refl
      got (some none) = refl
      got (some (some resp)) = both (lookup "city" resp) (lookup "loc" resp)

      asked :
          (o : Option String)
          → (elim o [
            | none ↦ none
            | some address ↦ elim (http_get ("https://ipinfo.io/" <> address <> "/json")) [
              | none ↦ none
              | some answer ↦ elim answer [ none ↦ place [] | some resp ↦ place resp ]
            ]
          ])
            ≡ found_at o
      asked none = refl
      asked (some address) = got (http_get ("https://ipinfo.io/" <> address <> "/json"))

  -- What is found of the last address that is located.
  abbrev pub last_located : List String → Option (List String)
  last_located [] = none
  last_located (ip ∷ ips) = or_else (last_located ips) (found_at (socket_ip ip))

  -- What is found of a node that is known.
  abbrev pub located : Option EosNodeInfo → Option (List String)
  located none = none
  located (some node) = last_located node.ips

  locate_node-own :
      (id : String) (ips : List String) (ls : Dict (List String))
      → lookup id (locate_node socket_ip http_get id ips ls)
        ≡ or_else (last_located ips) (lookup id ls)
  unfolding locate_node
  locate_node-own id [] ls = refl
  locate_node-own id (ip ∷ ips) ls =
      split (λ before. locate_node-own id ips before) (locate socket_ip http_get ip)
      ∙ rw (locate-told ip) refl
    where
      split :
          ((before : Dict (List String))
            → lookup id (locate_node socket_ip http_get id ips before)
              ≡ or_else (last_located ips) (lookup id before))
          → (o : Option (List String))
          → lookup id (
              locate_node socket_ip http_get id ips
                (elim o [ none ↦ ls | some found ↦ insert id found ls ]))
            ≡ or_else (or_else (last_located ips) o) (lookup id ls)
      split rest none =
          rest ls
          ∙ ap (λ (o : Option (List String)). or_else o (lookup id ls))
              (sym (or_else-none (last_located ips)))
      split rest (some found) =
          rest (insert id found ls)
          ∙ ap (or_else (last_located ips)) (lookup-insert id id found ls ∙ rw (eq_refl id) refl)
          ∙ or_else_assoc (last_located ips) (some found) (lookup id ls)

  locate_node-other :
      (id query : String) (ips : List String) (ls : Dict (List String))
      → str_eq id query ≡ false
      → lookup query (locate_node socket_ip http_get id ips ls) ≡ lookup query ls
  unfolding locate_node
  locate_node-other id query [] ls other = refl
  locate_node-other id query (ip ∷ ips) ls other =
      split (λ before. locate_node-other id query ips before other) (locate socket_ip http_get ip)
    where
      split :
          ((before : Dict (List String))
            → lookup query (locate_node socket_ip http_get id ips before) ≡ lookup query before)
          → (o : Option (List String))
          → lookup query (
              locate_node socket_ip http_get id ips
                (elim o [ none ↦ ls | some found ↦ insert id found ls ]))
            ≡ lookup query ls
      split rest none = rest ls
      split rest (some found) =
          rest (insert id found ls) ∙ lookup-insert id query found ls ∙ rw other refl

  locate_nodes-lookup :
      (query : String) (nodes : Dict EosNodeInfo) (ls : Dict (List String))
      → IsTable nodes
      → lookup query (locate_nodes socket_ip http_get nodes ls)
        ≡ or_else (located (lookup query nodes)) (lookup query ls)
  unfolding locate_nodes lookup IsTable
  locate_nodes-lookup query [] ls t = refl
  locate_nodes-lookup query ((key, node) ∷ nodes) ls (own, once, t) =
      locate_nodes-lookup query nodes (locate_node socket_ip http_get node.id node.ips ls) t
      ∙ elim (Bool-cases (str_eq node.id query)) [
        | inl e ↦
            let same : node.id ≡ query = (eq_iff node.id query).0 e in
            let none_later : lookup query nodes ≡ none =
              ap (λ (k : String). lookup k nodes) (sym (own ∙ same)) ∙ once in
            let here : str_eq key query ≡ true = ap (λ (k : String). str_eq k query) own ∙ e in
            rw (none_later, here)
              (ap (λ (k : String). lookup k (locate_node socket_ip http_get node.id node.ips ls))
                  (sym same)
                ∙ locate_node-own node.id node.ips ls
                ∙ ap (λ (k : String). or_else (last_located node.ips) (lookup k ls)) same)
        | inr e ↦
            let there : str_eq key query ≡ false = ap (λ (k : String). str_eq k query) own ∙ e in
            rw there (
              ap (or_else (located (lookup query nodes)))
                (locate_node-other node.id query node.ips ls e))
      ]

  -- If the nodes are a table, `nodes_location` tells of an identifier the city and the location, in
  -- this order, that ipinfo.io answers for the last address of the node that has it for which it
  -- answers both, and nothing where there is no such node or address.
  pub nodes_location-lookup :
      (n : Network) (h : Handler n) (id : String)
      → IsTable h.eosnode.nodes
      → lookup id (nodes_location socket_ip http_get n h) ≡ located (lookup id h.eosnode.nodes)
  unfolding nodes_location get_nodes_location lookup
  nodes_location-lookup n h id t =
      locate_nodes-lookup id h.eosnode.nodes [] t
      ∙ or_else-none (located (lookup id h.eosnode.nodes))
