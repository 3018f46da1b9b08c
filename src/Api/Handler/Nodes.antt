-- ===== src/Api/Handler/Nodes.antt =====
-- The table of the other nodes, and what the routes tell of it.
use text.Mathlib.TextPositions.{eq_refl}
use vdexnode.Common.{
  ◌≡◌, ◌↔◌, refl, sym, ap, ◌∙◌, ◌⊎◌, inl, inr, String, Bool, true, false, Option, none, some, List,
  [], ◌∷◌, if◌then◌else◌, Bool-cases, str_eq, eq_iff,
}
use vdexnode.Common.Outcome.{Outcome, ok, err, panic, ◌>>=◌, index}
use vdexnode.Common.Dict.{Dict, lookup, insert, remove, lookup-insert, lookup-remove}
use vdexnode.Api.Network.{Network, EosNodeInfo}
use vdexnode.Api.Handler.{
  Handler, follow, collect_keys, collect_ips, get_connected_nodes, get_connected_ips,
}
use vdexnode.Api.Server.{connected_nodes, connected_ips}

-- Every node stands once, under its own identifier.
unfoldable pub IsTable : Dict EosNodeInfo → Type 0
IsTable [] = Unit
IsTable ((id, node) ∷ nodes) = (id ≡ node.id) × (lookup id nodes ≡ none) × IsTable nodes

lookup-remove-none :
    {V : Type 0} (k j : String) (m : Dict V) → lookup j m ≡ none → lookup j (remove k m) ≡ none
lookup-remove-none k j m e = lookup-remove k j m ∙ split (str_eq k j)
  where
    split : (b : Bool) → (if b then none else lookup j m) ≡ none
    split true = refl
    split false = e

remove-IsTable : (k : String) (nodes : Dict EosNodeInfo) → IsTable nodes → IsTable (remove k nodes)
unfolding IsTable remove
remove-IsTable k [] t = tt
remove-IsTable k ((id, node) ∷ nodes) (a, b, t) = elim (Bool-cases (str_eq id k)) [
  | inl e ↦ rw e (remove-IsTable k nodes t)
  | inr e ↦ rw e (a, lookup-remove-none k id nodes b, remove-IsTable k nodes t)
]

insert-IsTable :
    (node : EosNodeInfo) (nodes : Dict EosNodeInfo)
    → IsTable nodes
    → IsTable (insert node.id node nodes)
unfolding IsTable insert
insert-IsTable node nodes t = (
  refl,
  lookup-remove node.id node.id nodes ∙ rw (eq_refl node.id) refl,
  remove-IsTable node.id nodes t,
)

module _ (n : Network) where
  open n use {Value, unpack_info}

  -- Following the announcements keeps a table a table, in which every node stands once and under
  -- its own identifier, whatever the values are and whether they appear or expire.
  pub follow-IsTable :
      (v : Value) (expired : Bool) (nodes : Dict EosNodeInfo)
      → IsTable nodes
      → IsTable (follow n v expired nodes)
  unfolding follow
  follow-IsTable v expired nodes t = split (unpack_info v) expired
    where
      split :
          (o : Option EosNodeInfo) (expired : Bool)
          → IsTable (elim o [
            | none ↦ nodes
            | some node ↦ elim expired [
              | true ↦ remove node.id nodes
              | false ↦ insert node.id node nodes
            ]
          ])
      split none expired = t
      split (some node) true = remove-IsTable node.id nodes t
      split (some node) false = insert-IsTable node nodes t

  -- The key of a node that is known, or else what was there.
  abbrev pub key_or : Option EosNodeInfo → Option String → Option String
  key_or none o = o
  key_or (some node) o = some node.key

  lookup-collect_keys :
      (i : String) (nodes : Dict EosNodeInfo) (result : Dict String)
      → IsTable nodes
      → lookup i (collect_keys nodes result) ≡ key_or (lookup i nodes) (lookup i result)
  unfolding collect_keys lookup IsTable
  lookup-collect_keys i [] result t = refl
  lookup-collect_keys i ((id, node) ∷ nodes) result (a, b, t) =
      lookup-collect_keys i nodes (insert id node.key result) t
      ∙ ap (key_or (lookup i nodes)) (lookup-insert id i node.key result)
      ∙ elim (Bool-cases (str_eq id i)) [
        | inl e ↦ rw (e, ap (λ (k : String). lookup k nodes) (sym ((eq_iff id i).0 e)) ∙ b) refl
        | inr e ↦ rw e refl
      ]

  -- If the nodes are a table, `connected_nodes` tells of every identifier the key of the node that
  -- has it, and nothing of an identifier that no node has; but "Result" is always "Success".
  pub connected_nodes-lookup :
      (h : Handler n) (i : String)
      → IsTable h.eosnode.nodes
      → lookup i (connected_nodes n h)
        ≡ (if str_eq "Result" i then some "Success" else key_or (lookup i h.eosnode.nodes) none)
  unfolding connected_nodes get_connected_nodes lookup
  connected_nodes-lookup h i t =
      lookup-insert "Result" i "Success" (collect_keys h.eosnode.nodes [])
      ∙ ap (λ (o : Option String). if str_eq "Result" i then some "Success" else o)
          (lookup-collect_keys i h.eosnode.nodes [] t)

  -- Some node tells no address.
  unfoldable pub HasMute : Dict EosNodeInfo → Type 0
  HasMute [] = ⊥
  HasMute ((id, node) ∷ nodes) = (node.ips ≡ []) ⊎ HasMute nodes

  collect_ips-panic :
      (nodes : Dict EosNodeInfo) (result : Dict String)
      → (collect_ips nodes result ≡ panic) ↔ HasMute nodes
  unfolding collect_ips HasMute
  collect_ips-panic [] result = (λ e. absurd cc, λ f. absurd f)
  collect_ips-panic ((id, node) ∷ nodes) result =
      split node.ips (λ ip. collect_ips-panic nodes (insert ip node.key result))
    where
      split :
          (ips : List String)
          → ((ip : String)
              → (collect_ips nodes (insert ip node.key result) ≡ panic) ↔ HasMute nodes)
          → ((do ip ← index ips 0; collect_ips nodes (insert ip node.key result)) ≡ panic)
            ↔ ((ips ≡ []) ⊎ HasMute nodes)
      split [] ih = (λ e. inl refl, λ m. refl)
      split (ip ∷ ips) ih =
          (λ e. inr ((ih ip).0 e), λ m. elim m [ inl bad ↦ absurd cc | inr rest ↦ (ih ip).1 rest ])

  -- `connected_ips` panics exactly when some known node tells no address.
  pub connected_ips-panic : (h : Handler n) → (connected_ips n h ≡ panic) ↔ HasMute h.eosnode.nodes
  unfolding connected_ips get_connected_ips
  connected_ips-panic h =
      let (there, back) = collect_ips-panic h.eosnode.nodes [] in
      (λ e. there (only (collect_ips h.eosnode.nodes []) e), λ m. rw (back m) refl)
    where
      only :
          (o : Outcome ⊥ (Dict String))
          → (do nodes ← o; ok (insert "Result" "Success" nodes)) ≡ panic
          → o ≡ panic
      only (ok nodes) e = absurd cc
      only (err bad) e = elim bad [ ]
      only panic e = refl
