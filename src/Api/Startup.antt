-- ===== src/Api/Startup.antt =====
-- How a node that is given a bootstrap node learns its addresses: EosNode::init_ips of
-- vDexNode/api/src/eosnode.rs. `answers i` is what call i of the table's `public_addresses` returns,
-- each address by its text. The loop runs on fuel, and `none` is fuel that ran out.
pub mod Wait
pub mod Bootstrap
pub mod Address
pub mod Node
use vdexnode.Common.{
  ℕ, zero, suc, ◌+◌, String, Bool, ◌&&◌, Option, none, some, List, [], ◌∷◌, length, ◌==◌,
  if◌then◌else◌,
}
use vdexnode.Common.Outcome.{Outcome, ok, err, panic}
use vdexnode.Api.Network.{EosNodeInfo}

abbrev pub max_attempts : ℕ
max_attempts = 3000

-- `while public_addresses.len() == 0`, after `idx` rounds.
unfoldable pub await_addresses :
    (ℕ → List String) → ℕ → ℕ → List String → Option (Outcome ⊥ (List String))
await_addresses answers zero idx addresses = none
await_addresses answers (suc fuel) idx [] =
    let next = answers (idx + 1) in
    let rest = await_addresses answers fuel (idx + 1) next in
    if (idx + 1 == max_attempts) && (length next == 0) then some panic else rest
await_addresses answers (suc fuel) idx (address ∷ addresses) = some (ok (address ∷ addresses))

-- A round for each attempt and one more are enough fuel.
unfoldable pub init_ips : (ℕ → List String) → EosNodeInfo → Option (Outcome ⊥ EosNodeInfo)
unfolding await_addresses
init_ips answers info = elim (await_addresses answers (suc max_attempts) 0 (answers 0)) [
  | none ↦ none
  | some waited ↦ elim waited [
    | ok addresses ↦ some (ok (record info { ips = addresses }))
    | err bad ↦ some (err bad)
    | panic ↦ some panic
  ]
]
