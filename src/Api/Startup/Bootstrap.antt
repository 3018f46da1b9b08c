-- ===== src/Api/Startup/Bootstrap.antt =====
-- What the start of a node reads: the options of vDexNode/api/src/opt.rs, the address of the
-- bootstrap node, and EosNode::get_public_ips of eosnode.rs, to which the answers of the two services
-- are arguments.
use Prim.Native.Char.{code}
use Prim.Native.String.{String, [], ◌∷◌}
use vdexnode.Common.{
  ℕ, ◌^◌, Bool, true, false, not, ◌&&◌, ◌||◌, Option, none, some, List, [], ◌∷◌, ◌++◌, ◌==◌,
  is_empty, if◌then◌else◌,
}
use vdexnode.Common.Decimal.{parse}
use vdexnode.Common.Outcome.{Outcome, ok, panic, ◌>>=◌}
use vdexnode.Api.Network.{EosNodeInfo}

pub record Opt : Type 0 where
  pub network : ℕ
  pub eoskey : String
  pub bootstrap : String
  pub certificate : String
  pub privkey : String
  pub password : String
  pub port : ℕ
  pub bitcoin_cli : String
  pub bitcoin_user : String
  pub bitcoin_password : String
  pub bitcoin_connect : String
  pub bitcoin_port : String

abbrev pub default_port : ℕ
default_port = 4222

-- `rsplitn(2, ":")`: what stands before the last colon, and behind it.
unfoldable pub rsplit : String → Option (String × String)
rsplit [] = none
rsplit (c ∷ s) =
    let later = rsplit s in
    elim later [
      | some (before, after) ↦ some (c ∷ before, after)
      | none ↦ if code c == b':' then some ("", s) else none
    ]

-- The host and the port of the node to start from.
unfoldable pub service : String → String × ℕ
unfolding rsplit
service bootstrap = elim (rsplit bootstrap) [
  | some (host, port) ↦ (host, (elim (parse (2 ^ 16) port) [ some p ↦ p | none ↦ default_port ]))
  | none ↦ (bootstrap, default_port)
]

-- `contains(".")`
unfoldable pub has_dot : String → Bool
has_dot [] = false
has_dot (c ∷ s) = (code c == b'.') || has_dot s

-- The text of a service's answer that is taken: `none` is no answer, `some none` an answer whose
-- text cannot be read.
unfoldable pub taken : (String → Bool) → Option (Option String) → Outcome ⊥ (List String)
taken test none = ok []
taken test (some none) = panic
taken test (some (some text)) = ok (if not (is_empty text) && test text then text ∷ [] else [])

unfoldable pub get_public_ips :
    Option (Option String) → Option (Option String) → EosNodeInfo → Outcome ⊥ EosNodeInfo
unfolding taken has_dot
get_public_ips ipv4 ipv6 info = do
  first ← taken (λ text. true) ipv4
  second ← taken (λ text. not (has_dot text)) ipv6
  some_address (first ++ second)
  where
    some_address : List String → Outcome ⊥ EosNodeInfo
    some_address [] = panic
    some_address (address ∷ addresses) = ok (record info { ips = address ∷ addresses })
