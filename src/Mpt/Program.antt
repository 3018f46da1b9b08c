-- ===== src/Mpt/Program.antt =====
-- What vDexNode/mpt/src/bin/generate_key.rs and sign.rs share: their arguments and parameters, and
-- a round of broadcasts. `serde_json` is a Codec for each type, reqwest's answers are read by a
-- Server. Delays do not show, and u32 sums stay below the type's limit.
pub mod Scripts
pub mod Agreement
use vdexnode.Common.{ℕ, suc, String, Option, none, some, List, [], ◌∷◌, get_elem?}
use vdexnode.Common.Outcome.{Outcome}
use vdexnode.Common.Outcome
use vdexnode.Mpt.Transport.{
  World, Ran, done, panicked, Entry, PartySignup, ◌>>=◌, unwrap, lift, broadcast,
  poll_for_broadcasts,
}
use vdexnode.Mpt.Vectors.{merge_from}

pub record Codec (A : Type 0) : Type 0 where
  pub print : A → String
  pub read : String → Option A

pub record Server : Type 0 where
  pub decode_unit : String → Option (Option (Unit {0}))
  pub decode_signup : String → Option (Option PartySignup)
  pub decode_entry : String → Option (Option Entry)

pub record Params : Type 0 where
  pub parties : String
  pub threshold : String

-- The text of config/server.conf, or `none` if it cannot be read.
unfoldable pub read_params : (String → Option Params) → Option String → Outcome ⊥ Params
read_params params_from_str config =
    Outcome.◌>>=◌ (Outcome.unwrap config) (λ text. Outcome.unwrap (params_from_str text))

-- `count` arguments behind the program's name: none is missing, and there is no further one.
unfoldable pub check_args : ℕ → List String → Outcome ⊥ (Unit {0})
check_args count args = elim (get_elem? args (suc count)) [
  | some extra ↦ Outcome.panic
  | none ↦ elim (get_elem? args count) [ some last ↦ Outcome.ok tt | none ↦ Outcome.panic ]
]

module _ (srv : Server) (me n : ℕ) (uuid : String) where
  -- A value is broadcast, and the others' values of the round are awaited.
  unfoldable pub exchange : String → String → World → Ran (List String)
  unfolding broadcast poll_for_broadcasts
  exchange round value = do
    sent ← broadcast srv.decode_unit me round value uuid
    ok ← unwrap sent
    poll_for_broadcasts srv.decode_entry me n round uuid

  -- An exchange whose answers are read, with this party's own value at its place.
  unfoldable pub exchange_all : {A : Type 0} → Codec A → String → A → World → Ran (List A)
  unfolding exchange merge_from
  exchange_all codec round value = do
    answers ← exchange round (codec.print value)
    lift (merge_from codec.read n 1 0 answers me value)
