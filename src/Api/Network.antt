-- ===== src/Api/Network.antt =====
-- What the API server takes from opendht, serde_json, rmp_serde and Rocket: a parameter of the
-- definitions that use it. A call of the DHT takes the network's state to the next, which stands for
-- whatever the other nodes do meanwhile as well.
pub mod Laws
use vdexnode.Common.{ℕ, String, Bool, Option, List}
use vdexnode.Mpt.Transport.{TupleKey, PartySignup}

-- eosnode.rs's node information
pub record EosNodeInfo : Type 0 where
  pub id : String
  pub ips : List String
  pub key : String
  pub public_key : String

-- server.rs's view of config/server.conf
pub record Params : Type 0 where
  pub parties : String
  pub threshold : String

pub record Network : Type 1 where
  pub State : Type 0
  pub Hash : Type 0
  pub Value : Type 0
  -- InfoHash::from_bytes, InfoHash::get and InfoHash::from_hex
  pub hash_from_bytes : List ℕ → Hash
  pub hash_get : String → Hash
  pub hash_from_hex : String → Hash
  -- Value::new, Value::from_bytes, and `String::from_utf8` of a value's bytes
  pub value_new : String → Value
  pub value_from_bytes : List ℕ → Value
  pub value_text : Value → Option String
  -- DhtRunner's put_signed, put_encrypted, and the values that `get` hands to its callback, in order
  pub put_signed : Hash → Value → Bool → State → State
  pub put_encrypted : Hash → Hash → Value → Bool → State → State
  pub get_values : Hash → State → List Value
  -- rmp_serde
  pub pack_key : TupleKey → List ℕ
  pub pack_info : EosNodeInfo → List ℕ
  pub unpack_info : Value → Option EosNodeInfo
  -- serde_json
  pub signup_to_string : PartySignup → String
  pub signup_from_str : String → Option PartySignup
  pub params_from_str : String → Option Params
  -- Rocket's RawStr::url_decode
  pub url_decode : String → Option String
