-- ===== src/Api/Handler.antt =====
-- vDexNode/api/src/handler.rs and the node it holds (eosnode.rs, main.rs): a call of the handler is
-- a function of its state. The locks that serialise the calls do not show. A chat room's messages
-- are kept with its reader.
pub mod Nodes
use vdexnode.Common.{
  ℕ, zero, suc, ◌+◌, ◌%◌, ◌^◌, String, ◌<>◌, Bool, true, false, Option, none, some, List, [], ◌∷◌,
  ◌++◌,
}
use vdexnode.Common.Outcome.{Outcome, ok, panic, ◌>>=◌, index}
use vdexnode.Common.Dict.{Dict, lookup, insert, remove}
use vdexnode.Api.Bitcoin.{Bitcoin}
use vdexnode.Api.Network.{Network, EosNodeInfo}

pub record ChatMessage : Type 0 where
  pub author : String
  pub body : String
  pub encrypted : Bool

-- A join's third field is the messages of the reader with that number.
pub data ChatEvent : Type 0 where
  joined : ℕ → String → ChatEvent
  left : ℕ → String → ChatEvent

pub record ChatReader : Type 0 where
  pub id : ℕ
  pub room : String
  pub chat : List ChatMessage
  pub stopped : Bool

-- The body of the loop over the nodes in `get_connected_nodes`.
unfoldable pub collect_keys : Dict EosNodeInfo → Dict String → Dict String
unfolding insert
collect_keys [] result = result
collect_keys ((id, node) ∷ nodes) result = collect_keys nodes (insert id node.key result)

unfoldable pub collect_ips : Dict EosNodeInfo → Dict String → Outcome ⊥ (Dict String)
unfolding insert
collect_ips [] result = ok result
collect_ips ((id, node) ∷ nodes) result = do
  ip ← index node.ips 0
  collect_ips nodes (insert ip node.key result)

module _ (n : Network) where
  open n use {
    State, Hash, Value, hash_from_bytes, hash_get, hash_from_hex, value_new, value_from_bytes,
    value_text, put_signed, put_encrypted, get_values, pack_info, unpack_info,
  }

  pub record EosNode : Type 0 where
    pub info : EosNodeInfo
    pub dht : State
    pub nodes : Dict EosNodeInfo

  pub record Handler : Type 0 where
    pub eosnode : EosNode
    pub chat_events : List ChatEvent
    pub chat_readers_idx : ℕ
    pub bitcoin : Bitcoin

  -- EosNode::announce
  unfoldable pub announce : EosNode → EosNode
  announce node = record node {
    dht = put_signed (hash_get "eos") (value_from_bytes (pack_info node.info)) true node.dht;
  }

  -- `value_cb` of main.rs, which follows the other nodes.
  unfoldable pub follow : Value → Bool → Dict EosNodeInfo → Dict EosNodeInfo
  unfolding insert remove
  follow v expired nodes = elim (unpack_info v) [
    | none ↦ nodes
    | some node ↦ elim expired [ true ↦ remove node.id nodes | false ↦ insert node.id node nodes ]
  ]

  unfoldable pub new : EosNode → List ChatEvent → Bitcoin → Handler
  new eosnode chat_events bitcoin = record {
    eosnode = eosnode;
    chat_events = chat_events;
    chat_readers_idx = 0;
    bitcoin = bitcoin;
  }

  unfoldable pub get_connected_nodes : Handler → Dict String
  unfolding collect_keys
  get_connected_nodes h = collect_keys h.eosnode.nodes []

  unfoldable pub get_connected_ips : Handler → Outcome ⊥ (Dict String)
  unfolding collect_ips
  get_connected_ips h = collect_ips h.eosnode.nodes []

  unfoldable pub put_value : Hash → String → Bool → Handler → Handler
  put_value hash value permanent h = record h {
    eosnode = record h.eosnode { dht = put_signed hash (value_new value) permanent h.eosnode.dht };
  }

  unfoldable pub insert_value : List ℕ → String → Handler → Handler
  unfolding put_value
  insert_value key value h = put_value (hash_from_bytes key) value true h

  -- `unwrap_or(String::new())`
  unfoldable pub text_or : Option String → String
  text_or none = ""
  text_or (some s) = s

  -- `get_cb` over the values, which keeps the last.
  unfoldable pub get_cb : List Value → Option String → Option String
  unfolding text_or
  get_cb [] result = result
  get_cb (v ∷ vs) result = get_cb vs (some (text_or (value_text v)))

  unfoldable pub get_value : List ℕ → Handler → Option String
  unfolding get_cb
  get_value key h = get_cb (get_values (hash_from_bytes key) h.eosnode.dht) none

  unfoldable pub info : Handler → EosNodeInfo
  info h = h.eosnode.info

  -- `ChatReader::new`, with the event it sends.
  unfoldable pub new_reader : ℕ → String → List ChatEvent → ChatReader × List ChatEvent
  new_reader id room events =
      (record { id = id; room = room; chat = []; stopped = false }, events ++ (joined id room ∷ []))

  -- The `u64` counter wraps.
  unfoldable pub join : String → Handler → ChatReader × Handler
  unfolding new_reader
  join room h =
      let idx = (h.chat_readers_idx + 1) % 2 ^ 64 in
      let (reader, events) = new_reader idx room h.chat_events in
      (reader, record h { chat_readers_idx = idx; chat_events = events })

  -- `drop` of a reader.
  unfoldable pub drop : ChatReader → List ChatEvent → ChatReader × List ChatEvent
  drop reader events =
      (record reader { stopped = true }, events ++ (left reader.id reader.room ∷ []))

  unfoldable pub send : String → String → Handler → Handler
  unfolding put_value
  send room msg h = put_value (hash_get room) msg false h

  unfoldable pub send_to_user : String → String → String → Handler → Handler
  send_to_user room to msg h = record h {
    eosnode = record h.eosnode {
      dht = put_encrypted (hash_get room) (hash_from_hex to) (value_new msg) false h.eosnode.dht;
    };
  }

-- `http_get` is `reqwest::get` with the answer read as JSON: `none` is a request that failed, and
-- `some none` an answer that is not a table of texts.
unfoldable pub get_country : (String → Option (Option (Dict String))) → String → Option String
unfolding lookup
get_country http_get ip = elim (http_get ("https://ipinfo.io/" <> ip <> "/json")) [
  | none ↦ none
  | some resp ↦ elim resp [ none ↦ lookup "country" [] | some table ↦ lookup "country" table ]
]
