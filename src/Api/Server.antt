-- ===== src/Api/Server.antt =====
-- The routes of vDexNode/api/src/server.rs: a route takes the handler's state to the answer and the
-- next state. A panic of a route is `panic`. The file config/server.conf and the identifiers that
-- `Uuid::new_v4` draws are arguments. The build is a release build, in which `threshold + 1` wraps.
pub mod Rooms
pub mod Calls
pub mod Signups
pub mod Sessions
pub mod Service
use vdexnode.Common.{
  ℕ, zero, suc, ◌+◌, ◌%◌, ◌^◌, String, Bool, true, false, ◌||◌, Option, none, some, List, [], ◌∷◌,
  ◌++◌, if◌then◌else◌, is_empty, as_bytes, ltb,
}
use vdexnode.Common.Outcome.{Outcome, ok, err, panic, ◌>>=◌, unwrap}
use vdexnode.Common.Dict.{Dict, lookup, insert}
use vdexnode.Common.Decimal.{parse}
use vdexnode.Mpt.Transport.{TupleKey, PartySignup, Index, Entry}
use vdexnode.Api.Network.{Network, EosNodeInfo, Params}
use vdexnode.Api.Handler.{
  Handler, ChatReader, get_connected_nodes, get_connected_ips, get_country, insert_value, get_value,
  info, join, send, send_to_user,
}

abbrev pub keygen_key : TupleKey
keygen_key = record { first = "signup"; second = "keygen"; third = ""; fourth = "" }

abbrev pub sign_key : TupleKey
sign_key = record { first = "signup"; second = "sign"; third = ""; fourth = "" }

-- The next signup after `p`, of `limit` parties.
unfoldable pub next_signup : ℕ → String → PartySignup → PartySignup
next_signup limit uuid p =
    if ltb p.number limit
    then (record { number = p.number + 1; uuid = p.uuid })
    else record { number = 1; uuid = uuid }

module _ (n : Network) where
  open n use {pack_key, signup_to_string, signup_from_str, params_from_str, url_decode}

  -- The packed key with the node's identifier behind it.
  unfoldable pub salted : TupleKey → Handler n → List ℕ
  salted key h = pack_key key ++ as_bytes (info n h).id

  unfoldable pub set : Entry → Handler n → Handler n
  unfolding insert_value salted
  set entry h = insert_value n (salted entry.key h) entry.value h

  -- `none` is `Err(())`.
  unfoldable pub get : Index → Handler n → Option Entry
  unfolding get_value salted
  get index h = elim (get_value n (salted index.key h) h) [
    | some v ↦ some (record { key = index.key; value = v })
    | none ↦ none
  ]

  -- The text of the configuration file, read.
  unfoldable pub read_params : Option String → Outcome ⊥ Params
  read_params config = do text ← unwrap config; unwrap (params_from_str text)

  -- What the two signup routes do once they know the limit.
  unfoldable pub signup_at : TupleKey → ℕ → String → Handler n → Outcome ⊥ (PartySignup × Handler n)
  unfolding get_value insert_value salted next_signup
  signup_at key limit uuid h = do
    value ← unwrap (get_value n (salted key h) h)
    party_i_minus1_signup ← unwrap (signup_from_str value)
    let party_signup = next_signup limit uuid party_i_minus1_signup
    ok (party_signup, insert_value n (salted key h) (signup_to_string party_signup) h)

  unfoldable pub signup_keygen :
      Option String → String → Handler n → Outcome ⊥ (PartySignup × Handler n)
  unfolding read_params signup_at
  signup_keygen config uuid h = do
    params ← read_params config
    parties ← unwrap (parse (2 ^ 32) params.parties)
    signup_at keygen_key parties uuid h

  unfoldable pub signup_sign :
      Option String → String → Handler n → Outcome ⊥ (PartySignup × Handler n)
  unfolding read_params signup_at
  signup_sign config uuid h = do
    params ← read_params config
    threshold ← unwrap (parse (2 ^ 32) params.threshold)
    signup_at sign_key ((threshold + 1) % 2 ^ 32) uuid h

  -- `Server::run` up to the launch.
  unfoldable pub announce_signups : String → String → Handler n → Handler n
  unfolding insert_value salted
  announce_signups uuid_keygen uuid_sign h =
      let first =
        insert_value n (salted keygen_key h)
          (signup_to_string (record { number = 0; uuid = uuid_keygen })) h in
      insert_value n (salted sign_key h)
        (signup_to_string (record { number = 0; uuid = uuid_sign })) first

  unfoldable pub connected_nodes : Handler n → Dict String
  unfolding get_connected_nodes insert
  connected_nodes h = insert "Result" "Success" (get_connected_nodes n h)

  unfoldable pub connected_ips : Handler n → Outcome ⊥ (Dict String)
  unfolding get_connected_ips insert
  connected_ips h = do nodes ← get_connected_ips n h; ok (insert "Result" "Success" nodes)

  -- `url_decode().unwrap_or(String::new())`
  unfoldable pub decoded : String → String
  decoded raw = elim (url_decode raw) [ none ↦ "" | some s ↦ s ]

  unfoldable pub country : (String → Option (Option (Dict String))) → String → Dict String
  unfolding decoded get_country insert
  country http_get ip = elim (get_country http_get (decoded ip)) [
    | some c ↦ insert "Country" c []
    | none ↦ insert "Err" "No country found" []
  ]

  unfoldable pub stream : String → Handler n → Outcome String (ChatReader × Handler n)
  unfolding decoded join
  stream raw h =
      let room = decoded raw in
      if is_empty room then err "Cannot decode room" else ok (join n room h)

  unfoldable pub put_msg : String → String → Handler n → Bool × Handler n
  unfolding decoded send
  put_msg raw message h =
      let room = decoded raw in if is_empty room then (false, h) else (true, send n room message h)

  unfoldable pub put_encrypted_msg : String → String → String → Handler n → Bool × Handler n
  unfolding decoded send_to_user
  put_encrypted_msg raw raw_user message h =
      let room = decoded raw in
      let user = decoded raw_user in
      if is_empty room || is_empty user
      then (false, h)
      else (true, send_to_user n room user message h)

  unfoldable pub node_infos : Handler n → EosNodeInfo
  unfolding info
  node_infos h = info n h
