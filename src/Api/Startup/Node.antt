-- ===== src/Api/Startup/Node.antt =====
-- EosNode::new of vDexNode/api/src/eosnode.rs, and what main of main.rs makes before it serves. The
-- DHT runner is a parameter; what the addresses' sources answer are arguments. `none` is fuel of
-- init_ips that ran out.
pub mod Joins
pub mod Refuses
use vdexnode.Common.{ℕ, String, Bool, Option, none, some, List, [], ◌∷◌, is_empty, if◌then◌else◌}
use vdexnode.Common.Dict.{Dict}
use vdexnode.Common.Outcome.{Outcome, ok, panic, ◌>>=◌}
use vdexnode.Api.Bitcoin.{Bitcoin}
use vdexnode.Api.Network.{Network, EosNodeInfo}
use vdexnode.Api.Handler
use vdexnode.Api.Handler.{EosNode, Handler, announce}
use vdexnode.Api.Startup.{init_ips}
use vdexnode.Api.Startup.Bootstrap.{Opt, service, get_public_ips}

-- `run_config` takes the port, the identity, the network and whether this is a bootstrap node.
pub record Runner (n : Network) : Type 1 where
  pub Certificate : Type 0
  pub PrivateKey : Type 0
  pub import_certificate : String → Option Certificate
  pub import_key : String → String → Option PrivateKey
  pub run_config : ℕ → Certificate × PrivateKey → ℕ → Bool → n.State
  pub bootstrap : String → ℕ → n.State → n.State
  pub node_id : n.State → String
  pub public_key : n.State → String

unfoldable pub bitcoin_of : Opt → Bitcoin
bitcoin_of opt = record {
  app = opt.bitcoin_cli;
  rpcuser = opt.bitcoin_user;
  rpcpassword = opt.bitcoin_password;
  rpcport = opt.bitcoin_port;
  rpcconnect = opt.bitcoin_connect;
}

module _ (n : Network) (runner : Runner n) where
  open runner use {
    Certificate, PrivateKey, import_certificate, import_key, run_config, bootstrap, node_id,
    public_key,
  }

  module _ (answers : ℕ → List String) (ipv4 ipv6 : Option (Option String)) where
    -- The DHT runs, and joins the network of the bootstrap node, if one is given.
    unfoldable pub run_dht : Opt → Certificate × PrivateKey → n.State
    unfolding service
    run_dht opt identity =
        let dht = run_config opt.port identity opt.network (is_empty opt.bootstrap) in
        let (host, port) = service opt.bootstrap in
        if is_empty opt.bootstrap then dht else bootstrap host port dht

    unfoldable pub find_ips : Opt → EosNodeInfo → Option (Outcome ⊥ EosNodeInfo)
    unfolding init_ips get_public_ips
    find_ips opt info =
        if is_empty opt.bootstrap
        then some (get_public_ips ipv4 ipv6 info)
        else init_ips answers info

    -- The node, once its DHT runs.
    unfoldable pub with_dht : Opt → Dict EosNodeInfo → n.State → Option (Outcome ⊥ (EosNode n))
    unfolding find_ips
    with_dht opt nodes dht =
        let info : EosNodeInfo = record {
          id = node_id dht;
          ips = [];
          public_key = public_key dht;
          key = opt.eoskey;
        } in
        elim (find_ips opt info) [
          | none ↦ none
          | some found ↦
              some (do info ← found; ok (record { info = info; dht = dht; nodes = nodes }))
        ]

    unfoldable pub new : Opt → Dict EosNodeInfo → Option (Outcome ⊥ (EosNode n))
    unfolding run_dht with_dht
    new opt nodes = elim (import_certificate opt.certificate) [
      | none ↦ some panic
      | some cert ↦ elim (import_key opt.privkey opt.password) [
        | none ↦ some panic
        | some pk ↦ with_dht opt nodes (run_dht opt (cert, pk))
      ]
    ]

    -- The handler that the server is run with.
    unfoldable pub start : Opt → Option (Outcome ⊥ (Handler n))
    unfolding new announce bitcoin_of Handler.new
    start opt = elim (new opt []) [
      | none ↦ none
      | some made ↦ some (do node ← made; ok (Handler.new n (announce n node) [] (bitcoin_of opt)))
    ]
