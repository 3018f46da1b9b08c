-- ===== src/Api/Startup/Node/Joins.antt =====
-- How a node that is given a bootstrap node starts.
use vdexnode.Common.{
  ℕ, ◌^◌, ◌≤◌, ◌<◌, ◌≡◌, refl, String, ◌<>◌, true, false, Option, some, List, [], ◌∷◌, is_empty,
}
use vdexnode.Common.Decimal.{to_string}
use vdexnode.Common.Outcome.{ok}
use vdexnode.Api.Network.{Network, EosNodeInfo}
use vdexnode.Api.Handler
use vdexnode.Api.Handler.{announce}
use vdexnode.Api.Startup.{max_attempts}
use vdexnode.Api.Startup.Address.{address_filled, service_port}
use vdexnode.Api.Startup.Bootstrap.{Opt, service}
use vdexnode.Api.Startup.Node.{Runner, bitcoin_of, run_dht, find_ips, with_dht, new, start}
use vdexnode.Api.Startup.Wait.{init_ips-found}

module _ (n : Network) (runner : Runner n) (answers : ℕ → List String)
    (ipv4 ipv6 : Option (Option String)) (opt : Opt) (host : String) (port : ℕ)
    (given : opt.bootstrap ≡ host <> (":" <> to_string port)) (small : port < 2 ^ 16)
    (cert : runner.Certificate) (pk : runner.PrivateKey) where
  open n use {State, put_signed, hash_get, value_from_bytes, pack_info}

  -- The DHT's state when it has joined.
  abbrev pub joined : State
  joined = runner.bootstrap host port (runner.run_config opt.port (cert, pk) opt.network false)

  abbrev pub info_with : List String → EosNodeInfo
  info_with ips = record {
    id = runner.node_id joined;
    ips = ips;
    public_key = runner.public_key joined;
    key = opt.eoskey;
  }

  has_bootstrap : is_empty opt.bootstrap ≡ false
  has_bootstrap = rw given (address_filled host (to_string port))

  run_dht-joined : run_dht n runner answers ipv4 ipv6 opt (cert, pk) ≡ joined
  unfolding run_dht
  run_dht-joined =
      let read : service opt.bootstrap ≡ (host, port) = rw given (service_port host port small) in
      rw (has_bootstrap, read, run_dht) refl

  module _ (k : ℕ) (address : String) (addresses : List String)
      (cert_read : runner.import_certificate opt.certificate ≡ some cert)
      (key_read : runner.import_key opt.privkey opt.password ≡ some pk) (le : k ≤ max_attempts)
      (before : (j : ℕ) → j < k → answers j ≡ []) (found : answers k ≡ address ∷ addresses) where
    find_ips-waits :
        find_ips n runner answers ipv4 ipv6 opt (info_with [])
        ≡ some (ok (info_with (address ∷ addresses)))
    unfolding find_ips
    find_ips-waits =
        rw has_bootstrap (init_ips-found answers (info_with []) k address addresses le before found)

    with_dht-waits :
        with_dht n runner answers ipv4 ipv6 opt [] joined
        ≡ some (ok (record { info = info_with (address ∷ addresses); dht = joined; nodes = [] }))
    unfolding with_dht
    with_dht-waits = rw (with_dht, find_ips-waits) refl

    new_joins :
        new n runner answers ipv4 ipv6 opt []
        ≡ some (ok (record { info = info_with (address ∷ addresses); dht = joined; nodes = [] }))
    unfolding new
    new_joins = rw (cert_read, new, key_read, run_dht-joined) with_dht-waits

    -- The certificate and the key can be read, the bootstrap address is a host and a port, and call
    -- k for the public addresses, at most 3000, is the first that returns any. Then the node joins
    -- the network at that host and port, and is announced with those addresses; the server starts
    -- without readers or chat events, and with the wallet of the options.
    pub start_joins :
        let info = info_with (address ∷ addresses) in
        start n runner answers ipv4 ipv6 opt
        ≡ some (
            ok (record {
              eosnode = record {
                info = info;
                dht = put_signed (hash_get "eos") (value_from_bytes (pack_info info)) true joined;
                nodes = [];
              };
              chat_events = [];
              chat_readers_idx = 0;
              bitcoin = bitcoin_of opt;
            }))
    unfolding start announce Handler.new
    start_joins = rw (new_joins, start) refl
