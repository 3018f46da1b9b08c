-- ===== src/Tests/Startup.antt =====
-- The start of nodes that are given a bootstrap node or none.
use vdexnode.Common.{
  none, true, inl, inr, is_empty, if◌then◌else◌, ℕ, ◌^◌, zero, suc, ◌<◌, ◌≡◌, refl, String, some,
  List, [], ◌∷◌, arith, ◌<>◌,
}
use vdexnode.Common.Outcome.{ok, panic}
use vdexnode.Common.Decimal.{parse, to_string}
use vdexnode.Api.Startup.Bootstrap.{Opt, service}
use vdexnode.Api.Startup.Address.{service_reads}
use vdexnode.Api.Startup.Node.{Runner, bitcoin_of, start}
use vdexnode.Api.Startup.Node.Joins.{info_with, start_joins}
use vdexnode.Api.Startup.Node.Refuses.{start_refuses}
use vdexnode.Tests.ToyNetwork.{toy_network}

abbrev second : ℕ → List String
second zero = []
second (suc j) = "1.2.3.4:4222" ∷ []

before_second : (j : ℕ) → j < 1 → second j ≡ []
before_second zero h = refl
before_second (suc j) h = absurd (omega arith)

service_reads_example :
    (service ("::1" <> (":" <> to_string 4300)) ≡ ("::1", 4300))
    × (service "bootstrap" ≡ ("bootstrap", 4222))
service_reads_example = service_reads "::1" "bootstrap" 4300 (omega arith) refl

-- An IPv6 address without a port is cut at its last colon.
bare_ipv6 : service "::1" ≡ (":", 1)
unfolding service parse
bare_ipv6 = refl

-- A runner whose state is the values put so far, and files that read as they are named.
abbrev runner : Runner toy_network
runner = record {
  Certificate = String;
  PrivateKey = String;
  import_certificate = λ path. if is_empty path then none else some path;
  import_key = λ path password. some path;
  run_config = λ port identity network is_bootstrap. [];
  bootstrap = λ host port dht. dht;
  node_id = λ dht. "me";
  public_key = λ dht. "pk";
}

abbrev options : String → String → Opt
options bootstrap certificate = record {
  network = 0;
  eoskey = "key";
  bootstrap = bootstrap;
  certificate = certificate;
  privkey = "node.pem";
  password = "";
  port = 4222;
  bitcoin_cli = "bitcoin-cli";
  bitcoin_user = "";
  bitcoin_password = "";
  bitcoin_connect = "localhost";
  bitcoin_port = "8332";
}

port_small : 4300 < 2 ^ 16
port_small = omega arith

abbrev joining : Opt
joining = options ("vdex" <> (":" <> to_string 4300)) "node.crt"

start_joins_example :
    let info =
      info_with toy_network runner second none none joining "vdex" 4300 refl port_small "node.crt"
        "node.pem"
        ("1.2.3.4:4222" ∷ []) in
    start toy_network runner second none none joining
    ≡ some (
        ok (record {
          eosnode = record {
            info = info;
            dht =
                toy_network.put_signed
                  (toy_network.hash_get "eos")
                  (toy_network.value_from_bytes (toy_network.pack_info info))
                  true
                  [];
            nodes = [];
          };
          chat_events = [];
          chat_readers_idx = 0;
          bitcoin = bitcoin_of joining;
        }))
start_joins_example =
    start_joins toy_network runner second none none joining "vdex" 4300 refl port_small "node.crt"
      "node.pem" 1 "1.2.3.4:4222" [] refl refl (omega arith) before_second refl

start_refuses_example :
    start toy_network runner second
      (some (some ""))
      (some (some ("1" <> ("." <> "2"))))
      (options "" "node.crt")
    ≡ some panic
start_refuses_example =
    start_refuses toy_network runner second (some (some "")) (some (some ("1" <> ("." <> "2"))))
      (options "" "node.crt") (inr (inr (inl (refl, inr (inr refl), inr ("1", "2", refl)))))
