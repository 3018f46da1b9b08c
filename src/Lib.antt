-- ===== src/Lib.antt =====
-- Two programs of vDexNode and their library, as functions and theorems about them.
--
-- vDexNode/mpt is a threshold signing protocol: n parties generate a key of which each holds a
-- share, and more of them than a threshold sign without ever putting the key together. The library
-- (src/utils, src/lib.rs) has the phases, and two programs (src/bin/generate_key.rs, sign.rs) run
-- them in rounds. The parties exchange their messages through the HTTP server of vDexNode/api: a
-- party sets its message of a round under a key, and polls for the others' messages. The server
-- keeps the messages in a distributed hash table, which the other nodes share, deals out the
-- parties' numbers, runs chat rooms over the same table and passes calls on to a Bitcoin wallet.
--
-- Common: the names that all modules share. Outcome is what a call can do: return, return an error,
-- or panic. Lists, Dict (HashMap), Decimal (to_string and parse), Text (trim, as_bytes).
--
-- Mpt: vDexNode/mpt/src.
--   Crypto is what the library takes from curv, paillier and zk_paillier, a parameter of all the
--   rest, and Crypto.Laws is what their documentation promises, one record for each library, which
--   a theorem takes as it needs. What is drawn at random is an argument.
--   Messages: the structs of utils/key_gen_utils.rs, and lib.rs. Rounds, Sums, Parties, Algebra:
--   the iterator chains, sums over the parties, and their laws.
--   KeyGen, PartyPrivate, SignKeys, LocalSignature: the impl blocks of utils/key_gen_utils.rs, one
--   function for each method, in the method's name. MtA: utils/sign_utils.rs.
--   Program: what the two programs share, the reading of arguments and parameters and a round of
--   broadcasts. serde_json is a Codec for each type. Sealing: the encryption of the shares, with
--   rust-crypto's AES-GCM as a parameter. GenerateKey: main of bin/generate_key.rs; what is written
--   to the key file is the program's value.
--   Sign: bin/sign.rs, with its loops in Sign.Loops, rounds 1 and 2 in Sign.Multiply, rounds 3 to 9
--   in Sign.Output, and round 0 and main in Sign.Main. Vectors: its format_vec_from_reads.
--   Sign.Session is both programs one after the other. GenerateKey.Valid and Sign.Valid are about
--   runs among parties and a server that may answer anything, by Transport.Ensures.
--   Transport: postb, broadcast, sendp2p, poll_for_broadcasts and poll_for_p2p of
--   bin/generate_key.rs, which bin/sign.rs repeats. The server and the network are a script of what
--   the sends to come will meet; a call reads off its head. Polling runs on fuel, one more than the
--   script is long, since every question uses up a send.
--
-- Api: vDexNode/api/src.
--   Bitcoin: bitcoin.rs; the process and the reader of its JSON output are parameters.
--   Network is what the server takes from opendht, serde_json, rmp_serde and Rocket, a parameter of
--   what follows, and Network.Laws is what their documentation promises of it: what the table
--   finds was put, while a put may show late, in any order with others, or not at all.
--   Handler: handler.rs, with the node of eosnode.rs and the table of nodes that main.rs follows.
--   Server: the routes of server.rs, each a function of the handler's state. The locks that
--   serialise the routes do not show, and a 64-bit counter and a 32-bit sum wrap.
--   Server.Calls is a server that answers calls one after the other, between which the network goes
--   on by itself. Server.Sessions is about the numbers that the signups deal out, and Server.Service
--   puts the server and the two programs of Mpt together: what the parties of a session set, by
--   GenerateKey.Agreement and Sign.Agreement, and what a party that asks for it can get.
--   Wallet: the Bitcoin routes of server.rs. Locations: Handler::get_nodes_location and its route.
--   Chat: ChatReader::read of handler.rs.
--   ChatLoop: the chat thread of main.rs, which shares the list of events with Handler; the DHT's
--   listen and cancel_listen are parameters, whose documentation ChatLoop.Kept states.
--   Startup: EosNode::init_ips of eosnode.rs. Its loop runs on fuel, one round for each of the 3000
--   attempts and one more. Startup.Bootstrap: the options of opt.rs, the bootstrap address
--   and EosNode::get_public_ips. Startup.Node: EosNode::new and the start of main.rs.
--   TupleKey, PartySignup, Index and Entry of server.rs are those of Transport.
--
-- Tests: a field of three elements and a table without hashing, which meet the laws, and the
-- theorems at concrete inputs.
--
-- Not modelled: what the two programs print, and the hexadecimal text of the signature file, which
-- is a parameter; what centipede and opendht do; delays, logging and the set-up of the web server.
-- The contracts (contracts, tokens, eth_contract), the gateway and the oracle are in other languages.
pub mod Common
pub mod Api
pub mod Mpt
mod Tests
