-- ===== src/Api/Server/Service/Generation.antt =====
-- The server while honest parties generate keys.
use vdexnode.Common.{Option, ℕ, ◌^◌, ◌<◌, ◌≡◌, String, some, List, length, get_elem?, All, Has}
use vdexnode.Mpt.Crypto.{Crypto}
use vdexnode.Mpt.Transport.{Entry}
use vdexnode.Mpt.Program.{Server}
use vdexnode.Mpt.Program.Agreement.{Message}
use vdexnode.Mpt.Program.Scripts.{IsServer, Delays}
use vdexnode.Mpt.Sealing.{Aead}
use vdexnode.Mpt.GenerateKey.{Draws, Wire}
use vdexnode.Mpt.GenerateKey.Agreement.{said, sets-Messages}
use vdexnode.Mpt.GenerateKey.Complete.{IsWire, sets}
use vdexnode.Mpt.GenerateKey.Honest.{IsAead, y}
use vdexnode.Mpt.GenerateKey.KeyFiles.{IsSound}
use vdexnode.Api.Network.{Network}
use vdexnode.Api.Network.Laws.{IsStore}
use vdexnode.Api.Handler.{Handler}
use vdexnode.Api.Server.Calls.{Call, sets_in, serve_all}
use vdexnode.Api.Server.Service.{Unused, Comes, Answers, session_served}
use vdexnode.Common.Outcome.{ok}

module _ (c : Crypto) where
  open c use {FE, ◌⊞◌, x_coor, share}

  infixl 65 ◌⊞◌
  module _ (laws : IsSound c) (t n : ℕ) (draws : ℕ → Draws c) (coordinate : ℕ → ℕ → ℕ)
      (coordinates : (i j : ℕ) → x_coor (y c t n draws i ⊞ y c t n draws j) ≡ some (coordinate i j))
      (part : ℕ → ℕ → FE)
      (dealt : (j i : ℕ)
        → i < n
        → get_elem? (share t n (draws j).u (draws j).sharing).1 i ≡ some (part j i))
      {aead : Aead} (sealing : IsAead aead)
      (long : (i j : ℕ) → length (aead.to_vec (coordinate i j)) ≡ 32) {srv : Server}
      (s : IsServer srv) (delays : ℕ → Delays) (uuid : String) {wire : Wire c} (w : IsWire c wire)
      (few : n < 2 ^ 32) where
    -- What party i sets in its run.
    abbrev pub sets_of : ℕ → List Entry
    sets_of i =
        sets c laws t n draws coordinate coordinates part dealt sealing long s (delays i) uuid w i

    abbrev text_of : ℕ → String → String → String
    text_of =
        said c laws t n draws coordinate coordinates part dealt sealing long s (delays 0) uuid w few

    messages : (i : ℕ) → All (Message uuid text_of) (sets_of i)
    messages i =
        sets-Messages c laws t n draws coordinate coordinates part dealt sealing long s (delays i)
          uuid w few i

    -- The parties of a key generation follow the program. A node's server, with nothing put where the
    -- message `e` of one of them will stand and no signup there, handles what they set, or some of
    -- it, in any order, mixed with signups and with what other sessions set, of which nothing falls
    -- on the message's hash. Meanwhile the network may bring what was put at any time, in any order, or not
    -- at all. Then a question for the message is answered with nothing while the network shows
    -- nothing for it, and otherwise with the message, and only if that has been set; and to set the
    -- message on a node with this identifier puts it where a question for it looks.
    pub generation_served :
        (net : Network) (store : IsStore net) (config : Option String) (id : String) (j : ℕ)
        (e : Entry)
        → Has e (sets_of j)
        → (h h' : Handler net) (qs : List (Call net)) → Unused net store id e h
        → All (Comes net store id uuid sets_of e) qs
        → serve_all net config qs h ≡ ok h'
        → Answers net store id e (sets_in qs) h'
    generation_served net store config id j e mine h h' qs unused comes served =
        session_served uuid text_of sets_of messages net store config id j e mine h h' qs unused
          comes served
