-- ===== src/Api/Server/Service/Signing.antt =====
-- The server while signers that follow the program sign.
use vdexnode.Common.{Option, ℕ, ◌+◌, ◌*◌, ◌^◌, ◌≤◌, ◌<◌, ◌≡◌, ◌≢◌, String, some, List, All, Has}
use vdexnode.Mpt.Crypto.{Crypto}
use vdexnode.Mpt.Parties.Pairs.{sum_all}
use vdexnode.Mpt.Transport.{Entry}
use vdexnode.Mpt.Program.{Server}
use vdexnode.Mpt.Program.Agreement.{Message}
use vdexnode.Mpt.Program.Scripts.{IsServer, Delays}
use vdexnode.Mpt.GenerateKey.{KeyFile}
use vdexnode.Mpt.GenerateKey.KeyFiles.{IsSound}
use vdexnode.Mpt.Sign.Main.{Draws, Wire}
use vdexnode.Mpt.Sign.Signers.{IsShared}
use vdexnode.Mpt.Sign.Answers.{key_of, ek}
use vdexnode.Mpt.Sign.Nonces.{r_point}
use vdexnode.Mpt.Sign.Complete.{IsWire, sets}
use vdexnode.Mpt.Sign.Agreement.{said, sets-Messages}
use vdexnode.Api.Network.{Network}
use vdexnode.Api.Network.Laws.{IsStore}
use vdexnode.Api.Handler.{Handler}
use vdexnode.Api.Server.Calls.{Call, sets_in, serve_all}
use vdexnode.Api.Server.Service.{Unused, Comes, Answers, session_served}
use vdexnode.Common.Outcome.{ok}

-- The numbers 1 to n.
abbrev pub Signer : ℕ → Type 0
Signer n = (i : ℕ) × (1 ≤ i) × (i ≤ n)

module _ (c : Crypto) where
  open c use {FE, zero_fe, to_bigint, ◌⊗◌, x_coor, modulus}

  infixl 70 ◌⊗◌
  module _ (laws : IsSound c) {n : ℕ} {file : ℕ → KeyFile c} {key : FE}
      (shared : IsShared c laws.f n file key) (draws : ℕ → Draws c)
      (gamma_range : (i j : ℕ)
        → to_bigint (key_of c laws shared draws i).k_i
              * to_bigint (key_of c laws shared draws j).gamma_i
            + ((draws j).gamma_answers i).beta_tag
          < modulus (ek c laws shared draws i))
      (w_range : (i j : ℕ)
        → to_bigint (key_of c laws shared draws i).k_i
              * to_bigint (key_of c laws shared draws j).w_i
            + ((draws j).w_answers i).beta_tag
          < modulus (ek c laws shared draws i))
      (message xr : ℕ) (hx : x_coor (r_point c laws.m n (key_of c laws shared draws)) ≡ some xr)
      (not_zero : sum_all c laws.f n (λ i. (key_of c laws shared draws i).k_i)
          ⊗ sum_all c laws.f n (λ i. (key_of c laws shared draws i).gamma_i)
        ≢ zero_fe)
      {srv : Server} (s : IsServer srv) (delays : ℕ → Delays) (uuid : String) {wire : Wire c}
      (w : IsWire c wire) (threshold : ℕ) (e : threshold + 1 ≡ n) (two : 1 ≤ threshold)
      (few : n < 2 ^ 32) where
    -- What signer i sets in its run.
    abbrev pub sets_of : Signer n → List Entry
    sets_of (i, lo, hi) =
        sets c laws shared draws gamma_range w_range message xr hx not_zero s (delays i) uuid w
          threshold i e two lo hi few

    abbrev text_of : ℕ → String → String → String
    text_of =
        said c laws shared draws gamma_range w_range message xr hx not_zero s (delays 0) uuid w

    messages : (i : Signer n) → All (Message uuid text_of) (sets_of i)
    messages (i, lo, hi) =
        sets-Messages c laws shared draws gamma_range w_range message xr hx not_zero s (delays i)
          uuid w threshold i e two lo hi few

    -- The signers of a session follow the program. A node's server, with nothing put where the
    -- message `sent` of one of them will stand and no signup there, handles what they set, or some of
    -- it, in any order, mixed with signups and with what other sessions set, of which nothing falls
    -- on the message's hash. Meanwhile the network may bring what was put at any time, in any order, or not
    -- at all. Then a question for the message is answered with nothing while the network shows
    -- nothing for it, and otherwise with the message, and only if that has been set; and to set the
    -- message on a node with this identifier puts it where a question for it looks.
    pub signing_served :
        (net : Network) (store : IsStore net) (config : Option String) (id : String) (j : Signer n)
        (sent : Entry)
        → Has sent (sets_of j)
        → (h h' : Handler net) (qs : List (Call net)) → Unused net store id sent h
        → All (Comes net store id uuid sets_of sent) qs
        → serve_all net config qs h ≡ ok h'
        → Answers net store id sent (sets_in qs) h'
    signing_served net store config id j sent mine h h' qs unused comes served =
        session_served uuid text_of sets_of messages net store config id j sent mine h h' qs unused
          comes served
