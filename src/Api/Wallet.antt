-- ===== src/Api/Wallet.antt =====
-- The Bitcoin routes of vDexNode/api/src/server.rs, each a function of the handler's state.
use vdexnode.Common.{ℕ, String, Option, List}
use vdexnode.Common.Dict.{Dict}
use vdexnode.Api.Network.{Network}
use vdexnode.Api.Handler.{Handler}
use vdexnode.Api.Bitcoin.{MultiSig, Executed}
use vdexnode.Api.Bitcoin
use vdexnode.Api.Server.{decoded}

pub record SignRequest : Type 0 where
  pub n : ℕ
  pub keys : List String

pub record GetTransactionRequest : Type 0 where
  pub txid : String

pub record SendToRequest : Type 0 where
  pub bitcoinaddress : String
  pub amount : String

pub record BcSignRequest : Type 0 where
  pub bitcoinaddress : String
  pub message : String

module _ (net : Network) (run : String → List String → Executed) where
  unfoldable pub getnewaddress : Handler net → Dict String
  unfolding Bitcoin.getaddr
  getnewaddress h = Bitcoin.getaddr run h.bitcoin

  unfoldable pub dumpprivkey : String → Handler net → Dict String
  unfolding Bitcoin.dumpprivkey
  dumpprivkey raw h = Bitcoin.dumpprivkey run h.bitcoin (decoded net raw)

  unfoldable pub getbalance : Handler net → Dict String
  unfolding Bitcoin.balance
  getbalance h = Bitcoin.balance run h.bitcoin

  unfoldable pub gettransaction : GetTransactionRequest → Handler net → Dict String
  unfolding Bitcoin.gettransaction
  gettransaction req h = Bitcoin.gettransaction run h.bitcoin req.txid

  unfoldable pub sendtoaddress : SendToRequest → Handler net → Dict String
  unfolding Bitcoin.sendtoaddress
  sendtoaddress req h = Bitcoin.sendtoaddress run h.bitcoin req.bitcoinaddress req.amount

  unfoldable pub signmessage : BcSignRequest → Handler net → Dict String
  unfolding Bitcoin.signmessage
  signmessage req h = Bitcoin.signmessage run h.bitcoin req.bitcoinaddress req.message

  module _ (from_json : String → Option MultiSig) where
    unfoldable pub addmultisigaddress : SignRequest → Handler net → Dict String
    unfolding Bitcoin.addmultisigaddress
    addmultisigaddress req h = Bitcoin.addmultisigaddress from_json run h.bitcoin req.n req.keys

    unfoldable pub createmultisig : SignRequest → Handler net → Dict String
    unfolding Bitcoin.createmultisig
    createmultisig req h = Bitcoin.createmultisig from_json run h.bitcoin req.n req.keys
