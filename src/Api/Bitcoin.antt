-- ===== src/Api/Bitcoin.antt =====
-- The wallet calls of vDexNode/api/src/bitcoin.rs. `run` is the process that `Command::output`
-- starts, from the program and its arguments to what comes of it, and `from_json` is
-- `serde_json::from_str` at `MultiSig`. A call is a function of them: it starts one process and
-- keeps no state.
pub mod Answers
pub mod KeyList
use vdexnode.Common.{
  ℕ, zero, suc, ◌+◌, String, ◌<>◌, Bool, true, false, not, Option, none, some, List, [], ◌∷◌, ◌++◌,
  length, ◌==◌, if◌then◌else◌, is_empty, trim,
}
use vdexnode.Common.Outcome.{Outcome, ok, err, panic, ◌>>=◌}
use vdexnode.Common.Dict.{Dict, insert}
use vdexnode.Common.Decimal.{to_string}

-- An `ExitStatus`, with its text and whether it is a success.
pub record ExitStatus : Type 0 where
  pub text : String
  pub success : Bool

pub record AddrError : Type 0 where
  pub status : ExitStatus

pub record Bitcoin : Type 0 where
  pub app : String
  pub rpcuser : String
  pub rpcpassword : String
  pub rpcport : String
  pub rpcconnect : String

pub record MultiSig : Type 0 where
  pub address : String
  pub redeem_script : String

-- What comes of a process: an `io::Error`, by its text, or an exit with the standard output, which
-- is `none` when it is not UTF-8.
pub data Executed : Type 0 where
  not_started : String → Executed
  exited : ExitStatus → Option String → Executed

-- The text of an error, its `Display`.
unfoldable pub display : AddrError → String
display e = e.status.text

unfoldable pub trimmed_output : Option String → String
trimmed_output none = trim ""
trimmed_output (some s) = trim s

unfoldable pub quote : String → String
quote key = "\"" <> key <> "\""

-- The loop of `createmultisig` over the keys that are left, at index `idx` of `len`.
unfoldable pub add_keys : ℕ → ℕ → List String → String → String
unfolding quote
add_keys len idx [] keys_str = keys_str
add_keys len idx (key ∷ keys) keys_str =
    let idx' = idx + 1 in
    let with_key = keys_str <> quote key in
    let apart = add_keys len idx' keys (with_key <> ", ") in
    let last = add_keys len idx' keys with_key in if not (idx' == len) then apart else last

unfoldable pub keys_arg : List String → String
unfolding add_keys
keys_arg keys = add_keys (length keys) 0 keys "[" <> "]"

-- The match on the result of a command with one value: it goes under `key`, and an empty one is
-- the error `missing`.
unfoldable pub answer : String → String → Outcome String String → Dict String
unfolding insert
answer key missing (ok text) = if is_empty text then insert "err" missing [] else insert key text []
answer key missing (err e) = insert "err" e []
answer key missing panic = []

-- The end of `exec_command`.
unfoldable pub command_result : Executed → Outcome String String
unfolding display trimmed_output
command_result (not_started e) = err e
command_result (exited status stdout) =
    if not status.success
    then err (display (record { status = status }))
    else ok (trimmed_output stdout)

module _ (run : String → List String → Executed) (b : Bitcoin) where
  unfoldable pub exec_command : String → List String → Outcome String String
  unfolding command_result
  exec_command cmd args = command_result (
      run b.app (
        ("-rpcconnect=" <> b.rpcconnect)
        ∷ "-regtest"
        ∷ ("-rpcuser=" <> b.rpcuser)
        ∷ ("-rpcpassword=" <> b.rpcpassword)
        ∷ ("-rpcport=" <> b.rpcport)
        ∷ cmd
        ∷ args))

  unfoldable pub getaddr : Dict String
  unfolding exec_command answer
  getaddr = answer "address" "No address generated by bitcoind" (exec_command "getnewaddress" [])

  unfoldable pub dumpprivkey : String → Dict String
  unfolding exec_command answer
  dumpprivkey addr =
      answer "privkey" "No privkey retrieven by bitcoind" (exec_command "dumpprivkey" (addr ∷ []))

  unfoldable pub balance : Dict String
  unfolding exec_command answer
  balance = answer "balance" "No balance generated by bitcoind" (exec_command "getbalance" [])

  unfoldable pub gettransaction : String → Dict String
  unfolding exec_command answer
  gettransaction txid =
      answer "details" "No details retrieven by bitcoind"
        (exec_command "gettransaction" (txid ∷ []))

  unfoldable pub sendtoaddress : String → String → Dict String
  unfolding exec_command answer
  sendtoaddress bitcoinaddress amount =
      answer "signed" "No signed transation retrieven by bitcoind"
        (exec_command "sendtoaddress" (bitcoinaddress ∷ amount ∷ []))

  unfoldable pub signmessage : String → String → Dict String
  unfolding exec_command answer
  signmessage bitcoinaddress message =
      answer "txid" "No transaction id transation retrieven by bitcoind"
        (exec_command "signmessage" (bitcoinaddress ∷ message ∷ []))

-- `unwrap_or` with a MultiSig of empty texts.
unfoldable pub multi_sig_or : Option MultiSig → MultiSig
multi_sig_or none = record { address = ""; redeem_script = "" }
multi_sig_or (some ms) = ms

module _ (from_json : String → Option MultiSig) where
  -- The match of the two multi-signature calls.
  unfoldable pub multi_answer : Outcome String String → Dict String
  unfolding insert multi_sig_or
  multi_answer (ok output) =
      if is_empty output
      then insert "err" "No multisig address generated by bitcoind" []
      else (let ms = multi_sig_or (from_json output) in
          if not (is_empty ms.address)
          then insert "redeemScript" ms.redeem_script (insert "address" ms.address [])
          else insert "err" "Can't parse multisig result" [])
  multi_answer (err e) = insert "err" e []
  multi_answer panic = []

  module _ (run : String → List String → Executed) (b : Bitcoin) where
    unfoldable pub createmultisig : ℕ → List String → Dict String
    unfolding exec_command multi_answer keys_arg
    createmultisig n keys =
        multi_answer (exec_command run b "createmultisig" (to_string n ∷ keys_arg keys ∷ []))

    unfoldable pub addmultisigaddress : ℕ → List String → Dict String
    unfolding exec_command multi_answer keys_arg
    addmultisigaddress n keys =
        multi_answer (exec_command run b "addmultisigaddress" (to_string n ∷ keys_arg keys ∷ []))
