-- ===== src/Tests/Wallet.antt =====
-- Runs of the wallet calls whose process prints an address between blanks.
use vdexnode.Common.{
  ◌≡◌, String, ◌<>◌, true, Option, some, none, List, [], ◌∷◌, map, if◌then◌else◌, str_eq,
}
use vdexnode.Common.Decimal.{to_string}
use vdexnode.Api.Bitcoin.{
  Bitcoin, MultiSig, Executed, exited, keys_arg, quote, getaddr, dumpprivkey, balance,
  gettransaction, sendtoaddress, signmessage, createmultisig, addmultisigaddress,
}
use vdexnode.Api.Bitcoin.KeyList.{join, keys_arg-join}
use vdexnode.Api.Bitcoin.Answers.{
  Answers, MultiAnswers, process, commands_answer, multi_commands_answer,
}

abbrev wallet : Bitcoin
wallet = record {
  app = "bitcoin-cli";
  rpcuser = "user";
  rpcpassword = "password";
  rpcport = "8332";
  rpcconnect = "localhost";
}

abbrev run : String → List String → Executed
run app args = exited (record { text = "exit code: 0"; success = true }) (some " 2N9 \n")

abbrev from_json : String → Option MultiSig
from_json text =
    if str_eq text "2N9" then some (record { address = "2N9"; redeem_script = "52" }) else none

commands_answer_example :
    Answers "address" (process run wallet "getnewaddress" []) (getaddr run wallet)
    × Answers "privkey" (process run wallet "dumpprivkey" ("a" ∷ [])) (dumpprivkey run wallet "a")
    × Answers "balance" (process run wallet "getbalance" []) (balance run wallet)
    × Answers "details"
        (process run wallet "gettransaction" ("a" ∷ []))
        (gettransaction run wallet "a")
    × Answers "signed"
        (process run wallet "sendtoaddress" ("a" ∷ "0.1" ∷ []))
        (sendtoaddress run wallet "a" "0.1")
    × Answers "txid"
        (process run wallet "signmessage" ("a" ∷ "0.1" ∷ []))
        (signmessage run wallet "a" "0.1")
commands_answer_example = commands_answer run wallet "a" "0.1"

multi_commands_answer_example :
    MultiAnswers from_json
      (process run wallet "createmultisig" (to_string 2 ∷ keys_arg ("k" ∷ "l" ∷ []) ∷ []))
      (createmultisig from_json run wallet 2 ("k" ∷ "l" ∷ []))
    × MultiAnswers from_json
        (process run wallet "addmultisigaddress" (to_string 2 ∷ keys_arg ("k" ∷ "l" ∷ []) ∷ []))
        (addmultisigaddress from_json run wallet 2 ("k" ∷ "l" ∷ []))
multi_commands_answer_example = multi_commands_answer from_json run wallet 2 ("k" ∷ "l" ∷ [])

keys_arg-join_example :
    keys_arg ("k" ∷ "l" ∷ []) ≡ "[" <> join ", " (map quote ("k" ∷ "l" ∷ [])) <> "]"
keys_arg-join_example = keys_arg-join ("k" ∷ "l" ∷ [])
