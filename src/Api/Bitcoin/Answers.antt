-- ===== src/Api/Bitcoin/Answers.antt =====
-- What the wallet calls answer.
use vdexnode.Common.{
  ℕ, ◌≡◌, refl, sym, ◌⊎◌, inl, inr, String, ◌<>◌, Bool, true, false, Option, none, some, List, [],
  ◌∷◌, if◌then◌else◌, Bool-cases, is_empty, trim, trim_nil,
}
use mathlib.Core.Path.{subst}
use vdexnode.Common.Outcome.{ok}
use vdexnode.Common.Dict.{Dict}
use vdexnode.Common.Decimal.{to_string}
use vdexnode.Api.Bitcoin.{
  Bitcoin, MultiSig, Executed, not_started, exited, command_result, trimmed_output, answer,
  multi_answer, multi_sig_or, keys_arg, getaddr, dumpprivkey, balance, gettransaction,
  sendtoaddress, signmessage, createmultisig, addmultisigaddress,
}

-- The process that a command starts.
abbrev pub process : (String → List String → Executed) → Bitcoin → String → List String → Executed
process run b cmd args = run b.app (
    ("-rpcconnect=" <> b.rpcconnect)
    ∷ "-regtest"
    ∷ ("-rpcuser=" <> b.rpcuser)
    ∷ ("-rpcpassword=" <> b.rpcpassword)
    ∷ ("-rpcport=" <> b.rpcport)
    ∷ cmd
    ∷ args)

-- The text that a process reports: its trimmed output, if it ends well and wrote anything but
-- blanks, and only blanks are written by output that is not UTF-8.
abbrev pub reported : Executed → Option String
reported (not_started e) = none
reported (exited status none) = none
reported (exited status (some text)) =
    if status.success then (if is_empty (trim text) then none else some (trim text)) else none

-- The answer to a process: its report under a key, or an error alone.
abbrev pub Answers : String → Executed → Dict String → Type 0
Answers key e m =
    ((text : String) × (reported e ≡ some text) × (m ≡ (key, text) ∷ []))
    ⊎ ((text : String) × (reported e ≡ none) × (m ≡ ("err", text) ∷ []))

answer-Answers :
    (key missing : String) (e : Executed) → Answers key e (answer key missing (command_result e))
unfolding answer command_result trimmed_output
answer-Answers key missing (not_started e) = inr (e, refl, refl)
answer-Answers key missing (exited status stdout) = split status.text status.success stdout
  where
    blank :
        (text : String)
        → Answers key
            (exited (record { text = ""; success = true }) (some text))
            (answer key missing (ok (trim text)))
    blank text = elim (Bool-cases (is_empty (trim text))) [
      | inl h ↦ inr (missing, rw h refl, rw h refl)
      | inr h ↦ inl (trim text, rw h refl, rw h refl)
    ]

    split :
        (t : String) (success : Bool) (stdout : Option String)
        → let e = exited (record { text = t; success = success }) stdout in
          Answers key e (answer key missing (command_result e))
    split t false none = inr (t, refl, refl)
    split t false (some text) = inr (t, refl, refl)
    split t true none = inr (missing, refl, rw trim_nil refl)
    split t true (some text) = blank text

-- The six calls with one value answer with the trimmed output of the process they start under their
-- key, if the process succeeds and writes more than blanks, and otherwise with an error alone.
pub commands_answer :
    (run : String → List String → Executed) (b : Bitcoin) (x y : String)
    → Answers "address" (process run b "getnewaddress" []) (getaddr run b)
      × Answers "privkey" (process run b "dumpprivkey" (x ∷ [])) (dumpprivkey run b x)
      × Answers "balance" (process run b "getbalance" []) (balance run b)
      × Answers "details" (process run b "gettransaction" (x ∷ [])) (gettransaction run b x)
      × Answers "signed" (process run b "sendtoaddress" (x ∷ y ∷ [])) (sendtoaddress run b x y)
      × Answers "txid" (process run b "signmessage" (x ∷ y ∷ [])) (signmessage run b x y)
unfolding getaddr dumpprivkey balance gettransaction sendtoaddress signmessage
commands_answer run b x y = (
  answer-Answers "address" "No address generated by bitcoind" (process run b "getnewaddress" []),
  answer-Answers "privkey" "No privkey retrieven by bitcoind"
      (process run b "dumpprivkey" (x ∷ [])),
  answer-Answers "balance" "No balance generated by bitcoind" (process run b "getbalance" []),
  answer-Answers "details" "No details retrieven by bitcoind"
      (process run b "gettransaction" (x ∷ [])),
  answer-Answers "signed" "No signed transation retrieven by bitcoind"
      (process run b "sendtoaddress" (x ∷ y ∷ [])),
  answer-Answers "txid" "No transaction id transation retrieven by bitcoind"
      (process run b "signmessage" (x ∷ y ∷ [])),
)

abbrev pub with_address : Option MultiSig → Option MultiSig
with_address none = none
with_address (some ms) = if is_empty ms.address then none else some ms

-- The report of a multi-signature command, if it parses and has an address.
abbrev pub parsed : (String → Option MultiSig) → Option String → Option MultiSig
parsed from_json none = none
parsed from_json (some text) = with_address (from_json text)

abbrev pub MultiAnswers : (String → Option MultiSig) → Executed → Dict String → Type 0
MultiAnswers from_json e m =
    ((ms : MultiSig) × (parsed from_json (reported e) ≡ some ms)
      × (m ≡ ("redeemScript", ms.redeem_script) ∷ ("address", ms.address) ∷ []))
    ⊎ ((text : String) × (parsed from_json (reported e) ≡ none) × (m ≡ ("err", text) ∷ []))

module _ (from_json : String → Option MultiSig) where
  -- What the match on a printed text does.
  abbrev Holds : String → Option String → Type 0
  Holds text o =
      ((ms : MultiSig) × (parsed from_json o ≡ some ms)
        × (multi_answer from_json (ok text)
            ≡ ("redeemScript", ms.redeem_script) ∷ ("address", ms.address) ∷ []))
      ⊎ ((msg : String) × (parsed from_json o ≡ none)
          × (multi_answer from_json (ok text) ≡ ("err", msg) ∷ []))

  multi_answer-MultiAnswers :
      (e : Executed) → MultiAnswers from_json e (multi_answer from_json (command_result e))
  unfolding multi_answer multi_sig_or command_result trimmed_output
  multi_answer-MultiAnswers (not_started e) = inr (e, refl, refl)
  multi_answer-MultiAnswers (exited status stdout) = split status.text status.success stdout
    where
      read :
          (text : String) (q : Option MultiSig)
          → is_empty text ≡ false
          → from_json text ≡ q
          → Holds text (some text)
      read text none h p = inr ("Can't parse multisig result", rw p refl, rw (h, p) refl)
      read text (some ms) h p = elim (Bool-cases (is_empty ms.address)) [
        | inl a ↦ inr ("Can't parse multisig result", rw (p, a) refl, rw (h, p, a) refl)
        | inr a ↦ inl (ms, rw (p, a) refl, rw (h, p, a) refl)
      ]

      printed :
          (text : String)
          → Holds (trim text) (if is_empty (trim text) then none else some (trim text))
      printed text = elim (Bool-cases (is_empty (trim text))) [
        | inl h ↦ inr ("No multisig address generated by bitcoind", rw h refl, rw h refl)
        | inr h ↦
            subst (λ (b : Bool). Holds (trim text) (if b then none else some (trim text))) (sym h)
              (read (trim text) (from_json (trim text)) h refl)
      ]

      split :
          (t : String) (success : Bool) (stdout : Option String)
          → let e = exited (record { text = t; success = success }) stdout in
            MultiAnswers from_json e (multi_answer from_json (command_result e))
      split t false none = inr (t, refl, refl)
      split t false (some text) = inr (t, refl, refl)
      split t true none = inr ("No multisig address generated by bitcoind", refl, rw trim_nil refl)
      split t true (some text) = printed text

  -- Both multi-signature calls answer with the address and the redeem script, if the process they
  -- start succeeds and its output parses and has an address, and otherwise with an error alone.
  pub multi_commands_answer :
      (run : String → List String → Executed) (b : Bitcoin) (n : ℕ) (keys : List String)
      → let args = to_string n ∷ keys_arg keys ∷ [] in
        MultiAnswers from_json
          (process run b "createmultisig" args)
          (createmultisig from_json run b n keys)
        × MultiAnswers from_json
            (process run b "addmultisigaddress" args)
            (addmultisigaddress from_json run b n keys)
  unfolding createmultisig addmultisigaddress
  multi_commands_answer run b n keys =
      let args = to_string n ∷ keys_arg keys ∷ [] in
      (
        multi_answer-MultiAnswers (process run b "createmultisig" args),
        multi_answer-MultiAnswers (process run b "addmultisigaddress" args),
      )
