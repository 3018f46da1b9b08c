-- ===== src/Mpt/Transport/Questions.antt =====
-- What a party asks the server for while it polls, question by question.
use mathlib.Core.List.{append_assoc, append-nil}
use vdexnode.Common.{
  ℕ, zero, suc, ◌+◌, ◌^◌, ◌<◌, ◌≡◌, refl, ◌∙◌, ap, String, Bool, true, false, Option, some, none,
  List, [], ◌∷◌, ◌++◌, map, arith, length, length-append,
}
use vdexnode.Common.Decimal.{to_string}
use vdexnode.Mpt.Parties.{others}
use vdexnode.Mpt.Transport.{
  World, Sent, Ran, done, Request, of_index, Entry, TupleKey, message_key, ask, ask_until, poll,
  poll_for_broadcasts, poll_for_p2p,
}
use vdexnode.Mpt.Transport.Runs.{answer_after}
use vdexnode.Mpt.Transport.Polling.{
  arrival, arrivals, length-arrival, poll_step, ask_until_found, ask_until_again,
}

-- The call uses up the script, returns a value and makes these requests.
pub record Asks {A : Type 0} (m : World → Ran A) (script : List Sent) (a : A) (made : List Request)
    : Type 0 where
  pub at :
      (requests : List Request) (rest : List Sent)
      → m (record { script = script ++ rest; requests = requests })
        ≡ done a (record { script = rest; requests = requests ++ made })

-- The request for what stands under a key, and the requests for it behind one failed send or none.
abbrev pub question : TupleKey → Request
question key = record { path = "get"; body = of_index (record { key = key }) }

abbrev pub attempts : Bool → Request → List Request
attempts true r = r ∷ r ∷ []
attempts false r = r ∷ []

-- One question for each answer that is not the message yet, and one for the message.
abbrev pub questions : TupleKey → List Bool → Bool → List Request
questions key [] b = attempts b (question key)
questions key (lost ∷ waits) b = attempts lost (question key) ++ questions key waits b

abbrev pub all_questions : (ℕ → TupleKey) → (ℕ → List Bool) → (ℕ → Bool) → List ℕ → List Request
all_questions key waits lost [] = []
all_questions key waits lost (j ∷ js) =
    questions (key j) (waits j) (lost j) ++ all_questions key waits lost js

module _ (decode : String → Option (Option Entry)) (pending : String)
    (decode_pending : decode pending ≡ some none) where
  ask-Asks :
      (b : Bool) (text : String) (key : TupleKey) (o : Option Entry)
      → decode text ≡ some o
      → Asks (ask decode (record { key = key })) (answer_after b text) o (attempts b (question key))
  unfolding ask
  ask-Asks false text key o e = record { at = λ requests rest. rw e refl }
  ask-Asks true text key o e = record {
    at =
        λ requests rest. rw (e, append_assoc requests (question key ∷ []) (question key ∷ [])) refl;
  }

  ask_until-Asks :
      (fuel : ℕ) (waits : List Bool) (b : Bool) (text : String) (key : TupleKey) (entry : Entry)
      → length waits < fuel
      → decode text ≡ some (some entry)
      → Asks
          (ask_until decode fuel (record { key = key }))
          (arrival pending waits b text)
          entry.value
          (questions key waits b)
  ask_until-Asks zero waits b text key entry lt h = absurd (omega arith)
  ask_until-Asks (suc fuel) [] b text key entry lt h = record {
    at = λ requests rest.
        ask_until_found decode pending decode_pending fuel (record { key = key }) _ _ entry
          ((ask-Asks b text key (some entry) h).at requests rest);
  }
  ask_until-Asks (suc fuel) (lost ∷ waits) b text key entry lt h = record {
    at = λ requests rest.
        let first =
          (ask-Asks lost pending key none decode_pending).at requests
            (arrival pending waits b text ++ rest) in
        let more =
          (ask_until-Asks fuel waits b text key entry (omega arith) h).at
            (requests ++ attempts lost (question key)) rest in
        ap
          (λ (s : List Sent).
            ask_until decode (suc fuel) (record { key = key })
              (record { script = s; requests = requests }))
          (append_assoc (answer_after lost pending) (arrival pending waits b text) rest)
        ∙ ask_until_again decode pending decode_pending fuel (record { key = key }) _ _ first
        ∙ more
        ∙ ap (λ (rs : List Request). done entry.value (record { script = rest; requests = rs }))
            (append_assoc requests (attempts lost (question key)) (questions key waits b));
  }

  module _ (waits : ℕ → List Bool) (lost : ℕ → Bool) (text : ℕ → String) (entry : ℕ → Entry)
      (decoded : (j : ℕ) → decode (text j) ≡ some (some (entry j))) where
    poll-Asks :
        (key : ℕ → TupleKey) (js : List ℕ)
        → Asks
            (poll decode key js)
            (arrivals pending waits lost text js)
            (map (λ j. (entry j).value) js)
            (all_questions key waits lost js)
    unfolding poll
    poll-Asks key [] = record { at = λ requests rest. rw (append-nil requests) refl }
    poll-Asks key (j ∷ js) = record {
      at = λ requests rest.
          let head = arrival pending (waits j) (lost j) (text j) in
          let script = head ++ (arrivals pending waits lost text js ++ rest) in
          let first =
            (ask_until-Asks (suc (length script)) (waits j) (lost j) (text j) (key j) (entry j)
                (omega (
                  arith,
                  length-arrival pending (waits j) (lost j) (text j),
                  length-append head (arrivals pending waits lost text js ++ rest),
                ))
                (decoded j)).at
              requests (arrivals pending waits lost text js ++ rest) in
          let more =
            (poll-Asks key js).at (requests ++ questions (key j) (waits j) (lost j)) rest in
          ap
            (λ (s : List Sent).
              poll decode key (j ∷ js) (record { script = s; requests = requests }))
            (append_assoc head (arrivals pending waits lost text js) rest)
          ∙ poll_step decode pending decode_pending key j js
              (record { script = script; requests = requests }) _ _ (entry j).value
              (map (λ i. (entry i).value) js) first more
          ∙ ap
              (λ (rs : List Request).
                done (map (λ i. (entry i).value) (j ∷ js))
                  (record { script = rest; requests = rs }))
              (append_assoc requests (questions (key j) (waits j) (lost j))
                (all_questions key waits lost js));
    }

    -- There are so few parties that n + 1 is a u32. If for every other party there come some answers
    -- that its message is not there yet, and then the message, none of them behind more than one
    -- failed send, then both polls return, with the messages' values in the order of the parties,
    -- use up just those answers, and ask for nothing but these messages: each time for the one that
    -- the party sent in this round of this session, to everybody or to the party that polls.
    pub poll_for-Asks :
        (party_num n : ℕ) (round uuid : String)
        → n + 1 < 2 ^ 32
        → let js = others party_num 1 n in
          let script = arrivals pending waits lost text js in
          let values = map (λ j. (entry j).value) js in
          Asks
            (poll_for_broadcasts decode party_num n round uuid)
            script
            values
            (all_questions (λ j. message_key j round uuid "") waits lost js)
          × Asks
              (poll_for_p2p decode party_num n round uuid)
              script
              values
              (all_questions (λ j. message_key j round uuid (to_string party_num)) waits lost js)
    unfolding poll_for_broadcasts poll_for_p2p
    poll_for-Asks party_num n round uuid few = (
      poll-Asks (λ i. message_key i round uuid "") (others party_num 1 n),
      poll-Asks (λ i. message_key i round uuid (to_string party_num)) (others party_num 1 n),
    )
