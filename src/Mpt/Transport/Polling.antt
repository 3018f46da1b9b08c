-- ===== src/Mpt/Transport/Polling.antt =====
-- Polling ends when the answers have come, with the values in the order of the parties.
use vdexnode.Common.{
  ℕ, zero, suc, ◌<◌, ◌≡◌, refl, sym, ◌∙◌, ap, String, Bool, true, false, Option, some, none, List,
  [], ◌∷◌, ◌++◌, map, arith, length, length-append,
}
use mathlib.Core.Path.{subst}
use mathlib.Core.List.{append_assoc, append-nil}
use vdexnode.Common.Decimal.{to_string}
use vdexnode.Mpt.Parties.{others}
use vdexnode.Mpt.Transport.Runs.{Runs, entries_set, answer_after, copies, answered-Runs}
use vdexnode.Mpt.Transport.{
  of_entry, of_key, PartySignup, signup, World, Sent, failed, Request, of_index, Index, Entry,
  TupleKey, done, panicked, broadcast, sendp2p, message_key, ask, ask_until, poll,
  poll_for_broadcasts, poll_for_p2p,
}

-- Two sends of a message that fail are all that is tried: `broadcast` and `sendp2p` then panic,
-- whatever the server would have answered to a third.
pub broadcast_gives_up :
    (decode : String → Option (Option (Unit {0}))) (party to : ℕ) (round value uuid : String)
    (rest : List Sent) (requests : List Request)
    → (broadcast decode party round value uuid
          (record { script = failed ∷ failed ∷ rest; requests = requests })
        ≡ panicked)
      × (sendp2p decode party to round value uuid
            (record { script = failed ∷ failed ∷ rest; requests = requests })
          ≡ panicked)
unfolding broadcast sendp2p
broadcast_gives_up decode party to round value uuid rest requests = (refl, refl)

-- What a party's polling meets: answers that its message is not there yet, each behind one failed
-- send or none, and then the message.
abbrev pub arrival : String → List Bool → Bool → String → List Sent
arrival pending [] b text = answer_after b text
arrival pending (lost ∷ waits) b text = answer_after lost pending ++ arrival pending waits b text

-- The answers for one party after another.
abbrev pub arrivals : String → (ℕ → List Bool) → (ℕ → Bool) → (ℕ → String) → List ℕ → List Sent
arrivals pending waits lost text [] = []
arrivals pending waits lost text (j ∷ js) =
    arrival pending (waits j) (lost j) (text j) ++ arrivals pending waits lost text js

pub length-arrival :
    (pending : String) (waits : List Bool) (b : Bool) (text : String)
    → length waits < length (arrival pending waits b text)
length-arrival pending [] true text = omega arith
length-arrival pending [] false text = omega arith
length-arrival pending (true ∷ waits) b text = omega (arith, length-arrival pending waits b text)
length-arrival pending (false ∷ waits) b text = omega (arith, length-arrival pending waits b text)

copies-nil : (b : Bool) → copies b [] ≡ []
copies-nil true = refl
copies-nil false = refl

-- A message that is sent at the first or second attempt.
pub broadcast-Runs :
    (decode : String → Option (Option (Unit {0}))) (b : Bool) (text : String) (party : ℕ)
    (round value uuid : String)
    → decode text ≡ some (some tt)
    → Runs
        (broadcast decode party round value uuid)
        (answer_after b text)
        (some tt)
        (copies b ((record { key = message_key party round uuid ""; value = value }) ∷ []))
unfolding broadcast
broadcast-Runs decode b text party round value uuid e =
    answered-Runs decode b text "set"
      (of_entry (record { key = message_key party round uuid ""; value = value })) (some tt) e

pub sendp2p-Runs :
    (decode : String → Option (Option (Unit {0}))) (b : Bool) (text : String) (party to : ℕ)
    (round value uuid : String)
    → decode text ≡ some (some tt)
    → Runs (sendp2p decode party to round value uuid) (answer_after b text) (some tt) (
        copies b
          ((record { key = message_key party round uuid (to_string to); value = value }) ∷ []))
unfolding sendp2p
sendp2p-Runs decode b text party to round value uuid e =
    answered-Runs decode b text "set"
      (of_entry (record { key = message_key party round uuid (to_string to); value = value }))
      (some tt) e

pub signup-Runs :
    (decode : String → Option (Option PartySignup)) (b : Bool) (text path second : String)
    (p : PartySignup)
    → decode text ≡ some (some p)
    → Runs (signup decode path second) (answer_after b text) (some p) []
unfolding signup
signup-Runs decode b text path second p e =
    subst (Runs (signup decode path second) (answer_after b text) (some p)) (copies-nil b) (
      answered-Runs decode b text path
        (of_key (record { first = "signup"; second = second; third = ""; fourth = "" })) (some p) e)

module _ (decode : String → Option (Option Entry)) (pending : String)
    (decode_pending : decode pending ≡ some none) where
  -- One question.
  ask-Runs :
      (b : Bool) (text : String) (index : Index) (o : Option Entry)
      → decode text ≡ some o
      → Runs (ask decode index) (answer_after b text) o []
  unfolding ask
  ask-Runs b text index o e =
      subst (Runs (ask decode index) (answer_after b text) o) (copies-nil b)
        (answered-Runs decode b text "get" (of_index index) o e)

  -- A question that is answered by the message ends the inner loop, one without it goes on.
  pub ask_until_found :
      (fuel : ℕ) (index : Index) (w w' : World) (entry : Entry)
      → ask decode index w ≡ done (some entry) w'
      → ask_until decode (suc fuel) index w ≡ done entry.value w'
  unfolding ask_until
  ask_until_found fuel index w w' entry e = rw (e, ask_until)

  pub ask_until_again :
      (fuel : ℕ) (index : Index) (w w' : World)
      → ask decode index w ≡ done none w'
      → ask_until decode (suc fuel) index w ≡ ask_until decode fuel index w'
  unfolding ask_until
  ask_until_again fuel index w w' e = rw (e, ask_until)

  -- The inner loop ends with the message, if its fuel is above the number of answers before it.
  ask_until-Runs :
      (fuel : ℕ) (waits : List Bool) (b : Bool) (text : String) (index : Index) (entry : Entry)
      → length waits < fuel
      → decode text ≡ some (some entry)
      → Runs (ask_until decode fuel index) (arrival pending waits b text) entry.value []
  ask_until-Runs zero waits b text index entry lt h = absurd (omega arith)
  ask_until-Runs (suc fuel) [] b text index entry lt h = record {
    at = λ requests rest.
        let (rs', e, p) = (ask-Runs b text index (some entry) h).at requests rest in
        (rs', ask_until_found fuel index _ _ entry e, p);
  }
  ask_until-Runs (suc fuel) (lost ∷ waits) b text index entry lt h = record {
    at = λ requests rest.
        let (rs₁, e₁, p₁) =
          (ask-Runs lost pending index none decode_pending).at requests
            (arrival pending waits b text ++ rest) in
        let (rs₂, e₂, p₂) =
          (ask_until-Runs fuel waits b text index entry (omega arith) h).at rs₁ rest in
        (
          rs₂,
          ap
                (λ (s : List Sent).
                  ask_until decode (suc fuel) index (record { script = s; requests = requests }))
                (append_assoc (answer_after lost pending) (arrival pending waits b text) rest)
              ∙ ask_until_again fuel index _ _ e₁
              ∙ e₂,
          p₂ ∙ ap (λ (es : List Entry). es ++ []) p₁ ∙ append-nil (entries_set requests ++ []),
        );
  }

  pub poll_step :
      (key : ℕ → TupleKey) (j : ℕ) (js : List ℕ) (w w' w'' : World) (value : String)
      (values : List String)
      → ask_until decode (suc (length w.script)) (record { key = key j }) w ≡ done value w'
      → poll decode key js w' ≡ done values w''
      → poll decode key (j ∷ js) w ≡ done (value ∷ values) w''
  unfolding poll
  poll_step key j js w w' w'' value values e₁ e₂ = rw (e₁, e₂, poll)

  module _ (waits : ℕ → List Bool) (lost : ℕ → Bool) (text : ℕ → String) (entry : ℕ → Entry)
      (decoded : (j : ℕ) → decode (text j) ≡ some (some (entry j))) where
    poll-Runs :
        (key : ℕ → TupleKey) (js : List ℕ)
        → Runs
            (poll decode key js)
            (arrivals pending waits lost text js)
            (map (λ j. (entry j).value) js)
            []
    unfolding poll
    poll-Runs key [] = record {
      at = λ requests rest. (requests, refl, sym (append-nil (entries_set requests)));
    }
    poll-Runs key (j ∷ js) = record {
      at = λ requests rest.
          let head = arrival pending (waits j) (lost j) (text j) in
          let script = head ++ (arrivals pending waits lost text js ++ rest) in
          let (rs₁, e₁, p₁) =
            (ask_until-Runs (suc (length script)) (waits j) (lost j) (text j)
                (record { key = key j }) (entry j)
                (omega (
                  arith,
                  length-arrival pending (waits j) (lost j) (text j),
                  length-append head (arrivals pending waits lost text js ++ rest),
                ))
                (decoded j)).at
              requests (arrivals pending waits lost text js ++ rest) in
          let (rs₂, e₂, p₂) = (poll-Runs key js).at rs₁ rest in
          (
            rs₂,
            ap
                  (λ (s : List Sent).
                    poll decode key (j ∷ js) (record { script = s; requests = requests }))
                  (append_assoc head (arrivals pending waits lost text js) rest)
                ∙ poll_step key j js (record { script = script; requests = requests }) _ _
                    (entry j).value (map (λ i. (entry i).value) js) e₁ e₂,
            p₂ ∙ ap (λ (es : List Entry). es ++ []) p₁ ∙ append-nil (entries_set requests ++ []),
          );
    }

    -- If for every other party there come some answers that its message is not there yet, and then
    -- the message, none of them behind more than one failed send, then both polls return, with the
    -- messages' values in the order of the parties, use up just those answers, and set no entry.
    pub poll_for_returns :
        (party_num n : ℕ) (round uuid : String)
        → let js = others party_num 1 n in
          let script = arrivals pending waits lost text js in
          let values = map (λ j. (entry j).value) js in
          Runs (poll_for_broadcasts decode party_num n round uuid) script values []
          × Runs (poll_for_p2p decode party_num n round uuid) script values []
    unfolding poll_for_broadcasts poll_for_p2p
    poll_for_returns party_num n round uuid = (
      poll-Runs (λ i. message_key i round uuid "") (others party_num 1 n),
      poll-Runs (λ i. message_key i round uuid (to_string party_num)) (others party_num 1 n),
    )
