-- ===== src/Mpt/Program/Scripts.antt =====
-- The script that a party of a program meets when the others' messages arrive, with delays and lost
-- sends as they may be.
use mathlib.Core.List.{append-nil}
use vdexnode.Common.{
  ℕ, suc, get_elem?, ◌≡◌, refl, String, Bool, none, some, List, [], ◌∷◌, ◌++◌, map,
}
use vdexnode.Common.Decimal.{to_string}
use vdexnode.Mpt.Parties.{indices, others}
use vdexnode.Mpt.Transport.{Sent, Entry, PartySignup, message_key}
use vdexnode.Mpt.Transport.Runs.{Runs, Runs-then, Runs-value, Runs-script, answer_after, copies}
use vdexnode.Mpt.Transport.Polling.{arrivals, broadcast-Runs, poll_for_returns}
use vdexnode.Mpt.Vectors.Laws.{merge_from-values}
use vdexnode.Common.Outcome.{ok}
use vdexnode.Mpt.Program.{check_args, Codec, Server, exchange, exchange_all}

-- Arguments up to the one that is wanted last, and no further one, are accepted.
pub check_args_accepts :
    (count : ℕ) (args : List String) (last : String)
    → get_elem? args count ≡ some last
    → get_elem? args (suc count) ≡ none
    → check_args count args ≡ ok tt
unfolding check_args
check_args_accepts count args last there no_more = rw (no_more, there, check_args) refl

abbrev pub IsCodec : {A : Type 0} → Codec A → Type 0
IsCodec {A} codec = (a : A) → codec.read (codec.print a) ≡ some a

-- The server's texts for what it answers.
pub record IsServer (srv : Server) : Type 0 where
  pub ok_text : String
  pub read_ok : srv.decode_unit ok_text ≡ some (some tt)
  pub pending : String
  pub read_pending : srv.decode_entry pending ≡ some none
  pub entry_text : Entry → String
  pub read_entry : (e : Entry) → srv.decode_entry (entry_text e) ≡ some (some e)
  pub signup_text : PartySignup → String
  pub read_signup : (p : PartySignup) → srv.decode_signup (signup_text p) ≡ some (some p)

-- By round and party: whether the first send of a message is lost, what comes before a party's
-- message is there, and whether the first question that it would answer is lost.
pub record Delays : Type 0 where
  pub sends : String → ℕ → Bool
  pub waits : String → ℕ → List Bool
  pub lost : String → ℕ → Bool

module _ {srv : Server} (s : IsServer srv) (d : Delays) (me n : ℕ) (uuid : String) where
  abbrev pub message : ℕ → String → String → String → Entry
  message from to round value = record { key = message_key from round uuid to; value = value }

  -- The other parties' broadcasts of a round, and their messages to this party.
  abbrev pub heard : String → (ℕ → String) → List Sent
  heard round value =
      arrivals s.pending (d.waits round) (d.lost round)
        (λ j. s.entry_text (message j "" round (value j))) (others me 1 n)

  abbrev pub received : String → (ℕ → String) → List Sent
  received round value =
      arrivals s.pending (d.waits round) (d.lost round)
        (λ j. s.entry_text (message j (to_string me) round (value j))) (others me 1 n)

  abbrev pub exchanged : String → (ℕ → String) → List Sent
  exchanged round value = answer_after (d.sends round 0) s.ok_text ++ heard round value

  -- What the party sets in such a round.
  abbrev pub posted : String → String → List Entry
  posted round value = copies (d.sends round 0) (message me "" round value ∷ [])

  pub exchange-Runs :
      (round : String) (value : ℕ → String)
      → Runs
          (exchange srv me n uuid round (value me))
          (exchanged round value)
          (map value (others me 1 n))
          (posted round (value me))
  unfolding exchange
  exchange-Runs round value =
      Runs-then _
        (broadcast-Runs srv.decode_unit (d.sends round 0) s.ok_text me round (value me) uuid
          s.read_ok)
        (poll_for_returns srv.decode_entry s.pending s.read_pending (d.waits round) (d.lost round)
          (λ j. s.entry_text (message j "" round (value j))) (λ j. message j "" round (value j))
          (λ j. s.read_entry (message j "" round (value j))) me n round uuid).0

  -- Everybody has the values of all parties, in the order of the parties.
  pub exchange_all-Runs :
      {A : Type 0} (codec : Codec A) (round : String) (value : ℕ → A)
      → IsCodec codec
      → Runs
          (exchange_all srv me n uuid codec round (value me))
          (exchanged round (λ j. codec.print (value j)))
          (map value (indices 1 n))
          (posted round (codec.print (value me)))
  unfolding exchange_all
  exchange_all-Runs codec round value e = Runs-script (append-nil _) (
      Runs-then _ (exchange-Runs round (λ j. codec.print (value j))) (
        Runs-value (
          merge_from-values codec.read value (λ j. codec.print (value j)) me n (λ k. e (value k)))))
