-- ===== src/Api/Chat/Bounds.antt =====
-- What a read of a room's stream writes stays in the buffer.
use mathlib.Core.Path.{subst}
use vdexnode.Common.{
  ℕ, zero, suc, ◌+◌, ◌-◌, ◌≤◌, ◌≡◌, refl, ap, String, Bool, true, false, Option, none, some, List,
  [], ◌∷◌, arith, length, length-append, leb, Bool-cases, inl, inr, ◌⊎◌, ◌<◌,
}
use vdexnode.Common.Outcome.{Outcome, ok}
use vdexnode.Api.Handler.{ChatMessage, ChatReader}
use vdexnode.Api.Chat.{zeros, Filled, wire, read_message, read}
use vdexnode.Api.Chat.Reads.{padded, read_message_fits, read_message_long}

length-zeros : (n : ℕ) → length (zeros n) ≡ n
unfolding zeros
length-zeros zero = refl
length-zeros (suc n) = ap suc (length-zeros n)

-- The buffer keeps its length, what is returned fits it, and at most one message is taken.
abbrev pub Fits : ℕ → ChatReader → Filled × ChatReader → Type 0
Fits len reader (filled, reader') =
    (length filled.buf ≡ len)
    × (filled.returned ≤ len)
    × (length reader'.chat ≤ length reader.chat)
    × (length reader.chat ≤ length reader'.chat + 1)

abbrev FitsOk : ℕ → ChatReader → Outcome ⊥ (Filled × ChatReader) → Type 0
FitsOk len reader (ok result) = Fits len reader result
FitsOk len reader _ = Unit

le_or_lt : (a b : ℕ) → (a ≤ b) ⊎ (b < a)
le_or_lt a b = elim (Bool-cases (leb a b)) [
  | inl h ↦ inl (ground arith)
  | inr h ↦ inr (ground arith)
]

module _ (to_json : ChatMessage → Option String) where
  message_fits :
      (len : ℕ) (o : Option String) (reader rest : ChatReader)
      → length reader.chat ≡ length rest.chat + 1
      → FitsOk len reader (read_message to_json len o reader rest)
  unfolding read_message
  message_fits len none reader rest one = (length-zeros len, omega arith, omega arith, omega arith)
  message_fits len (some json) reader rest one = elim (le_or_lt (length (wire to_json json)) len) [
    | inl h ↦
        rw (read_message_fits to_json len json reader rest h)
          (filled h, omega arith, omega arith, omega arith)
    | inr h ↦ rw (read_message_long to_json len json reader rest h) tt
  ]
    where
      filled : length (wire to_json json) ≤ len → length (padded to_json len json) ≡ len
      filled h =
          let k = length (wire to_json json) in
          let front = length-append (wire to_json json) (zeros (len - k)) in
          let back = length-zeros (len - k) in omega arith

  fits :
      (len id : ℕ) (room : String) (chat : List ChatMessage) (stopped : Bool)
      → let reader : ChatReader = record { id = id; room = room; chat = chat; stopped = stopped } in
        FitsOk len reader (read to_json len reader)
  unfolding read
  fits len id room chat true = (length-zeros len, omega arith, omega arith, omega arith)
  fits len id room [] false = (length-zeros len, omega arith, omega arith, omega arith)
  fits len id room (message ∷ messages) false =
      message_fits len (to_json message)
        (record { id = id; room = room; chat = message ∷ messages; stopped = false })
        (record { id = id; room = room; chat = messages; stopped = false }) (omega arith)

  -- Whenever a read returns, the buffer has kept its length and the number returned is at most that
  -- length, and at most one of the reader's messages has been taken.
  pub read-Fits :
      (len : ℕ) (reader : ChatReader) (result : Filled × ChatReader)
      → read to_json len reader ≡ ok result
      → Fits len reader result
  read-Fits len reader result e =
      subst (FitsOk len reader) e (fits len reader.id reader.room reader.chat reader.stopped)
