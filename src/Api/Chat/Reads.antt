-- ===== src/Api/Chat/Reads.antt =====
-- What a room's stream carries.
use vdexnode.Common.{
  ℕ, zero, suc, ◌-◌, ◌≤◌, ◌<◌, ◌≡◌, refl, String, true, false, Option, some, List, [], ◌∷◌, ◌++◌,
  map, All, arith, length, ltb, ◌==◌,
}
use vdexnode.Common.Outcome.{Outcome, ok, panic, ◌>>=◌}
use vdexnode.Api.Handler.{ChatMessage, ChatReader}
use vdexnode.Api.Chat.{zeros, min, clone_from_slice, Filled, wire, read_message, read}

fits_min : (len k : ℕ) → k ≤ len → min len k ≡ k
unfolding min
fits_min len k h = ground arith

long_min : (len k : ℕ) → len < k → min len k ≡ len
unfolding min
long_min len k h = ground arith

same : (k : ℕ) → (k == k) ≡ true
same k = ground arith

not_less : (k : ℕ) → ltb k k ≡ false
not_less k = ground arith

differ : (a b : ℕ) → a < b → (a == b) ≡ false
differ a b h = ground arith

-- A reader that is not stopped.
abbrev pub reader_of : ℕ → String → List ChatMessage → ChatReader
reader_of id room chat = record { id = id; room = room; chat = chat; stopped = false }

module _ (to_json : ChatMessage → Option String) where
  -- A buffer with a message in front.
  abbrev pub padded : ℕ → String → List ℕ
  padded len json = wire to_json json ++ zeros (len - length (wire to_json json))

  pub read_message_fits :
      (len : ℕ) (json : String) (reader rest : ChatReader)
      → length (wire to_json json) ≤ len
      → read_message to_json len (some json) reader rest
        ≡ ok (record { buf = padded len json; returned = len }, rest)
  unfolding read_message clone_from_slice
  read_message_fits len json reader rest h =
      rw
        (
          fits_min len (length (wire to_json json)) h,
          same (length (wire to_json json)),
          not_less (length (wire to_json json)),
        )
        refl

  pub read_message_long :
      (len : ℕ) (json : String) (reader rest : ChatReader)
      → len < length (wire to_json json)
      → read_message to_json len (some json) reader rest ≡ panic
  unfolding read_message clone_from_slice
  read_message_long len json reader rest h =
      rw (long_min len (length (wire to_json json)) h, differ len (length (wire to_json json)) h)
        refl

  read-first :
      (len id : ℕ) (room json : String) (message : ChatMessage) (messages : List ChatMessage)
      → to_json message ≡ some json
      → length (wire to_json json) ≤ len
      → read to_json len (reader_of id room (message ∷ messages))
        ≡ ok (record { buf = padded len json; returned = len }, reader_of id room messages)
  unfolding read
  read-first len id room json message messages e h = rw (e, read) (read_message_fits len json _ _ h)

  -- A read of a reader that is not stopped panics, if the first message's text with its line end is
  -- longer than the buffer.
  pub read-too_long :
      (len id : ℕ) (room json : String) (message : ChatMessage) (messages : List ChatMessage)
      → to_json message ≡ some json
      → len < length (wire to_json json)
      → read to_json len (reader_of id room (message ∷ messages)) ≡ panic
  unfolding read
  read-too_long len id room json message messages e h =
      rw (e, read) (read_message_long len json _ _ h)

  -- `count` reads, one after another.
  abbrev pub reads : ℕ → ℕ → ChatReader → Outcome ⊥ (List Filled × ChatReader)
  reads len zero reader = ok ([], reader)
  reads len (suc count) reader = do
    one ← read to_json len reader
    more ← reads len count one.1
    ok (one.0 ∷ more.0, more.1)

  -- A reader that is not stopped gives its messages one after another, in their order and each
  -- once, if the text of each fits the buffer with its line end; then none is left.
  pub reads-in_order :
      (json : ChatMessage → String) (len id : ℕ) (room : String) (chat : List ChatMessage)
      → ((m : ChatMessage) → to_json m ≡ some (json m))
      → All (λ m. length (wire to_json (json m)) ≤ len) chat
      → reads len (length chat) (reader_of id room chat)
        ≡ ok (
          map (λ m. record { buf = padded len (json m); returned = len }) chat,
          reader_of id room [],
        )
  reads-in_order json len id room [] texts fits = refl
  reads-in_order json len id room (m ∷ chat) texts (h, fits) =
      rw
        (
          read-first len id room (json m) m chat (texts m) h,
          reads-in_order json len id room chat texts fits,
        )
        refl
