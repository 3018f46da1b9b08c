-- ===== src/Api/Chat.antt =====
-- `ChatReader::read` of vDexNode/api/src/handler.rs, the body of a room's stream: each call fills a
-- buffer of the given length. `to_json` is `serde_json::to_string`, whose failure is `none`. The
-- pause of an idle call does not show.
pub mod Reads
pub mod Bounds
use vdexnode.Common.{
  ℕ, zero, suc, ◌+◌, ◌-◌, String, ◌<>◌, Bool, true, false, Option, none, some, List, [], ◌∷◌, ◌++◌,
  length, ◌==◌, ltb, if◌then◌else◌, as_bytes,
}
use vdexnode.Common.Outcome.{Outcome, ok, panic, ◌>>=◌}
use vdexnode.Api.Handler.{ChatMessage, ChatReader}

-- A buffer of zeros.
unfoldable pub zeros : ℕ → List ℕ
zeros zero = []
zeros (suc n) = 0 ∷ zeros n

unfoldable pub min : ℕ → ℕ → ℕ
min a b = if ltb b a then b else a

-- `buf[..n].clone_from_slice(src)` on a buffer of zeros, which panics if the lengths differ.
unfoldable pub clone_from_slice : ℕ → ℕ → List ℕ → Outcome ⊥ (List ℕ)
unfolding zeros
clone_from_slice len n src = if n == length src then ok (src ++ zeros (len - n)) else panic

-- The buffer after the call, and what the call returns.
pub record Filled : Type 0 where
  pub buf : List ℕ
  pub returned : ℕ

module _ (to_json : ChatMessage → Option String) where
  -- The bytes of a message on the stream.
  unfoldable pub wire : String → List ℕ
  wire json = as_bytes (json <> "\n")

  -- The first message, given its JSON text, and the reader without it.
  unfoldable pub read_message :
      ℕ → Option String → ChatReader → ChatReader → Outcome ⊥ (Filled × ChatReader)
  unfolding zeros min clone_from_slice wire
  read_message len none reader rest = ok (record { buf = zeros len; returned = 0 }, rest)
  read_message len (some json) reader rest = do
    let n = min len (length (wire json))
    buf ← clone_from_slice len n (wire json)
    if ltb n (length (wire json))
        then ok (record { buf = buf; returned = 0 }, reader)
        else ok (record { buf = buf; returned = len }, rest)

  unfoldable pub read : ℕ → ChatReader → Outcome ⊥ (Filled × ChatReader)
  unfolding read_message
  read len reader =
      if reader.stopped
      then ok (record { buf = zeros len; returned = 0 }, reader)
      else elim reader.chat [
        | [] ↦ ok (record { buf = zeros len; returned = len }, reader)
        | message ∷ messages ↦
            read_message len (to_json message) reader (record reader { chat = messages })
      ]
