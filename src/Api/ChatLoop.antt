-- ===== src/Api/ChatLoop.antt =====
-- The chat thread of vDexNode/api/src/main.rs: it takes the handler's chat events, listens to the
-- room of a reader that has joined, and cancels that when the reader leaves. opendht is a parameter;
-- a callback is named by the reader whose messages it adds to.
pub mod Listening
pub mod Kept
pub mod Rounds
use vdexnode.Common.{
  ℕ, String, Bool, true, false, ◌&&◌, Option, none, some, List, [], ◌∷◌, ◌++◌, ◌==◌, str_eq,
  is_empty, if◌then◌else◌,
}
use vdexnode.Api.Handler.{ChatMessage, ChatEvent, joined, left}

pub record Listener : Type 1 where
  pub State : Type 0
  pub Hash : Type 0
  pub Token : Type 0
  pub hash_get : String → Hash
  -- DhtRunner's listen, with the token that it returns, and cancel_listen
  pub listen : Hash → ℕ → State → Token × State
  pub cancel_listen : Hash → Token → State → State

-- What a callback reads of a value: its text, its owner's and its recipient's name.
pub record Heard : Type 0 where
  pub text : Option String
  pub owner : Option String
  pub recipient : String

-- `value_cb` of a join: the messages of the reader after a value has come, or expired.
unfoldable pub hear : String → Heard → Bool → List ChatMessage → List ChatMessage
hear pk v true msg = msg
hear pk v false msg =
    let body : String = elim v.text [ none ↦ "" | some text ↦ text ] in
    let author : String = elim v.owner [ none ↦ "" | some owner ↦ owner ] in
    if is_empty body
    then msg
    else msg ++ (record { author = author; body = body; encrypted = str_eq v.recipient pk } ∷ [])

module _ (net : Listener) where
  open net use {State, Token, hash_get, listen, cancel_listen}

  -- HashMap<(u64, String), Box<OpToken>>
  abbrev pub Tokens : Type 0
  Tokens = List ((ℕ × String) × Token)

  abbrev pub same : ℕ × String → ℕ × String → Bool
  same a b = (a.0 == b.0) && str_eq a.1 b.1

  unfoldable pub find : ℕ × String → Tokens → Option Token
  find key [] = none
  find key ((here, token) ∷ tokens) =
      let later = find key tokens in if same here key then some token else later

  unfoldable pub forget : ℕ × String → Tokens → Tokens
  forget key [] = []
  forget key ((here, token) ∷ tokens) =
      let rest = forget key tokens in if same here key then rest else (here, token) ∷ rest

  pub record Loop : Type 0 where
    pub tokens : Tokens
    pub dht : State

  -- The match on an event.
  unfoldable pub handle_event : ChatEvent → Loop → Loop
  unfolding find forget
  handle_event (joined id room) l =
      let (token, dht) = listen (hash_get room) id l.dht in
      record { tokens = ((id, room), token) ∷ forget (id, room) l.tokens; dht = dht }
  handle_event (left id room) l = elim (find (id, room) l.tokens) [
    | some token ↦ record {
      tokens = forget (id, room) l.tokens;
      dht = cancel_listen (hash_get room) token l.dht;
    }
    | none ↦ l
  ]

  -- `for event in &events`
  unfoldable pub handle_events : List ChatEvent → Loop → Loop
  unfolding handle_event
  handle_events [] l = l
  handle_events (event ∷ events) l = handle_events events (handle_event event l)

  -- One round of the loop: the shared list of events is taken and emptied.
  unfoldable pub round : List ChatEvent × Loop → List ChatEvent × Loop
  unfolding handle_events
  round (chat_events, l) = ([], handle_events chat_events l)

  -- Rounds, between which the handler adds events.
  unfoldable pub rounds_of : List (List ChatEvent) → List ChatEvent × Loop → List ChatEvent × Loop
  unfolding round
  rounds_of [] s = s
  rounds_of (new ∷ later) (chat_events, l) = rounds_of later (round (chat_events ++ new, l))
