-- ===== src/Mpt/Transport.antt =====
-- The message layer of vDexNode/mpt/src/bin/generate_key.rs, which sign.rs repeats word by word.
-- The server and the network are a script of what the sends to come will meet, in order; a call
-- uses up the script and adds to the list of requests. Delays do not show. `serde_json` is the
-- parameter `decode`, `u32` sums stay below the type's limit.
pub mod Keys
pub mod Runs
pub mod Ensures
pub mod Polling
pub mod Questions
use vdexnode.Common.{ℕ, zero, suc, ◌-◌, String, Option, none, some, List, [], ◌∷◌, ◌++◌, length}
use vdexnode.Common.Outcome.{Outcome}
use vdexnode.Common.Decimal.{to_string}
use vdexnode.Mpt.Parties.{others}

pub record TupleKey : Type 0 where
  pub first : String
  pub second : String
  pub third : String
  pub fourth : String

pub record PartySignup : Type 0 where
  pub number : ℕ
  pub uuid : String

pub record Index : Type 0 where
  pub key : TupleKey

pub record Entry : Type 0 where
  pub key : TupleKey
  pub value : String

pub data Body : Type 0 where
  of_key : TupleKey → Body
  of_index : Index → Body
  of_entry : Entry → Body

pub record Request : Type 0 where
  pub path : String
  pub body : Body

-- What a send meets: no answer, an answer with its text, or one whose text cannot be read.
pub data Sent : Type 0 where
  failed : Sent
  answered : String → Sent
  garbled : Sent

pub record World : Type 0 where
  pub script : List Sent
  pub requests : List Request

-- What a call comes to. `blocked` is a call that still waits when the script ends.
pub data Ran (A : Type 0) : Type 0 where
  done : A → World → Ran A
  panicked : Ran A
  blocked : Ran A

infixl 5 ◌>>=◌
abbrev pub ◌>>=◌ : {A B : Type 0} → (World → Ran A) → (A → World → Ran B) → World → Ran B
◌>>=◌ m f w = elim (m w) [ done a w' ↦ f a w' | panicked ↦ panicked | blocked ↦ blocked ]

abbrev pub pure : {A : Type 0} → A → World → Ran A
pure a w = done a w

abbrev pub unwrap : {A : Type 0} → Option A → World → Ran A
unwrap none w = panicked
unwrap (some a) w = done a w

-- A step that does not send; its error is `expect`ed not to happen.
abbrev pub lift : {E A : Type 0} → Outcome E A → World → Ran A
lift (Outcome.ok a) w = done a w
lift (Outcome.err e) w = panicked
lift Outcome.panic w = panicked

-- One `client.post(..).send()`.
unfoldable pub send : Request → World → Ran Sent
send r w = elim w.script [
  | [] ↦ blocked
  | s ∷ rest ↦ done s (record { script = rest; requests = w.requests ++ (r ∷ []) })
]

-- The attempts of `postb` that are left.
unfoldable pub post_attempts : ℕ → Request → World → Ran (Option String)
unfolding send
post_attempts zero r w = done none w
post_attempts (suc n) r w = elim (send r w) [
  | done s w' ↦ elim s [
    | failed ↦ post_attempts n r w'
    | answered text ↦ done (some text) w'
    | garbled ↦ panicked
  ]
  | panicked ↦ panicked
  | blocked ↦ blocked
]

abbrev pub retries : ℕ
retries = 3

-- `for _i in 1..retries`
unfoldable pub postb : String → Body → World → Ran (Option String)
unfolding post_attempts
postb path body w = post_attempts (retries - 1) (record { path = path; body = body }) w

-- The key under which party `from` puts its message of a round; `to` is empty for a broadcast.
unfoldable pub message_key : ℕ → String → String → String → TupleKey
message_key from round uuid to = record {
  first = to_string from;
  second = round;
  third = uuid;
  fourth = to;
}

-- `decode` reads a server's answer: `none` is malformed, `some none` is `Err(())`.
module _ (decode_unit : String → Option (Option (Unit {0}))) where
  unfoldable pub put : Entry → World → Ran (Option (Unit {0}))
  unfolding postb
  put entry = do
    res_body ← postb "set" (of_entry entry)
    text ← unwrap res_body
    unwrap (decode_unit text)

  unfoldable pub broadcast : ℕ → String → String → String → World → Ran (Option (Unit {0}))
  unfolding put message_key
  broadcast party_num round value uuid =
      put (record { key = message_key party_num round uuid ""; value = value })

  unfoldable pub sendp2p : ℕ → ℕ → String → String → String → World → Ran (Option (Unit {0}))
  unfolding put message_key
  sendp2p party_from party_to round value uuid =
      put (record { key = message_key party_from round uuid (to_string party_to); value = value })

module _ (decode_signup : String → Option (Option PartySignup)) where
  -- `path` and `second` are "signupkeygen" and "keygen", or "signupsign" and "sign".
  unfoldable pub signup : String → String → World → Ran (Option PartySignup)
  unfolding postb
  signup path second = do
    res_body ←
        postb path (of_key (record { first = "signup"; second = second; third = ""; fourth = "" }))
    text ← unwrap res_body
    unwrap (decode_signup text)

module _ (decode_entry : String → Option (Option Entry)) where
  unfoldable pub ask : Index → World → Ran (Option Entry)
  unfolding postb
  ask index = do
    res_body ← postb "get" (of_index index)
    text ← unwrap res_body
    unwrap (decode_entry text)

  -- The inner `loop`. Every round uses up a send, so fuel above the script's length is never spent.
  unfoldable pub ask_until : ℕ → Index → World → Ran String
  ask_until zero index w = blocked
  ask_until (suc fuel) index w = elim (ask index w) [
    | done answer w' ↦ elim answer [
      | some entry ↦ done entry.value w'
      | none ↦ ask_until fuel index w'
    ]
    | panicked ↦ panicked
    | blocked ↦ blocked
  ]

  -- The outer loop, over the parties that are asked.
  unfoldable pub poll : (ℕ → TupleKey) → List ℕ → World → Ran (List String)
  unfolding ask_until ask
  poll key [] w = done [] w
  poll key (i ∷ is) w = elim (ask_until (suc (length w.script)) (record { key = key i }) w) [
    | done value w' ↦ elim (poll key is w') [
      | done values w'' ↦ done (value ∷ values) w''
      | panicked ↦ panicked
      | blocked ↦ blocked
    ]
    | panicked ↦ panicked
    | blocked ↦ blocked
  ]

  unfoldable pub poll_for_broadcasts : ℕ → ℕ → String → String → World → Ran (List String)
  unfolding poll
  poll_for_broadcasts party_num n round uuid =
      poll (λ i. message_key i round uuid "") (others party_num 1 n)

  unfoldable pub poll_for_p2p : ℕ → ℕ → String → String → World → Ran (List String)
  unfolding poll
  poll_for_p2p party_num n round uuid =
      poll (λ i. message_key i round uuid (to_string party_num)) (others party_num 1 n)
