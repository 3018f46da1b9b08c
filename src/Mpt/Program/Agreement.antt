-- ===== src/Mpt/Program/Agreement.antt =====
-- The messages of one session: under one key there is one message.
use vdexnode.Common.{ℕ, ◌≡◌, refl, sym, ap, ◌∙◌, String, Bool, true, false, [], ◌∷◌, All}
use vdexnode.Mpt.Transport.{Entry, message_key}
use vdexnode.Mpt.Transport.Keys.{message_key_injective}
use vdexnode.Mpt.Transport.Runs.{copies}
use vdexnode.Mpt.Program.{Server}
use vdexnode.Mpt.Program.Scripts.{IsServer, Delays, message, posted}

-- What is set twice is set once.
pub All-copies : (P : Entry → Type 0) (b : Bool) (e : Entry) → P e → All P (copies b (e ∷ []))
All-copies P true e p = (p, (p, tt))
All-copies P false e p = (p, tt)

-- `value from round to` is the text that party `from` has for round and addressee.
module _ (uuid : String) (value : ℕ → String → String → String) where
  pub record Message (e : Entry) : Type 0 where
    pub from : ℕ
    pub round : String
    pub to : String
    pub is : e ≡ record { key = message_key from round uuid to; value = value from round to }

  -- Messages with one key are one.
  pub Message-agree : (e e' : Entry) → Message e → Message e' → e.key ≡ e'.key → e ≡ e'
  Message-agree e e' m m' k =
      let here : e.key ≡ message_key m.from m.round uuid m.to = ap (λ (x : Entry). x.key) m.is in
      let there : e'.key ≡ message_key m'.from m'.round uuid m'.to =
        ap (λ (x : Entry). x.key) m'.is in
      let (a, b, _, d) =
        message_key_injective m.from m'.from m.round m'.round uuid uuid m.to m'.to
          (sym here ∙ k ∙ there) in
      m.is ∙ rw (a, b, d) refl ∙ sym m'.is

  pub Message-session : (e : Entry) → Message e → e.key.third ≡ uuid
  unfolding message_key
  Message-session e m = ap (λ (x : Entry). x.key.third) m.is

  module _ {srv : Server} (s : IsServer srv) (d : Delays) (me n : ℕ) where
    pub message-Message :
        (to round text : String)
        → value me round to ≡ text
        → Message (message s d me n uuid me to round text)
    message-Message to round text e = record {
      from = me;
      round = round;
      to = to;
      is = ap (λ (t : String). record { key = message_key me round uuid to; value = t }) (sym e);
    }

    pub posted-Message :
        (round text : String)
        → value me round "" ≡ text
        → All Message (posted s d me n uuid round text)
    posted-Message round text e =
        All-copies Message (d.sends round 0) (message s d me n uuid me "" round text)
          (message-Message "" round text e)
