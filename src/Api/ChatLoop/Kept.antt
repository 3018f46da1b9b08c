-- ===== src/Api/ChatLoop/Kept.antt =====
-- Which listenings the chat thread keeps with the DHT: those of its readers, and no others.
use vdexnode.Common.{
  ℕ, ◌≡◌, refl, sym, ap, ◌∙◌, String, Bool, true, false, Option, none, some, List, [], ◌∷◌, ==_iff,
  eq_iff, if◌then◌else◌, arith, Bool-cases, inl, inr, ◌⊎◌,
}
use vdexnode.Api.Handler.{ChatEvent, joined, left}
use vdexnode.Api.ChatLoop.{Listener, Tokens, same, find, forget, Loop, handle_event}
use vdexnode.Api.ChatLoop.Listening.{find-forget, find-same}

-- What opendht documents of listenings: `listens s k t j` says that in the state `s` the values put
-- under `k` are told to the reader `j`, by a listening with the token `t`. To listen adds one, with
-- a token that no other listening under the key has, and to cancel ends the one with this token.
pub record IsListening (net : Listener) : Type 1 where
  pub listens : net.State → net.Hash → net.Token → ℕ → Type 0
  pub listen-only :
      (h k : net.Hash) (id j : ℕ) (t : net.Token) (s : net.State)
      → listens (net.listen h id s).1 k t j
      → ((k ≡ h) × (t ≡ (net.listen h id s).0) × (j ≡ id)) ⊎ listens s k t j
  pub listen-new :
      (h : net.Hash) (id : ℕ) (s : net.State)
      → listens (net.listen h id s).1 h (net.listen h id s).0 id
  pub listen-old :
      (h k : net.Hash) (id j : ℕ) (t : net.Token) (s : net.State)
      → listens s k t j
      → listens (net.listen h id s).1 k t j
  pub listen-fresh :
      (h : net.Hash) (id j : ℕ) (s : net.State) → listens s h (net.listen h id s).0 j → ⊥
  pub cancel_listen-only :
      (h k : net.Hash) (u t : net.Token) (j : ℕ) (s : net.State)
      → listens (net.cancel_listen h u s) k t j
      → listens s k t j × (k ≡ h → t ≡ u → ⊥)
  pub cancel_listen-other :
      (h k : net.Hash) (u t : net.Token) (j : ℕ) (s : net.State)
      → listens s k t j
      → (k ≡ h → t ≡ u → ⊥)
      → listens (net.cancel_listen h u s) k t j

pub some_inj : {A : Type 0} {a b : A} → some a ≡ some b → a ≡ b
some_inj {a = a} e = ap (λ o. elim o [ none ↦ a | some c ↦ c ]) e

module _ (net : Listener) (laws : IsListening net) where
  -- The listenings are those of the readers that have a token, each for the room of its reader and
  -- with its token, and no two of them share a token.
  pub record Kept (l : Loop net) : Type 0 where
    pub only :
        (k : net.Hash) (t : net.Token) (j : ℕ)
        → laws.listens l.dht k t j
        → (room : String) × (net.hash_get room ≡ k) × (find net (j, room) l.tokens ≡ some t)
    pub each :
        (j : ℕ) (room : String) (t : net.Token)
        → find net (j, room) l.tokens ≡ some t
        → laws.listens l.dht (net.hash_get room) t j
    pub apart :
        (a b : ℕ × String) (t : net.Token)
        → find net a l.tokens ≡ some t
        → find net b l.tokens ≡ some t
        → net.hash_get a.1 ≡ net.hash_get b.1
        → same net a b ≡ true

  -- Nobody joins who has joined already and not left.
  abbrev pub NoRejoin : List ChatEvent → Loop net → Type 0
  NoRejoin [] l = Unit
  NoRejoin (joined id room ∷ events) l =
      (find net (id, room) l.tokens ≡ none) × NoRejoin events (handle_event net (joined id room) l)
  NoRejoin (left id room ∷ events) l = NoRejoin events (handle_event net (left id room) l)

  same_refl : (a : ℕ × String) → same net a a ≡ true
  same_refl a = ground (arith, eq_iff a.1 a.1, ==_iff a.0 a.0)

  pub same-eq : (a b : ℕ × String) → same net a b ≡ true → (a.0 ≡ b.0) × (a.1 ≡ b.1)
  same-eq a b h = ground (arith, eq_iff a.1 b.1, ==_iff a.0 b.0)

  -- What is found after a token was put in, or taken out.
  abbrev pub after : ℕ × String → net.Token → Tokens net → Tokens net
  after key token tokens = (key, token) ∷ forget net key tokens

  pub clash : {b : Bool} → b ≡ true → b ≡ false → ⊥
  clash t f = cc

  none_clash : {A : Type 0} {o : Option A} {a : A} → o ≡ none → o ≡ some a → ⊥
  none_clash n s = cc

  pub different :
      (a b : ℕ × String) (tokens : Tokens net) (t : net.Token)
      → find net a tokens ≡ none
      → find net b tokens ≡ some t
      → same net a b ≡ false
  different a b tokens t absent found = elim (Bool-cases (same net a b)) [
    | inl s ↦ absurd (none_clash (sym (find-same net a b tokens s) ∙ absent) found)
    | inr f ↦ f
  ]

  pub find-forgot :
      (key b : ℕ × String) (tokens : Tokens net) (t : net.Token)
      → find net b (forget net key tokens) ≡ some t
      → (same net key b ≡ false) × (find net b tokens ≡ some t)
  find-forgot key b tokens t e =
      by_test (same net key b) (find net b tokens) (sym (find-forget net key b tokens) ∙ e)
    where
      by_test :
          (c : Bool) (o : Option net.Token)
          → (if c then none else o) ≡ some t
          → (c ≡ false) × (o ≡ some t)
      by_test true o h = absurd (none_clash refl h)
      by_test false o h = (refl, h)

  pub find-left :
      (key b : ℕ × String) (tokens : Tokens net) (t : net.Token)
      → same net key b ≡ false
      → find net b tokens ≡ some t
      → find net b (forget net key tokens) ≡ some t
  find-left key b tokens t f e = rw (find-forget net key b tokens, f) e

  pub find-own :
      (key : ℕ × String) (token : net.Token) (tokens : Tokens net)
      → find net key (after key token tokens) ≡ some token
  unfolding find
  find-own key token tokens = rw (same_refl key) refl

  pub find-stays :
      (key b : ℕ × String) (token : net.Token) (tokens : Tokens net) (t : net.Token)
      → same net key b ≡ false
      → find net b tokens ≡ some t
      → find net b (after key token tokens) ≡ some t
  unfolding find
  find-stays key b token tokens t f e = rw f (find-left key b tokens t f e)

  pub find-joined :
      (key b : ℕ × String) (token : net.Token) (tokens : Tokens net) (t : net.Token)
      → find net b (after key token tokens) ≡ some t
      → ((same net key b ≡ true) × (token ≡ t)) ⊎ (find net b tokens ≡ some t)
  unfolding find
  find-joined key b token tokens t e =
      by_test (same net key b) (λ h. (find-forgot key b tokens t h).1) e
    where
      by_test :
          (c : Bool)
          → (find net b (forget net key tokens) ≡ some t → find net b tokens ≡ some t)
          → (if c then some token else find net b (forget net key tokens)) ≡ some t
          → ((c ≡ true) × (token ≡ t)) ⊎ (find net b tokens ≡ some t)
      by_test true before h = inl (refl, some_inj h)
      by_test false before h = inr (before h)
