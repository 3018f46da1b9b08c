-- ===== src/Tests/ChatLoop.antt =====
-- Two readers of one room, one of whom leaves in a later round.
use vdexnode.Common.{
  ◌<◌, arith, ℕ, ◌≡◌, refl, String, Option, none, some, List, [], ◌∷◌, ◌⊎◌, inl, inr, length,
}
use vdexnode.Api.Handler.{ChatEvent, joined, left}
use vdexnode.Api.ChatLoop.{Listener, Loop, find, handle_event, rounds_of}
use vdexnode.Api.ChatLoop.Listening.{is_some, open_after, concat}
use vdexnode.Api.ChatLoop.Kept.{IsListening, Kept, NoRejoin}
use vdexnode.Api.ChatLoop.Rounds.{rounds_open}

-- A network that remembers what was asked of it. The token of a listening is its position.
data Step : Type 0 where
  listened : String → ℕ → Step
  cancelled : String → ℕ → Step

abbrev net : Listener
net = record {
  State = List Step;
  Hash = String;
  Token = ℕ;
  hash_get = λ room. room;
  listen = λ hash reader s. (length s, listened hash reader ∷ s);
  cancel_listen = λ hash token s. cancelled hash token ∷ s;
}

abbrev Tells : List Step → String → ℕ → ℕ → Type 0
Tells [] k t j = ⊥
Tells (listened h id ∷ s) k t j = ((k ≡ h) × (t ≡ length s) × (j ≡ id)) ⊎ Tells s k t j
Tells (cancelled h u ∷ s) k t j = Tells s k t j × (k ≡ h → t ≡ u → ⊥)

Tells-older : (s : List Step) (k : String) (t j : ℕ) → Tells s k t j → t < length s
Tells-older [] k t j told = absurd told
Tells-older (listened h id ∷ s) k t j (inl (ek, et, ej)) = omega arith
Tells-older (listened h id ∷ s) k t j (inr before) =
    let older = Tells-older s k t j before in omega arith
Tells-older (cancelled h u ∷ s) k t j (before, other) =
    let older = Tells-older s k t j before in omega arith

net-IsListening : IsListening net
net-IsListening = record {
  listens = Tells;
  listen-only = λ h k id j t s told. told;
  listen-new = λ h id s. inl (refl, refl, refl);
  listen-old = λ h k id j t s told. inr told;
  listen-fresh =
      λ h id j s told. let older = Tells-older s h (length s) j told in absurd (omega arith);
  cancel_listen-only = λ h k u t j s told. told;
  cancel_listen-other = λ h k u t j s told other. (told, other);
}

abbrev start : Loop net
start = record { tokens = []; dht = [] }

nothing_found : {A : Type 0} {a : A} → ◌≡◌ {A = Option A} none (some a) → ⊥
nothing_found e = cc

start-Kept : Kept net net-IsListening start
unfolding find net-IsListening
start-Kept = record {
  only = λ k t j told. absurd told;
  each = λ j room t found. absurd (nothing_found found);
  apart = λ a b t fa fb eh. absurd (nothing_found fa);
}

abbrev batches : List (List ChatEvent)
batches = (joined 1 "r" ∷ joined 2 "r" ∷ []) ∷ [] ∷ (left 1 "r" ∷ left 3 "r" ∷ []) ∷ []

no_rejoin : NoRejoin net net-IsListening (concat net batches) start
unfolding handle_event find
no_rejoin = (refl, (refl, tt))

rounds_open_example :
    let end = rounds_of net batches ([], start) in
    (end.0 ≡ [])
    × ((key : ℕ × String)
        → is_some (find net key end.1.tokens)
          ≡ open_after net key (is_some (find net key [])) (concat net batches))
    × Kept net net-IsListening end.1
rounds_open_example = rounds_open net net-IsListening batches start no_rejoin start-Kept

one_is_cancelled :
    (rounds_of net batches ([], start)).1.dht
    ≡ cancelled "r" 0 ∷ listened "r" 2 ∷ listened "r" 1 ∷ []
unfolding rounds_of
one_is_cancelled = refl
