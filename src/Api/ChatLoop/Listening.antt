-- ===== src/Api/ChatLoop/Listening.antt =====
-- Which rooms the chat thread listens to.
use vdexnode.Common.{
  ℕ, ◌≡◌, refl, sym, ap, ◌∙◌, String, Bool, true, false, Option, none, some, List, [], ◌∷◌, ◌++◌,
  ==_iff, eq_iff, if◌then◌else◌, arith, Bool-cases, inl, inr,
}
use vdexnode.Api.Handler.{ChatEvent, joined, left}
use vdexnode.Api.ChatLoop.{Listener, Tokens, same, find, forget, Loop, handle_event, handle_events}

abbrev pub is_some : {A : Type 0} → Option A → Bool
is_some none = false
is_some (some a) = true

module _ (net : Listener) where
  -- The history alone: a reader's room is open from its join until it leaves.
  abbrev pub open_after : ℕ × String → Bool → List ChatEvent → Bool
  open_after key before [] = before
  open_after key before (joined id room ∷ events) =
      open_after key (if same net (id, room) key then true else before) events
  open_after key before (left id room ∷ events) =
      open_after key (if same net (id, room) key then false else before) events

  pub same_trans : (a b x : ℕ × String) → same net a b ≡ true → same net a x ≡ same net b x
  same_trans a b x h =
      ground (arith, eq_iff a.1 b.1, eq_iff a.1 x.1, eq_iff b.1 x.1, ==_iff a.0 b.0)

  pub same_comm : (a b : ℕ × String) → same net a b ≡ same net b a
  same_comm a b = ground (arith, eq_iff a.1 b.1, eq_iff b.1 a.1)

  pub find-forget :
      (key query : ℕ × String) (tokens : Tokens net)
      → find net query (forget net key tokens)
        ≡ (if same net key query then none else find net query tokens)
  unfolding find forget
  find-forget key query [] = ground arith
  find-forget key query ((here, token) ∷ tokens) = elim (Bool-cases (same net here key)) [
    | inl t ↦
        rw (t, find-forget key query tokens, same_trans here key query t)
          (again (same net key query) (find net query tokens))
    | inr f ↦ elim (Bool-cases (same net key query)) [
      | inl k ↦
          let other : same net here query ≡ false =
            same_comm here query ∙ sym (same_trans key query here k) ∙ same_comm key here ∙ f in
          rw (f, k, other, find-forget key query tokens, k) refl
      | inr k ↦ rw (f, k, find-forget key query tokens, k) refl
    ]
  ]
    where
      again :
          (b : Bool) (o : Option net.Token)
          → (if b then none else o) ≡ (if b then none else (if b then some token else o))
      again true o = refl
      again false o = refl

  pub find-same :
      (a b : ℕ × String) (tokens : Tokens net)
      → same net a b ≡ true
      → find net a tokens ≡ find net b tokens
  unfolding find
  find-same a b [] h = refl
  find-same a b ((here, token) ∷ tokens) h =
      let e : same net here a ≡ same net here b =
        same_comm here a ∙ same_trans a b here h ∙ same_comm b here in
      rw (e, find-same a b tokens h) refl

  after_join :
      (b : Bool) (token : net.Token) (o : Option net.Token)
      → is_some (if b then some token else (if b then none else o))
        ≡ (if b then true else is_some o)
  after_join true token o = refl
  after_join false token o = refl

  after_leave :
      (b : Bool) (o : Option net.Token)
      → is_some (if b then none else o) ≡ (if b then false else is_some o)
  after_leave true o = refl
  after_leave false o = refl

  -- An event changes a reader's room as the history says.
  handled :
      (key : ℕ × String) (event : ChatEvent) (l : Loop net)
      → is_some (find net key (handle_event net event l).tokens)
        ≡ open_after key (is_some (find net key l.tokens)) (event ∷ [])
  unfolding handle_event find
  handled key (joined id room) l =
      rw (find-forget (id, room) key l.tokens)
        (after_join (same net (id, room) key) _ (find net key l.tokens))
  handled key (left id room) l = leave (find net (id, room) l.tokens) refl
    where
      nobody :
          (b : Bool)
          → same net (id, room) key ≡ b
          → find net (id, room) l.tokens ≡ none
          → is_some (find net key l.tokens) ≡ (if b then false else is_some (find net key l.tokens))
      nobody true h e = ap is_some (sym (find-same (id, room) key l.tokens h) ∙ e)
      nobody false h e = refl

      leave :
          (o : Option net.Token)
          → find net (id, room) l.tokens ≡ o
          → is_some (find net key (handle_event net (left id room) l).tokens)
            ≡ (if same net (id, room) key then false else is_some (find net key l.tokens))
      leave none e = rw (e, handle_event) (nobody (same net (id, room) key) refl e)
      leave (some token) e =
          rw (e, handle_event, find-forget (id, room) key l.tokens)
            (after_leave (same net (id, room) key) (find net key l.tokens))

  pub handled_all :
      (key : ℕ × String) (events : List ChatEvent) (l : Loop net)
      → is_some (find net key (handle_events net events l).tokens)
        ≡ open_after key (is_some (find net key l.tokens)) events
  unfolding handle_events
  handled_all key [] l = refl
  handled_all key (event ∷ events) l =
      handled_all key events (handle_event net event l)
      ∙ ap (λ (b : Bool). open_after key b events) (handled key event l)
      ∙ once event
    where
      once :
          (e : ChatEvent)
          → open_after key (open_after key (is_some (find net key l.tokens)) (e ∷ [])) events
            ≡ open_after key (is_some (find net key l.tokens)) (e ∷ events)
      once (joined id room) = refl
      once (left id room) = refl

  abbrev pub concat : List (List ChatEvent) → List ChatEvent
  concat [] = []
  concat (new ∷ later) = new ++ concat later

  pub open_after-append :
      (key : ℕ × String) (xs ys : List ChatEvent) (b : Bool)
      → open_after key b (xs ++ ys) ≡ open_after key (open_after key b xs) ys
  open_after-append key [] ys b = refl
  open_after-append key (joined id room ∷ xs) ys b = open_after-append key xs ys _
  open_after-append key (left id room ∷ xs) ys b = open_after-append key xs ys _
