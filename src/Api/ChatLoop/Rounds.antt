-- ===== src/Api/ChatLoop/Rounds.antt =====
-- The rounds of the chat loop: what they take, which readers they keep, and which listenings.
use vdexnode.Common.{
  ℕ, ◌≡◌, refl, sym, ap, ◌∙◌, String, Bool, true, Option, none, some, List, [], ◌∷◌, ◌++◌,
  Bool-cases, inl, inr,
}
use vdexnode.Api.Handler.{ChatEvent, joined, left}
use vdexnode.Api.ChatLoop.{
  Listener, same, find, Loop, handle_event, handle_events, round, rounds_of,
}
use vdexnode.Api.ChatLoop.Listening.{
  is_some, open_after, open_after-append, handled_all, find-same, same_trans, concat,
}
use vdexnode.Api.ChatLoop.Kept.{
  IsListening, Kept, NoRejoin, after, clash, different, find-forgot, find-left, find-own,
  find-stays, find-joined, same-eq, some_inj,
}

module _ (net : Listener) (laws : IsListening net) where
  abbrev new_token : ℕ → String → Loop net → net.Token
  new_token id room l = (net.listen (net.hash_get room) id l.dht).0

  Kept-joined :
      (id : ℕ) (room : String) (l : Loop net)
      → find net (id, room) l.tokens ≡ none
      → Kept net laws l
      → Kept net laws (handle_event net (joined id room) l)
  unfolding handle_event
  Kept-joined id room l absent kept = record {
    only = λ k t j h. elim (laws.listen-only (net.hash_get room) k id j t l.dht h) [
      | inl (ek, et, ej) ↦ (
        room,
        sym ek,
        ap
              (λ (i : ℕ).
                find net (i, room) (after net laws (id, room) (new_token id room l) l.tokens))
              ej
            ∙ find-own net laws (id, room) (new_token id room l) l.tokens
            ∙ ap some (sym et),
      )
      | inr before ↦
          let (r, er, found) = kept.only k t j before in
          (
            r,
            er,
            find-stays net laws (id, room) (j, r) (new_token id room l) l.tokens t
                (different net laws (id, room) (j, r) l.tokens t absent found) found,
          )
    ];
    each = λ j r t found.
        elim (find-joined net laws (id, room) (j, r) (new_token id room l) l.tokens t found) [
          | inl (s, et) ↦
              let (ej, er) = same-eq net laws (id, room) (j, r) s in
              rw (sym ej, sym er, sym et) (laws.listen-new (net.hash_get room) id l.dht)
          | inr before ↦
              laws.listen-old (net.hash_get room) (net.hash_get r) id j t l.dht
                (kept.each j r t before)
        ];
    apart = λ a b t fa fb eh.
        elim (find-joined net laws (id, room) a (new_token id room l) l.tokens t fa) [
          | inl (sa, et) ↦
              elim (find-joined net laws (id, room) b (new_token id room l) l.tokens t fb) [
                | inl (sb, eb) ↦ sym (same_trans net (id, room) a b sa) ∙ sb
                | inr before ↦ absurd (taken_twice a b t sa et before eh)
              ]
          | inr before ↦
              elim (find-joined net laws (id, room) b (new_token id room l) l.tokens t fb) [
                | inl (sb, et) ↦ absurd (taken_twice b a t sb et before (sym eh))
                | inr both ↦ kept.apart a b t before both eh
              ]
        ];
  }
    where
      taken_twice :
          (a b : ℕ × String) (t : net.Token)
          → same net (id, room) a ≡ true
          → (new_token id room l) ≡ t
          → find net b l.tokens ≡ some t
          → net.hash_get a.1 ≡ net.hash_get b.1
          → ⊥
      taken_twice a b t sa et found eh =
          laws.listen-fresh (net.hash_get room) id b.0 l.dht
            (rw (et, (same-eq net laws (id, room) a sa).1, eh) (kept.each b.0 b.1 t found))

  Kept-left :
      (id : ℕ) (room : String) (l : Loop net)
      → Kept net laws l
      → Kept net laws (handle_event net (left id room) l)
  unfolding handle_event
  Kept-left id room l kept = leave (find net (id, room) l.tokens) refl
    where
      leave :
          (o : Option net.Token)
          → find net (id, room) l.tokens ≡ o
          → Kept net laws (handle_event net (left id room) l)
      leave none e = rw (e, handle_event) kept
      leave (some u) e =
          rw (e, handle_event)
            (record {
              only = λ k t j h.
                  let (before, other) =
                    laws.cancel_listen-only (net.hash_get room) k u t j l.dht h in
                  let (r, er, found) = kept.only k t j before in
                  (
                    r,
                    er,
                    find-left net laws (id, room) (j, r) l.tokens t
                        (elim (Bool-cases (same net (id, room) (j, r))) [
                          | inl s ↦ absurd (
                              other
                                (sym er
                                  ∙ ap net.hash_get (sym (same-eq net laws (id, room) (j, r) s).1))
                                (some_inj (
                                  sym found
                                  ∙ sym (find-same net (id, room) (j, r) l.tokens s)
                                  ∙ e)))
                          | inr f ↦ f
                        ])
                        found,
                  );
              each = λ j r t found.
                  let (other, before) = find-forgot net laws (id, room) (j, r) l.tokens t found in
                  laws.cancel_listen-other (net.hash_get room) (net.hash_get r) u t j l.dht
                    (kept.each j r t before)
                    (λ ek et.
                      clash net laws
                        (kept.apart (id, room) (j, r) t (e ∙ ap some (sym et)) before (sym ek))
                        other);
              apart = λ a b t fa fb eh.
                  kept.apart a b t (find-forgot net laws (id, room) a l.tokens t fa).1
                    (find-forgot net laws (id, room) b l.tokens t fb).1 eh;
            })

  Kept-handle_events :
      (events : List ChatEvent) (l : Loop net)
      → NoRejoin net laws events l
      → Kept net laws l
      → Kept net laws (handle_events net events l)
  unfolding handle_events
  Kept-handle_events [] l once kept = kept
  Kept-handle_events (joined id room ∷ events) l (absent, once) kept =
      Kept-handle_events events (handle_event net (joined id room) l) once
        (Kept-joined id room l absent kept)
  Kept-handle_events (left id room ∷ events) l once kept =
      Kept-handle_events events (handle_event net (left id room) l) once (Kept-left id room l kept)

  NoRejoin-append :
      (xs ys : List ChatEvent) (l : Loop net)
      → NoRejoin net laws (xs ++ ys) l
      → NoRejoin net laws xs l × NoRejoin net laws ys (handle_events net xs l)
  unfolding handle_events
  NoRejoin-append [] ys l once = (tt, once)
  NoRejoin-append (joined id room ∷ xs) ys l (absent, once) =
      let (first, second) = NoRejoin-append xs ys (handle_event net (joined id room) l) once in
      ((absent, first), second)
  NoRejoin-append (left id room ∷ xs) ys l once =
      NoRejoin-append xs ys (handle_event net (left id room) l) once

  -- However the handler's events fall among the rounds of the loop, if nobody joins who has joined
  -- already and not left: at the end all events have been taken, a token is kept for just those
  -- readers of a room that have joined and not left since, or had one before and have not left, and
  -- if it was so before, the DHT tells values to just these readers, each those of its own room, by
  -- the listening with the reader's token.
  pub rounds_open :
      (batches : List (List ChatEvent)) (l : Loop net)
      → NoRejoin net laws (concat net batches) l
      → Kept net laws l
      → let end = rounds_of net batches ([], l) in
        (end.0 ≡ [])
        × ((key : ℕ × String)
            → is_some (find net key end.1.tokens)
              ≡ open_after net key (is_some (find net key l.tokens)) (concat net batches))
        × Kept net laws end.1
  unfolding rounds_of round
  rounds_open [] l once kept = (refl, (λ key. refl), kept)
  rounds_open (new ∷ later) l once kept =
      let (first, second) = NoRejoin-append new (concat net later) l once in
      let (taken, are_open, still) =
        rounds_open later (handle_events net new l) second (Kept-handle_events new l first kept) in
      (
        taken,
        (λ key.
            are_open key
            ∙ ap (λ (b : Bool). open_after net key b (concat net later)) (handled_all net key new l)
            ∙ sym (
                open_after-append net key new (concat net later)
                  (is_some (find net key l.tokens)))),
        still,
      )
