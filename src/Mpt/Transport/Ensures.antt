-- ===== src/Mpt/Transport/Ensures.antt =====
-- What holds of the value of a call whenever it returns one, whatever answers it gets.
use vdexnode.Common.{◌≡◌, refl, Option, some}
use vdexnode.Common.Outcome.{Outcome, ok, err, panic}
use vdexnode.Mpt.Transport.{World, Ran, done, panicked, blocked, ◌>>=◌, lift, unwrap}

abbrev pub Holds : {A : Type 0} → (A → Type 0) → Ran A → Type 0
Holds P (done a w) = P a
Holds P panicked = Unit {0}
Holds P blocked = Unit {0}

pub record Ensures {A : Type 0} (m : World → Ran A) (P : A → Type 0) : Type 0 where
  pub at : (w : World) → Holds P (m w)

module _ {A B : Type 0} (P : B → Type 0) (f : A → World → Ran B) where
  after :
      (r : Ran A)
      → ((a : A) → Ensures (f a) P)
      → Holds P (elim r [ done a w' ↦ f a w' | panicked ↦ panicked | blocked ↦ blocked ])
  after (done a w) h = (h a).at w
  after panicked h = tt
  after blocked h = tt

  -- Nothing is known of the first call's value.
  pub Ensures-bind : (m : World → Ran A) → ((a : A) → Ensures (f a) P) → Ensures (m >>= f) P
  Ensures-bind m h = record { at = λ w. after (m w) h }

  given :
      (Q : A → Type 0) (r : Ran A)
      → Holds Q r
      → ((a : A) → Q a → Ensures (f a) P)
      → Holds P (elim r [ done a w' ↦ f a w' | panicked ↦ panicked | blocked ↦ blocked ])
  given Q (done a w) q h = (h a q).at w
  given Q panicked q h = tt
  given Q blocked q h = tt

  pub Ensures-given :
      (Q : A → Type 0) (m : World → Ran A)
      → Ensures m Q
      → ((a : A) → Q a → Ensures (f a) P)
      → Ensures (m >>= f) P
  Ensures-given Q m q h = record { at = λ w. given Q (m w) (q.at w) h }

  -- The first call has its value at once.
  pub Ensures-lift :
      {E : Type 0} (o : Outcome E A)
      → ((a : A) → o ≡ ok a → Ensures (f a) P)
      → Ensures (lift o >>= f) P
  Ensures-lift (ok a) h = record { at = λ w. (h a refl).at w }
  Ensures-lift (err e) h = record { at = λ w. tt }
  Ensures-lift panic h = record { at = λ w. tt }

  -- The first call has the value that is there.
  pub Ensures-unwrap :
      (o : Option A) (a : A) → o ≡ some a → Ensures (f a) P → Ensures (unwrap o >>= f) P
  Ensures-unwrap o a e h = rw e (record { at = λ w. h.at w })

pub Ensures-value :
    {E A : Type 0} (P : A → Type 0) (o : Outcome E A)
    → ((a : A) → o ≡ ok a → P a)
    → Ensures (λ w. lift o w) P
Ensures-value P (ok a) h = record { at = λ w. h a refl }
Ensures-value P (err e) h = record { at = λ w. tt }
Ensures-value P panic h = record { at = λ w. tt }

-- What holds of the value, of a run that ended with it.
pub Ensures-done :
    {A : Type 0} (P : A → Type 0) (m : World → Ran A) (w w' : World) (a : A)
    → Ensures m P
    → m w ≡ done a w'
    → P a
Ensures-done P m w w' a h e = of_run (m w) e (h.at w)
  where
    of_run : (r : Ran _) → r ≡ done a w' → Holds P r → P a
    of_run r e v = rw e at v
