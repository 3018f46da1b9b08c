-- ===== src/Mpt/Transport/Runs.antt =====
-- What a call of the message layer does on a script: it uses up the script, returns a value and
-- sets entries, whatever follows the script and whatever was requested before.
use mathlib.Core.List.{append_assoc, append-nil}
use vdexnode.Common.{
  ◌≡◌, refl, sym, ap, ◌∙◌, String, Bool, true, false, Option, some, List, [], ◌∷◌, ◌++◌,
}
use vdexnode.Common.Outcome.{Outcome, ok}
use vdexnode.Mpt.Transport.{
  World, Sent, failed, answered, Request, Body, of_key, of_index, of_entry, Entry, Ran, done, ◌>>=◌,
  unwrap, lift, postb,
}

-- The entries that a body, and a list of requests, set.
abbrev pub entry_of : Body → List Entry
entry_of (of_entry entry) = entry ∷ []
entry_of (of_key key) = []
entry_of (of_index index) = []

abbrev pub entries_set : List Request → List Entry
entries_set [] = []
entries_set (r ∷ rs) = entry_of r.body ++ entries_set rs

entries_set-append :
    (xs ys : List Request) → entries_set (xs ++ ys) ≡ entries_set xs ++ entries_set ys
entries_set-append [] ys = refl
entries_set-append (r ∷ xs) ys =
    ap (λ (es : List Entry). entry_of r.body ++ es) (entries_set-append xs ys)
    ∙ sym (append_assoc (entry_of r.body) (entries_set xs) (entries_set ys))

pub record Runs {A : Type 0} (m : World → Ran A) (script : List Sent) (a : A) (entries : List Entry)
    : Type 0 where
  pub at :
      (requests : List Request) (rest : List Sent)
      → (requests' : List Request) × (m (record { script = script ++ rest; requests = requests })
          ≡ done a (record { script = rest; requests = requests' }))
        × (entries_set requests' ≡ entries_set requests ++ entries)

pub Runs-script :
    {A : Type 0} {m : World → Ran A} {s t : List Sent} {a : A} {es : List Entry}
    → s ≡ t
    → Runs m s a es
    → Runs m t a es
Runs-script e h = rw (← e) h

pub Runs-same :
    {A : Type 0} {m : World → Ran A} {s : List Sent} {a b : A} {es : List Entry}
    → a ≡ b
    → Runs m s a es
    → Runs m s b es
Runs-same e h = rw (← e) h

module _ {A B : Type 0} {m : World → Ran A} (f : A → World → Ran B) {s t : List Sent} {a : A}
    {b : B} {es : List Entry} where
  -- One call after another.
  pub Runs-bind :
      {ds : List Entry} → Runs m s a es → Runs (f a) t b ds → Runs (m >>= f) (s ++ t) b (es ++ ds)
  Runs-bind {ds} h k = record {
    at = λ requests rest.
        let (rs₁, e₁, p₁) = h.at requests (t ++ rest) in
        let (rs₂, e₂, p₂) = k.at rs₁ rest in
        (
          rs₂,
          rw (append_assoc s t rest, e₁, ◌>>=◌) e₂,
          p₂ ∙ ap (λ (xs : List Entry). xs ++ ds) p₁ ∙ append_assoc (entries_set requests) es ds,
        );
  }

  -- A call before one that sets nothing.
  pub Runs-then : Runs m s a es → Runs (f a) t b [] → Runs (m >>= f) (s ++ t) b es
  Runs-then h k = record {
    at = λ requests rest.
        let (rs₁, e₁, p₁) = h.at requests (t ++ rest) in
        let (rs₂, e₂, p₂) = k.at rs₁ rest in
        (rs₂, rw (append_assoc s t rest, e₁, ◌>>=◌) e₂, p₂ ∙ append-nil (entries_set rs₁) ∙ p₁);
  }

module _ {A B : Type 0} (f : A → World → Ran B) {t : List Sent} {a : A} {b : B}
    {ds : List Entry} where
  -- A step that has its value at once.
  pub Runs-lift :
      {E : Type 0} {o : Outcome E A} → o ≡ ok a → Runs (f a) t b ds → Runs (lift o >>= f) t b ds
  Runs-lift e k = record {
    at = λ requests rest. let (rs', p, q) = k.at requests rest in (rs', rw e p, q);
  }

  pub Runs-unwrap : {o : Option A} → o ≡ some a → Runs (f a) t b ds → Runs (unwrap o >>= f) t b ds
  Runs-unwrap e k = record {
    at = λ requests rest. let (rs', p, q) = k.at requests rest in (rs', rw e p, q);
  }

pub Runs-done : {A : Type 0} (a : A) → Runs (λ w. done a w) [] a []
Runs-done a = record {
  at = λ requests rest. (requests, refl, sym (append-nil (entries_set requests)));
}

-- The same for a call at the end.
pub Runs-value : {E A : Type 0} {o : Outcome E A} {a : A} → o ≡ ok a → Runs (λ w. lift o w) [] a []
Runs-value e = record {
  at = λ requests rest. (requests, rw e refl, sym (append-nil (entries_set requests)));
}

-- A send that fails once or not at all, and is then answered; and what it sets.
abbrev pub answer_after : Bool → String → List Sent
answer_after true text = failed ∷ answered text ∷ []
answer_after false text = answered text ∷ []

abbrev pub copies : Bool → List Entry → List Entry
copies true entries = entries ++ entries
copies false entries = entries

postb-Runs :
    (b : Bool) (text path : String) (body : Body)
    → Runs (postb path body) (answer_after b text) (some text) (copies b (entry_of body))
unfolding postb
postb-Runs false text path body = record {
  at = λ requests rest.
      let r : Request = record { path = path; body = body } in
      (
        requests ++ (r ∷ []),
        refl,
        entries_set-append requests (r ∷ [])
            ∙ ap (λ (es : List Entry). entries_set requests ++ es) (append-nil (entry_of body)),
      );
}
postb-Runs true text path body = record {
  at = λ requests rest.
      let r : Request = record { path = path; body = body } in
      (
        (requests ++ (r ∷ [])) ++ (r ∷ []),
        refl,
        ap entries_set (append_assoc requests (r ∷ []) (r ∷ []))
            ∙ entries_set-append requests (r ∷ r ∷ [])
            ∙ ap (λ (es : List Entry). entries_set requests ++ (entry_of body ++ es))
                (append-nil (entry_of body)),
      );
}

-- A call that reads the answer to one message.
pub answered-Runs :
    {A : Type 0} (decode : String → Option A) (b : Bool) (text path : String) (body : Body) (a : A)
    → decode text ≡ some a
    → Runs
        (do o ← postb path body; t ← unwrap o; unwrap (decode t))
        (answer_after b text)
        a
        (copies b (entry_of body))
answered-Runs decode b text path body a e = record {
  at = λ requests rest.
      let (rs, p, q) = (postb-Runs b text path body).at requests rest in
      (rs, rw (p, ◌>>=◌, e) refl, q);
}
