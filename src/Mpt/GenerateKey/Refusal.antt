-- ===== src/Mpt/GenerateKey/Refusal.antt =====
-- When vDexNode/mpt/src/bin/generate_key.rs gives up before it has sent anything.
use vdexnode.Common.{◌≡◌, refl, String, Option, none, List, [], ◌∷◌, length, ◌⊎◌, inl, inr, ◌≢◌}
use vdexnode.Common.Outcome.{Outcome, ok, err, panic}
use vdexnode.Mpt.Crypto.{Crypto}
use vdexnode.Mpt.Transport.{World, Ran, panicked, ◌>>=◌, lift}
use vdexnode.Mpt.Program.{Server, check_args, read_params}
use vdexnode.Mpt.Sealing.{Aead}
use vdexnode.Mpt.GenerateKey.{Draws, Wire, main}

check_args_refuses : (args : List String) → length args ≢ 3 → check_args 2 args ≡ panic
unfolding check_args
check_args_refuses [] h = refl
check_args_refuses (a ∷ []) h = refl
check_args_refuses (a ∷ b ∷ []) h = refl
check_args_refuses (a ∷ b ∷ x ∷ []) h = absurd (h refl)
check_args_refuses (a ∷ b ∷ x ∷ y ∷ args) h = refl

-- What panics behind a step that has its value at once, panics with it.
lift-panics :
    {A B : Type 0} (o : Outcome ⊥ A) (f : A → World → Ran B) (w : World)
    → ((a : A) → f a w ≡ panicked)
    → (lift o >>= f) w ≡ panicked
lift-panics (ok a) f w h = h a
lift-panics (err e) f w h = elim e [ ]
lift-panics panic f w h = refl

-- Without exactly the program's name and two arguments, or without a readable config/server.conf,
-- the program panics, whatever the server would answer.
pub main_refuses :
    (c : Crypto) (srv : Server) (aead : Aead) (wire : Wire c) (args : List String)
    (config : Option String) (draws : Draws c) (w : World)
    → (length args ≢ 3) ⊎ (config ≡ none)
    → main c srv aead wire args config draws w ≡ panicked
unfolding main read_params
main_refuses c srv aead wire args config draws w (inl h) = rw (check_args_refuses args h) refl
main_refuses c srv aead wire args config draws w (inr h) =
    lift-panics (check_args 2 args) _ w (λ u. rw h refl)
