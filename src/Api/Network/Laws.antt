-- ===== src/Api/Network/Laws.antt =====
-- What the documentation of those libraries promises.
use vdexnode.Common.{String, Bool, some, ◌≡◌, ◌⊎◌, All}
use vdexnode.Mpt.Transport.{PartySignup}
use vdexnode.Api.Network.{Network}

module _ (n : Network) where
  open n use {
    State, Hash, Value, value_new, value_text, put_signed, get_values, signup_to_string,
    signup_from_str,
  }

  -- opendht: what `get` finds under a hash was put under it. Nothing is said of when a value that
  -- was put is found, for how long, or in what order; `Put` is what has been put so far.
  pub record IsStore : Type 1 where
    pub Put : State → Hash → Value → Type 0
    pub get_values-Put : (h : Hash) (s : State) → All (Put s h) (get_values h s)
    pub put_signed-Put :
        (h k : Hash) (v w : Value) (permanent : Bool) (s : State)
        → Put (put_signed h v permanent s) k w
        → ((h ≡ k) × (v ≡ w)) ⊎ Put s k w
    pub put_signed-new :
        (h : Hash) (v : Value) (permanent : Bool) (s : State) → Put (put_signed h v permanent s) h v
    pub value_text-value_new : (s : String) → value_text (value_new s) ≡ some s

  pub record IsSerialised : Type 0 where
    pub signup_from_str-signup_to_string :
        (p : PartySignup) → signup_from_str (signup_to_string p) ≡ some p
