-- ===== src/Mpt/Transport/Keys.antt =====
-- Different messages stand under different keys.
use vdexnode.Common.{ℕ, ◌≡◌, ap, String}
use vdexnode.Common.Decimal.RoundTrip.{to_string_injective}
use vdexnode.Mpt.Transport.{TupleKey, message_key}

-- Two message keys are one only if party, round, session and addressee are.
pub message_key_injective :
    (p q : ℕ) (r r' u u' t t' : String)
    → message_key p r u t ≡ message_key q r' u' t'
    → (p ≡ q) × (r ≡ r') × (u ≡ u') × (t ≡ t')
unfolding message_key
message_key_injective p q r r' u u' t t' e = (
  to_string_injective p q (ap (λ (k : TupleKey). k.first) e),
  ap (λ (k : TupleKey). k.second) e,
  ap (λ (k : TupleKey). k.third) e,
  ap (λ (k : TupleKey). k.fourth) e,
)
