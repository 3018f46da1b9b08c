-- ===== src/Api/Startup/Address.antt =====
-- What a node reads of the address of its bootstrap node.
use Prim.Native.Char.{Char, code}
use Prim.Native.String.{String, [], ◌∷◌, ◌++◌}
use Prim.Native.String.append
use vdexnode.Common.{
  is_empty, ℕ, zero, suc, ◌/◌, ◌%◌, ◌^◌, ◌<◌, ◌≡◌, refl, sym, ap, ◌∙◌, Bool, true, false, not, ◌&&◌,
  none, some, ◌==◌, ltb, arith, Bool-cases, inl, inr,
}
use vdexnode.Common.Decimal.{digit, show, to_string, parse}
use vdexnode.Common.Decimal.RoundTrip.{code-digit, parse-to_string}
use vdexnode.Api.Startup.Bootstrap.{rsplit, service, default_port}

abbrev pub lacks_colon : String → Bool
lacks_colon [] = true
lacks_colon (c ∷ s) = not (code c == b':') && lacks_colon s

digit_lacks : (d : ℕ) → d < 10 → (code (digit d) == b':') ≡ false
digit_lacks d h = rw (code-digit d h) (ground arith)

show_lacks : (fuel n : ℕ) (s : String) → lacks_colon (show fuel n s) ≡ lacks_colon s
unfolding show
show_lacks zero n s = refl
show_lacks (suc fuel) n s = elim (Bool-cases (ltb n 10)) [
  | inl small ↦ rw (small, digit_lacks n (ground arith)) refl
  | inr large ↦
      rw (large, show_lacks fuel (n / 10) (digit (n % 10) ∷ s), digit_lacks (n % 10) (omega arith))
        refl
]

rsplit-none : (s : String) → lacks_colon s ≡ true → rsplit s ≡ none
unfolding rsplit
rsplit-none [] h = refl
rsplit-none (c ∷ s) h = elim (Bool-cases (code c == b':')) [
  | inl t ↦ absurd (clash (sym h ∙ rw t refl))
  | inr f ↦ rw (rsplit-none s (ground arith), f) refl
]
  where
    clash : true ≡ false → ⊥
    clash e = cc

rsplit-colon : (port : String) → lacks_colon port ≡ true → rsplit (":" ++ port) ≡ some ("", port)
unfolding rsplit
rsplit-colon port h =
    let colon : Char = ":" in
    rw
      (
        append.cons colon "" port ∙ ap (λ t. colon ∷ t) (append.nil port),
        rsplit,
        rsplit-none port h,
      )
      refl

rsplit-append :
    (host port : String)
    → lacks_colon port ≡ true
    → rsplit (host ++ (":" ++ port)) ≡ some (host, port)
unfolding rsplit
rsplit-append [] port h = rw (append.nil (":" ++ port)) (rsplit-colon port h)
rsplit-append (c ∷ host) port h =
    rw (append.cons c host (":" ++ port), rsplit, rsplit-append host port h) refl

to_string_lacks : (n : ℕ) → lacks_colon (to_string n) ≡ true
unfolding to_string
to_string_lacks n = show_lacks (suc n) n []

-- How `service` reads, given what the cut at the last colon gives.
service-cut :
    (bootstrap host port : String) (n : ℕ)
    → rsplit bootstrap ≡ some (host, port)
    → parse (2 ^ 16) port ≡ some n
    → service bootstrap ≡ (host, n)
unfolding service
service-cut bootstrap host port n cut reads = rw (service, cut, reads) refl

service-uncut :
    (bootstrap : String) → rsplit bootstrap ≡ none → service bootstrap ≡ (bootstrap, default_port)
unfolding service
service-uncut bootstrap cut = rw (service, cut) refl

pub service_port :
    (host : String) (port : ℕ)
    → port < 2 ^ 16
    → service (host ++ (":" ++ to_string port)) ≡ (host, port)
service_port host port h =
    service-cut (host ++ (":" ++ to_string port)) host (to_string port) port
      (rsplit-append host (to_string port) (to_string_lacks port)) (parse-to_string (2 ^ 16) port h)

-- There is a colon in such an address.
pub address_filled : (host port : String) → is_empty (host ++ (":" ++ port)) ≡ false
address_filled [] port =
    let colon : Char = ":" in rw (append.nil (":" ++ port), append.cons colon "" port) refl
address_filled (c ∷ host) port = rw (append.cons c host (":" ++ port)) refl

-- An address made of a host and a port is read back, for any host, one with colons too; a host
-- without a colon is read as it is, with the port 4222.
pub service_reads :
    (host name : String) (port : ℕ)
    → port < 2 ^ 16
    → lacks_colon name ≡ true
    → (service (host ++ (":" ++ to_string port)) ≡ (host, port))
      × (service name ≡ (name, default_port))
service_reads host name port h free =
    (service_port host port h, service-uncut name (rsplit-none name free))
