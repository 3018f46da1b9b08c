-- ===== src/Api/Startup/Node/Refuses.antt =====
-- When a node does not start.
use Prim.Native.Char.{Char}
use Prim.Native.String.{String, [], ◌∷◌}
use Prim.Native.String.append
use vdexnode.Common.{
  Bool, true, not, ◌&&◌, if◌then◌else◌, ap, ◌∙◌, ◌<>◌, arith, ℕ, ◌≤◌, ◌≡◌, ◌⊎◌, inl, inr, refl,
  false, Option, none, some, List, [], is_empty,
}
use vdexnode.Common.Outcome.{ok, panic}
use vdexnode.Api.Network.{Network, EosNodeInfo}
use vdexnode.Api.Startup.{max_attempts}
use vdexnode.Api.Startup.Bootstrap.{Opt, has_dot, taken, get_public_ips}
use vdexnode.Api.Startup.Node.{Runner, run_dht, find_ips, with_dht, new, start}
use vdexnode.Api.Startup.Wait.{init_ips-gives_up}

-- A service tells no address: there is no answer, its text cannot be read, or it is empty.
abbrev pub TellsNone : Option (Option String) → Type 0
TellsNone answer = (answer ≡ none) ⊎ (answer ≡ some none) ⊎ (answer ≡ some (some ""))

-- An answer that is an IPv4 address, or has a dot somewhere.
abbrev pub Dotted : Option (Option String) → Type 0
Dotted answer = (a : String) × (b : String) × (answer ≡ some (some (a <> ("." <> b))))

has_dot-append : (a b : String) → has_dot (a <> ("." <> b)) ≡ true
unfolding has_dot
has_dot-append [] b =
    let dot : Char = "." in
    rw (append.nil ("." <> b), append.cons dot "" b ∙ ap (λ t. dot ∷ t) (append.nil b)) refl
has_dot-append (c ∷ a) b = rw (append.cons c a ("." <> b), has_dot-append a b) (ground arith)

taken-none :
    (test : String → Bool) (answer : Option (Option String))
    → TellsNone answer
    → (taken test answer ≡ ok []) ⊎ (taken test answer ≡ panic)
unfolding taken
taken-none test answer (inl e) = inl (rw e refl)
taken-none test answer (inr (inl e)) = inr (rw e refl)
taken-none test answer (inr (inr e)) = inl (rw e refl)

taken-Dotted :
    (answer : Option (Option String))
    → Dotted answer
    → taken (λ text. not (has_dot text)) answer ≡ ok []
unfolding taken
taken-Dotted answer (a, b, e) =
    rw (e, has_dot-append a b) (ap ok (dropped (not (is_empty (a <> ("." <> b)))) _))
  where
    none_left : List String
    none_left = []

    dropped :
        (c : Bool) (texts : List String) → (if c && false then texts else none_left) ≡ none_left
    dropped true texts = refl
    dropped false texts = refl

get_public_ips-panics :
    (ipv4 ipv6 : Option (Option String)) (info : EosNodeInfo)
    → TellsNone ipv4
    → TellsNone ipv6 ⊎ Dotted ipv6
    → get_public_ips ipv4 ipv6 info ≡ panic
unfolding get_public_ips
get_public_ips-panics ipv4 ipv6 info h4 h6 = elim (taken-none (λ text. true) ipv4 h4) [
  | inr e ↦ rw e refl
  | inl e ↦ elim (second h6) [ inl d ↦ rw (e, d) refl | inr d ↦ rw (e, d) refl ]
]
  where
    test : String → Bool
    test text = not (has_dot text)

    second : TellsNone ipv6 ⊎ Dotted ipv6 → (taken test ipv6 ≡ ok []) ⊎ (taken test ipv6 ≡ panic)
    second (inl h) = taken-none test ipv6 h
    second (inr h) = inl (taken-Dotted ipv6 h)

module _ (n : Network) (runner : Runner n) (answers : ℕ → List String)
    (ipv4 ipv6 : Option (Option String)) (opt : Opt) where
  -- No address can be learnt: from the services, if no bootstrap node is given (where the answer of
  -- the IPv6 service does not count if it has a dot), or else from the network.
  abbrev pub NoAddress : Type 0
  NoAddress =
      ((opt.bootstrap ≡ "") × TellsNone ipv4 × (TellsNone ipv6 ⊎ Dotted ipv6))
      ⊎ ((is_empty opt.bootstrap ≡ false) × ((j : ℕ) → j ≤ max_attempts → answers j ≡ []))

  find_ips-panics :
      (info : EosNodeInfo) → NoAddress → find_ips n runner answers ipv4 ipv6 opt info ≡ some panic
  unfolding find_ips
  find_ips-panics info (inl (alone, no_ipv4, no_ipv6)) =
      rw (alone, get_public_ips-panics ipv4 ipv6 info no_ipv4 no_ipv6) refl
  find_ips-panics info (inr (given, nothing)) = rw given (init_ips-gives_up answers info nothing)

  with_dht-panics :
      (dht : n.State) → NoAddress → with_dht n runner answers ipv4 ipv6 opt [] dht ≡ some panic
  unfolding with_dht
  with_dht-panics dht none_found =
      let found =
        find_ips-panics
          (record {
            id = runner.node_id dht;
            ips = [];
            public_key = runner.public_key dht;
            key = opt.eoskey;
          })
          none_found in
      rw (with_dht, found) refl

  new-panics :
      (runner.import_certificate opt.certificate ≡ none)
        ⊎ (runner.import_key opt.privkey opt.password ≡ none)
        ⊎ NoAddress
      → new n runner answers ipv4 ipv6 opt [] ≡ some panic
  unfolding new
  new-panics (inl e) = rw (e, new) refl
  new-panics (inr (inl e)) = no_key (runner.import_certificate opt.certificate) refl
    where
      no_key :
          (o : Option runner.Certificate)
          → runner.import_certificate opt.certificate ≡ o
          → new n runner answers ipv4 ipv6 opt [] ≡ some panic
      no_key none c = rw (c, new) refl
      no_key (some cert) c = rw (c, new, e) refl
  new-panics (inr (inr none_found)) =
      no_address (runner.import_certificate opt.certificate)
        (runner.import_key opt.privkey opt.password) refl refl
    where
      no_address :
          (o : Option runner.Certificate) (p : Option runner.PrivateKey)
          → runner.import_certificate opt.certificate ≡ o
          → runner.import_key opt.privkey opt.password ≡ p
          → new n runner answers ipv4 ipv6 opt [] ≡ some panic
      no_address none p c k = rw (c, new) refl
      no_address (some cert) none c k = rw (c, new, k) refl
      no_address (some cert) (some pk) c k =
          rw (c, new, k)
            (with_dht-panics (run_dht n runner answers ipv4 ipv6 opt (cert, pk)) none_found)

  -- The node panics before the server starts, and does not wait forever, without a readable
  -- certificate, without a readable key, without a bootstrap node if neither service tells an
  -- address (each gives no answer, an unreadable or an empty one, or the IPv6 service one with a
  -- dot), and with a bootstrap node if the network shows no address by the last attempt.
  pub start_refuses :
      (runner.import_certificate opt.certificate ≡ none)
        ⊎ (runner.import_key opt.privkey opt.password ≡ none)
        ⊎ NoAddress
      → start n runner answers ipv4 ipv6 opt ≡ some panic
  unfolding start
  start_refuses h = rw (new-panics h, start) refl
