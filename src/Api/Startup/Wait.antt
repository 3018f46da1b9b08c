-- ===== src/Api/Startup/Wait.antt =====
-- The wait for an address ends.
use vdexnode.Common.{
  ℕ, zero, suc, ◌+◌, ◌≤◌, ◌<◌, ◌≡◌, refl, ap, ◌∙◌, String, Bool, true, false, ◌&&◌, some, List, [],
  ◌∷◌, length, ◌==◌, arith,
}
use vdexnode.Common.Outcome.{ok, panic}
use vdexnode.Api.Network.{EosNodeInfo}
use vdexnode.Api.Startup.{max_attempts, await_addresses, init_ips}

not_zero : (n : ℕ) → (suc n == 0) ≡ false
not_zero n = ground arith

-- A round that goes on: there is an address, or attempts are left.
goes_on :
    (idx d : ℕ) (next : List String)
    → idx + suc d ≤ max_attempts
    → (d ≡ 0 → (length next == 0) ≡ false)
    → ((idx + 1 == max_attempts) && (length next == 0)) ≡ false
goes_on idx zero next le h = rw (h refl) (and_false (idx + 1 == max_attempts))
  where
    and_false : (b : Bool) → (b && false) ≡ false
    and_false true = refl
    and_false false = refl
goes_on idx (suc d) next le h = rw (early idx d le) refl
  where
    early : (idx d : ℕ) → idx + suc (suc d) ≤ max_attempts → (idx + 1 == max_attempts) ≡ false
    early idx d le = ground arith

module _ (answers : ℕ → List String) where
  step :
      (fuel idx : ℕ)
      → answers idx ≡ []
      → ((idx + 1 == max_attempts) && (length (answers (idx + 1)) == 0)) ≡ false
      → await_addresses answers (suc fuel) idx (answers idx)
        ≡ await_addresses answers fuel (idx + 1) (answers (idx + 1))
  unfolding await_addresses
  step fuel idx e t = rw (e, t) refl

  found :
      (fuel idx d : ℕ) (address : String) (addresses : List String)
      → d < fuel
      → idx + d ≤ max_attempts
      → ((j : ℕ) → j < idx + d → answers j ≡ [])
      → answers (idx + d) ≡ address ∷ addresses
      → await_addresses answers fuel idx (answers idx) ≡ some (ok (address ∷ addresses))
  unfolding await_addresses
  found zero idx d address addresses lt le before e = absurd (omega arith)
  found (suc fuel) idx zero address addresses lt le before e =
      let first : answers idx ≡ address ∷ addresses = ap answers (omega arith) ∙ e in rw first refl
  found (suc fuel) idx (suc d) address addresses lt le before e =
      let there : answers (idx + 1 + d) ≡ address ∷ addresses = ap answers (omega arith) ∙ e in
      step fuel idx (before idx (omega arith)) (
        goes_on idx d (answers (idx + 1)) le (λ z.
          let now : answers (idx + 1) ≡ address ∷ addresses = ap answers (omega arith) ∙ there in
          rw now (not_zero (length addresses))))
      ∙ found fuel (idx + 1) d address addresses (omega arith) (omega arith)
          (λ j h. before j (omega arith)) there

  gives_up :
      (fuel idx d : ℕ)
      → suc d < fuel
      → idx + suc d ≡ max_attempts
      → ((j : ℕ) → j ≤ max_attempts → answers j ≡ [])
      → await_addresses answers fuel idx (answers idx) ≡ some panic
  unfolding await_addresses
  gives_up zero idx d lt e none_found = absurd (omega arith)
  gives_up (suc fuel) idx zero lt e none_found =
      let last : (idx + 1 == max_attempts) ≡ true = ground arith in
      rw (none_found idx (omega arith), none_found (idx + 1) (omega arith), last) refl
  gives_up (suc fuel) idx (suc d) lt e none_found =
      step fuel idx (none_found idx (omega arith))
        (goes_on idx (suc d) (answers (idx + 1)) (omega arith) (λ z. absurd (omega arith)))
      ∙ gives_up fuel (idx + 1) d (omega arith) (omega arith) none_found

  -- If call k, at most 3000, is the first that returns an address, then `init_ips` ends and the
  -- node's addresses are those of that call.
  pub init_ips-found :
      (info : EosNodeInfo) (k : ℕ) (address : String) (addresses : List String)
      → k ≤ max_attempts
      → ((j : ℕ) → j < k → answers j ≡ [])
      → answers k ≡ address ∷ addresses
      → init_ips answers info ≡ some (ok (record info { ips = address ∷ addresses }))
  unfolding init_ips
  init_ips-found info k address addresses le before e =
      rw
        (
          found (suc max_attempts) 0 k address addresses (omega arith) (omega arith)
              (λ j h. before j (omega arith)) (ap answers (omega arith) ∙ e),
          init_ips,
        )
        refl

  -- If none of the calls up to 3000 returns an address, then `init_ips` ends with a panic.
  pub init_ips-gives_up :
      (info : EosNodeInfo)
      → ((j : ℕ) → j ≤ max_attempts → answers j ≡ [])
      → init_ips answers info ≡ some panic
  unfolding init_ips
  init_ips-gives_up info none_found =
      rw (gives_up (suc max_attempts) 0 2999 (omega arith) (omega arith) none_found, init_ips) refl
