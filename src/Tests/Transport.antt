-- ===== src/Tests/Transport.antt =====
-- Party 2 of two waits for party 1, whose value comes after one lost send and one answer that it is
-- not there yet; and the keys and vectors of two parties.
use vdexnode.Common.{
  ℕ, ◌≡◌, inr, refl, String, true, false, Option, some, none, [], ◌∷◌, map, arith, if◌then◌else◌,
  str_eq, ◌%◌, ◌+◌, ◌^◌, ◌<◌,
}
use vdexnode.Common.Decimal.{to_string, parse}
use vdexnode.Common.Decimal.RoundTrip.{parse-to_string}
use vdexnode.Common.Outcome.{ok, panic}
use vdexnode.Mpt.Parties.{indices, others}
use vdexnode.Mpt.Vectors.{format_vec_from_reads}
use vdexnode.Mpt.Vectors.Laws.{format_vec_from_reads_values, format_vec_from_reads_panics}
use vdexnode.Mpt.Transport.{
  failed, answered, Entry, panicked, broadcast, sendp2p, message_key, poll_for_broadcasts,
  poll_for_p2p,
}
use vdexnode.Mpt.Transport.Polling.{arrivals, broadcast_gives_up}
use vdexnode.Mpt.Transport.Questions.{Asks, all_questions, poll_for-Asks}

abbrev entry : Entry
entry = record { key = message_key 1 "round0" "s" ""; value = "share" }

-- "wait" is the answer of a server that has nothing, every other text is the entry.
abbrev decode : String → Option (Option Entry)
decode text = if str_eq text "wait" then some none else some (some entry)

abbrev decode_unit : String → Option (Option (Unit {0}))
decode_unit text = some (some tt)

broadcast_gives_up_example :
    (broadcast decode_unit 1 "round0" "share" "s"
        (record { script = failed ∷ failed ∷ answered "ok" ∷ []; requests = [] })
      ≡ panicked)
    × (sendp2p decode_unit 1 2 "round0" "share" "s"
          (record { script = failed ∷ failed ∷ answered "ok" ∷ []; requests = [] })
        ≡ panicked)
broadcast_gives_up_example =
    broadcast_gives_up decode_unit 1 2 "round0" "share" "s" (answered "ok" ∷ []) []

few : 2 + 1 < 2 ^ 32
few = omega arith

poll_for-Asks_example :
    Asks
      (poll_for_broadcasts decode 2 2 "round0" "s")
      (arrivals "wait" (λ _. true ∷ []) (λ _. false) (λ _. "entry") (others 2 1 2))
      (map (λ (j : ℕ). entry.value) (others 2 1 2))
      (all_questions
        (λ j. message_key j "round0" "s" "")
        (λ _. true ∷ [])
        (λ _. false)
        (others 2 1 2))
    × Asks
        (poll_for_p2p decode 2 2 "round0" "s")
        (arrivals "wait" (λ _. true ∷ []) (λ _. false) (λ _. "entry") (others 2 1 2))
        (map (λ (j : ℕ). entry.value) (others 2 1 2))
        (all_questions
          (λ j. message_key j "round0" "s" (to_string 2))
          (λ _. true ∷ [])
          (λ _. false)
          (others 2 1 2))
poll_for-Asks_example =
    poll_for-Asks decode "wait" refl (λ _. true ∷ []) (λ _. false) (λ _. "entry") (λ _. entry)
      (λ _. refl) 2 2 "round0" "s" few

abbrev last_digit : ℕ → ℕ
last_digit k = k % 10

read_last_digit : (k : ℕ) → parse 10 (to_string (last_digit k)) ≡ some (last_digit k)
read_last_digit k = parse-to_string 10 (k % 10) (omega arith)

format_vec_from_reads_values_example :
    format_vec_from_reads (parse 10) (map (λ k. to_string (last_digit k)) (others 2 1 3)) 2 2
    ≡ ok (map last_digit (indices 1 3))
format_vec_from_reads_values_example =
    format_vec_from_reads_values (parse 10) last_digit (λ k. to_string (last_digit k)) 2 3
      read_last_digit (omega arith) (omega arith)

format_vec_from_reads_panics_example : format_vec_from_reads (parse 10) ("1" ∷ []) 3 7 ≡ panic
format_vec_from_reads_panics_example =
    format_vec_from_reads_panics (parse 10) ("1" ∷ []) 3 7 (inr (omega arith))
