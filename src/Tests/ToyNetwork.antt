-- ===== src/Tests/ToyNetwork.antt =====
-- A network that meets all laws: the values put so far, in order, with no hashing.
use text.Mathlib.TextEquality.{Char-path}
use Prim.Native.Char.{code}
use Prim.Native.String.{[], ◌∷◌}
use vdexnode.Common.{
  ℕ, zero, suc, ◌+◌, ◌≡◌, refl, ap, ◌∙◌, inl, inr, String, Bool, true, false, ◌&&◌, Option, none,
  some, List, [], ◌∷◌, ◌++◌, arith, ◌==◌, if◌then◌else◌, ==_refl, Bool-cases, as_bytes, Has, All,
  All-imp, ◌⊎◌,
}
use vdexnode.Mpt.Transport.{TupleKey, PartySignup}
use vdexnode.Api.Network.{Network}
use vdexnode.Api.Network.Laws.{IsStore, IsSerialised}
use vdexnode.Api.Server.Calls.{place}
use mathlib.Core.List.{append_cancel_right}

abbrev pub same_bytes : List ℕ → List ℕ → Bool
same_bytes [] [] = true
same_bytes [] (y ∷ ys) = false
same_bytes (x ∷ xs) [] = false
same_bytes (x ∷ xs) (y ∷ ys) = (x == y) && same_bytes xs ys

same_bytes_refl : (xs : List ℕ) → same_bytes xs xs ≡ true
same_bytes_refl [] = refl
same_bytes_refl (x ∷ xs) = rw (==_refl x, same_bytes_refl xs) refl

same_bytes→≡ : (xs ys : List ℕ) → same_bytes xs ys ≡ true → xs ≡ ys
same_bytes→≡ [] [] e = refl
same_bytes→≡ [] (y ∷ ys) e = absurd cc
same_bytes→≡ (x ∷ xs) [] e = absurd cc
same_bytes→≡ (x ∷ xs) (y ∷ ys) e = ground (arith, same_bytes→≡ xs ys)

abbrev pub Stored : Type 0
Stored = List (List ℕ × String)

abbrev pub found : List ℕ → Stored → List String
found h [] = []
found h ((k, v) ∷ s) = if same_bytes k h then v ∷ found h s else found h s

-- What is found after a value was put is that value, or was found before.
pub found-put :
    (h k : List ℕ) (v w : String) (s : Stored)
    → Has w (found k (s ++ ((h, v) ∷ [])))
    → ((h ≡ k) × (v ≡ w)) ⊎ Has w (found k s)
found-put h k v w [] = elim (Bool-cases (same_bytes h k)) [
  | inl e ↦
      rw e
        (λ has. elim has [ inl is ↦ inl (same_bytes→≡ h k e, is) | inr nothing ↦ absurd nothing ])
  | inr e ↦ rw e (λ has. absurd has)
]
found-put h k v w ((j, x) ∷ s) =
    let before = found-put h k v w s in
    elim (Bool-cases (same_bytes j k)) [
      | inl e ↦ rw e (λ has. elim has [
        | inl is ↦ inr (inl is)
        | inr later ↦ elim (before later) [ inl put ↦ inl put | inr old ↦ inr (inr old) ]
      ])
      | inr e ↦ rw e before
    ]

-- The value that was put first expires.
abbrev pub expire : Stored → Stored
expire [] = []
expire (x ∷ s) = s

pub found-expire :
    (s : Stored) (k : List ℕ) (w : String) → Has w (found k (expire s)) → Has w (found k s)
found-expire [] k w has = has
found-expire ((j, x) ∷ s) k w has = elim (Bool-cases (same_bytes j k)) [
  | inl e ↦ rw e (inr has)
  | inr e ↦ rw e has
]

pub All-itself : (vs : List String) → All (λ v. Has v vs) vs
All-itself [] = tt
All-itself (v ∷ vs) = (inl refl, All-imp _ _ (λ w has. inr has) vs (All-itself vs))

-- A number in unary before the identifier.
abbrev pub write_signup : ℕ → String → String
write_signup zero uuid = "0" ∷ uuid
write_signup (suc n) uuid = "1" ∷ write_signup n uuid

abbrev pub read_signup : String → ℕ → Option PartySignup
read_signup [] n = none
read_signup (c ∷ s) n =
    if code c == 48 then some (record { number = n; uuid = s }) else read_signup s (suc n)

read-write :
    (m n : ℕ) (uuid : String)
    → read_signup (write_signup m uuid) n ≡ some (record { number = n + m; uuid = uuid })
read-write zero n uuid = ap (λ (x : ℕ). some (record { number = x; uuid = uuid })) (omega arith)
read-write (suc m) n uuid =
    read-write m (suc n) uuid
    ∙ ap (λ (x : ℕ). some (record { number = x; uuid = uuid })) (omega arith)

-- A text as numbers above 0, closed by 0.
abbrev pub codes : String → List ℕ → List ℕ
codes [] rest = 0 ∷ rest
codes (c ∷ s) rest = suc (code c) ∷ codes s rest

abbrev head : List ℕ → ℕ
head [] = 0
head (x ∷ xs) = x

abbrev tail : List ℕ → List ℕ
tail [] = []
tail (x ∷ xs) = xs

pub codes_injective :
    (s t : String) (xs ys : List ℕ) → codes s xs ≡ codes t ys → (s ≡ t) × (xs ≡ ys)
codes_injective [] [] xs ys e = (refl, ap tail e)
codes_injective [] (d ∷ t) xs ys e = absurd (let h : 0 ≡ suc (code d) = ap head e in omega arith)
codes_injective (c ∷ s) [] xs ys e = absurd (let h : suc (code c) ≡ 0 = ap head e in omega arith)
codes_injective (c ∷ s) (d ∷ t) xs ys e =
    let h : suc (code c) ≡ suc (code d) = ap head e in
    let (p, q) = codes_injective s t xs ys (ap tail e) in
    (rw (Char-path c d (omega arith), p) refl, q)

abbrev pub pack : TupleKey → List ℕ
pack k = codes k.first (codes k.second (codes k.third (codes k.fourth [])))

pack_injective : (k l : TupleKey) → pack k ≡ pack l → k ≡ l
pack_injective k l e =
    let (a, e₁) =
      codes_injective k.first l.first (codes k.second (codes k.third (codes k.fourth [])))
        (codes l.second (codes l.third (codes l.fourth []))) e in
    let (b, e₂) =
      codes_injective k.second l.second (codes k.third (codes k.fourth []))
        (codes l.third (codes l.fourth [])) e₁ in
    let (c, e₃) = codes_injective k.third l.third (codes k.fourth []) (codes l.fourth []) e₂ in
    let (d, _) = codes_injective k.fourth l.fourth [] [] e₃ in cc

abbrev pub toy_network : Network
toy_network = record {
  State = Stored;
  Hash = List ℕ;
  Value = String;
  hash_from_bytes = λ b. b;
  hash_get = as_bytes;
  hash_from_hex = as_bytes;
  value_new = λ s. s;
  value_from_bytes = λ b. "";
  value_text = some;
  put_signed = λ h v permanent s. s ++ ((h, v) ∷ []);
  put_encrypted = λ h to v permanent s. s ++ ((h, v) ∷ []);
  get_values = found;
  pack_key = pack;
  pack_info = λ i. as_bytes i.id;
  unpack_info = λ v. some (record { id = v; ips = []; key = "key"; public_key = "" });
  signup_to_string = λ p. write_signup p.number p.uuid;
  signup_from_str = λ s. read_signup s 0;
  params_from_str = λ s. some (record { parties = "2"; threshold = "1" });
  url_decode = some;
}

pub found-new : (h : List ℕ) (v : String) (s : Stored) → Has v (found h (s ++ ((h, v) ∷ [])))
found-new h v [] = rw (same_bytes_refl h) (inl refl)
found-new h v ((k, w) ∷ s) = later (found h (s ++ ((h, v) ∷ []))) (found-new h v s) (same_bytes k h)
  where
    later : (vs : List String) → Has v vs → (b : Bool) → Has v (if b then w ∷ vs else vs)
    later vs has true = inr has
    later vs has false = has

-- What was put and has not expired.
abbrev pub toy_network-IsStore : IsStore toy_network
toy_network-IsStore = record {
  Put = λ s k v. Has v (found k s);
  get_values-Put = λ h s. All-itself (found h s);
  put_signed-Put = λ h k v w permanent s. found-put h k v w s;
  put_signed-new = λ h v permanent s. found-new h v s;
  value_text-value_new = λ s. refl;
}

pub toy_place_injective :
    (id : String) (k l : TupleKey) → place toy_network id k ≡ place toy_network id l → k ≡ l
toy_place_injective id k l e =
    pack_injective k l (append_cancel_right (pack k) (pack l) (as_bytes id) e)

pub toy_network-IsSerialised : IsSerialised toy_network
toy_network-IsSerialised = record {
  signup_from_str-signup_to_string = λ p.
      read-write p.number 0 p.uuid
      ∙ ap (λ (x : ℕ). some (record { number = x; uuid = p.uuid })) (omega arith);
}
