-- ===== src/Tests/Toy/Coding.antt =====
-- A text form for the small values: what is printed can be read again, whatever follows it.
use Prim.Native.Char.{Char, code}
use Prim.Native.String.{String, [], ◌∷◌}
use vdexnode.Common.{
  ℕ, zero, suc, ◌≡◌, refl, Option, some, none, List, [], ◌∷◌, ◌==◌, if◌then◌else◌,
}
use vdexnode.Mpt.Program.{Codec}
use vdexnode.Mpt.Program.Scripts.{IsCodec}

pub record Coding (A : Type 0) : Type 0 where
  pub put : A → String → String
  pub take : String → Option (A × String)
  pub take-put : (a : A) (rest : String) → take (put a rest) ≡ some (a, rest)

-- The end of a value, and what stands before each of its parts.
abbrev dot : Char
dot = "."

abbrev mark : Char
mark = "s"

abbrev map_taken : {A B : Type 0} → (A → B) → Option (A × String) → Option (B × String)
map_taken f none = none
map_taken f (some (a, rest)) = some (f a, rest)

abbrev put_nat : ℕ → String → String
put_nat zero rest = dot ∷ rest
put_nat (suc n) rest = mark ∷ put_nat n rest

abbrev take_nat : String → Option (ℕ × String)
take_nat [] = none
take_nat (c ∷ s) =
    let more = take_nat s in if code c == b'.' then some (0, s) else map_taken suc more

abbrev take-put_nat : (n : ℕ) (rest : String) → take_nat (put_nat n rest) ≡ some (n, rest)
take-put_nat zero rest = refl
take-put_nat (suc n) rest = rw (take-put_nat n rest) refl

abbrev pub nat : Coding ℕ
nat = record { put = put_nat; take = take_nat; take-put = take-put_nat }

abbrev put_string : String → String → String
put_string [] rest = dot ∷ rest
put_string (c ∷ s) rest = mark ∷ c ∷ put_string s rest

abbrev cons : Char → String → String
cons c s = c ∷ s

abbrev take_string : String → Option (String × String)
take_string [] = none
take_string (c ∷ []) = if code c == b'.' then some ("", "") else none
take_string (c ∷ h ∷ s) =
    let more = take_string s in if code c == b'.' then some ("", h ∷ s) else map_taken (cons h) more

abbrev take-put_string : (s rest : String) → take_string (put_string s rest) ≡ some (s, rest)
take-put_string [] [] = refl
take-put_string [] (c ∷ rest) = refl
take-put_string (c ∷ s) rest = rw (take-put_string s rest) refl

abbrev pub string : Coding String
string = record { put = put_string; take = take_string; take-put = take-put_string }

-- A number of a list is its marks and a comma.
abbrev comma : Char
comma = ","

abbrev put_marks : ℕ → String → String
put_marks zero rest = comma ∷ rest
put_marks (suc n) rest = mark ∷ put_marks n rest

abbrev put_list : List ℕ → String → String
put_list [] rest = dot ∷ rest
put_list (n ∷ ns) rest = put_marks n (put_list ns rest)

abbrev increase : List ℕ → List ℕ
increase [] = []
increase (n ∷ ns) = suc n ∷ ns

abbrev prepend : ℕ → List ℕ → List ℕ
prepend n ns = n ∷ ns

abbrev take_list : String → Option (List ℕ × String)
take_list [] = none
take_list (c ∷ s) =
    let more = take_list s in
    if code c == b'.'
    then some ([], s)
    else (if code c == b',' then map_taken (prepend 0) more else map_taken increase more)

abbrev take-put_marks :
    (n : ℕ) (ns : List ℕ) (s rest : String)
    → take_list s ≡ some (ns, rest)
    → take_list (put_marks n s) ≡ some (n ∷ ns, rest)
take-put_marks zero ns s rest e = rw e refl
take-put_marks (suc n) ns s rest e = rw (take-put_marks n ns s rest e) refl

abbrev take-put_list :
    (ns : List ℕ) (rest : String) → take_list (put_list ns rest) ≡ some (ns, rest)
take-put_list [] rest = refl
take-put_list (n ∷ ns) rest = take-put_marks n ns (put_list ns rest) rest (take-put_list ns rest)

abbrev pub list : Coding (List ℕ)
list = record { put = put_list; take = take_list; take-put = take-put_list }

module _ {A B : Type 0} (a : Coding A) (b : Coding B) where
  abbrev take_pair : Option (A × String) → Option ((A × B) × String)
  take_pair none = none
  take_pair (some (x, rest)) = map_taken (λ y. (x, y)) (b.take rest)

  abbrev pub pair : Coding (A × B)
  pair = record {
    put = λ p rest. a.put p.0 (b.put p.1 rest);
    take = λ s. take_pair (a.take s);
    take-put = λ p rest. rw (a.take-put p.0 (b.put p.1 rest), b.take-put p.1 rest) refl;
  }

module _ {A B : Type 0} (a : Coding A) (f : A → B) (g : B → A) (f-g : (b : B) → f (g b) ≡ b) where
  abbrev pub image : Coding B
  image = record {
    put = λ b rest. a.put (g b) rest;
    take = λ s. map_taken f (a.take s);
    take-put = λ b rest. rw (a.take-put (g b) rest, f-g b) refl;
  }

module _ {A : Type 0} (a : Coding A) where
  abbrev first : Option (A × String) → Option A
  first none = none
  first (some (x, rest)) = some x

  abbrev pub codec : Codec A
  codec = record { print = λ x. a.put x ""; read = λ s. first (a.take s) }

  pub codec-IsCodec : IsCodec codec
  codec-IsCodec x = rw (a.take-put x "") refl
