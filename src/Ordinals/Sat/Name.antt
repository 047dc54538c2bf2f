-- ===== src/Ordinals/Sat/Name.antt =====
-- The name of a sat is read back as the sat.
use mathlib.Core.List.{append_assoc, reverse-append}
use mathlib.Core.Logic.{dif_pos, dif_neg}
use mathlib.Core.WellFounded.{Acc}
use native.Mathlib.Bridge.{le_prop}
use lord.Prelude.{
  ℕ, ◌+◌, ◌-◌, ◌*◌, ◌/◌, ◌%◌, ◌^◌, ◌≤◌, ◌<◌, ◌≡◌, refl, ap, ◌∙◌, List, [], ◌∷◌, ◌++◌, reverse,
  dec_lt, arith,
}
use lord.Prelude.Order.{lt_wf}
use lord.Ordinals.Constants.{supply, sub_u64}
use lord.Ordinals.Sat.{ok, letter_shrinks, name_loop, name, from_name_loop, from_name}

module _ (x : ℕ) (below : (m : ℕ) → m < x → Acc ◌<◌ m) (letters : List ℕ) where
  name_loop_more :
      (h : 0 < x)
      → name_loop x (Acc.intro x below) letters
        ≡ name_loop
            ((x - 1) / 26)
            (below _ (letter_shrinks x h))
            (letters ++ (b'a' + (x - 1) % 26) ∷ [])
  unfolding name_loop
  name_loop_more h = dif_pos (dec_lt 0 x) le_prop h _ _

  name_loop_done : ¬ (0 < x) → name_loop x (Acc.intro x below) letters ≡ letters
  unfolding name_loop
  name_loop_done h = dif_neg (dec_lt 0 x) h _ _

append-nil_right : (xs : List ℕ) → xs ≡ xs ++ []
append-nil_right [] = refl
append-nil_right (x ∷ xs) = ap (◌∷◌ x) (append-nil_right xs)

name_loop-append :
    (x : ℕ) (w : Acc ◌<◌ x) (letters : List ℕ) → name_loop x w letters ≡ letters ++ name_loop x w []
name_loop-append x (Acc.intro _ below) letters = elim (dec_lt 0 x) [
  | yes h ↦
      rw (name_loop_more x below letters h, name_loop_more x below [] h)
        (simp (
          name_loop-append _ (below _ (letter_shrinks x h)) (letters ++ (b'a' + (x - 1) % 26) ∷ []),
          name_loop-append _ (below _ (letter_shrinks x h)) ((b'a' + (x - 1) % 26) ∷ []),
          append_assoc,
        ))
  | no h ↦
      rw (name_loop_done x below letters h, name_loop_done x below [] h) (append-nil_right letters)
]

-- The last letter of a name, read after the others.
read_letter :
    (x : ℕ) (rest : List ℕ)
    → 0 < x
    → x ≤ supply
    → from_name_loop ((b'a' + (x - 1) % 26) ∷ rest) ((x - 1) / 26) ≡ from_name_loop rest x
unfolding from_name_loop
read_letter x rest h k =
    let e : ((x - 1) / 26 * 26 + (97 + (x - 1) % 26) + 2 ^ 64 - 97 + 1) % 2 ^ 64 ≡ x =
      omega arith in
    rw e (ground arith)

read_name :
    (x : ℕ) (w : Acc ◌<◌ x) (rest : List ℕ)
    → x ≤ supply
    → from_name_loop (reverse (name_loop x w []) ++ rest) 0 ≡ from_name_loop rest x
read_name x (Acc.intro _ below) rest k = elim (dec_lt 0 x) [
  | yes h ↦
      rw
        (
          name_loop_more x below [] h,
          name_loop-append _ (below _ (letter_shrinks x h)) ((b'a' + (x - 1) % 26) ∷ []),
          reverse-append,
          append_assoc,
        )
        (read_name _ (below _ (letter_shrinks x h)) (((b'a' + (x - 1) % 26) ∷ []) ++ rest)
            (omega arith)
          ∙ read_letter x rest h k)
  | no h ↦ rw (name_loop_done x below [] h) (ap (from_name_loop rest) (omega arith))
]

letters_of : ℕ → List ℕ
letters_of x = reverse (name_loop x (lt_wf.apply x) [])

name_eq : (sat : ℕ) → name sat ≡ letters_of (sub_u64 supply sat)
unfolding name letters_of
name_eq sat = refl

name_eq_letters : (sat : ℕ) → sat ≤ supply → name sat ≡ letters_of (supply - sat)
name_eq_letters sat h = name_eq sat ∙ ap letters_of (omega arith)

read_letters : (x : ℕ) → x ≤ supply → from_name_loop (letters_of x) 0 ≡ from_name_loop [] x
unfolding letters_of
read_letters x h =
    ap (λ l. from_name_loop l 0) (append-nil_right (reverse (name_loop x (lt_wf.apply x) [])))
    ∙ read_name x (lt_wf.apply x) [] h

from_name_eq : (s : List ℕ) → from_name s ≡ from_name_loop s 0
unfolding from_name
from_name_eq s = refl

from_name_end : (x : ℕ) → x ≤ supply → from_name_loop [] x ≡ ok (supply - x)
unfolding from_name_loop
from_name_end x h = ap ok (omega arith)

-- The name of every sat of the supply is read back as the sat.
pub from_name-name : (sat : ℕ) → sat < supply → from_name (name sat) ≡ ok sat
from_name-name sat h =
    rw (from_name_eq (name sat), name_eq_letters sat (omega arith))
      (read_letters (supply - sat) (omega arith)
        ∙ from_name_end (supply - sat) (omega arith)
        ∙ ap ok (omega arith))

read_in_range :
    (s : List ℕ) (x sat : ℕ) → 0 < x → x ≤ supply → from_name_loop s x ≡ ok sat → sat < supply
unfolding from_name_loop
read_in_range [] x sat h k e = ground arith
read_in_range (c ∷ cs) x sat h k e =
    ground (arith, read_in_range cs ((x * 26 + c + 2 ^ 64 - 97 + 1) % 2 ^ 64) sat)

first_letter : (c : ℕ) (cs : List ℕ) (sat : ℕ) → from_name_loop (c ∷ cs) 0 ≡ ok sat → sat < supply
unfolding from_name_loop
first_letter c cs sat e =
    ground (arith, read_in_range cs ((0 * 26 + c + 2 ^ 64 - 97 + 1) % 2 ^ 64) sat)

-- A text with a letter, if it names anything, names a sat of the supply.
from_name-lt-supply : (c : ℕ) (cs : List ℕ) (sat : ℕ) → from_name (c ∷ cs) ≡ ok sat → sat < supply
from_name-lt-supply c cs sat e = first_letter c cs sat (rw from_name_eq at e)
