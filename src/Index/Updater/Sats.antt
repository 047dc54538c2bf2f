-- ===== src/Index/Updater/Sats.antt =====
-- The sats of ranges, one by one, and the ranges that a state has yet to give.
use lord.Prelude.{
  ℕ, zero, suc, ◌+◌, ◌-◌, ◌≤◌, ◌≡◌, refl, Option, none, some, List, [], ◌∷◌, ◌++◌, map, arith,
}
use mathlib.Core.List.{append_assoc}
use native.Mathlib.Nat.{zero-add, add-zero, suc-add}
use lord.Index.SatRange.{SatRange, load, store}
use lord.Index.Updater.{Flow}

-- `n` sats from `a` on.
unfoldable pub span : ℕ → ℕ → List ℕ
span a zero = []
span a (suc n) = a ∷ span (a + 1) n

pub span-add : (a m n : ℕ) → span a (m + n) ≡ span a m ++ span (a + m) n
unfolding span
span-add a zero n = rw (zero-add, add-zero)
span-add a (suc m) n =
    let e : a + suc m ≡ a + 1 + m = omega arith in rw suc-add (rw (e, span-add (a + 1) m n))

unfoldable pub expand : SatRange → List ℕ
expand r = span r.0 (r.1 - r.0)

unfoldable pub expand_all : List SatRange → List ℕ
expand_all [] = []
expand_all (r ∷ rs) = expand r ++ expand_all rs

pub expand_all-append :
    (rs qs : List SatRange) → expand_all (rs ++ qs) ≡ expand_all rs ++ expand_all qs
unfolding expand_all
expand_all-append [] qs = refl
expand_all-append (r ∷ rs) qs = rw (expand_all-append rs qs, append_assoc)

-- A range split in two.
pub expand_split : (a m b : ℕ) → a ≤ m → m ≤ b → expand (a, b) ≡ expand (a, m) ++ expand (m, b)
unfolding expand
expand_split a m b h k =
    let e : b - a ≡ m - a + (b - m) = omega arith in
    let f : a + (m - a) ≡ m = omega arith in rw (e, span-add a (m - a) (b - m)) (rw f)

abbrev pub source_of : Option SatRange → List (List ℕ) → List SatRange
source_of none chunks = map load chunks
source_of (some r) chunks = r ∷ map load chunks

abbrev pub source : Flow → List SatRange
source s = source_of s.pending_input_sat_range s.chunks

-- Chunks that `store` gives back from what `load` makes of them.
abbrev pub AllStored : List (List ℕ) → Type 0
AllStored [] = Unit
AllStored (c ∷ cs) = (store (load c) ≡ c) × AllStored cs
