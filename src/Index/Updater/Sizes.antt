-- ===== src/Index/Updater/Sizes.antt =====
-- How many sats and bytes the ranges of an output have.
use lord.Prelude.{
  ℕ, zero, suc, ◌+◌, ◌-◌, ◌*◌, ◌/◌, ◌≡◌, refl, ap, ◌∙◌, true, not, some, List, [], ◌∷◌, ◌++◌,
  length, arith, ==_iff, length-append, if◌then◌else◌,
}
use mathlib.Core.List.{flatten}
use lord.Ordinals.Varint.{encode_to_vec}
use lord.Index.SatRange.{SatRange, store}
use lord.Index.SatRange.RoundTrip.{length-store}
use lord.Index.UtxoEntry.{Index, UtxoEntryBuf, new, valid, need_script_pubkey, push_sat_ranges}
use lord.Index.UtxoEntry.Value.{total_size, store_all}
use lord.Index.Updater.Sats.{expand, expand_all, span}

pub length-span : (a n : ℕ) → length (span a n) ≡ n
unfolding span
length-span a zero = refl
length-span a (suc n) = ap suc (length-span (a + 1) n)

pub length-expand_all : (rs : List SatRange) → length (expand_all rs) ≡ total_size rs
unfolding expand_all expand
length-expand_all [] = refl
length-expand_all (r ∷ rs) =
    length-append (span r.0 (r.1 - r.0)) (expand_all rs)
    ∙ rw (length-span r.0 (r.1 - r.0), length-expand_all rs)

-- Ranges in the same order have the same total.
pub total_split :
    (xs ys zs : List SatRange)
    → expand_all xs ++ expand_all ys ≡ expand_all zs
    → total_size zs ≡ total_size xs + total_size ys
total_split xs ys zs e =
    rw (← length-expand_all xs, ← length-expand_all ys, ← length-expand_all zs, ← e)
      (length-append (expand_all xs) (expand_all ys))

pub length-store_all : (rs : List SatRange) → length (store_all rs) ≡ length rs * 11
unfolding store_all
length-store_all [] = refl
length-store_all (r ∷ rs) =
    omega (arith, length-append (store r) (store_all rs), length-store r, length-store_all rs)

pub eleven : (k n : ℕ) → n ≡ k * 11 → n / 11 * 11 ≡ n
eleven k n e = omega arith

-- A fresh buffer once its ranges are in.
abbrev pub with_ranges : Index → List SatRange → UtxoEntryBuf
with_ranges index rs = record {
  vec = encode_to_vec (length (store_all rs) / 11) [] ++ store_all rs;
  state = if not index.index_addresses then valid else need_script_pubkey;
}

-- A fresh buffer takes any whole ranges.
pub push_accepts :
    (index : Index) (rs : List SatRange)
    → index.index_sats ≡ true
    → push_sat_ranges (store_all rs) index new ≡ some (with_ranges index rs)
unfolding push_sat_ranges
push_accepts index rs on = rw (
  on,
  (==_iff (length (store_all rs) / 11 * 11) (length (store_all rs))).1
      (eleven (length rs) _ (length-store_all rs)),
)

pub push_filled :
    (index : Index) (buf : UtxoEntryBuf) (before after : List ℕ) (got : List SatRange)
    → index.index_sats ≡ true
    → buf ≡ new
    → before ≡ []
    → after ≡ before ++ store_all got
    → push_sat_ranges after index buf ≡ some (with_ranges index got)
push_filled index buf before after got on fresh none_yet e =
    rw (fresh, e, none_yet) (push_accepts index got on)

pub flatten-cons :
    (xs : List SatRange) (xss : List (List SatRange)) → flatten (xs ∷ xss) ≡ xs ++ flatten xss
unfolding flatten
flatten-cons xs xss = refl
