-- ===== src/Index/Updater/Chunks.antt =====
-- The chunks of bytes that the ranges are stored in.
use lord.Prelude.{
  ℕ, zero, suc, ◌≤◌, ◌≡◌, refl, ap, Option, none, some, List, [], ◌∷◌, ◌++◌, map, length, arith,
}
use mathlib.Core.List.{flatten}
use lord.Index.SatRange.{SatRange, load, store}
use lord.Index.SatRange.RoundTrip.{load-store}
use lord.Index.UtxoEntry.Value.{AllStorable, store_all, take-store, drop-store, not_short}
use lord.Index.Updater.{chunks_exact, all_chunks, leftover}
use lord.Index.Updater.Sats.{source_of, AllStored}
use lord.Index.Updater.Sizes.{length-store_all}

pub chunks_exact-store_all :
    (rs : List SatRange) (fuel : ℕ)
    → length rs ≤ fuel
    → chunks_exact fuel (store_all rs) ≡ map store rs
unfolding chunks_exact store_all
chunks_exact-store_all [] zero h = refl
chunks_exact-store_all [] (suc fuel) h = refl
chunks_exact-store_all (r ∷ rs) zero h = absurd (omega arith)
chunks_exact-store_all (r ∷ rs) (suc fuel) h =
    rw (take-store r (store_all rs), drop-store r (store_all rs))
      (ground (arith, not_short r (store_all rs), chunks_exact-store_all rs fuel (omega arith)))

pub map-append :
    {A B : Type 0} (f : A → B) (xs ys : List A) → map f (xs ++ ys) ≡ map f xs ++ map f ys
map-append f [] ys = refl
map-append f (x ∷ xs) ys = ap (◌∷◌ (f x)) (map-append f xs ys)

pub all_chunks-store_all :
    (inputs : List (List SatRange)) → all_chunks (map store_all inputs) ≡ map store (flatten inputs)
unfolding all_chunks flatten
all_chunks-store_all [] = refl
all_chunks-store_all (rs ∷ inputs) = rw (
  map-append store rs (flatten inputs),
  chunks_exact-store_all rs (length (store_all rs)) (omega (arith, length-store_all rs)),
  all_chunks-store_all inputs,
)

pub map-load-store : (rs : List SatRange) → AllStorable rs → map load (map store rs) ≡ rs
map-load-store [] h = refl
map-load-store ((a, b) ∷ rs) h =
    rw (load-store a b h.0.0 (omega arith) h.0.2, map-load-store rs h.1)

pub AllStored-map-store : (rs : List SatRange) → AllStorable rs → AllStored (map store rs)
AllStored-map-store [] h = tt
AllStored-map-store ((a, b) ∷ rs) h =
    (ap store (load-store a b h.0.0 (omega arith) h.0.2), AllStored-map-store rs h.1)

pub flatten_stored : (cs : List (List ℕ)) → AllStored cs → flatten cs ≡ store_all (map load cs)
unfolding flatten store_all
flatten_stored [] h = refl
flatten_stored (c ∷ cs) h = rw (h.0, flatten_stored cs h.1)

pub leftover-source :
    (p : Option SatRange) (cs : List (List ℕ))
    → AllStored cs
    → leftover p cs ≡ store_all (source_of p cs)
unfolding leftover store_all
leftover-source none cs h = flatten_stored cs h
leftover-source (some r) cs h = rw (flatten_stored cs h)
