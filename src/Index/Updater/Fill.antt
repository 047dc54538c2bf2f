-- ===== src/Index/Updater/Fill.antt =====
-- One output takes exactly its value from the front of the input ranges.
use lord.Prelude.{
  ℕ, zero, suc, ◌+◌, ◌-◌, ◌%◌, ◌^◌, ◌≤◌, ◌<◌, ◌≡◌, refl, ap, sym, ◌∙◌, Option, none, some, List, [],
  ◌∷◌, ◌++◌, map, length, arith, dec_lt,
}
use mathlib.Core.List.{append_assoc, append-nil}
use lord.Index.SatRange.{SatRange, load, store}
use lord.Index.UtxoEntry.Value.{total_size, IsStorable, AllStorable, store_all}
use lord.Index.Updater.{done, Flow, next_range, next_chunk, index_sat, assign, fill}
use lord.Index.Updater.Sats.{expand_all, expand_split, source_of, source, AllStored}

-- Taking a range leaves the rest, with nothing pending.
record Taken (r : SatRange) (rest : List SatRange) (s after : Flow) : Type 0 where
  pending : after.pending_input_sat_range ≡ none
  remains : map load after.chunks ≡ rest
  kept : after.sats ≡ s.sats
  stored : AllStored s.chunks → AllStored after.chunks

take_chunk :
    (cs : List (List ℕ)) (s : Flow) (r : SatRange) (rest : List SatRange)
    → s.pending_input_sat_range ≡ none
    → s.chunks ≡ cs
    → map load cs ≡ r ∷ rest
    → (after : Flow) × (next_chunk cs s ≡ some (r, after)) × Taken r rest s after
unfolding next_chunk
take_chunk [] s r rest p q e = absurd (cc)
take_chunk (c ∷ cs) s r rest p q e = (
  record s { chunks = cs },
  ground arith,
  record { pending = p; remains = ground arith; kept = refl; stored = λ h. (rw q at h).1 },
)

take_range :
    (p : Option SatRange) (s : Flow) (r : SatRange) (rest : List SatRange)
    → s.pending_input_sat_range ≡ p
    → source_of p s.chunks ≡ r ∷ rest
    → (after : Flow) × (next_range p s ≡ some (r, after)) × Taken r rest s after
unfolding next_range
take_range none s r rest p e = take_chunk s.chunks s r rest p refl e
take_range (some q) s r rest p e = (
  record s { pending_input_sat_range = none },
  ground arith,
  record { pending = refl; remains = ground arith; kept = refl; stored = λ h. h },
)

index_sat-Taken :
    (vout value remaining : ℕ) (r : SatRange) (rest : List SatRange) (s after : Flow)
    → Taken r rest s after
    → Taken r rest s (index_sat vout value remaining r after)
unfolding index_sat
index_sat-Taken vout value remaining r rest s after t = ground arith

-- What an output of `remaining` sats has taken.
pub record Filled (remaining : ℕ) (s s' : Flow) : Type 0 where
  pub got : List SatRange
  pub written : s'.sats ≡ s.sats ++ store_all got
  pub exact : total_size got ≡ remaining
  pub storable : AllStorable got
  pub left_storable : AllStorable (source s')
  pub order : expand_all got ++ expand_all (source s') ≡ expand_all (source s)
  pub fewer : length (source s') ≤ length (source s)
  pub stored : AllStored s.chunks → AllStored s'.chunks

count_lem : (a b : ℕ) → IsStorable (a, b) → (b + 2 ^ 64 - a) % 2 ^ 64 ≡ b - a
count_lem a b h = omega arith

middle_lem : (a b n : ℕ) → IsStorable (a, b) → n < b - a → (a + n) % 2 ^ 64 ≡ a + n
middle_lem a b n h k = omega arith

-- The range is larger than what is needed.
assign_split :
    (remaining a b : ℕ) (s : Flow)
    → IsStorable (a, b)
    → remaining < b - a
    → assign remaining (a, b) s ≡ (
      0,
      record s {
        pending_input_sat_range = some (a + remaining, b);
        sats = s.sats ++ store (a, a + remaining);
        sat_ranges_since_flush = s.sat_ranges_since_flush + 1;
        sat_ranges_written = s.sat_ranges_written + 1;
      },
    )
unfolding assign
assign_split remaining a b s h k =
    let e : remaining - (a + remaining + 2 ^ 64 - a) % 2 ^ 64 ≡ 0 = omega arith in
    rw (middle_lem a b remaining h k, count_lem a b h) (rw e (ground arith))

assign_whole :
    (remaining a b : ℕ) (s : Flow)
    → IsStorable (a, b)
    → b - a ≤ remaining
    → assign remaining (a, b) s ≡ (
      remaining - (b - a),
      record s { sats = s.sats ++ store (a, b); sat_ranges_written = s.sat_ranges_written + 1 },
    )
unfolding assign
assign_whole remaining a b s h k = rw (count_lem a b h) (ground arith)

-- A state with nothing pending has its chunks to give.
source-Taken :
    (r : SatRange) (rest : List SatRange) (s t : Flow) → Taken r rest s t → source t ≡ rest
source-Taken r rest s t h = rw h.pending h.remains

Filled-nothing : (s : Flow) → AllStorable (source s) → Filled 0 s s
Filled-nothing s h = record {
  got = [];
  written = unfold store_all in sym (append-nil s.sats);
  exact = refl;
  storable = tt;
  left_storable = h;
  order = unfold expand_all in refl;
  fewer = omega arith;
  stored = λ h. h;
}

fill_zero : (fuel vout value : ℕ) (s : Flow) → fill fuel vout value 0 s ≡ done s
unfolding fill
fill_zero zero vout value s = refl
fill_zero (suc fuel) vout value s = refl

fill_step :
    (fuel vout value remaining : ℕ) (s after : Flow) (r : SatRange)
    → 0 < remaining
    → next_range s.pending_input_sat_range s ≡ some (r, after)
    → fill (suc fuel) vout value remaining s ≡ (
        let a = assign remaining r (index_sat vout value remaining r after) in
        fill fuel vout value a.0 a.1)
unfolding fill
fill_step fuel vout value remaining s after r h e = rw (e, fill) (ground arith)

module _ (a b : ℕ) (rest : List SatRange) (s t : Flow) (remaining : ℕ)
    (e : source s ≡ (a, b) ∷ rest) (ok : AllStorable ((a, b) ∷ rest))
    (taken : Taken (a, b) rest s t) where
  abbrev after_split : Flow
  after_split = record t {
    pending_input_sat_range = some (a + remaining, b);
    sats = t.sats ++ store (a, a + remaining);
    sat_ranges_since_flush = t.sat_ranges_since_flush + 1;
    sat_ranges_written = t.sat_ranges_written + 1;
  }

  Filled-split : remaining < b - a → Filled remaining s after_split
  Filled-split k = record {
    got = (a, a + remaining) ∷ [];
    written = unfold store_all in rw (taken.kept, append-nil);
    exact = omega arith;
    storable = omega arith;
    left_storable = (omega arith, rw taken.remains ok.1);
    order =
        rw (taken.remains, e)
          (unfold expand_all in
            rw (
              expand_split a (a + remaining) b (omega arith) (omega arith),
              append-nil,
              append_assoc,
            ));
    fewer = rw (taken.remains, e) (omega arith);
    stored = taken.stored;
  }

  abbrev after_whole : Flow
  after_whole = record t {
    sats = t.sats ++ store (a, b);
    sat_ranges_written = t.sat_ranges_written + 1;
  }

  source_whole : source after_whole ≡ rest
  source_whole = source-Taken (a, b) rest s t taken

  Filled-whole :
      (s' : Flow)
      → b - a ≤ remaining
      → Filled (remaining - (b - a)) after_whole s'
      → Filled remaining s s'
  Filled-whole s' k f = record {
    got = (a, b) ∷ f.got;
    written = f.written ∙ (unfold store_all in rw (taken.kept, append_assoc));
    exact = omega (arith, f.exact);
    storable = (ok.0, f.storable);
    left_storable = f.left_storable;
    order = unfold expand_all in rw (append_assoc, f.order, source_whole, e);
    fewer =
        let l : length (source after_whole) ≡ length rest = ap length source_whole in
        let m : length (source s) ≡ suc (length rest) = ap length e in omega (arith, f.fewer);
    stored = λ h. f.stored (taken.stored h);
  }

-- With enough sats in the source, and fuel for each of its ranges, an output is filled.
pub fill_lem :
    (fuel vout value remaining : ℕ) (s : Flow) (src : List SatRange)
    → source s ≡ src
    → AllStorable src
    → remaining ≤ total_size src
    → length src ≤ fuel
    → (s' : Flow) × (fill fuel vout value remaining s ≡ done s') × Filled remaining s s'
fill_lem fuel vout value zero s src e ok fits fueled =
    (s, fill_zero fuel vout value s, Filled-nothing s (rw e ok))
fill_lem fuel vout value (suc n) s [] e ok fits fueled = absurd (omega arith)
fill_lem zero vout value (suc n) s (r ∷ rest) e ok fits fueled = absurd (omega arith)
fill_lem (suc fuel) vout value (suc n) s ((a, b) ∷ rest) e ok fits fueled =
    let (after, taken, h) = take_range s.pending_input_sat_range s (a, b) rest refl e in
    let t = index_sat vout value (suc n) (a, b) after in
    let k = index_sat-Taken vout value (suc n) (a, b) rest s after h in
    let step = fill_step fuel vout value (suc n) s after (a, b) (omega arith) taken in
    elim (dec_lt (suc n) (b - a)) [
      | yes split ↦ (
        after_split a b rest s t (suc n) e ok k,
        step ∙ (rw (assign_split (suc n) a b t ok.0 split) (fill_zero fuel vout value _)),
        Filled-split a b rest s t (suc n) e ok k split,
      )
      | no whole ↦
          let more =
            fill_lem fuel vout value (suc n - (b - a)) (after_whole a b rest s t (suc n) e ok k)
              rest (source_whole a b rest s t (suc n) e ok k) ok.1 (omega arith) (omega arith) in
          (
            more.0,
            step ∙ (rw (assign_whole (suc n) a b t ok.0 (omega arith)) more.1),
            Filled-whole a b rest s t (suc n) e ok k more.0 (omega arith) more.2,
          )
    ]
