-- ===== src/Market/Settlement/Passed.antt =====
-- What it means to pass the challenge of a settlement (crates/lord-market/src/settlement.rs).
use lord.Prelude.{ℕ, ◌<◌, ◌≡◌, true, Option, none, some}
use lord.Market.Store.{MarketStore, put_challenge_proof}
use lord.Market.Settlement.{World, is_some}

-- The challenge that the options ask for: a proof kept before, or one made now at the sample rate.
abbrev pub Passed : World → ℕ → Option ℕ → MarketStore → MarketStore → Type 0
Passed world bao_root none before after =
    (is_some (before.challenge_proofs bao_root) ≡ true) × (after ≡ before)
Passed world bao_root (some rate) before after =
    (0 < rate)
    × ((slices : ℕ) × (world.verify_commitment bao_root rate ≡ some slices)
        × (after
            ≡ put_challenge_proof
                (record {
                  bao_root = bao_root;
                  verified_at = world.now;
                  slices_verified = slices;
                  sample_rate = rate;
                })
                before))
