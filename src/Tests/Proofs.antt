-- ===== src/Tests/Proofs.antt =====
-- The order key of a fork whose second child is attested at once.
use lord.Prelude.{ℕ, ◌≤◌, ◌≡◌, ◌≢◌, ◌⊎◌, refl, [], ◌∷◌, List}
use lord.Storage.OtsOrder.{
  Step, fork, op, attestation, nil, cons, key, diverged, no_attestation_sentinel, fork_entries,
  first_entry, push_back, visit, walk, size, order_key_from_timestamp,
}
use lord.Storage.OtsOrder.First.{Reaches}
use lord.Storage.OtsOrder.Nearest.{order_key_from_timestamp-nearest}
use lord.Storage.OtsOrder.Ends.{order_key_from_timestamp-ne-diverged}

abbrev attested_step : Step
attested_step = attestation (1 ∷ []) nil

abbrev forked_proof : Step
forked_proof = fork [] (cons (op [] (cons attested_step nil)) (cons attested_step nil))

forked_key : order_key_from_timestamp forked_proof ≡ key (1 ∷ [])
unfolding order_key_from_timestamp walk visit push_back fork_entries first_entry size
forked_key = refl

order_key_from_timestamp-nearest_example :
    ((1 ∷ [] ≡ no_attestation_sentinel)
      × ((below : List ℕ) (d : ℕ) → ¬ Reaches forked_proof below d))
    ⊎ ((depth : ℕ) × Reaches forked_proof (1 ∷ []) depth
        × ((below : List ℕ) (d : ℕ) → Reaches forked_proof below d → depth ≤ d))
order_key_from_timestamp-nearest_example =
    order_key_from_timestamp-nearest forked_proof (1 ∷ []) forked_key

order_key_from_timestamp-ne-diverged_example : order_key_from_timestamp forked_proof ≢ diverged
order_key_from_timestamp-ne-diverged_example = order_key_from_timestamp-ne-diverged forked_proof
