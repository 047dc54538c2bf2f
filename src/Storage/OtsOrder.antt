-- ===== src/Storage/OtsOrder.antt =====
-- crates/lord-storage/src/ots_order.rs: the order key of an OpenTimestamps proof. A step's operation or
-- attestation, which come from the crate opentimestamps, and the parser of a file of it are left out. The
-- queue is a list, its front first.
pub mod Ends
pub mod First
pub mod Nearest
use lord.Prelude.{
  ℕ, zero, suc, ◌+◌, ltb, ◌==◌, Bool, true, false, Option, none, some, List, [], ◌∷◌, ◌++◌,
  replicate, if◌then◌else◌,
}
use lord.Prelude.Monad.{◌>>=◌}

-- `Step` with the kinds of its `StepData`, its output and the steps that are next.
mutual
  pub data Step : Type 0 where
    fork : List ℕ → Steps → Step
    op : List ℕ → Steps → Step
    attestation : List ℕ → Steps → Step

  pub data Steps : Type 0 where
    nil : Steps
    cons : Step → Steps → Steps

-- A key, the panic on a child's index above a byte, or a loop whose fuel ran out.
pub data Walk : Type 0 where
  key : List ℕ → Walk
  panic diverged : Walk

-- `u64::MAX.to_be_bytes()`
abbrev pub no_attestation_sentinel : List ℕ
no_attestation_sentinel = replicate 8 255

abbrev pub Queue : Type 0
Queue = List (Step × List ℕ)

-- The children of a fork from this index on, with their paths, `none` for a panic.
unfoldable pub fork_entries : ℕ → Steps → List ℕ → Option Queue
fork_entries index nil path = some []
fork_entries index (cons child rest) path =
    let entries =
      (fork_entries (suc index) rest path >>= λ more. some ((child, path ++ index ∷ []) ∷ more)) in
    if ltb index 256 then entries else none

unfoldable pub first_entry : Steps → List ℕ → Queue
first_entry nil path = []
first_entry (cons step rest) path = (step, path) ∷ []

unfoldable pub push_back : Option Queue → Queue → (Queue → Walk) → Walk
push_back none queue loop = panic
push_back (some more) queue loop = loop (queue ++ more)

-- A round behind `pop_front`, and the rest of the loop.
unfoldable pub visit : Step → List ℕ → Queue → (Queue → Walk) → Walk
visit (attestation output next) path queue loop = key path
visit (fork output next) path queue loop = push_back (fork_entries 0 next path) queue loop
visit (op output next) path queue loop = push_back (some (first_entry next path)) queue loop

unfoldable pub walk : ℕ → Queue → Walk
walk zero queue = diverged
walk (suc fuel) [] = key no_attestation_sentinel
walk (suc fuel) ((step, path) ∷ queue) = visit step path queue (walk fuel)

-- The steps below a step and itself: the rounds of the loop.
unfoldable mutual
  pub size : Step → ℕ
  size (fork output next) = suc (size_all next)
  size (op output next) = suc (size_all next)
  size (attestation output next) = suc (size_all next)

  pub size_all : Steps → ℕ
  size_all nil = 0
  size_all (cons step rest) = size step + size_all rest

unfoldable pub order_key_from_timestamp : Step → Walk
unfolding size
order_key_from_timestamp first_step = walk (suc (size first_step)) ((first_step, []) ∷ [])

-- `compare_order_keys`: the lexicographic order of the bytes, here whether the first key is less.
unfoldable pub key_lt : List ℕ → List ℕ → Bool
key_lt [] [] = false
key_lt [] (b ∷ bs) = true
key_lt (a ∷ rest) [] = false
key_lt (a ∷ rest) (b ∷ bs) = if ltb a b then true else if a == b then key_lt rest bs else false
