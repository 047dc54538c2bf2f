-- ===== src/Ltp/Mempool.antt =====
-- crates/lord-ltp/src/mempool.rs: three queues of entries, saved to a file after each change. Whether
-- a save succeeds is an argument (`saved`); a failed save leaves the change in memory. A digest of 32
-- bytes is the number that the bytes write.
pub mod SoundQueue
pub mod Sound
pub mod Prune
pub mod Priority
use lord.Prelude.{
  ℕ, zero, suc, ◌+◌, ◌-◌, Bool, true, false, ◌||◌, ◌&&◌, Option, none, some, List, [], ◌∷◌, ◌++◌,
  map, length, take, drop, leb, ltb, min, ◌==◌, if◌then◌else◌,
}
use lord.Ltp.Chain.{LtpChain, ChainProfile, chain_profile}

pub data LtpQueueKind : Type 0 where
  commitment storage market : LtpQueueKind

pub record LtpMempoolEntry : Type 0 where
  pub bao_root : ℕ
  pub start_digest : ℕ
  pub enqueued_at : ℕ
  pub priority : ℕ
  pub queue : LtpQueueKind

abbrev pub Entries : Type 0
Entries = List LtpMempoolEntry

pub record MempoolSnapshot : Type 0 where
  pub commitment : Entries
  pub storage : Entries
  pub market : Entries

pub record LtpMempool : Type 0 where
  pub profile : ChainProfile
  pub snapshot : MempoolSnapshot

pub record LtpMempoolStatus : Type 0 where
  pub commitment : ℕ
  pub storage : ℕ
  pub market : ℕ
  pub max_depth : ℕ
  pub ttl_secs : ℕ

pub data Error : Type 0 where
  at_max_depth save_failed : Error

-- What an operation returns, with the mempool it leaves.
pub data Outcome {ℓ} (A : Type ℓ) : Type ℓ where
  ok : A → LtpMempool → Outcome A
  err : Error → LtpMempool → Outcome A

abbrev pub after {ℓ} : {A : Type ℓ} → Outcome A → LtpMempool
after (ok a mempool) = mempool
after (err e mempool) = mempool

-- `open` on a directory without a file
unfoldable pub fresh : LtpChain → LtpMempool
unfolding chain_profile
fresh chain = record {
  profile = chain_profile chain;
  snapshot = record { commitment = []; storage = []; market = [] };
}

unfoldable pub queue : LtpQueueKind → MempoolSnapshot → Entries
queue commitment snapshot = snapshot.commitment
queue storage snapshot = snapshot.storage
queue market snapshot = snapshot.market

-- A write through `queue_mut`
unfoldable pub queue_mut : LtpQueueKind → Entries → MempoolSnapshot → MempoolSnapshot
queue_mut commitment entries snapshot = record snapshot { commitment = entries }
queue_mut storage entries snapshot = record snapshot { storage = entries }
queue_mut market entries snapshot = record snapshot { market = entries }

unfoldable pub status : LtpMempool → LtpMempoolStatus
status mempool = record {
  commitment = length mempool.snapshot.commitment;
  storage = length mempool.snapshot.storage;
  market = length mempool.snapshot.market;
  max_depth = mempool.profile.max_depth;
  ttl_secs = mempool.profile.ttl_secs;
}

unfoldable pub len : LtpQueueKind → LtpMempool → ℕ
unfolding queue
len kind mempool = length (queue kind mempool.snapshot)

-- `self.save()?; Ok(result)`
unfoldable pub save {ℓ} : {A : Type ℓ} → Bool → A → LtpMempool → Outcome A
save saved result mempool = if saved then ok result mempool else err save_failed mempool

-- `iter().any(|e| e.start_digest == digest)`
unfoldable pub any_start : ℕ → Entries → Bool
any_start digest [] = false
any_start digest (e ∷ entries) = if e.start_digest == digest then true else any_start digest entries

unfoldable pub with_entries : LtpQueueKind → Entries → LtpMempool → LtpMempool
unfolding queue_mut
with_entries kind entries mempool = record mempool {
  snapshot = queue_mut kind entries mempool.snapshot;
}

unfoldable pub enqueue : Bool → LtpMempoolEntry → LtpMempool → Outcome Bool
enqueue saved entry mempool =
    let entries = queue entry.queue mempool.snapshot in
    if any_start entry.start_digest entries
    then ok false mempool
    else if leb mempool.profile.max_depth (length entries)
    then err at_max_depth mempool
    else save saved true (with_entries entry.queue (entries ++ (entry ∷ [])) mempool)

unfoldable pub drain : Bool → LtpQueueKind → ℕ → LtpMempool → Outcome Entries
drain saved kind max mempool =
    let entries = queue kind mempool.snapshot in
    let n = min (length entries) max in
    let drained = take n entries in
    let left = with_entries kind (drop n entries) mempool in
    if length drained == 0 then ok drained left else save saved drained left

-- `retain(|e| e.enqueued_at >= cutoff)`
unfoldable pub retain : ℕ → Entries → Entries
retain cutoff [] = []
retain cutoff (e ∷ entries) =
    if leb cutoff e.enqueued_at then e ∷ retain cutoff entries else retain cutoff entries

unfoldable pub retain_all : ℕ → MempoolSnapshot → MempoolSnapshot
retain_all cutoff s = record {
  commitment = retain cutoff s.commitment;
  storage = retain cutoff s.storage;
  market = retain cutoff s.market;
}

-- `now` is the clock; a clock before the epoch, an error, is left out.
unfoldable pub prune_expired : Bool → ℕ → LtpMempool → Outcome ℕ
prune_expired saved now mempool =
    let s = mempool.snapshot in
    let pruned = retain_all (now - mempool.profile.ttl_secs) s in
    let removed =
      length s.commitment
      - length pruned.commitment
      + (length s.storage - length pruned.storage)
      + (length s.market - length pruned.market) in
    let left = record mempool { snapshot = pruned } in
    if ltb 0 removed then save saved removed left else ok removed left

-- `position` and `Vec::remove`: the list without the first match, if there is one.
unfoldable pub remove_first : ℕ → Entries → Option Entries
remove_first digest [] = none
remove_first digest (e ∷ entries) =
    let later : Option Entries = (elim (remove_first digest entries) [
      | none ↦ none
      | some rest ↦ some (e ∷ rest)
    ]) in
    if e.start_digest == digest then some entries else later

unfoldable pub remove_start_digest : Bool → LtpQueueKind → ℕ → LtpMempool → Outcome Bool
remove_start_digest saved kind start_digest mempool =
    elim (remove_first start_digest (queue kind mempool.snapshot)) [
      | none ↦ ok false mempool
      | some rest ↦ save saved true (with_entries kind rest mempool)
    ]

-- The order of the sort: higher priority first, then older first.
unfoldable pub before : LtpMempoolEntry → LtpMempoolEntry → Bool
before left right =
    ltb right.priority left.priority
    || ((left.priority == right.priority) && leb left.enqueued_at right.enqueued_at)

-- `sort_by`, which is stable: equal entries keep their order.
unfoldable pub insert : LtpMempoolEntry → Entries → Entries
insert entry [] = entry ∷ []
insert entry (e ∷ entries) =
    if before entry e then entry ∷ e ∷ entries else e ∷ insert entry entries

unfoldable pub sort : Entries → Entries
sort [] = []
sort (e ∷ entries) = insert e (sort entries)

abbrev pub start_digests : Entries → List ℕ
start_digests [] = []
start_digests (e ∷ entries) = e.start_digest ∷ start_digests entries

unfoldable pub commitment_start_digests : LtpMempool → List ℕ
commitment_start_digests mempool = start_digests (sort mempool.snapshot.commitment)
