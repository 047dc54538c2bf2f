-- ===== src/Storage/OtsOrder/First.antt =====
-- The walk finds an attestation that the fewest steps lead to.
use lord.Prelude.{
  ℕ, zero, suc, ◌+◌, ◌≤◌, some, List, [], ◌∷◌, ◌++◌, ◌≡◌, ◌⊎◌, refl, ap, ◌∙◌, arith, In, here,
  there,
}
use mathlib.Core.List.{append_assoc}
use mathlib.Core.Option.{some-injective}
use lord.Storage.OtsOrder.{
  Step, Steps, fork, op, attestation, nil, cons, Queue, no_attestation_sentinel, fork_entries,
  first_entry,
}
use lord.Storage.OtsOrder.Ends.{fork_entries-cons}

-- The step stands at this index among the steps.
pub data At : ℕ → Steps → Step → Type 0 where
  first : (step : Step) (rest : Steps) → At zero (cons step rest) step
  later :
      (index : ℕ) (other step : Step) (rest : Steps)
      → At index rest step
      → At (suc index) (cons other rest) step

-- From the step an attestation is reached, past the children of these indices at the forks, in as many
-- steps. An operation has one step next.
pub data Reaches : Step → List ℕ → ℕ → Type 0 where
  attested : (output : List ℕ) (next : Steps) → Reaches (attestation output next) [] zero
  applied :
      (output : List ℕ) (step : Step) (rest : Steps) (path : List ℕ) (depth : ℕ)
      → Reaches step path depth
      → Reaches (op output (cons step rest)) path (suc depth)
  forked :
      (output : List ℕ) (next : Steps) (index : ℕ) (child : Step) (path : List ℕ) (depth : ℕ)
      → At index next child
      → Reaches child path depth
      → Reaches (fork output next) (index ∷ path) (suc depth)

abbrev pub InQueue : Step → List ℕ → Queue → Type 0
InQueue step path queue = In {A = Step × List ℕ} (step, path) queue

-- An entry of the queue leads to an attestation of this key.
abbrev pub Leads : Queue → List ℕ → ℕ → Type 0
Leads queue k depth =
    (step : Step) × (path : List ℕ) × (below : List ℕ) × InQueue step path queue
    × Reaches step below depth
    × (k ≡ path ++ below)

-- No entry leads to one in fewer than `depth` steps, of which `saved` are behind it.
abbrev pub NoSooner : Queue → ℕ → ℕ → Type 0
NoSooner queue saved depth =
    (step : Step) (path below : List ℕ) (d : ℕ)
    → InQueue step path queue
    → Reaches step below d
    → depth ≤ saved + d

abbrev pub Bare : Queue → Type 0
Bare queue =
    (step : Step) (path below : List ℕ) (d : ℕ) → InQueue step path queue → ¬ Reaches step below d

-- The key of a queue whose entries `far` are one step behind those of `near`.
abbrev pub Found : Queue → Queue → List ℕ → Type 0
Found near far k =
    ((k ≡ no_attestation_sentinel) × Bare near × Bare far)
    ⊎ ((depth : ℕ) × (Leads near k depth ⊎ ((d : ℕ) × (depth ≡ suc d) × Leads far k d))
        × NoSooner near 0 depth
        × NoSooner far 1 depth)

-- What is pushed for a step are the steps behind it.
pub record IsNext (step : Step) (path : List ℕ) (more : Queue) : Type 0 where
  pub sound :
      (child : Step) (child_path below : List ℕ) (d : ℕ)
      → InQueue child child_path more
      → Reaches child below d
      → (below' : List ℕ) × Reaches step below' (suc d) × (child_path ++ below ≡ path ++ below')
  pub complete :
      (below : List ℕ) (d : ℕ)
      → Reaches step below d
      → (child : Step) × (child_path : List ℕ) × (below' : List ℕ) × (d' : ℕ) × InQueue child
          child_path more
        × Reaches child below' d'
        × (d ≡ suc d')

op_sound :
    (output : List ℕ) (step : Step) (rest : Steps) (path : List ℕ) (child : Step)
    (child_path below : List ℕ) (d : ℕ)
    → InQueue child child_path ((step, path) ∷ [])
    → Reaches child below d
    → (below' : List ℕ) × Reaches (op output (cons step rest)) below' (suc d)
      × (child_path ++ below ≡ path ++ below')
op_sound output step rest path _ _ below d (here _) r =
    (below, applied output step rest below d r, refl)
op_sound output step rest path child child_path below d (there _ _ m) r = elim m [ ]

op_complete :
    (output : List ℕ) (step : Step) (rest : Steps) (path below : List ℕ) (d : ℕ)
    → Reaches (op output (cons step rest)) below d
    → (child : Step) × (child_path : List ℕ) × (below' : List ℕ) × (d' : ℕ) × InQueue child
        child_path
        ((step, path) ∷ [])
      × Reaches child below' d'
      × (d ≡ suc d')
op_complete output step rest path below _ (applied _ _ _ _ d r) =
    (step, path, below, d, here [], r, refl)

pub op-IsNext :
    (output : List ℕ) (next : Steps) (path : List ℕ)
    → IsNext (op output next) path (first_entry next path)
unfolding first_entry
op-IsNext output nil path = record {
  sound = λ child child_path below d m r. elim m [ ];
  complete = λ below d r. elim r [ ];
}
op-IsNext output (cons step rest) path = record {
  sound =
      λ child child_path below d m r. op_sound output step rest path child child_path below d m r;
  complete = λ below d r. op_complete output step rest path below d r;
}

fork_entries-nil :
    (index : ℕ) (path : List ℕ) (more : Queue) → fork_entries index nil path ≡ some more → [] ≡ more
unfolding fork_entries
fork_entries-nil index path more h = some-injective _ _ h

fork_in :
    (index : ℕ) (next : Steps) (path : List ℕ) (more : Queue)
    → fork_entries index next path ≡ some more
    → (child : Step) (child_path : List ℕ) → InQueue child child_path more
    → (j : ℕ) × At j next child × (child_path ≡ path ++ (index + j) ∷ [])
fork_in index nil path more h child child_path m =
    let m' = rw (← fork_entries-nil index path more h) at m in elim m' [ ]
fork_in index (cons first_child rest) path more h child child_path m =
    let (entries, f, e) = fork_entries-cons index first_child rest path more h in
    split index first_child rest path entries child child_path (rw e at m)
      (fork_in (suc index) rest path entries f child child_path)
  where
    split :
        (index : ℕ) (first_child : Step) (rest : Steps) (path : List ℕ) (entries : Queue)
        (child : Step) (child_path : List ℕ)
        → InQueue child child_path ((first_child, path ++ index ∷ []) ∷ entries)
        → (InQueue child child_path entries
            → (j : ℕ) × At j rest child × (child_path ≡ path ++ (suc index + j) ∷ []))
        → (j : ℕ) × At j (cons first_child rest) child × (child_path ≡ path ++ (index + j) ∷ [])
    split index first_child rest path entries _ _ (here _) ih =
        let e : index ≡ index + 0 = omega arith in
        (0, first first_child rest, ap (λ (i : ℕ). path ++ i ∷ []) e)
    split index first_child rest path entries child child_path (there _ _ m) ih =
        let (j, at, e) = ih m in
        let f : suc index + j ≡ index + suc j = omega arith in
        (suc j, later j first_child child rest at, e ∙ ap (λ (i : ℕ). path ++ i ∷ []) f)

fork_at :
    (index : ℕ) (next : Steps) (path : List ℕ) (more : Queue)
    → fork_entries index next path ≡ some more
    → (j : ℕ) (child : Step) → At j next child
    → (child_path : List ℕ) × InQueue child child_path more
fork_at index _ path more h _ child (first _ rest) =
    let (entries, f, e) = fork_entries-cons index child rest path more h in
    (path ++ index ∷ [], rw e (here entries))
fork_at index _ path more h _ child (later j other _ rest at) =
    let (entries, f, e) = fork_entries-cons index other rest path more h in
    let (child_path, m) = fork_at (suc index) rest path entries f j child at in
    (child_path, rw e (there (other, path ++ index ∷ []) entries m))

joined :
    (child_path path below : List ℕ) (j : ℕ)
    → child_path ≡ path ++ (0 + j) ∷ []
    → child_path ++ below ≡ path ++ j ∷ below
joined child_path path below j e =
    let zero_add : 0 + j ≡ j = omega arith in
    let f : child_path ≡ path ++ j ∷ [] = e ∙ ap (λ (i : ℕ). path ++ i ∷ []) zero_add in
    rw f (append_assoc path (j ∷ []) below)

pub fork-IsNext :
    (output : List ℕ) (next : Steps) (path : List ℕ) (more : Queue)
    → fork_entries 0 next path ≡ some more
    → IsNext (fork output next) path more
fork-IsNext output next path more h = record {
  sound = λ child child_path below d m r.
      let (j, at, e) = fork_in 0 next path more h child child_path m in
      (j ∷ below, forked output next j child below d at r, joined child_path path below j e);
  complete = λ below d r. fork_complete below d r;
}
  where
    fork_complete :
        (below : List ℕ) (d : ℕ)
        → Reaches (fork output next) below d
        → (child : Step) × (child_path : List ℕ) × (below' : List ℕ) × (d' : ℕ) × InQueue child
            child_path more
          × Reaches child below' d'
          × (d ≡ suc d')
    fork_complete _ _ (forked _ _ j child below d at r) =
        let (child_path, m) = fork_at 0 next path more h j child at in
        (child, child_path, below, d, m, r, refl)
