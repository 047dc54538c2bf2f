-- ===== src/Wallet/Best.antt =====
-- What `select_cardinal_utxo` selects.
use lord.Prelude.{
  ℕ, Bool, true, false, Option, none, some, List, [], ◌∷◌, ◌≡◌, ◌≢◌, refl, sym, ap, ◌∙◌, Bool-cases,
  if◌then◌else◌, ◌⊎◌, inl, inr,
}
use mathlib.Core.Option.{some-injective}
use lord.Wallet.{
  TransactionBuilder, Error, ok, err, not_enough_cardinal_utxos, amount_of, contains, remove,
  >>=-eq-ok, >>=-eq-err, contains-cons, contains_head, contains_tail,
}
use lord.Wallet.Cardinal.{
  is_cardinal, replaces, previous, visit, best_of, take_utxo, select_cardinal_utxo,
}
use lord.Wallet.Serves.{
  Serves, Serves-refl, Serves-trans, chosen, chosen-Serves, visit-ok, visit-ne-err,
}

module _ (b : TransactionBuilder) (target : ℕ) (prefer_under : Bool) where
  -- Where the match comes from: from before the loop, or from the outputs that it visits.
  abbrev Origin : List ℕ → Option (ℕ × ℕ) → ℕ × ℕ → Type 0
  Origin utxos best found =
      (best ≡ some found)
      ⊎ ((contains utxos found.0 ≡ true)
          × (is_cardinal b found.0 ≡ true)
          × (amount_of b.amounts found.0 ≡ ok found.1))

  abbrev ServesAll : List ℕ → ℕ → Type 0
  ServesAll utxos value =
      (w x : ℕ)
      → contains utxos w ≡ true
      → is_cardinal b w ≡ true
      → amount_of b.amounts w ≡ ok x
      → Serves prefer_under target value x

  abbrev IsFound : List ℕ → Option (ℕ × ℕ) → Option (ℕ × ℕ) → Type 0
  IsFound utxos best none =
      (best ≡ none) × ((w : ℕ) → contains utxos w ≡ true → is_cardinal b w ≡ false)
  IsFound utxos best (some found) =
      Origin utxos best found
      × ServesAll utxos found.1
      × ((before : ℕ × ℕ) → best ≡ some before → Serves prefer_under target found.1 before.1)

  start-IsFound : (best : Option (ℕ × ℕ)) → IsFound [] best best
  unfolding contains
  start-IsFound none = (refl, λ w h. absurd cc)
  start-IsFound (some found) = (
    inl refl,
    λ w x h. absurd cc,
    λ before e.
        rw (ap (λ (p : ℕ × ℕ). p.1) (some-injective _ _ e))
          (Serves-refl prefer_under target before.1),
  )

  skip-IsFound :
      (utxo : ℕ) (utxos : List ℕ) (best found : Option (ℕ × ℕ))
      → is_cardinal b utxo ≡ false
      → IsFound utxos best found
      → IsFound (utxo ∷ utxos) best found
  skip-IsFound utxo utxos best none e h = (
    h.0,
    λ w m. elim (contains-cons utxo w utxos m) [ inl same ↦ rw same at e | inr rest ↦ h.1 w rest ],
  )
  skip-IsFound utxo utxos best (some found) e h = (
    elim h.0 [ inl old ↦ inl old | inr new ↦ inr (contains_tail utxo _ utxos new.0, new.1, new.2) ],
    λ w x m c a. elim (contains-cons utxo w utxos m) [
      | inl same ↦ absurd cc
      | inr rest ↦ h.1 w x rest c a
    ],
    h.2,
  )

  -- The match before, or the output itself.
  abbrev Chosen : ℕ → ℕ → Option (ℕ × ℕ) → ℕ × ℕ → Type 0
  Chosen utxo current best next =
      ((best ≡ some next) ⊎ (next ≡ (utxo, current)))
      × Serves prefer_under target next.1 current
      × ((before : ℕ × ℕ) → best ≡ some before → Serves prefer_under target next.1 before.1)

  pick : ℕ → ℕ → Option (ℕ × ℕ) → ℕ × ℕ
  pick utxo current best =
      if replaces prefer_under target (previous best (utxo, current)).1 current
      then (utxo, current)
      else previous best (utxo, current)

  choice :
      (utxo current : ℕ) (best : Option (ℕ × ℕ)) → Chosen utxo current best (pick utxo current best)
  unfolding pick previous chosen
  choice utxo current none = elim (Bool-cases (replaces prefer_under target current current)) [
    | inl e ↦ rw e (inr refl, Serves-refl prefer_under target current, λ before h. absurd cc)
    | inr e ↦ rw e (inr refl, Serves-refl prefer_under target current, λ before h. absurd cc)
  ]
  choice utxo current (some best) =
      let both = chosen-Serves prefer_under target best.1 current in
      elim (Bool-cases (replaces prefer_under target best.1 current)) [
        | inl e ↦
            let both' = rw (e, chosen) at both in
            rw e (
              inr refl,
              both'.1,
              λ before h. rw (← ap (λ (p : ℕ × ℕ). p.1) (some-injective _ _ h)) both'.0,
            )
        | inr e ↦
            let both' = rw (e, chosen) at both in
            rw e (
              inl refl,
              both'.1,
              λ before h. rw (← ap (λ (p : ℕ × ℕ). p.1) (some-injective _ _ h)) both'.0,
            )
      ]

  take-IsFound :
      (utxo current : ℕ) (utxos : List ℕ) (best : Option (ℕ × ℕ)) (next : ℕ × ℕ)
      (found : Option (ℕ × ℕ))
      → is_cardinal b utxo ≡ true
      → amount_of b.amounts utxo ≡ ok current
      → Chosen utxo current best next
      → IsFound utxos (some next) found
      → IsFound (utxo ∷ utxos) best found
  take-IsFound utxo current utxos best next none c a ch h = absurd cc
  take-IsFound utxo current utxos best next (some found) c a ch h = (
    elim h.0 [
      | inl same ↦
          let e = some-injective _ _ same in
          elim ch.0 [
            | inl old ↦ inl (rw e at old)
            | inr new ↦ let f = sym e ∙ new in inr (rw f (contains_head utxo utxos), rw f c, rw f a)
          ]
      | inr new ↦ inr (contains_tail utxo _ utxos new.0, new.1, new.2)
    ],
    λ w x m cw aw. elim (contains-cons utxo w utxos m) [
      | inl same ↦
          let e : current ≡ x = cc in
          rw (← e) (Serves-trans prefer_under target found.1 next.1 current (h.2 next refl) ch.1)
      | inr rest ↦ h.1 w x rest cw aw
    ],
    λ before e.
        Serves-trans prefer_under target found.1 next.1 before.1 (h.2 next refl) (ch.2 before e),
  )

  best_of-IsFound :
      (utxos : List ℕ) (best found : Option (ℕ × ℕ))
      → best_of b target prefer_under utxos best ≡ ok found
      → IsFound utxos best found
  unfolding best_of pick
  best_of-IsFound [] best found h = let e : best ≡ found = cc in rw (← e) (start-IsFound best)
  best_of-IsFound (utxo ∷ utxos) best found h =
      let (next, v, rest) = >>=-eq-ok (visit b target prefer_under utxo best) _ h in
      let ih = best_of-IsFound utxos next found rest in
      elim (visit-ok b target prefer_under utxo best next v) [
        | inl (skipped, same) ↦ skip-IsFound utxo utxos best found skipped (rw same at ih)
        | inr (current, cardinal, amount, taken) ↦
            take-IsFound utxo current utxos best (pick utxo current best) found cardinal amount
              (choice utxo current best) (rw taken at ih)
      ]

  take_utxo-ok :
      (found : Option (ℕ × ℕ)) (utxo value : ℕ) (b' : TransactionBuilder)
      → IsFound b.utxos none found
      → take_utxo b found ≡ ok ((utxo, value), b')
      → (contains b.utxos utxo ≡ true)
        × (is_cardinal b utxo ≡ true)
        × (amount_of b.amounts utxo ≡ ok value)
        × (b' ≡ record b { utxos = remove utxo b.utxos })
        × ServesAll b.utxos value
  unfolding take_utxo
  take_utxo-ok none utxo value b' f e = absurd cc
  take_utxo-ok (some (u, v)) utxo value b' f e =
      let first : u ≡ utxo = cc in
      let second : v ≡ value = cc in
      let state : record b { utxos = remove u b.utxos } ≡ b' = cc in
      rw (← state, ← first, ← second)
        (elim f.0 [ inl old ↦ absurd cc | inr (m, c, a) ↦ (m, c, a, refl, f.1) ])

  take_utxo-err :
      (found : Option (ℕ × ℕ)) (e : Error)
      → IsFound b.utxos none found
      → take_utxo b found ≡ err e
      → (e ≡ not_enough_cardinal_utxos)
        × ((w : ℕ) → contains b.utxos w ≡ true → is_cardinal b w ≡ false)
  unfolding take_utxo
  take_utxo-err none e f h = (cc, f.1)
  take_utxo-err (some best) e f h = absurd cc

  best_of-ne-err :
      (utxos : List ℕ) (best : Option (ℕ × ℕ)) (e : Error)
      → best_of b target prefer_under utxos best ≢ err e
  unfolding best_of
  best_of-ne-err [] best e h = absurd cc
  best_of-ne-err (utxo ∷ utxos) best e h =
      elim (>>=-eq-err (visit b target prefer_under utxo best) _ h) [
        | inl failed ↦ visit-ne-err b target prefer_under utxo best e failed
        | inr (next, visited, rest) ↦ best_of-ne-err utxos next e rest
      ]

  -- The selected output is one of the unspent outputs of the wallet without runes, inscription or lock,
  -- with its amount, it is removed from them and nothing else changes, and no other such output serves
  -- better: where smaller ones are preferred none of at most the target is larger, and one above the target
  -- is selected only if it is the smallest of all; otherwise none of at least the target is smaller, and
  -- one below is selected only if it is the largest of all.
  pub select_cardinal_utxo-ok :
      (utxo value : ℕ) (b' : TransactionBuilder)
      → select_cardinal_utxo target prefer_under b ≡ ok ((utxo, value), b')
      → (contains b.utxos utxo ≡ true)
        × (is_cardinal b utxo ≡ true)
        × (amount_of b.amounts utxo ≡ ok value)
        × (b' ≡ record b { utxos = remove utxo b.utxos })
        × ((w x : ℕ)
            → contains b.utxos w ≡ true
            → is_cardinal b w ≡ true
            → amount_of b.amounts w ≡ ok x
            → Serves prefer_under target value x)
  unfolding select_cardinal_utxo
  select_cardinal_utxo-ok utxo value b' h =
      let (found, scanned, rest) = >>=-eq-ok (best_of b target prefer_under b.utxos none) _ h in
      take_utxo-ok found utxo value b' (best_of-IsFound b.utxos none found scanned) rest

  -- An error value is `not_enough_cardinal_utxos`, and then the wallet has no such output left: each
  -- unspent output has runes, an inscription or a lock.
  pub select_cardinal_utxo-err :
      (e : Error)
      → select_cardinal_utxo target prefer_under b ≡ err e
      → (e ≡ not_enough_cardinal_utxos)
        × ((w : ℕ) → contains b.utxos w ≡ true → is_cardinal b w ≡ false)
  unfolding select_cardinal_utxo take_utxo
  select_cardinal_utxo-err e h =
      elim (>>=-eq-err (best_of b target prefer_under b.utxos none) _ h) [
        | inl failed ↦ absurd (best_of-ne-err b.utxos none e failed)
        | inr (found, scanned, rest) ↦
            take_utxo-err found e (best_of-IsFound b.utxos none found scanned) rest
      ]
