-- ===== src/Wallet/Endings.antt =====
-- When a step of the transaction builder ends, and that the selection of an output does.
use lord.Prelude.{
  ℕ, ◌<◌, Bool, true, false, Option, none, some, List, [], ◌∷◌, ◌≡◌, ◌≢◌, refl, length,
  if◌then◌else◌,
}
use lord.Wallet.{
  TxOut, TransactionBuilder, Outcome, ok, err, panic, diverged, Error, ◌>>=◌, check, refuse, unwrap,
  ok_or, amount_of, length-remove_lt,
}
use lord.Wallet.Cardinal.{visit, best_of, select_cardinal_utxo}
use lord.Wallet.Best.{select_cardinal_utxo-ok}

module _ {ℓ} {A : Type ℓ} where
  abbrev pub Ends : Outcome A → Type ℓ
  Ends m = m ≢ diverged

  pub ok-Ends : (a : A) → Ends (ok a)
  ok-Ends a h = absurd cc

  pub unwrap-Ends : (o : Option A) → Ends (unwrap o)
  unwrap-Ends none h = absurd cc
  unwrap-Ends (some a) h = absurd cc

  pub ok_or-Ends : (o : Option A) (e : Error) → Ends (ok_or o e)
  ok_or-Ends none e h = absurd cc
  ok_or-Ends (some a) e h = absurd cc

pub check-Ends : (c : Bool) → Ends (check c)
check-Ends true h = absurd cc
check-Ends false h = absurd cc

pub refuse-Ends : (c : Bool) (e : Error) → Ends (refuse c e)
refuse-Ends true e h = absurd cc
refuse-Ends false e h = absurd cc

module _ {ℓ κ} {A : Type ℓ} {B : Type κ} where
  pub >>=-Ends_ok :
      (m : Outcome A) (f : A → Outcome B)
      → Ends m
      → ((a : A) → m ≡ ok a → Ends (f a))
      → Ends (m >>= f)
  >>=-Ends_ok (ok a) f hm hf h = hf a refl h
  >>=-Ends_ok (err e) f hm hf h = absurd cc
  >>=-Ends_ok panic f hm hf h = absurd cc
  >>=-Ends_ok diverged f hm hf h = hm refl

  pub >>=-Ends :
      {m : Outcome A} {f : A → Outcome B} → Ends m → ((a : A) → Ends (f a)) → Ends (m >>= f)
  >>=-Ends {m} {f} hm hf = >>=-Ends_ok m f hm (λ a _. hf a)

pub if-Ends {ℓ} :
    {A : Type ℓ} (c : Bool) {x y : Outcome A} → Ends x → Ends y → Ends (if c then x else y)
if-Ends true hx hy = hx
if-Ends false hx hy = hy

pub ruleset ends = (ok-Ends, unwrap-Ends, ok_or-Ends, check-Ends, refuse-Ends, >>=-Ends, if-Ends)

pub amount_of-Ends : (amounts : List (ℕ × TxOut)) (outpoint : ℕ) → Ends (amount_of amounts outpoint)
unfolding amount_of
amount_of-Ends amounts outpoint = search ends

pub visit-Ends :
    (b : TransactionBuilder) (target : ℕ) (prefer_under : Bool) (utxo : ℕ) (best : Option (ℕ × ℕ))
    → Ends (visit b target prefer_under utxo best)
unfolding visit
visit-Ends b target prefer_under utxo best = search (ends, amount_of-Ends)

pub best_of-Ends :
    (b : TransactionBuilder) (target : ℕ) (prefer_under : Bool) (utxos : List ℕ)
    (best : Option (ℕ × ℕ))
    → Ends (best_of b target prefer_under utxos best)
unfolding best_of
best_of-Ends b target prefer_under [] best = ok-Ends best
best_of-Ends b target prefer_under (utxo ∷ utxos) best =
    >>=-Ends (visit-Ends b target prefer_under utxo best)
      (λ next. best_of-Ends b target prefer_under utxos next)

pub select_cardinal_utxo-Ends :
    (target : ℕ) (prefer_under : Bool) (b : TransactionBuilder)
    → Ends (select_cardinal_utxo target prefer_under b)
unfolding select_cardinal_utxo
select_cardinal_utxo-Ends target prefer_under b = search (ends, best_of-Ends)

pub select_cardinal_utxo_shrinks :
    (target : ℕ) (prefer_under : Bool) (b : TransactionBuilder)
    (found : (ℕ × ℕ) × TransactionBuilder)
    → select_cardinal_utxo target prefer_under b ≡ ok found
    → length (found.1).utxos < length b.utxos
select_cardinal_utxo_shrinks target prefer_under b found h =
    let (m, _, _, e, _) =
      select_cardinal_utxo-ok b target prefer_under found.0.0 found.0.1 found.1 h in
    rw e (length-remove_lt found.0.0 b.utxos m)
