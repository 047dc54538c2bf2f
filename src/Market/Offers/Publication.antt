-- ===== src/Market/Offers/Publication.antt =====
-- What the publication of an offer leaves in the database of offers.
use lord.Prelude.{
  ℕ, ltb, ◌<◌, ◌&&◌, Bool, true, false, Option, none, some, List, ◌≡◌, ◌≢◌, ◌↔◌, if◌then◌else◌,
  refl, ◌⊎◌, inl, inr, In, arith, Bool-cases, Option-cases, ltb→lt,
}
use lord.Market.Store.{MarketNamespace, public_offers, odd_offers}
use lord.Market.Request.{
  MarketSettings, Error, Result, err, ok, no_capacity, encrypted_and_open, no_offer_id,
}
use lord.Market.Offers.{
  ProviderOffer, PublishOfferOptions, OfferDb, unwrap_or, new_offer, check_offer, put_offer,
  get_offer, list_offers_in_namespace, publish_provider_offer,
}
use lord.Market.Offers.Listed.{
  list_offers_in_namespace-get_offer, get_offer-put_offer, get_offer-put_offer_other,
  list_offers_in_namespace-put_offer,
}

-- What an accepted publication leaves.
pub record Published (db : OfferDb) (settings : MarketSettings) (options : PublishOfferOptions)
    (offer : ProviderOffer) (before after : db.Offers) : Type 0 where
  pub room : 0 < options.capacity_gib
  pub capacity : offer.capacity_gib ≡ options.capacity_gib
  pub exclusive : (offer.encrypted_only && offer.open_to_unencrypted) ≡ false
  pub chosen_namespace : (n : MarketNamespace) → options.namespace ≡ some n → offer.namespace ≡ n
  pub default_namespace :
      options.namespace ≡ none
      → offer.namespace ≡ (if offer.encrypted_only then odd_offers else public_offers)
  pub stored : get_offer db offer.namespace offer.offer_id after ≡ some offer
  pub others :
      (n : MarketNamespace) (id : List ℕ)
      → ¬ ((n ≡ offer.namespace) × (id ≡ offer.offer_id))
      → get_offer db n id after ≡ get_offer db n id before
  pub shown : In offer (list_offers_in_namespace db offer.namespace after)
  pub apart :
      (n : MarketNamespace) (listed : ProviderOffer)
      → n ≢ offer.namespace
      → In listed (list_offers_in_namespace db n after)
        ↔ In listed (list_offers_in_namespace db n before)

-- Why an offer is refused.
abbrev pub Refusal : MarketSettings → PublishOfferOptions → Option (List ℕ) → Type 0
unfolding unwrap_or
Refusal settings options offer_id =
    (options.capacity_gib ≡ 0)
    ⊎ (((unwrap_or settings.encrypted_only_preference options.encrypted_only ≡ true)
          × (unwrap_or settings.open_to_unencrypted options.open_to_unencrypted ≡ true))
        ⊎ (offer_id ≡ none))

abbrev pub Outcome :
    (db : OfferDb)
    → MarketSettings
    → PublishOfferOptions
    → Option (List ℕ)
    → db.Offers
    → Result ProviderOffer × db.Offers
    → Type 0
Outcome db settings options offer_id before (err e, after) =
    Refusal settings options offer_id × (after ≡ before)
Outcome db settings options offer_id before (ok offer, after) =
    Published db settings options offer before after

check_offer_cases :
    (settings : MarketSettings) (options : PublishOfferOptions) (offer_id : Option (List ℕ))
    (created_at : ℕ)
    → ((e : Error) × (check_offer settings options offer_id created_at ≡ err e)
        × Refusal settings options offer_id)
      ⊎ ((id : List ℕ) × (check_offer settings options offer_id created_at
            ≡ ok (new_offer settings options id created_at))
          × (0 < options.capacity_gib)
          × ((unwrap_or settings.encrypted_only_preference options.encrypted_only
                && unwrap_or settings.open_to_unencrypted options.open_to_unencrypted)
              ≡ false))
unfolding check_offer
check_offer_cases settings options offer_id created_at =
    elim (Bool-cases (ltb 0 options.capacity_gib)) [
      | inr c ↦ inl (no_capacity, rw c refl, inl (ground arith))
      | inl c ↦
          elim (Bool-cases (
            unwrap_or settings.encrypted_only_preference options.encrypted_only
            && unwrap_or settings.open_to_unencrypted options.open_to_unencrypted)) [
              | inl b ↦ inl (encrypted_and_open, rw (c, b) refl, inr (inl (both _ _ b)))
              | inr b ↦ elim (Option-cases offer_id) [
                | inl n ↦ inl (no_offer_id, rw (c, b, n) refl, inr (inr n))
                | inr (id, s) ↦ inr (id, rw (c, b, s) refl, ltb→lt 0 options.capacity_gib c, b)
              ]
            ]
    ]
  where
    both : (a b : Bool) → (a && b) ≡ true → (a ≡ true) × (b ≡ true)
    both a b h = ground arith

abbrev after_check : (db : OfferDb) → Result ProviderOffer → db.Offers → db.Offers
after_check db (err e) before = before
after_check db (ok offer) before = put_offer db offer before

module _ (db : OfferDb) (settings : MarketSettings) (options : PublishOfferOptions) where
  new_offer-Published :
      (id : List ℕ) (created_at : ℕ) (before : db.Offers)
      → 0 < options.capacity_gib
      → ((unwrap_or settings.encrypted_only_preference options.encrypted_only
            && unwrap_or settings.open_to_unencrypted options.open_to_unencrypted)
          ≡ false)
      → Published db settings options
          (new_offer settings options id created_at)
          before
          (put_offer db (new_offer settings options id created_at) before)
  unfolding new_offer unwrap_or
  new_offer-Published id created_at before room exclusive =
      let offer = new_offer settings options id created_at in
      let stored = get_offer-put_offer db offer before in
      record {
        room = room;
        capacity = refl;
        exclusive = exclusive;
        chosen_namespace = λ n e. rw e refl;
        default_namespace = λ e. rw e refl;
        stored = stored;
        others = λ n other ne. get_offer-put_offer_other db n other offer before ne;
        shown =
            (list_offers_in_namespace-get_offer db offer.namespace offer
                (put_offer db offer before)).1
              (id, stored);
        apart = λ n listed ne. list_offers_in_namespace-put_offer db n listed offer before ne;
      }

  published :
      (offer_id : Option (List ℕ)) (created_at : ℕ) (before : db.Offers) (r : Result ProviderOffer)
      → check_offer settings options offer_id created_at ≡ r
      → publish_provider_offer db settings options offer_id created_at before
        ≡ (r, after_check db r before)
  unfolding publish_provider_offer
  published offer_id created_at before (err e) h = rw (publish_provider_offer, h) refl
  published offer_id created_at before (ok offer) h = rw (publish_provider_offer, h) refl

  -- A publication is refused, and leaves the offers as they were, only where the capacity is 0, the offer
  -- would be both for encrypted files alone and open to others, or no identifier could be drawn. Else the
  -- offer has the capacity asked for, which is positive, and stands in the namespace asked for, the odd one
  -- by default exactly where it is for encrypted files alone. It is then read back under its namespace
  -- and identifier and is listed in its namespace; every other identifier reads as before, and the list of
  -- the other namespace has the offers that it had.
  pub publish_provider_offer-Outcome :
      (offer_id : Option (List ℕ)) (created_at : ℕ) (before : db.Offers)
      → Outcome db settings options offer_id before
          (publish_provider_offer db settings options offer_id created_at before)
  publish_provider_offer-Outcome offer_id created_at before =
      elim (check_offer_cases settings options offer_id created_at) [
        | inl (e, refused, why) ↦
            rw (published offer_id created_at before (err e) refused) (why, refl)
        | inr (id, accepted, room, exclusive) ↦
            rw
              (published offer_id created_at before (ok (new_offer settings options id created_at))
                accepted)
              (new_offer-Published id created_at before room exclusive)
      ]
