-- ===== src/Market/Offers.antt =====
-- crates/lord-market/src/lib.rs, store.rs and types.rs: the offers of providers. The database of offers is
-- a parameter: an ordered map from bytes to offers, of which its reads are used. A failure of the
-- database is left out. The sixteen random bytes of an identifier are an argument, `none` where the
-- source of randomness fails.
pub mod Listed
pub mod Publication
use lord.Prelude.{
  ℕ, ltb, ◌==◌, not, ◌&&◌, Bool, true, false, Option, none, some, List, [], ◌∷◌, ◌≡◌, ◌≢◌, In, map,
  if◌then◌else◌,
}
use lord.Market.Store.{MarketNamespace, public_offers, odd_offers}
use lord.Market.Request.{
  MarketSettings, Error, Result, err, ok, encrypted_and_open, no_capacity, no_offer_id,
}

pub record ProviderOffer : Type 0 where
  pub offer_id : List ℕ
  pub namespace : MarketNamespace
  pub capacity_gib : ℕ
  pub encrypted_only : Bool
  pub open_to_unencrypted : Bool
  pub created_at : ℕ

pub record PublishOfferOptions : Type 0 where
  pub capacity_gib : ℕ
  pub encrypted_only : Option Bool
  pub open_to_unencrypted : Option Bool
  pub namespace : Option MarketNamespace

-- The bytes begin with the others.
unfoldable pub starts_with : List ℕ → List ℕ → Bool
starts_with [] bytes = true
starts_with (p ∷ prefix) [] = false
starts_with (p ∷ prefix) (b ∷ bytes) = (p == b) && starts_with prefix bytes

-- What the operations ask of the database: `get` reads the last `put` at a key, and `prefix_iter`
-- reads the entries whose keys begin with the bytes, and no others.
pub record OfferDb : Type 1 where
  pub Offers : Type 0
  pub get : List ℕ → Offers → Option ProviderOffer
  pub put : List ℕ → ProviderOffer → Offers → Offers
  pub prefix_iter : List ℕ → Offers → List (List ℕ × ProviderOffer)
  pub get-put :
      (key : List ℕ) (offer : ProviderOffer) (offers : Offers)
      → get key (put key offer offers) ≡ some offer
  pub get-put_other :
      (key other : List ℕ) (offer : ProviderOffer) (offers : Offers)
      → other ≢ key
      → get other (put key offer offers) ≡ get other offers
  pub read :
      (prefix key : List ℕ) (offer : ProviderOffer) (offers : Offers)
      → In (key, offer) (prefix_iter prefix offers)
      → (get key offers ≡ some offer) × (starts_with prefix key ≡ true)
  pub reads :
      (prefix key : List ℕ) (offer : ProviderOffer) (offers : Offers)
      → get key offers ≡ some offer
      → starts_with prefix key ≡ true
      → In (key, offer) (prefix_iter prefix offers)

unfoldable pub prefix_byte : MarketNamespace → ℕ
prefix_byte public_offers = 0
prefix_byte odd_offers = 1

unfoldable pub encode_offer_key : MarketNamespace → List ℕ → List ℕ
unfolding prefix_byte
encode_offer_key namespace offer_id = prefix_byte namespace ∷ offer_id

unfoldable pub unwrap_or : {A : Type 0} → A → Option A → A
unwrap_or fallback none = fallback
unwrap_or fallback (some a) = a

unfoldable pub new_offer : MarketSettings → PublishOfferOptions → List ℕ → ℕ → ProviderOffer
unfolding unwrap_or
new_offer settings options offer_id created_at =
    let encrypted_only = unwrap_or settings.encrypted_only_preference options.encrypted_only in
    record {
      offer_id = offer_id;
      namespace =
          unwrap_or (if encrypted_only then odd_offers else public_offers) options.namespace;
      capacity_gib = options.capacity_gib;
      encrypted_only = encrypted_only;
      open_to_unencrypted = unwrap_or settings.open_to_unencrypted options.open_to_unencrypted;
      created_at = created_at;
    }

-- The offer, or why there is none.
unfoldable pub check_offer :
    MarketSettings → PublishOfferOptions → Option (List ℕ) → ℕ → Result ProviderOffer
unfolding unwrap_or new_offer
check_offer settings options offer_id created_at =
    if not (ltb 0 options.capacity_gib)
    then err no_capacity
    else if unwrap_or settings.encrypted_only_preference options.encrypted_only
        && unwrap_or settings.open_to_unencrypted options.open_to_unencrypted
    then err encrypted_and_open
    else elim offer_id [
      | none ↦ err no_offer_id
      | some id ↦ ok (new_offer settings options id created_at)
    ]

module _ (db : OfferDb) where
  unfoldable pub put_offer : ProviderOffer → db.Offers → db.Offers
  unfolding encode_offer_key
  put_offer offer offers = db.put (encode_offer_key offer.namespace offer.offer_id) offer offers

  unfoldable pub get_offer : MarketNamespace → List ℕ → db.Offers → Option ProviderOffer
  unfolding encode_offer_key
  get_offer namespace offer_id offers = db.get (encode_offer_key namespace offer_id) offers

  unfoldable pub list_offers_in_namespace : MarketNamespace → db.Offers → List ProviderOffer
  unfolding prefix_byte
  list_offers_in_namespace namespace offers =
      map (λ entry. entry.1) (db.prefix_iter (prefix_byte namespace ∷ []) offers)

  unfoldable pub publish_provider_offer :
      MarketSettings
      → PublishOfferOptions
      → Option (List ℕ)
      → ℕ
      → db.Offers
      → Result ProviderOffer × db.Offers
  unfolding check_offer put_offer
  publish_provider_offer settings options offer_id created_at offers =
      elim (check_offer settings options offer_id created_at) [
        | err e ↦ (err e, offers)
        | ok offer ↦ (ok offer, put_offer offer offers)
      ]
