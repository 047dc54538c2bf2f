-- ===== src/Market/Offers/Listed.antt =====
-- How the offers that are listed and those under keys go together.
use lord.Prelude.{
  ℕ, ◌==◌, true, some, List, [], ◌∷◌, ◌≡◌, ◌≢◌, ◌↔◌, refl, sym, ap, ◌∙◌, inl, inr, In, In-map,
  In-map_from, arith, Bool-cases, ==_iff,
}
use lord.Market.Store.{MarketNamespace, public_offers, odd_offers}
use lord.Market.Offers.{
  ProviderOffer, OfferDb, starts_with, prefix_byte, encode_offer_key, put_offer, get_offer,
  list_offers_in_namespace,
}

prefix_byte_injective : (m n : MarketNamespace) → prefix_byte m ≡ prefix_byte n → m ≡ n
unfolding prefix_byte
prefix_byte_injective public_offers public_offers h = refl
prefix_byte_injective public_offers odd_offers h = absurd (omega arith)
prefix_byte_injective odd_offers public_offers h = absurd (omega arith)
prefix_byte_injective odd_offers odd_offers h = refl

encode_offer_key_injective :
    (m n : MarketNamespace) (i j : List ℕ)
    → encode_offer_key m i ≡ encode_offer_key n j
    → (m ≡ n) × (i ≡ j)
unfolding encode_offer_key
encode_offer_key_injective m n i j h = (prefix_byte_injective m n (ap first h), ap rest h)
  where
    first : List ℕ → ℕ
    first [] = 0
    first (b ∷ bytes) = b

    rest : List ℕ → List ℕ
    rest [] = []
    rest (b ∷ bytes) = bytes

-- A key that begins with the byte of a namespace is that byte and an identifier.
starts_with_byte :
    (b : ℕ) (key : List ℕ) → starts_with (b ∷ []) key ≡ true → (id : List ℕ) × (key ≡ b ∷ id)
unfolding starts_with
starts_with_byte b [] h = absurd cc
starts_with_byte b (c ∷ id) h = elim (Bool-cases (b == c)) [
  | inl e ↦ (id, rw ((==_iff b c).0 e) refl)
  | inr e ↦ let h' = rw e at h in absurd cc
]

starts_with-encode_offer_key :
    (n : MarketNamespace) (id : List ℕ)
    → starts_with (prefix_byte n ∷ []) (encode_offer_key n id) ≡ true
unfolding starts_with encode_offer_key
starts_with-encode_offer_key n id = rw ((==_iff (prefix_byte n) (prefix_byte n)).1 refl) refl

module _ (db : OfferDb) where
  -- The offers listed in a namespace are those under its keys.
  pub list_offers_in_namespace-get_offer :
      (n : MarketNamespace) (offer : ProviderOffer) (offers : db.Offers)
      → In offer (list_offers_in_namespace db n offers)
        ↔ ((id : List ℕ) × (get_offer db n id offers ≡ some offer))
  unfolding list_offers_in_namespace get_offer encode_offer_key
  list_offers_in_namespace-get_offer n offer offers = (found, listed)
    where
      entries : List (List ℕ × ProviderOffer)
      entries = db.prefix_iter (prefix_byte n ∷ []) offers

      found :
          In offer (list_offers_in_namespace db n offers)
          → (id : List ℕ) × (get_offer db n id offers ≡ some offer)
      found m =
          let ((key, value), inside, e) = In-map_from entries (λ entry. entry.1) offer m in
          let (got, prefixed) = db.read (prefix_byte n ∷ []) key value offers inside in
          let (id, k) = starts_with_byte (prefix_byte n) key prefixed in (id, rw (k, e) at got)

      listed :
          (id : List ℕ) × (get_offer db n id offers ≡ some offer)
          → In offer (list_offers_in_namespace db n offers)
      listed (id, got) =
          In-map (encode_offer_key n id, offer) entries (λ entry. entry.1)
            (db.reads (prefix_byte n ∷ []) (encode_offer_key n id) offer offers got
              (starts_with-encode_offer_key n id))

  pub get_offer-put_offer :
      (offer : ProviderOffer) (offers : db.Offers)
      → get_offer db offer.namespace offer.offer_id (put_offer db offer offers) ≡ some offer
  unfolding get_offer put_offer
  get_offer-put_offer offer offers =
      db.get-put (encode_offer_key offer.namespace offer.offer_id) offer offers

  pub get_offer-put_offer_other :
      (n : MarketNamespace) (id : List ℕ) (offer : ProviderOffer) (offers : db.Offers)
      → ¬ ((n ≡ offer.namespace) × (id ≡ offer.offer_id))
      → get_offer db n id (put_offer db offer offers) ≡ get_offer db n id offers
  unfolding get_offer put_offer
  get_offer-put_offer_other n id offer offers other =
      db.get-put_other (encode_offer_key offer.namespace offer.offer_id) (encode_offer_key n id)
        offer offers (λ e. other (encode_offer_key_injective n offer.namespace id offer.offer_id e))

  -- An offer of one namespace changes nothing in the list of the other.
  pub list_offers_in_namespace-put_offer :
      (n : MarketNamespace) (listed offer : ProviderOffer) (offers : db.Offers)
      → n ≢ offer.namespace
      → In listed (list_offers_in_namespace db n (put_offer db offer offers))
        ↔ In listed (list_offers_in_namespace db n offers)
  list_offers_in_namespace-put_offer n listed offer offers other = (back, forth)
    where
      same :
          (id : List ℕ) → get_offer db n id (put_offer db offer offers) ≡ get_offer db n id offers
      same id = get_offer-put_offer_other n id offer offers (λ both. other both.0)

      back :
          In listed (list_offers_in_namespace db n (put_offer db offer offers))
          → In listed (list_offers_in_namespace db n offers)
      back m =
          let (id, got) =
            (list_offers_in_namespace-get_offer n listed (put_offer db offer offers)).0 m in
          (list_offers_in_namespace-get_offer n listed offers).1 (id, sym (same id) ∙ got)

      forth :
          In listed (list_offers_in_namespace db n offers)
          → In listed (list_offers_in_namespace db n (put_offer db offer offers))
      forth m =
          let (id, got) = (list_offers_in_namespace-get_offer n listed offers).0 m in
          (list_offers_in_namespace-get_offer n listed (put_offer db offer offers)).1
            (id, same id ∙ got)
