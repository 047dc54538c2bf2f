-- ===== src/Tests/Offers.antt =====
-- The offers of a provider in a database that is the list of its writes, the last one first.
use lord.Prelude.{
  ℕ, ◌==◌, ◌&&◌, Bool, true, false, Option, none, some, List, [], ◌∷◌, ◌≡◌, ◌≢◌, refl, sym, ap, ◌∙◌,
  ◌⊎◌, inl, inr, here, there, In, ==_iff, Bool-cases, if◌then◌else◌,
}
use mathlib.Core.Option.{some-injective}
use lord.Market.Store.{odd_offers}
use lord.Market.Request.{MarketSettings}
use lord.Market.Offers.{
  ProviderOffer, PublishOfferOptions, OfferDb, starts_with, publish_provider_offer,
}
use lord.Market.Offers.Publication.{Outcome, publish_provider_offer-Outcome}

abbrev Entries : Type 0
Entries = List (List ℕ × ProviderOffer)

abbrev same_bytes : List ℕ → List ℕ → Bool
same_bytes [] [] = true
same_bytes [] (b ∷ bs) = false
same_bytes (a ∷ rest) [] = false
same_bytes (a ∷ rest) (b ∷ bs) = (a == b) && same_bytes rest bs

same_bytes_self : (a : List ℕ) → same_bytes a a ≡ true
same_bytes_self [] = refl
same_bytes_self (a ∷ rest) = rw ((==_iff a a).1 refl) (same_bytes_self rest)

same_bytes_sound : (a b : List ℕ) → same_bytes a b ≡ true → a ≡ b
same_bytes_sound [] [] h = refl
same_bytes_sound [] (b ∷ bs) h = absurd cc
same_bytes_sound (a ∷ rest) [] h = absurd cc
same_bytes_sound (a ∷ rest) (b ∷ bs) h = elim (Bool-cases (a == b)) [
  | inl e ↦ rw ((==_iff a b).0 e) (rw (same_bytes_sound rest bs (rw e at h)) refl)
  | inr e ↦ let h' = rw e at h in absurd cc
]

abbrev get_entry : List ℕ → Entries → Option ProviderOffer
get_entry key [] = none
get_entry key ((k, offer) ∷ entries) =
    if same_bytes key k then some offer else get_entry key entries

abbrev without : List ℕ → Entries → Entries
without key [] = []
without key ((k, offer) ∷ entries) =
    let rest = without key entries in if same_bytes key k then rest else (k, offer) ∷ rest

-- The entries under the prefix, without those that were overwritten.
abbrev entries_under : List ℕ → Entries → Entries
entries_under prefix [] = []
entries_under prefix ((k, offer) ∷ entries) =
    let rest = without k (entries_under prefix entries) in
    if starts_with prefix k then (k, offer) ∷ rest else rest

other_bytes : (a b : List ℕ) → a ≢ b → same_bytes a b ≡ false
other_bytes a b ne = elim (Bool-cases (same_bytes a b)) [
  | inl e ↦ absurd (ne (same_bytes_sound a b e))
  | inr e ↦ e
]

ne_of : (a b : List ℕ) → same_bytes a b ≡ false → a ≢ b
ne_of a b e q = let h = sym (same_bytes_self a) ∙ (ap (same_bytes a) q ∙ e) in absurd cc

In-cons : {A : Type 0} (a x : A) (xs : List A) → In a (x ∷ xs) → (a ≡ x) ⊎ In a xs
In-cons a _ xs (here _) = inl refl
In-cons a x xs (there _ _ m) = inr m

first : {A : Type 0} (a x : A) (xs : List A) → a ≡ x → In a (x ∷ xs)
first a x xs e = rw e (here xs)

In-without :
    (key k : List ℕ) (offer : ProviderOffer) (entries : Entries)
    → In (k, offer) (without key entries)
    → (key ≢ k) × In (k, offer) entries
In-without key k offer [] m = elim m [ ]
In-without key k offer ((l, old) ∷ entries) m = elim (Bool-cases (same_bytes key l)) [
  | inl e ↦
      let (ne, inside) = In-without key k offer entries (rw e at m) in
      (ne, there (l, old) entries inside)
  | inr e ↦ elim (In-cons (k, offer) (l, old) (without key entries) (rw e at m)) [
    | inl q ↦ ((λ h. ne_of key l e (h ∙ ap (λ w. w.0) q)), first (k, offer) (l, old) entries q)
    | inr later ↦
        let (ne, inside) = In-without key k offer entries later in
        (ne, there (l, old) entries inside)
  ]
]

In-without_other :
    (key k : List ℕ) (offer : ProviderOffer) (entries : Entries)
    → key ≢ k
    → In (k, offer) entries
    → In (k, offer) (without key entries)
In-without_other key k offer [] ne m = m
In-without_other key k offer ((l, old) ∷ entries) ne m =
    elim (In-cons (k, offer) (l, old) entries m) [
      | inl q ↦
          rw (other_bytes key l (λ h. ne (h ∙ sym (ap (λ w. w.0) q))))
            (first (k, offer) (l, old) (without key entries) q)
      | inr later ↦
          let inside = In-without_other key k offer entries ne later in
          elim (Bool-cases (same_bytes key l)) [
            | inl e ↦ rw e inside
            | inr e ↦ rw e (there (l, old) (without key entries) inside)
          ]
    ]

older_read :
    (prefix key k : List ℕ) (offer new : ProviderOffer) (entries : Entries)
    → In (key, offer) (without k (entries_under prefix entries))
    → (In (key, offer) (entries_under prefix entries)
        → (get_entry key entries ≡ some offer) × (starts_with prefix key ≡ true))
    → (get_entry key ((k, new) ∷ entries) ≡ some offer) × (starts_with prefix key ≡ true)
older_read prefix key k offer new entries later read =
    let (ne, inside) = In-without k key offer (entries_under prefix entries) later in
    let (got, under) = read inside in (rw (other_bytes key k (λ h. ne (sym h))) got, under)

entries_under-read :
    (prefix key : List ℕ) (offer : ProviderOffer) (entries : Entries)
    → In (key, offer) (entries_under prefix entries)
    → (get_entry key entries ≡ some offer) × (starts_with prefix key ≡ true)
entries_under-read prefix key offer [] m = elim m [ ]
entries_under-read prefix key offer ((k, new) ∷ entries) m =
    elim (Bool-cases (starts_with prefix k)) [
      | inl s ↦
          elim (In-cons (key, offer) (k, new) (without k (entries_under prefix entries))
            (rw s at m)) [
              | inl q ↦
                  let at_key = ap (λ w. w.0) q in
                  (rw at_key (rw (same_bytes_self k) (ap (λ w. some w.1) (sym q))), rw at_key s)
              | inr later ↦
                  older_read prefix key k offer new entries later
                    (entries_under-read prefix key offer entries)
            ]
      | inr s ↦
          older_read prefix key k offer new entries (rw s at m)
            (entries_under-read prefix key offer entries)
    ]

same_entry :
    (key k : List ℕ) (offer new : ProviderOffer)
    → key ≡ k
    → (some new ≡ some offer)
    → (◌≡◌ {A = List ℕ × ProviderOffer} (key, offer) (k, new))
same_entry key k offer new q e = rw (q, some-injective new offer e) refl

entries_under-reads :
    (prefix key : List ℕ) (offer : ProviderOffer) (entries : Entries)
    → get_entry key entries ≡ some offer
    → starts_with prefix key ≡ true
    → In (key, offer) (entries_under prefix entries)
entries_under-reads prefix key offer [] got under = absurd cc
entries_under-reads prefix key offer ((k, new) ∷ entries) got under =
    elim (Bool-cases (same_bytes key k)) [
      | inl e ↦
          let q = same_bytes_sound key k e in
          rw (rw q at under) (
            first (key, offer) (k, new) (without k (entries_under prefix entries))
              (same_entry key k offer new q (rw e at got)))
      | inr e ↦
          let older =
            In-without_other k key offer (entries_under prefix entries) (λ h. ne_of key k e (sym h))
              (entries_under-reads prefix key offer entries (rw e at got) under) in
          elim (Bool-cases (starts_with prefix k)) [
            | inl s ↦ rw s (there (k, new) _ older)
            | inr s ↦ rw s older
          ]
    ]

get_entry-other :
    (key other : List ℕ) (offer : ProviderOffer) (entries : Entries)
    → other ≢ key
    → get_entry other ((key, offer) ∷ entries) ≡ get_entry other entries
get_entry-other key other offer entries ne = rw (other_bytes other key ne) refl

abbrev log_of_offers : OfferDb
log_of_offers = record {
  Offers = Entries;
  get = get_entry;
  put = λ key offer entries. (key, offer) ∷ entries;
  prefix_iter = entries_under;
  get-put = λ key offer entries. rw (same_bytes_self key) refl;
  get-put_other = get_entry-other;
  read = entries_under-read;
  reads = entries_under-reads;
}

abbrev open_settings : MarketSettings
open_settings = record {
  mutual_aid_enabled = false;
  encrypted_only_preference = false;
  open_to_unencrypted = true;
}

abbrev five_gib : PublishOfferOptions
five_gib = record {
  capacity_gib = 5;
  encrypted_only = none;
  open_to_unencrypted = none;
  namespace = none;
}

-- The offer of an odd provider, under the identifier that the next offer draws too.
abbrev odd_offer : ProviderOffer
odd_offer = record {
  offer_id = 3 ∷ [];
  namespace = odd_offers;
  capacity_gib = 7;
  encrypted_only = true;
  open_to_unencrypted = false;
  created_at = 2;
}

abbrev one_offer : Entries
one_offer = (1 ∷ 3 ∷ [], odd_offer) ∷ []

publish_provider_offer-Outcome_example :
    Outcome log_of_offers open_settings five_gib
      (some (3 ∷ []))
      one_offer
      (publish_provider_offer log_of_offers open_settings five_gib (some (3 ∷ [])) 9 one_offer)
publish_provider_offer-Outcome_example =
    publish_provider_offer-Outcome log_of_offers open_settings five_gib (some (3 ∷ [])) 9 one_offer
