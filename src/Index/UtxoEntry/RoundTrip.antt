-- ===== src/Index/UtxoEntry/RoundTrip.antt =====
-- The entries that are built parse to what was put in.
use mathlib.Core.List.{append_assoc, append-nil}
use lord.Prelude.{
  ℕ, ◌+◌, ◌*◌, ◌/◌, ◌%◌, ◌^◌, ◌<◌, ◌≡◌, refl, ap, true, false, none, some, List, [], ◌∷◌, ◌++◌,
  length, take, drop, lt→ltb, ==_iff, sym, arith, length-append,
}
use lord.Prelude.Monad.{◌>>=◌}
use lord.Ordinals.Varint.{encode_to_vec, decode}
use lord.Ordinals.Varint.RoundTrip.{encode_to_vec-append, decode-encode_to_vec}
use lord.Index.UtxoEntry.{
  Index, ranges, value, slice, slice_from, unwrap, to_u64, parse_sats, parse_script_pubkey, parse,
  new, push_value, push_sat_ranges, push_script_pubkey, as_ref,
}

module _ {ℓ} {A : Type ℓ} where
  pub drop-length-append : (xs ys : List A) → drop (length xs) (xs ++ ys) ≡ ys
  drop-length-append [] ys = refl
  drop-length-append (x ∷ xs) ys = drop-length-append xs ys

  pub take-length-append : (xs ys : List A) → take (length xs) (xs ++ ys) ≡ xs
  take-length-append [] ys = refl
  take-length-append (x ∷ xs) ys = ap (◌∷◌ x) (take-length-append xs ys)

pub take_all : (zs : List ℕ) → take (length zs) zs ≡ zs
take_all zs = rw append-nil at (take-length-append zs [])

slice-append : (xs ys zs : List ℕ) → slice (xs ++ (ys ++ zs)) (length xs) (length ys) ≡ some ys
unfolding slice
slice-append xs ys zs =
    rw (drop-length-append xs (ys ++ zs), take-length-append ys zs)
      (ground (arith, length-append xs (ys ++ zs), length-append ys zs))

slice_last :
    (xs ys zs : List ℕ) → slice (xs ++ (ys ++ zs)) (length xs + length ys) (length zs) ≡ some zs
unfolding slice
slice_last xs ys zs =
    rw
      (
        ← append_assoc xs ys zs,
        ← length-append xs ys,
        drop-length-append (xs ++ ys) zs,
        take_all zs,
      )
      (ground (arith, length-append (xs ++ ys) zs))

slice_from-append : (xs ys : List ℕ) → slice_from (xs ++ ys) (length xs) ≡ some ys
unfolding slice_from
slice_from-append xs ys = rw (drop-length-append xs ys) (ground (arith, length-append xs ys))

-- A coded number at the front.
abbrev code : ℕ → List ℕ
code n = encode_to_vec n []

to_u64_lem : (n : ℕ) → n < 2 ^ 64 → to_u64 n ≡ some n
unfolding to_u64
to_u64_lem n h = rw (lt→ltb n (2 ^ 64) h)

decode-code :
    (n : ℕ) (rest : List ℕ)
    → n < 2 ^ 64
    → unwrap (decode (code n ++ rest)) ≡ some (n, length (code n))
unfolding unwrap
decode-code n rest h = rw (decode-encode_to_vec n rest (omega arith))

eleven : (k n : ℕ) → n ≡ k * 11 → n < 2 ^ 64 → k * 11 % 2 ^ 64 ≡ n
eleven k n h lt = omega arith

pub parse_sats_ranges :
    (index : Index) (k : ℕ) (rs rest : List ℕ)
    → index.index_sats ≡ true
    → length rs ≡ k * 11
    → length rs < 2 ^ 64
    → parse_sats index (code k ++ (rs ++ rest)) ≡ some (ranges rs, length (code k) + length rs)
unfolding parse_sats
parse_sats_ranges index k rs rest on hk h =
    rw (on, decode-code k (rs ++ rest) (omega arith))
      (rw (to_u64_lem k (omega arith), eleven k (length rs) hk h)
        (rw (slice-append (code k) rs rest)))

pub parse_sats_value :
    (index : Index) (v : ℕ) (rest : List ℕ)
    → index.index_sats ≡ false
    → v < 2 ^ 64
    → parse_sats index (code v ++ rest) ≡ some (value v, length (code v))
unfolding parse_sats
parse_sats_value index v rest off h = rw (off, decode-code v rest h) (rw (to_u64_lem v h))

no_script :
    (index : Index) (bytes : List ℕ) (offset : ℕ)
    → index.index_addresses ≡ false
    → parse_script_pubkey index bytes offset ≡ some none
unfolding parse_script_pubkey
no_script index bytes offset off = rw off

pub parse_script :
    (index : Index) (front script : List ℕ)
    → index.index_addresses ≡ true
    → length script < 2 ^ 64
    → parse_script_pubkey index (front ++ (code (length script) ++ script)) (length front)
      ≡ some (some script)
unfolding parse_script_pubkey
parse_script index front script on h =
    rw (on, slice_from-append front (code (length script) ++ script))
      (rw (decode-code (length script) script h)
        (rw (to_u64_lem (length script) h) (rw (slice_last front (code (length script)) script))))

eleven_div : (k n : ℕ) → n ≡ k * 11 → n / 11 ≡ k
eleven_div k n h = omega arith

-- The bytes of an entry with sat ranges and a script.
ranges_bytes : ℕ → List ℕ → List ℕ → List ℕ
ranges_bytes k rs script = (code k ++ rs) ++ (code (length script) ++ script)

push_ranges_bytes :
    (index : Index) (k : ℕ) (rs script : List ℕ)
    → index.index_sats ≡ true
    → index.index_addresses ≡ true
    → length rs ≡ k * 11
    → (push_sat_ranges rs index new >>= push_script_pubkey script index >>= as_ref)
      ≡ some (ranges_bytes k rs script)
unfolding push_sat_ranges push_script_pubkey as_ref ranges_bytes
push_ranges_bytes index k rs script on addr hk =
    rw (on, addr, eleven_div k (length rs) hk)
      (rw ((==_iff (k * 11) (length rs)).1 (sym hk))
        (rw (encode_to_vec-append (length script) (code k ++ rs), append_assoc (code k ++ rs))))

length-code_ranges : (k : ℕ) (rs : List ℕ) → length (code k ++ rs) ≡ length (code k) + length rs
length-code_ranges k rs = length-append (code k) rs

parse-ranges_bytes :
    (index : Index) (k : ℕ) (rs script : List ℕ)
    → index.index_sats ≡ true
    → index.index_addresses ≡ true
    → length rs ≡ k * 11
    → length rs < 2 ^ 64
    → length script < 2 ^ 64
    → parse index (ranges_bytes k rs script)
      ≡ some (record { sats = ranges rs; script_pubkey = some script })
unfolding parse ranges_bytes
parse-ranges_bytes index k rs script on addr hk h hs =
    rw
      (
        append_assoc (code k) rs,
        parse_sats_ranges index k rs (code (length script) ++ script) on hk h,
      )
      (rw (
        ← append_assoc (code k) rs,
        ← length-append (code k) rs,
        parse_script index (code k ++ rs) script addr hs,
      ))

-- With sats and addresses indexed, an entry built from whole ranges of 11 bytes and a script, both
-- of `u64` lengths, passes every assert of the buffer, and parses to those ranges and that script.
pub parse-push_sat_ranges :
    (index : Index) (k : ℕ) (rs script : List ℕ)
    → index.index_sats ≡ true
    → index.index_addresses ≡ true
    → length rs ≡ k * 11
    → length rs < 2 ^ 64
    → length script < 2 ^ 64
    → (push_sat_ranges rs index new >>= push_script_pubkey script index >>= as_ref >>= parse index)
      ≡ some (record { sats = ranges rs; script_pubkey = some script })
parse-push_sat_ranges index k rs script on addr hk h hs =
    rw (push_ranges_bytes index k rs script on addr hk)
      (parse-ranges_bytes index k rs script on addr hk h hs)

module _ (index : Index) (v : ℕ) (script : List ℕ) (off : index.index_sats ≡ false) where
  push_value_bytes :
      index.index_addresses ≡ true
      → (push_value v index new >>= push_script_pubkey script index >>= as_ref)
        ≡ some (code v ++ (code (length script) ++ script))
  unfolding push_value push_script_pubkey as_ref
  push_value_bytes addr =
      rw (off, addr) (rw (encode_to_vec-append (length script) (code v), append_assoc (code v)))

  push_value_alone :
      index.index_addresses ≡ false → (push_value v index new >>= as_ref) ≡ some (code v)
  unfolding push_value as_ref
  push_value_alone addr = rw (off, addr)

  parse_value_script :
      index.index_addresses ≡ true
      → v < 2 ^ 64
      → length script < 2 ^ 64
      → parse index (code v ++ (code (length script) ++ script))
        ≡ some (record { sats = value v; script_pubkey = some script })
  unfolding parse
  parse_value_script addr hv hs =
      rw (parse_sats_value index v (code (length script) ++ script) off hv)
        (rw (parse_script index (code v) script addr hs))

  parse_value :
      index.index_addresses ≡ false
      → v < 2 ^ 64
      → parse index (code v) ≡ some (record { sats = value v; script_pubkey = none })
  unfolding parse
  parse_value addr hv =
      rw (rw append-nil at (parse_sats_value index v [] off hv))
        (rw (no_script index (code v) (length (code v)) addr))

-- Without a sat index, the `u64` value and the script, of a `u64` length, of an output are read
-- back; without an address index as well no script is kept, and the value alone makes a finished
-- entry.
pub parse-push_value :
    (index : Index) (v : ℕ) (script : List ℕ)
    → index.index_sats ≡ false
    → v < 2 ^ 64
    → length script < 2 ^ 64
    → (index.index_addresses ≡ true
        → (push_value v index new >>= push_script_pubkey script index >>= as_ref >>= parse index)
          ≡ some (record { sats = value v; script_pubkey = some script }))
      × (index.index_addresses ≡ false
          → (push_value v index new >>= as_ref >>= parse index)
            ≡ some (record { sats = value v; script_pubkey = none }))
parse-push_value index v script off hv hs = (
  (λ addr.
      rw (push_value_bytes index v script off addr)
        (parse_value_script index v script off addr hv hs)),
  (λ addr. rw (push_value_alone index v script off addr) (parse_value index v script off addr hv)),
)
