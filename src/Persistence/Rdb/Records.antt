-- ===== src/Persistence/Rdb/Records.antt =====
-- A record of an RDB file, with its TTL and key, is read back (persistence/rdb.cpp).
use concurrent_cache.Prelude.{
  ℕ, suc, ◌*◌, ◌^◌, ◌%◌, ◌/◌, ◌<◌, ◌≤◌, ◌≡◌, refl, ◌∙◌, some, ◌∷◌, ◌++◌, arith, length,
  append_assoc, true, false, ◌==◌, ℤ, pos, negsuc, ltb_ℤ, drop, inl, inr, ◌⊎◌,
}
use concurrent_cache.Text.{Bytes}
use concurrent_cache.Text.Words.{big_endian_onto}
use concurrent_cache.Datatype.Object.{ObjectType, string, list, hash, set, zset}
use concurrent_cache.Datatype.Object.Clean.{IsClean}
use concurrent_cache.Datatype.Payload.RoundTrip.{IsFilled}
use concurrent_cache.Cache.Storage.{KvWithTtl}
use concurrent_cache.Persistence.Rdb.{
  to_int64, write_uint32, write_uint64, write_string, serialize_value, read_value, value_type,
  type_of_value, write_kv_pair, write_ttl, read_kv_pair, read_entry, read_uint8, kv_with_ttl,
}
use concurrent_cache.Persistence.Rdb.Fields.{read_uint64-write_uint64}
use concurrent_cache.Persistence.Rdb.Values.{string_first}
use concurrent_cache.Persistence.Rdb.Objects.{FitsRdb, read_payload-serialize_value}

-- A record that RDB can hold: the first byte of its key's length is not the mark of a TTL, and its
-- expiry is the -1 of a key without one or a positive number below 2 ^ 63.
pub record IsSaved (kv : KvWithTtl) : Type 0 where
  pub key_fits : length kv.key < kv_with_ttl * 2 ^ 24
  pub clean : IsClean kv.value
  pub filled : IsFilled kv.value.type kv.value
  pub fits : FitsRdb kv.value
  pub timed :
      (kv.expire_time_ms ≡ negsuc 0)
      ⊎ ((n : ℕ) × ((kv.expire_time_ms ≡ pos (suc n)) × (suc n < 2 ^ 63)))

type_of_value-value_type : (t : ObjectType) → type_of_value (value_type t) ≡ some t
unfolding type_of_value value_type
type_of_value-value_type string = refl
type_of_value-value_type list = refl
type_of_value-value_type hash = refl
type_of_value-value_type set = refl
type_of_value-value_type zset = refl

-- What stands behind the TTL.
abbrev entry_bytes : KvWithTtl → Bytes
entry_bytes kv =
    write_string kv.key ++ (value_type kv.value.type ∷ serialize_value kv.value.type kv.value)

read_entry-entry_bytes :
    (kv : KvWithTtl) (rest : Bytes) (at : ℤ)
    → IsSaved kv
    → 4 ≤ length rest
    → read_entry at (entry_bytes kv ++ rest) ≡ some (record kv { expire_time_ms = at }, rest)
unfolding read_entry read_value read_uint8
read_entry-entry_bytes kv rest at s h =
    rw
      (
        string_first kv.key (value_type kv.value.type ∷ serialize_value kv.value.type kv.value) rest
            (omega (arith, s.key_fits)) h,
        type_of_value-value_type kv.value.type,
        read_payload-serialize_value kv.value rest s.clean s.filled s.fits h,
      )
      refl

-- A first byte that is not the mark begins a record without a TTL.
unmarked :
    (b : ℕ) (s : Bytes) → b < kv_with_ttl → read_kv_pair (b ∷ s) ≡ read_entry (negsuc 0) (b ∷ s)
unfolding read_kv_pair read_uint8
unmarked b s lt = let other : (b == kv_with_ttl) ≡ false = ground arith in rw other refl

marked :
    (v : ℕ) (s : Bytes)
    → v < 2 ^ 63
    → read_kv_pair (kv_with_ttl ∷ (write_uint64 v ++ s)) ≡ read_entry (pos v) s
unfolding read_kv_pair read_uint8
marked v s lt =
    let positive : to_int64 v ≡ pos v = ground arith in
    rw (read_uint64-write_uint64 v s (omega arith), positive) refl

-- The first byte of a record without a TTL is the highest of its key's length.
first_byte :
    (kv : KvWithTtl) (rest : Bytes)
    → length kv.key < kv_with_ttl * 2 ^ 24
    → (b : ℕ) × ((t : Bytes) × ((entry_bytes kv ++ rest ≡ b ∷ t) × (b < kv_with_ttl)))
unfolding write_string write_uint32 big_endian_onto
first_byte kv rest h = (
  length kv.key % 2 ^ 32 / 256 / 256 / 256 % 256,
  (drop 1 (entry_bytes kv ++ rest), (refl, omega arith)),
)

module _ (kv : KvWithTtl) (rest : Bytes) (s : IsSaved kv) (h : 4 ≤ length rest) where
  untimed : kv.expire_time_ms ≡ negsuc 0 → read_kv_pair (write_kv_pair kv ++ rest) ≡ some (kv, rest)
  unfolding write_kv_pair write_ttl
  untimed e =
      let (b, (t, (first, lt))) = first_byte kv rest s.key_fits in
      let plain : read_kv_pair (entry_bytes kv ++ rest)
          ≡ read_entry (negsuc 0) (entry_bytes kv ++ rest) =
        rw first (unmarked b t lt) in
      rw e (plain ∙ read_entry-entry_bytes kv rest (negsuc 0) s h)

  timed :
      (n : ℕ)
      → kv.expire_time_ms ≡ pos (suc n)
      → suc n < 2 ^ 63
      → read_kv_pair (write_kv_pair kv ++ rest) ≡ some (kv, rest)
  unfolding write_kv_pair write_ttl
  timed n e lt =
      let positive : ltb_ℤ (pos 0) (pos (suc n)) ≡ true = ground arith in
      rw (e, positive, append_assoc (write_uint64 (suc n)) (entry_bytes kv) rest)
        (marked (suc n) (entry_bytes kv ++ rest) lt
          ∙ read_entry-entry_bytes kv rest (pos (suc n)) s h)

  -- A record comes back as it was written, with what stands behind it.
  pub read_kv_pair-write_kv_pair : read_kv_pair (write_kv_pair kv ++ rest) ≡ some (kv, rest)
  read_kv_pair-write_kv_pair = elim s.timed [
    | inl e ↦ untimed e
    | inr found ↦ timed found.0 found.1.0 found.1.1
  ]
