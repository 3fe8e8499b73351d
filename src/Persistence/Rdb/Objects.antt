-- ===== src/Persistence/Rdb/Objects.antt =====
-- A record of an RDB file is read back (persistence/rdb.cpp).
use concurrent_cache.Prelude.{
  ℕ, suc, ◌+◌, ◌-◌, ◌^◌, ◌%◌, ◌<◌, ◌≤◌, ◌≡◌, ◌≢◌, refl, ap, some, List, [], ◌∷◌, ◌++◌, arith,
  length, append_assoc, false, ◌==◌, pos, negsuc, ◌+ℤ◌, ◌-ℤ◌, take_all,
}
use mathlib.Core.Path.{subst}
use concurrent_cache.Text.{Bytes}
use concurrent_cache.Table.{Table, keys, insert_or_assign, IsDistinct}
use concurrent_cache.Base.RangeClip.{clip_range}
use concurrent_cache.Datatype.Object.{
  CacheObject, ObjectType, string, list, hash, set, zset, of_list, of_string, get_string,
}
use concurrent_cache.Datatype.Object.Clean.{IsClean}
use concurrent_cache.Datatype.Object.Lists.{list_push, list_range}
use concurrent_cache.Datatype.Object.Hashes.{hash_set, hash_items}
use concurrent_cache.Datatype.Object.Sets.{set_add, set_members}
use concurrent_cache.Datatype.Object.SortedSets.{zset_add, zset_all}
use concurrent_cache.Datatype.Object.Members.{ZSetMember, insert_member, score_differs, pairs}
use concurrent_cache.Datatype.Object.Ordered.{IsOrdered}
use concurrent_cache.Datatype.Payload.Loops.{of_hash, of_set}
use concurrent_cache.Datatype.Payload.Scored.{of_zset}
use concurrent_cache.Datatype.Payload.RoundTrip.{IsFilled}
use concurrent_cache.Persistence.Rdb.{
  write_uint32, write_uint64, write_string, serialize_value, counted, read_payload, read_uint32,
  read_list, read_hash, read_set, read_zset, serialize_list, serialize_hash, serialize_zset,
}
use concurrent_cache.Persistence.Rdb.Fields.{
  read_string-write_string, read_uint32-write_uint32, read_uint64-write_uint64,
}
use concurrent_cache.Persistence.Rdb.Values.{
  string_first, IsShort, AreShort, FieldsAreShort, MembersAreShort, read_list-serialize_list,
  read_hash-serialize_hash, read_set-serialize_list, read_zset-serialize_zset,
}

-- Every length and count fits 32 bits, every score 64.
pub record FitsRdb (o : CacheObject) : Type 0 where
  pub text : IsShort o.string_val
  pub items : AreShort o.list_val
  pub item_count : length o.list_val < 2 ^ 32
  pub fields : FieldsAreShort o.hash_val
  pub field_count : length o.hash_val < 2 ^ 32
  pub members : AreShort (keys o.set_val)
  pub member_count : length o.set_val < 2 ^ 32
  pub scores : MembersAreShort o.zset_val
  pub score_count : length o.zset_val < 2 ^ 32

clip_all : (n : ℕ) → clip_range (suc n) (pos 0) (pos (suc n) +ℤ negsuc 0) ≡ some (pos 0, pos n)
unfolding clip_range ◌+ℤ◌ ◌-ℤ◌
clip_all n = ground arith

list_range_all : (vs : List Bytes) → list_range (of_list vs) (pos 0) (negsuc 0) ≡ vs
unfolding list_range
list_range_all [] = refl
list_range_all (v ∷ vs) =
    let some_items : (suc (length vs) == 0) ≡ false = ground arith in
    rw (clip_all (length vs), some_items) (take_all (length vs + 1 - 0) (v ∷ vs) (omega arith))

length-keys : {A : Type 0} (m : Table A) → length (keys m) ≡ length m
length-keys [] = refl
length-keys ((k, v) ∷ m) = ap suc (length-keys m)

length-pairs : (zs : List ZSetMember) → length (pairs zs) ≡ length zs
length-pairs [] = refl
length-pairs (z ∷ zs) = ap suc (length-pairs zs)

read_counted :
    (n : ℕ) (body rest : Bytes)
    → n < 2 ^ 32
    → read_uint32 ((write_uint32 (n % 2 ^ 32) ++ body) ++ rest) ≡ some (n, body ++ rest)
read_counted n body rest lt =
    let same : n % 2 ^ 32 ≡ n = omega arith in
    rw (same, append_assoc (write_uint32 n) body rest)
      (read_uint32-write_uint32 n (body ++ rest) lt)

-- A container that is not empty is read back from its count and items.
typed_list :
    (vs : List Bytes) (rest : Bytes)
    → vs ≢ []
    → AreShort vs
    → length vs < 2 ^ 32
    → 4 ≤ length rest
    → read_payload list (counted serialize_list vs ++ rest) ≡ some (of_list vs, rest)
unfolding read_payload read_list serialize_list list_push
typed_list [] rest g short few h = absurd (g refl)
typed_list (v ∷ vs) rest g short few h =
    rw
      (
        read_counted (length (v ∷ vs)) (serialize_list (v ∷ vs)) rest few,
        string_first v (serialize_list vs) rest short.0 h,
      )
      (read_list-serialize_list (v ∷ []) vs rest short.1 h)

typed_hash :
    (m : Table Bytes) (rest : Bytes)
    → m ≢ []
    → IsDistinct m
    → FieldsAreShort m
    → length m < 2 ^ 32
    → 4 ≤ length rest
    → read_payload hash (counted serialize_hash m ++ rest) ≡ some (of_hash m, rest)
unfolding read_payload read_hash serialize_hash hash_set insert_or_assign
typed_hash [] rest g d short few h = absurd (g refl)
typed_hash ((k, v) ∷ m) rest g d short few h =
    rw
      (
        read_counted (length ((k, v) ∷ m)) (serialize_hash ((k, v) ∷ m)) rest few,
        string_first k (write_string v ++ serialize_hash m) rest short.0.0 h,
        string_first v (serialize_hash m) rest short.0.1 h,
      )
      (read_hash-serialize_hash ((k, v) ∷ []) m rest short.1 d h)

typed_set :
    (m : Table (Unit {0})) (rest : Bytes)
    → m ≢ []
    → IsDistinct m
    → AreShort (keys m)
    → length m < 2 ^ 32
    → 4 ≤ length rest
    → read_payload set (counted serialize_list (keys m) ++ rest) ≡ some (of_set m, rest)
unfolding read_payload read_set serialize_list set_add insert_or_assign
typed_set [] rest g d short few h = absurd (g refl)
typed_set ((k, tt) ∷ m) rest g d short few h =
    rw
      (
        length-keys ((k, tt) ∷ m),
        read_counted (length ((k, tt) ∷ m)) (serialize_list (keys ((k, tt) ∷ m))) rest few,
        string_first k (serialize_list (keys m)) rest short.0 h,
      )
      (read_set-serialize_list ((k, tt) ∷ []) m rest short.1 d h)

typed_zset :
    (zs : List ZSetMember) (rest : Bytes)
    → zs ≢ []
    → IsOrdered zs
    → MembersAreShort zs
    → length zs < 2 ^ 32
    → 4 ≤ length rest
    → read_payload zset (counted serialize_zset (pairs zs) ++ rest) ≡ some (of_zset zs, rest)
unfolding read_payload read_zset serialize_zset zset_add score_differs insert_member
typed_zset [] rest g o short few h = absurd (g refl)
typed_zset (z ∷ zs) rest g o short few h =
    rw
      (
        length-pairs zs,
        read_counted (suc (length zs)) (serialize_zset (pairs (z ∷ zs))) rest few,
        string_first z.member (write_uint64 z.score ++ serialize_zset (pairs zs)) rest short.0.0 h,
        append_assoc (write_uint64 z.score) (serialize_zset (pairs zs)) rest,
        read_uint64-write_uint64 z.score (serialize_zset (pairs zs) ++ rest) short.0.1,
      )
      (read_zset-serialize_zset (z ∷ []) zs rest short.1 o h)

-- A clean object is the payload of its type.
payload : ObjectType → CacheObject → CacheObject
payload string o = of_string o.string_val
payload list o = of_list o.list_val
payload hash o = of_hash o.hash_val
payload set o = of_set o.set_val
payload zset o = of_zset o.zset_val

payload_eq : (t : ObjectType) (o : CacheObject) → o.type ≡ t → IsClean o → payload t o ≡ o
unfolding payload
payload_eq string o e c = ground arith
payload_eq list o e c = ground arith
payload_eq hash o e c = ground arith
payload_eq set o e c = ground arith
payload_eq zset o e c = ground arith

read_payload-payload :
    (t : ObjectType) (o : CacheObject) (rest : Bytes)
    → IsClean o
    → IsFilled t o
    → FitsRdb o
    → 4 ≤ length rest
    → read_payload t (serialize_value t (payload t o) ++ rest) ≡ some (payload t o, rest)
unfolding payload read_payload serialize_value get_string hash_items set_members zset_all
read_payload-payload string o rest c g f h =
    rw (read_string-write_string o.string_val rest f.text h) refl
read_payload-payload list o rest c g f h =
    rw (list_range_all o.list_val) (typed_list o.list_val rest g f.items f.item_count h)
read_payload-payload hash o rest c g f h =
    typed_hash o.hash_val rest g c.fields f.fields f.field_count h
read_payload-payload set o rest c g f h =
    typed_set o.set_val rest g c.members f.members f.member_count h
read_payload-payload zset o rest c g f h =
    typed_zset o.zset_val rest g c.ordered f.scores f.score_count h

-- The value of a record is read back by its type.
pub read_payload-serialize_value :
    (o : CacheObject) (rest : Bytes)
    → IsClean o
    → IsFilled o.type o
    → FitsRdb o
    → 4 ≤ length rest
    → read_payload o.type (serialize_value o.type o ++ rest) ≡ some (o, rest)
read_payload-serialize_value o rest c g f h =
    subst (λ x. read_payload o.type (serialize_value o.type x ++ rest) ≡ some (x, rest))
      (payload_eq o.type o refl c) (read_payload-payload o.type o rest c g f h)
