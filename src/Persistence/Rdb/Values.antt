-- ===== src/Persistence/Rdb/Values.antt =====
-- The loops of the deserializers rebuild what the serializers walked over (persistence/rdb.cpp).
use concurrent_cache.Prelude.{
  ◌^◌, ◌<◌, ◌≤◌, ◌≡◌, sym, ap, ◌∙◌, some, List, [], ◌∷◌, ◌++◌, arith, length, append_assoc,
  append-nil, length-append,
}
use mathlib.Core.Path.{subst}
use concurrent_cache.Text.{Bytes}
use concurrent_cache.Table.{Table, keys, IsDistinct}
use concurrent_cache.Datatype.Object.{of_list}
use concurrent_cache.Datatype.Object.Lists.{list_push}
use concurrent_cache.Datatype.Object.Members.{ZSetMember, pairs}
use concurrent_cache.Datatype.Object.Ordered.{IsOrdered}
use concurrent_cache.Datatype.Payload.Loops.{of_hash, of_set, hash_set-of_hash, set_add-of_set}
use concurrent_cache.Datatype.Payload.Scored.{of_zset, zset_add-of_zset}
use concurrent_cache.Persistence.Rdb.{
  write_string, write_uint64, serialize_list, serialize_hash, serialize_zset, read_string,
  read_list, read_hash, read_set, read_zset,
}
use concurrent_cache.Persistence.Rdb.Fields.{read_string-write_string, read_uint64-write_uint64}

-- A length fits the 32 bits that it is written in.
abbrev pub IsShort : Bytes → Type 0
IsShort v = length v < 2 ^ 32

abbrev pub AreShort : List Bytes → Type 0
AreShort [] = Unit {0}
AreShort (v ∷ vs) = IsShort v × AreShort vs

abbrev pub FieldsAreShort : Table Bytes → Type 0
FieldsAreShort [] = Unit {0}
FieldsAreShort ((k, v) ∷ m) = (IsShort k × IsShort v) × FieldsAreShort m

-- Scores are 64-bit patterns.
abbrev pub MembersAreShort : List ZSetMember → Type 0
MembersAreShort [] = Unit {0}
MembersAreShort (z ∷ zs) = (IsShort z.member × (z.score < 2 ^ 64)) × MembersAreShort zs

-- A string in front of more is read.
pub string_first :
    (v more rest : Bytes)
    → IsShort v
    → 4 ≤ length rest
    → read_string ((write_string v ++ more) ++ rest) ≡ some (v, more ++ rest)
string_first v more rest short h =
    rw (append_assoc (write_string v) more rest)
      (read_string-write_string v (more ++ rest) short (omega (arith, length-append more rest)))

pub read_list-serialize_list :
    (seen vs : List Bytes) (rest : Bytes)
    → AreShort vs
    → 4 ≤ length rest
    → read_list (length vs) (of_list seen) (serialize_list vs ++ rest)
      ≡ some (of_list (seen ++ vs), rest)
unfolding read_list serialize_list list_push
read_list-serialize_list seen [] rest short h =
    ap (λ xs. some (of_list xs, rest)) (sym (append-nil seen))
read_list-serialize_list seen (v ∷ vs) rest short h =
    rw (string_first v (serialize_list vs) rest short.0 h) (
      read_list-serialize_list (seen ++ v ∷ []) vs rest short.1 h
      ∙ ap (λ xs. some (of_list xs, rest)) (append_assoc seen (v ∷ []) vs))

pub read_hash-serialize_hash :
    (seen m : Table Bytes) (rest : Bytes)
    → FieldsAreShort m
    → IsDistinct (seen ++ m)
    → 4 ≤ length rest
    → read_hash (length m) (of_hash seen) (serialize_hash m ++ rest)
      ≡ some (of_hash (seen ++ m), rest)
unfolding read_hash serialize_hash
read_hash-serialize_hash seen [] rest short d h =
    ap (λ xs. some (of_hash xs, rest)) (sym (append-nil seen))
read_hash-serialize_hash seen ((k, v) ∷ m) rest short d h =
    let shift = append_assoc seen ((k, v) ∷ []) m in
    rw
      (
        string_first k (write_string v ++ serialize_hash m) rest short.0.0 h,
        string_first v (serialize_hash m) rest short.0.1 h,
        hash_set-of_hash k v seen m d,
      )
      (read_hash-serialize_hash (seen ++ (k, v) ∷ []) m rest short.1
          (subst IsDistinct (sym shift) d) h
        ∙ ap (λ xs. some (of_hash xs, rest)) shift)

pub read_set-serialize_list :
    (seen m : Table (Unit {0})) (rest : Bytes)
    → AreShort (keys m)
    → IsDistinct (seen ++ m)
    → 4 ≤ length rest
    → read_set (length m) (of_set seen) (serialize_list (keys m) ++ rest)
      ≡ some (of_set (seen ++ m), rest)
unfolding read_set serialize_list
read_set-serialize_list seen [] rest short d h =
    ap (λ xs. some (of_set xs, rest)) (sym (append-nil seen))
read_set-serialize_list seen ((k, tt) ∷ m) rest short d h =
    let shift = append_assoc seen ((k, tt) ∷ []) m in
    rw (string_first k (serialize_list (keys m)) rest short.0 h, set_add-of_set k seen m d)
      (read_set-serialize_list (seen ++ (k, tt) ∷ []) m rest short.1
          (subst IsDistinct (sym shift) d) h
        ∙ ap (λ xs. some (of_set xs, rest)) shift)

pub read_zset-serialize_zset :
    (seen zs : List ZSetMember) (rest : Bytes)
    → MembersAreShort zs
    → IsOrdered (seen ++ zs)
    → 4 ≤ length rest
    → read_zset (length zs) (of_zset seen) (serialize_zset (pairs zs) ++ rest)
      ≡ some (of_zset (seen ++ zs), rest)
unfolding read_zset serialize_zset
read_zset-serialize_zset seen [] rest short o h =
    ap (λ xs. some (of_zset xs, rest)) (sym (append-nil seen))
read_zset-serialize_zset seen (z ∷ zs) rest short o h =
    let shift = append_assoc seen (z ∷ []) zs in
    let tail = serialize_zset (pairs zs) in
    rw
      (
        string_first z.member (write_uint64 z.score ++ tail) rest short.0.0 h,
        append_assoc (write_uint64 z.score) tail rest,
        read_uint64-write_uint64 z.score (tail ++ rest) short.0.1,
        zset_add-of_zset z seen zs o,
      )
      (read_zset-serialize_zset (seen ++ z ∷ []) zs rest short.1 (subst IsOrdered (sym shift) o) h
        ∙ ap (λ xs. some (of_zset xs, rest)) shift)
