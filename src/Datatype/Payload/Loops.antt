-- ===== src/Datatype/Payload/Loops.antt =====
-- The loops of `deserialize` rebuild what `serialize` walked over.
use concurrent_cache.Prelude.{
  ℕ, ◌+◌, ◌^◌, ◌<◌, ◌≤◌, ◌≡◌, refl, sym, ap, ◌∙◌, none, List, [], ◌∷◌, ◌++◌, arith, length,
  append_assoc, append-nil,
}
use mathlib.Core.Path.{subst}
use concurrent_cache.Text.{Bytes}
use concurrent_cache.Text.Decimal.{to_string}
use concurrent_cache.Table.{
  Table, keys, insert_or_assign, IsDistinct, insert_absent, contains_middle,
}
use concurrent_cache.Datatype.Object.{CacheObject, hash, set, empty_object, of_list}
use concurrent_cache.Datatype.Object.Lists.{list_push}
use concurrent_cache.Datatype.Object.Hashes.{hash_set}
use concurrent_cache.Datatype.Object.Sets.{set_add}
use concurrent_cache.Datatype.Payload.{
  Outcome, record_of, records, counted, field_records, push_all, finish, max_elements, with_count,
  read_list, read_hash, read_set,
}
use concurrent_cache.Datatype.Payload.Records.{
  At, read_record-record_of, read_count-record_of, read_records-records,
}

-- The count in front of the records is read, and the body goes on behind it.
pub with_count-counted :
    (buf : Bytes) (pos n : ℕ) (es : List Bytes) (o : CacheObject)
    (body : ℕ → ℕ → CacheObject → Outcome)
    → length buf < 2 ^ 64
    → n < 2 ^ 64
    → At buf pos (counted n es)
    → (with_count buf pos o body ≡ body n (pos + length (record_of (to_string n))) o)
      × At buf (pos + length (record_of (to_string n))) (records es)
unfolding with_count
with_count-counted buf pos n es o body fits lt h = (
  rw (read_count-record_of buf pos (to_string n) (records es) fits h n refl lt),
  (read_record-record_of buf pos (to_string n) (records es) fits h).1,
)

pub At-end :
    (buf : Bytes) (pos : ℕ) (o : CacheObject) → At buf pos [] → finish buf pos o ≡ (o, none)
unfolding finish
At-end buf pos o h = ground (arith, h.size)

push_all-of_list : (xs es : List Bytes) → push_all (of_list xs) es ≡ of_list (xs ++ es)
unfolding push_all list_push
push_all-of_list xs [] = ap of_list (sym (append-nil xs))
push_all-of_list xs (e ∷ es) =
    push_all-of_list (xs ++ e ∷ []) es ∙ ap of_list (append_assoc xs (e ∷ []) es)

pub read_list-records :
    (buf : Bytes) (pos : ℕ) (e : Bytes) (es : List Bytes)
    → length buf < 2 ^ 64
    → length (e ∷ es) ≤ max_elements
    → At buf pos (records (e ∷ es))
    → read_list buf (length (e ∷ es)) pos empty_object ≡ (of_list (e ∷ es), none)
unfolding read_list push_all list_push
read_list-records buf pos e es fits le h =
    rw (read_records-records buf pos (e ∷ es) fits h) (ground (arith, push_all-of_list (e ∷ []) es))

abbrev pub of_hash : Table Bytes → CacheObject
of_hash m = record empty_object { type = hash; hash_val = m }

abbrev pub of_set : Table (Unit {0}) → CacheObject
of_set m = record empty_object { type = set; set_val = m }

pub hash_set-of_hash :
    (k v : Bytes) (seen m : Table Bytes)
    → IsDistinct (seen ++ (k, v) ∷ m)
    → (hash_set (of_hash seen) k v).0 ≡ of_hash (seen ++ (k, v) ∷ [])
unfolding hash_set
hash_set-of_hash k v seen m d = ap of_hash (insert_absent k v seen (contains_middle k v seen m d))

read_hash-records :
    (buf : Bytes) (pos : ℕ) (seen m : Table Bytes)
    → length buf < 2 ^ 64
    → IsDistinct (seen ++ m)
    → At buf pos (records (field_records m))
    → read_hash buf (length m) pos (of_hash seen) ≡ (of_hash (seen ++ m), none)
unfolding read_hash
read_hash-records buf pos seen [] fits d h =
    At-end buf pos (of_hash seen) h ∙ ap (λ n. (of_hash n, none)) (sym (append-nil seen))
read_hash-records buf pos seen ((k, v) ∷ m) fits d h =
    let first = read_record-record_of buf pos k (record_of v ++ records (field_records m)) fits h in
    let middle = pos + length (record_of k) in
    let second = read_record-record_of buf middle v (records (field_records m)) fits first.1 in
    let shift = append_assoc seen ((k, v) ∷ []) m in
    rw (first.0, second.0, hash_set-of_hash k v seen m d)
      (read_hash-records buf (middle + length (record_of v)) (seen ++ (k, v) ∷ []) m fits
          (subst IsDistinct (sym shift) d) second.1
        ∙ ap (λ n. (of_hash n, none)) shift)

-- From a new object the first field makes it a hash.
pub read_hash-first :
    (buf : Bytes) (pos : ℕ) (k v : Bytes) (m : Table Bytes)
    → length buf < 2 ^ 64
    → IsDistinct ((k, v) ∷ m)
    → At buf pos (records (field_records ((k, v) ∷ m)))
    → read_hash buf (length ((k, v) ∷ m)) pos empty_object ≡ (of_hash ((k, v) ∷ m), none)
unfolding read_hash hash_set insert_or_assign
read_hash-first buf pos k v m fits d h =
    let first = read_record-record_of buf pos k (record_of v ++ records (field_records m)) fits h in
    let middle = pos + length (record_of k) in
    let second = read_record-record_of buf middle v (records (field_records m)) fits first.1 in
    rw (first.0, second.0)
      (read_hash-records buf (middle + length (record_of v)) ((k, v) ∷ []) m fits d second.1)

pub set_add-of_set :
    (k : Bytes) (seen m : Table (Unit {0}))
    → IsDistinct (seen ++ (k, tt) ∷ m)
    → (set_add (of_set seen) k).0 ≡ of_set (seen ++ (k, tt) ∷ [])
unfolding set_add
set_add-of_set k seen m d = ap of_set (insert_absent k tt seen (contains_middle k tt seen m d))

read_set-records :
    (buf : Bytes) (pos : ℕ) (seen m : Table (Unit {0}))
    → length buf < 2 ^ 64
    → IsDistinct (seen ++ m)
    → At buf pos (records (keys m))
    → read_set buf (length m) pos (of_set seen) ≡ (of_set (seen ++ m), none)
unfolding read_set
read_set-records buf pos seen [] fits d h =
    At-end buf pos (of_set seen) h ∙ ap (λ n. (of_set n, none)) (sym (append-nil seen))
read_set-records buf pos seen ((k, tt) ∷ m) fits d h =
    let first = read_record-record_of buf pos k (records (keys m)) fits h in
    let shift = append_assoc seen ((k, tt) ∷ []) m in
    rw (first.0, set_add-of_set k seen m d)
      (read_set-records buf (pos + length (record_of k)) (seen ++ (k, tt) ∷ []) m fits
          (subst IsDistinct (sym shift) d) first.1
        ∙ ap (λ n. (of_set n, none)) shift)

-- From a new object the first member makes it a set.
pub read_set-first :
    (buf : Bytes) (pos : ℕ) (k : Bytes) (m : Table (Unit {0}))
    → length buf < 2 ^ 64
    → IsDistinct ((k, tt) ∷ m)
    → At buf pos (records (keys ((k, tt) ∷ m)))
    → read_set buf (length ((k, tt) ∷ m)) pos empty_object ≡ (of_set ((k, tt) ∷ m), none)
unfolding read_set set_add insert_or_assign
read_set-first buf pos k m fits d h =
    let first = read_record-record_of buf pos k (records (keys m)) fits h in
    rw first.0 (read_set-records buf (pos + length (record_of k)) ((k, tt) ∷ []) m fits d first.1)
