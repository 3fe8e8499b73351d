-- ===== src/Datatype/Payload/RoundTrip.antt =====
-- `deserialize` undoes `serialize`.
use concurrent_cache.Prelude.{
  ℕ, ◌+◌, ◌^◌, ◌<◌, ◌≤◌, ◌≡◌, refl, sym, ap, ◌∙◌, none, List, [], ◌∷◌, ◌++◌, arith, length,
  length-append, append-nil, ◌≢◌,
}
use mathlib.Core.Path.{subst}
use concurrent_cache.Text.{Bytes, codes, find_char, substr, index_of, str_eq}
use concurrent_cache.Text.Decimal.{to_string}
use concurrent_cache.Table.{Table, keys, IsDistinct}
use concurrent_cache.Datatype.Object.{
  CacheObject, ObjectType, string, list, hash, set, zset, empty_object, of_string, of_list,
  set_string,
}
use concurrent_cache.Datatype.Object.Members.{ZSetMember}
use concurrent_cache.Datatype.Object.Ordered.{IsOrdered}
use concurrent_cache.Datatype.Object.Clean.{IsClean}
use concurrent_cache.Datatype.Payload.{
  ScoreText, newline, record_of, records, counted, field_records, score_records, serialize,
  deserialize, max_elements, read_list, read_hash, read_set, read_zset, read_string, payload_of,
}
use concurrent_cache.Datatype.Payload.Records.{
  At, At-zero, At-append, read_record-record_of, length-records,
}
use concurrent_cache.Datatype.Payload.Loops.{
  with_count-counted, At-end, read_list-records, read_hash-first, read_set-first, of_hash, of_set,
}
use concurrent_cache.Datatype.Payload.Scored.{read_zset-first, of_zset, IsFinite}

-- The bytes behind a tag of `n` bytes and its newline.
behind_tag : (tag t : Bytes) → At (tag ++ newline ∷ t) (length tag + 1) t
behind_tag tag t =
    let all = At-zero (tag ++ newline ∷ t) in
    At-append _ (length tag) (newline ∷ []) t (
      subst (λ n. At (tag ++ newline ∷ t) n (newline ∷ t)) {x = 0 + length tag} (omega arith)
        (At-append _ 0 tag (newline ∷ t) all))

fewer :
    (tag : Bytes) (n : ℕ) (es : List Bytes)
    → n ≤ length es
    → length (tag ++ newline ∷ counted n es) < 2 ^ 64
    → n < 2 ^ 64
fewer tag n es le fits = omega (
  arith,
  length-append tag (newline ∷ counted n es),
  length-append (record_of (to_string n)) (records es),
  length-records es,
)

length-field_records : (m : Table Bytes) → length m ≤ length (field_records m)
length-field_records [] = omega arith
length-field_records ((k, v) ∷ m) = omega (arith, length-field_records m)

length-keys : (m : Table (Unit {0})) → length m ≤ length (keys m)
length-keys [] = omega arith
length-keys ((k, v) ∷ m) = omega (arith, length-keys m)

length-score_records :
    (st : ScoreText) (zs : List ZSetMember) → length zs ≤ length (score_records st zs)
length-score_records st [] = omega arith
length-score_records st (z ∷ zs) = omega (arith, length-score_records st zs)

-- The container of the object's type is not empty; a string may be.
abbrev pub IsFilled : ObjectType → CacheObject → Type 0
IsFilled string o = Unit {0}
IsFilled list o = o.list_val ≢ []
IsFilled hash o = o.hash_val ≢ []
IsFilled set o = o.set_val ≢ []
IsFilled zset o = o.zset_val ≢ []

module _ (st : ScoreText) where
  round_trip_string :
      (v : Bytes)
      → length (codes "STRING" ++ newline ∷ record_of v) < 2 ^ 64
      → deserialize st empty_object (codes "STRING" ++ newline ∷ record_of v) ≡ (of_string v, none)
  unfolding deserialize find_char index_of substr str_eq read_string set_string
  round_trip_string v fits =
      let tag = codes "STRING" in
      let buf = tag ++ newline ∷ record_of v in
      let first = read_record-record_of buf (length tag + 1) v [] fits (
        subst (At buf (length tag + 1)) (sym (append-nil (record_of v)))
          (behind_tag tag (record_of v))) in
      rw first.0 (At-end buf _ (of_string v) first.1)

  round_trip_list :
      (xs : List Bytes)
      → xs ≢ []
      → length xs ≤ max_elements
      → length (codes "LIST" ++ newline ∷ counted (length xs) xs) < 2 ^ 64
      → deserialize st empty_object (codes "LIST" ++ newline ∷ counted (length xs) xs)
        ≡ (of_list xs, none)
  unfolding deserialize find_char index_of substr str_eq
  round_trip_list [] g le fits = absurd (g refl)
  round_trip_list (e ∷ es) g le fits =
      let n = length (e ∷ es) in
      let tag = codes "LIST" in
      let buf = tag ++ newline ∷ counted n (e ∷ es) in
      let c =
        with_count-counted buf (length tag + 1) n (e ∷ es) empty_object (read_list buf) fits
          (fewer tag n (e ∷ es) (omega arith) fits) (behind_tag tag (counted n (e ∷ es))) in
      c.0 ∙ read_list-records buf _ e es fits le c.1

  round_trip_hash :
      (xs : Table Bytes)
      → xs ≢ []
      → IsDistinct xs
      → let es = field_records xs in
        length (codes "HASH" ++ newline ∷ counted (length xs) es) < 2 ^ 64
        → deserialize st empty_object (codes "HASH" ++ newline ∷ counted (length xs) es)
          ≡ (of_hash xs, none)
  unfolding deserialize find_char index_of substr str_eq
  round_trip_hash [] g d fits = absurd (g refl)
  round_trip_hash ((k, v) ∷ m) g d fits =
      let n = length ((k, v) ∷ m) in
      let es = field_records ((k, v) ∷ m) in
      let tag = codes "HASH" in
      let buf = tag ++ newline ∷ counted n es in
      let c =
        with_count-counted buf (length tag + 1) n es empty_object (read_hash buf) fits
          (fewer tag n es (length-field_records ((k, v) ∷ m)) fits)
          (behind_tag tag (counted n es)) in
      c.0 ∙ read_hash-first buf _ k v m fits d c.1

  round_trip_set :
      (xs : Table (Unit {0}))
      → xs ≢ []
      → IsDistinct xs
      → let es = keys xs in
        length (codes "SET" ++ newline ∷ counted (length xs) es) < 2 ^ 64
        → deserialize st empty_object (codes "SET" ++ newline ∷ counted (length xs) es)
          ≡ (of_set xs, none)
  unfolding deserialize find_char index_of substr str_eq
  round_trip_set [] g d fits = absurd (g refl)
  round_trip_set ((k, tt) ∷ m) g d fits =
      let n = length ((k, tt) ∷ m) in
      let es = keys ((k, tt) ∷ m) in
      let tag = codes "SET" in
      let buf = tag ++ newline ∷ counted n es in
      let c =
        with_count-counted buf (length tag + 1) n es empty_object (read_set buf) fits
          (fewer tag n es (length-keys ((k, tt) ∷ m)) fits) (behind_tag tag (counted n es)) in
      c.0 ∙ read_set-first buf _ k m fits d c.1

  round_trip_zset :
      (xs : List ZSetMember)
      → xs ≢ []
      → IsOrdered xs
      → IsFinite xs
      → let es = score_records st xs in
        length (codes "ZSET" ++ newline ∷ counted (length xs) es) < 2 ^ 64
        → deserialize st empty_object (codes "ZSET" ++ newline ∷ counted (length xs) es)
          ≡ (of_zset xs, none)
  unfolding deserialize find_char index_of substr str_eq
  round_trip_zset [] g o f fits = absurd (g refl)
  round_trip_zset (z ∷ zs) g o f fits =
      let n = length (z ∷ zs) in
      let es = score_records st (z ∷ zs) in
      let tag = codes "ZSET" in
      let buf = tag ++ newline ∷ counted n es in
      let c =
        with_count-counted buf (length tag + 1) n es empty_object (read_zset st buf) fits
          (fewer tag n es (length-score_records st (z ∷ zs)) fits)
          (behind_tag tag (counted n es)) in
      c.0 ∙ read_zset-first st buf _ z zs fits o f c.1

  round_trip :
      (t : ObjectType) (o : CacheObject)
      → o.type ≡ t
      → IsClean o
      → IsFinite o.zset_val
      → IsFilled t o
      → length o.list_val ≤ max_elements
      → length (payload_of st t o) < 2 ^ 64
      → deserialize st empty_object (payload_of st t o) ≡ (o, none)
  unfolding payload_of
  round_trip string o e c f g le fits =
      round_trip_string o.string_val fits ∙ ap (λ x. (x, none)) (ground arith)
  round_trip list o e c f g le fits =
      round_trip_list o.list_val g le fits ∙ ap (λ x. (x, none)) (ground arith)
  round_trip hash o e c f g le fits =
      round_trip_hash o.hash_val g c.fields fits ∙ ap (λ x. (x, none)) (ground arith)
  round_trip set o e c f g le fits =
      round_trip_set o.set_val g c.members fits ∙ ap (λ x. (x, none)) (ground arith)
  round_trip zset o e c f g le fits =
      round_trip_zset o.zset_val g c.ordered f fits ∙ ap (λ x. (x, none)) (ground arith)

  -- A value that holds one payload, not an empty container, and whose scores are finite, is
  -- restored by `deserialize` into a new object from what `serialize` gives; the payload fits in
  -- memory.
  pub deserialize-serialize :
      (o : CacheObject)
      → IsClean o
      → IsFinite o.zset_val
      → IsFilled o.type o
      → length o.list_val ≤ max_elements
      → length (serialize st o) < 2 ^ 64
      → deserialize st empty_object (serialize st o) ≡ (o, none)
  unfolding serialize
  deserialize-serialize o c f g le fits = round_trip o.type o refl c f g le fits
