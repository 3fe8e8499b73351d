-- ===== src/Datatype/Payload.antt =====
-- src/datatype/object.cpp: `serialize` and `deserialize`, the payload of MIGRATE and RESTORE.
-- A payload is a type tag on a line and records "<length>\n<bytes>".
pub mod Records
pub mod Loops
pub mod Scored
pub mod RoundTrip
use concurrent_cache.Prelude.{
  ◌>>=◌, when_some, ◌*◌, ◌/◌, ◌^◌, ℕ, zero, suc, ◌+◌, ◌-◌, ◌≡◌, Bool, true, false, Option, none,
  some, List, [], ◌∷◌, ◌++◌, if◌then◌else◌, length, ◌==◌, ltb, not, ◌||◌,
}
use concurrent_cache.Text.{Bytes, codes, find_char, substr, str_eq}
use concurrent_cache.Text.Decimal.{to_string, from_chars_ull, whole}
use concurrent_cache.Table.{Table, keys}
use concurrent_cache.Datatype.Double.{Double, is_nan, is_inf}
use concurrent_cache.Datatype.Object.{
  CacheObject, ObjectType, string, list, hash, set, zset, set_string,
}
use concurrent_cache.Datatype.Object.Lists.{list_push}
use concurrent_cache.Datatype.Object.Hashes.{hash_set}
use concurrent_cache.Datatype.Object.Sets.{set_add}
use concurrent_cache.Datatype.Object.SortedSets.{zset_add}
use concurrent_cache.Datatype.Object.Members.{ZSetMember}

-- '\n'
abbrev pub newline : ℕ
newline = 10

-- `snprintf("%.17g")` of a double, and `from_chars` of a whole text into a double.
pub record ScoreText : Type 0 where
  pub format : Double → Bytes
  pub scan_score : Bytes → Option Double
  -- 17 significant digits determine a finite double.
  pub read_back :
      (d : Double) → is_nan d ≡ false → is_inf d ≡ false → scan_score (format d) ≡ some d

-- append_record, as the text that it appends
unfoldable pub record_of : Bytes → Bytes
record_of payload = to_string (length payload) ++ newline ∷ payload

abbrev pub records : List Bytes → Bytes
records [] = []
records (e ∷ es) = record_of e ++ records es

abbrev pub field_records : Table Bytes → List Bytes
field_records [] = []
field_records ((k, v) ∷ m) = k ∷ v ∷ field_records m

abbrev pub score_records : ScoreText → List ZSetMember → List Bytes
score_records st [] = []
score_records st (z ∷ zs) = z.member ∷ st.format z.score ∷ score_records st zs

-- The count and the records of the elements.
abbrev pub counted : ℕ → List Bytes → Bytes
counted n es = record_of (to_string n) ++ records es

unfoldable pub payload_of : ScoreText → ObjectType → CacheObject → Bytes
payload_of st string o = codes "STRING" ++ newline ∷ record_of o.string_val
payload_of st list o = codes "LIST" ++ newline ∷ counted (length o.list_val) o.list_val
payload_of st hash o =
    codes "HASH" ++ newline ∷ counted (length o.hash_val) (field_records o.hash_val)
payload_of st set o = codes "SET" ++ newline ∷ counted (length o.set_val) (keys o.set_val)
payload_of st zset o =
    codes "ZSET" ++ newline ∷ counted (length o.zset_val) (score_records st o.zset_val)

unfoldable pub serialize : ScoreText → CacheObject → Bytes
unfolding payload_of
serialize st o = payload_of st o.type o

-- The string, and the position behind the record; `none` is the result `false`.
unfoldable pub read_record : Bytes → ℕ → Option (Bytes × ℕ)
read_record buf pos = do
  nl ← find_char buf newline pos
  len ← whole (from_chars_ull (substr buf pos (nl - pos)))
  if ltb (length buf - (nl + 1)) len then none else some (substr buf (nl + 1) len, nl + 1 + len)

unfoldable pub read_count : Bytes → ℕ → Option (ℕ × ℕ)
read_count buf pos = do
  (head, next) ← read_record buf pos
  count ← whole (from_chars_ull head)
  some (count, next)

-- Neither a text that is no number nor an infinity or NaN is a score.
unfoldable pub read_score : ScoreText → Bytes → Option Double
read_score st text = do
  score ← st.scan_score text
  if is_nan score || is_inf score then none else some score

-- Why `deserialize` returns false, or the exception that leaves it.
pub data PayloadError : Type 0 where
  no_type_tag : PayloadError
  unsupported_type : PayloadError
  bad_count : PayloadError
  truncated : PayloadError
  bad_score : PayloadError
  trailing_bytes : PayloadError
  length_error : PayloadError

-- The object as `deserialize` leaves it, and what went wrong, if anything did.
abbrev pub Outcome : Type 0
Outcome = CacheObject × Option PayloadError

-- finish
unfoldable pub finish : Bytes → ℕ → CacheObject → Outcome
finish payload pos o = (o, if pos == length payload then none else some trailing_bytes)

-- The records of the list, before any is pushed.
unfoldable pub read_records : Bytes → ℕ → ℕ → Option (List Bytes × ℕ)
read_records payload zero pos = some ([], pos)
read_records payload (suc count) pos = do
  (elem, next) ← read_record payload pos
  (elems, end) ← read_records payload count next
  some (elem ∷ elems, end)

unfoldable pub push_all : CacheObject → List Bytes → CacheObject
push_all o [] = o
push_all o (e ∷ es) = push_all (list_push o e false).0 es

-- vector<std::string>::max_size() with strings of 32 bytes: `reserve` throws above it.
abbrev pub max_elements : ℕ
max_elements = (2 ^ 63 - 1) / 32

unfoldable pub read_list : Bytes → ℕ → ℕ → CacheObject → Outcome
read_list payload count pos o =
    if ltb max_elements count
    then (o, some length_error)
    else when_some (read_records payload count pos) (o, some truncated)
        (λ (elems, end).
          if end == length payload then (push_all o elems, none) else (o, some trailing_bytes))

-- The loops below store each element before they read the next.
unfoldable pub read_hash : Bytes → ℕ → ℕ → CacheObject → Outcome
read_hash payload zero pos o = finish payload pos o
read_hash payload (suc count) pos o =
    when_some (read_record payload pos) (o, some truncated)
      (λ (field, middle).
        when_some (read_record payload middle) (o, some truncated)
          (λ (value, next). read_hash payload count next (hash_set o field value).0))

unfoldable pub read_set : Bytes → ℕ → ℕ → CacheObject → Outcome
read_set payload zero pos o = finish payload pos o
read_set payload (suc count) pos o =
    when_some (read_record payload pos) (o, some truncated)
      (λ (member, next). read_set payload count next (set_add o member).0)

unfoldable pub read_zset : ScoreText → Bytes → ℕ → ℕ → CacheObject → Outcome
read_zset st payload zero pos o = finish payload pos o
read_zset st payload (suc count) pos o =
    when_some (read_record payload pos) (o, some truncated)
      (λ (member, middle).
        when_some (read_record payload middle) (o, some truncated)
          (λ (score_text, next).
            when_some (read_score st score_text) (o, some bad_score)
              (λ score. read_zset st payload count next (zset_add o member score).0)))

unfoldable pub read_string : Bytes → ℕ → CacheObject → Outcome
read_string payload pos o =
    when_some (read_record payload pos) (o, some truncated)
      (λ (value, next). finish payload next (set_string o value))

unfoldable pub with_count : Bytes → ℕ → CacheObject → (ℕ → ℕ → CacheObject → Outcome) → Outcome
with_count payload pos o body =
    when_some (read_count payload pos) (o, some bad_count) (λ (count, next). body count next o)

unfoldable pub deserialize : ScoreText → CacheObject → Bytes → Outcome
unfolding with_count read_string read_list read_hash read_set read_zset
deserialize st o payload =
    when_some (find_char payload newline 0) (o, some no_type_tag)
      (λ nl.
        let type = substr payload 0 nl in
        let pos = nl + 1 in
        if str_eq type (codes "STRING")
        then read_string payload pos o
        else if str_eq type (codes "LIST")
        then with_count payload pos o (read_list payload)
        else if str_eq type (codes "HASH")
        then with_count payload pos o (read_hash payload)
        else if str_eq type (codes "SET")
        then with_count payload pos o (read_set payload)
        else if str_eq type (codes "ZSET")
        then with_count payload pos o (read_zset st payload)
        else (o, some unsupported_type))
