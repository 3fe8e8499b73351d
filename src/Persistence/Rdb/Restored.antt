-- ===== src/Persistence/Rdb/Restored.antt =====
-- A file that was saved is loaded (persistence/rdb.cpp).
use concurrent_cache.Prelude.{
  ℕ, zero, suc, ◌-◌, ◌^◌, ◌%◌, ◌<◌, ◌≤◌, ◌≡◌, refl, sym, ap, ◌∙◌, true, false, ◌&&◌, some, List, [],
  ◌∷◌, ◌++◌, arith, length, append_assoc, length-append, take, drop, take_all, append-nil,
  take-length-append, drop-length-append, if◌then◌else◌, ◌==◌, ltb, ℤ, Bool-cases, inl, inr,
}
use concurrent_cache.Text.{Bytes, str_eq}
use concurrent_cache.Text.Words.{big_endian_onto}
use concurrent_cache.Cache.Storage.{Setting, Storage, KvWithTtl}
use concurrent_cache.Persistence.Rdb.{write_uint32, write_kv_pair, read_uint32, eof_marker}
use concurrent_cache.Persistence.Rdb.Fields.{read_uint32-write_uint32}
use concurrent_cache.Persistence.Rdb.Records.{IsSaved, read_kv_pair-write_kv_pair}
use concurrent_cache.Persistence.Rdb.Snapshot.{
  Zlib, file_body, rdb_file, write_all, load_records, load_databases, load, store_record, crc_loop,
  calculate_crc32_for_range, rdb_magic, rdb_version, header_matches, crc_matches, load_body,
}

abbrev pub AreSaved : List KvWithTtl → Type 0
AreSaved [] = Unit {0}
AreSaved (kv ∷ kvs) = IsSaved kv × AreSaved kvs

-- The records one after the other, without a file between.
unfoldable pub store_all : Setting → ℤ → List KvWithTtl → Storage → Storage
store_all env now [] s = s
store_all env now (kv ∷ kvs) s = store_all env now kvs (store_record env now kv s)

write_all-append :
    (kvs : List KvWithTtl) (a b : Bytes) → write_all kvs a ++ b ≡ write_all kvs (a ++ b)
unfolding write_all
write_all-append [] a b = refl
write_all-append (kv ∷ kvs) a b =
    append_assoc (write_kv_pair kv) (write_all kvs a) b
    ∙ ap (λ t. write_kv_pair kv ++ t) (write_all-append kvs a b)

length-write_all : (kvs : List KvWithTtl) (rest : Bytes) → length rest ≤ length (write_all kvs rest)
unfolding write_all
length-write_all [] rest = omega arith
length-write_all (kv ∷ kvs) rest =
    omega (arith, length-write_all kvs rest, length-append (write_kv_pair kv) (write_all kvs rest))

load_records-write_all :
    (env : Setting) (now : ℤ) (kvs : List KvWithTtl) (rest : Bytes) (s : Storage)
    → AreSaved kvs
    → 4 ≤ length rest
    → load_records env now (length kvs) (write_all kvs rest) s
      ≡ (store_all env now kvs s, some rest)
unfolding load_records write_all store_all
load_records-write_all env now [] rest s ok h = refl
load_records-write_all env now (kv ∷ kvs) rest s ok h =
    rw
      (
        load_records,
        read_kv_pair-write_kv_pair kv (write_all kvs rest) ok.0
            (omega (arith, length-write_all kvs rest)),
      )
      (load_records-write_all env now kvs rest (store_record env now kv s) ok.1 h)

module _ (z : Zlib) where
  crc_loop_lt : (f crc : ℕ) (s : Bytes) → crc < 2 ^ 32 → crc_loop z f crc s < 2 ^ 32
  unfolding crc_loop
  crc_loop_lt zero crc s h = h
  crc_loop_lt (suc f) crc s h = elim (Bool-cases (length s == 0)) [
    | inl e ↦ rw e h
    | inr e ↦
        rw e
          (crc_loop_lt f (z.crc32 crc (take 4096 s)) (drop 4096 s) (z.crc32_fits crc (take 4096 s)))
  ]

  calculate_lt : (s : Bytes) (end : ℕ) → calculate_crc32_for_range z s end < 2 ^ 32
  unfolding calculate_crc32_for_range
  calculate_lt s end = crc_loop_lt (suc end) z.initial (take end s) z.initial_fits

  length-crc : (crc : ℕ) → length (write_uint32 crc) ≡ 4
  unfolding write_uint32 big_endian_onto
  length-crc crc = refl

  read_crc :
      (s : Bytes) (end : ℕ)
      → let crc = calculate_crc32_for_range z s end in
        read_uint32 (write_uint32 crc) ≡ some (crc, [])
  read_crc s end =
      let crc = calculate_crc32_for_range z s end in
      ap read_uint32 (sym (append-nil (write_uint32 crc)))
      ∙ read_uint32-write_uint32 crc [] (calculate_lt s end)

  -- The CRC covers what stands in front of it.
  same_range :
      (body more : Bytes)
      → calculate_crc32_for_range z (body ++ more) (length body)
        ≡ calculate_crc32_for_range z body (length body)
  unfolding calculate_crc32_for_range
  same_range body more =
      ap (crc_loop z (suc (length body)) z.initial)
        (take-length-append body more ∙ sym (take_all (length body) body (omega arith)))

  trailer : List KvWithTtl → Bytes
  trailer kvs =
      let body = file_body kvs in write_uint32 (calculate_crc32_for_range z body (length body))

  -- A body with its own CRC behind it.
  sealed : Bytes → Bytes
  sealed body = body ++ write_uint32 (calculate_crc32_for_range z body (length body))

  crc_matches-sealed : (body : Bytes) → crc_matches z (sealed body) ≡ true
  unfolding sealed crc_matches
  crc_matches-sealed body =
      let crc = calculate_crc32_for_range z body (length body) in
      let total : length (body ++ write_uint32 crc) - 4 ≡ length body =
        omega (arith, length-append body (write_uint32 crc), length-crc crc) in
      rw
        (
          total,
          drop-length-append body (write_uint32 crc),
          read_crc body (length body),
          same_range body (write_uint32 crc),
        )
        (ground arith)

  file_of_eq :
      (kvs : List KvWithTtl)
      → rdb_file z kvs
        ≡ write_uint32 rdb_magic
          ++ (rdb_version
              ++ (write_uint32 1
                  ++ (write_uint32 (length kvs % 2 ^ 32)
                      ++ write_all kvs (eof_marker ∷ trailer kvs))))
  unfolding rdb_file file_body trailer write_uint32 big_endian_onto
  file_of_eq kvs = rw (write_all-append kvs) refl

  header_matches-version : (t : Bytes) → header_matches (some (rdb_magic, rdb_version ++ t)) ≡ true
  unfolding str_eq
  header_matches-version t =
      let enough : ltb (length (rdb_version ++ t)) 4 ≡ false = ground arith in rw enough refl

  header_matches-rdb_file :
      (kvs : List KvWithTtl) → header_matches (read_uint32 (rdb_file z kvs)) ≡ true
  header_matches-rdb_file kvs =
      rw (file_of_eq kvs, read_uint32-write_uint32 rdb_magic _ (omega arith))
        (header_matches-version _)

  crc_matches-rdb_file : (kvs : List KvWithTtl) → crc_matches z (rdb_file z kvs) ≡ true
  unfolding rdb_file sealed
  crc_matches-rdb_file kvs = crc_matches-sealed (file_body kvs)

  -- What stands behind the magic and the version.
  drop-rdb_file :
      (kvs : List KvWithTtl)
      → drop 8 (rdb_file z kvs)
        ≡ write_uint32 1
          ++ (write_uint32 (length kvs % 2 ^ 32) ++ write_all kvs (eof_marker ∷ trailer kvs))
  unfolding write_uint32 big_endian_onto
  drop-rdb_file kvs = rw (file_of_eq kvs) refl

  load_eq :
      (env : Setting) (now : ℤ) (kvs : List KvWithTtl) (s : Storage)
      → load env now z (some (rdb_file z kvs)) s ≡ (
          if header_matches (read_uint32 (rdb_file z kvs)) && crc_matches z (rdb_file z kvs)
          then load_body env now (read_uint32 (drop 8 (rdb_file z kvs))) s
          else (s, false))
  unfolding load rdb_file file_body write_uint32 big_endian_onto
  load_eq env now kvs s = refl

  load_databases-one :
      (env : Setting) (now : ℤ) (kvs : List KvWithTtl) (rest : Bytes) (s : Storage)
      → AreSaved kvs
      → length kvs < 2 ^ 32
      → 4 ≤ length rest
      → load_databases env now 1 (write_uint32 (length kvs % 2 ^ 32) ++ write_all kvs rest) s
        ≡ (store_all env now kvs s, some rest)
  unfolding load_databases
  load_databases-one env now kvs rest s ok few h =
      let small : length kvs % 2 ^ 32 ≡ length kvs = omega arith in
      rw
        (
          small,
          load_databases,
          read_uint32-write_uint32 (length kvs) (write_all kvs rest) few,
          load_records-write_all env now kvs rest s ok h,
        )
        refl

  -- The file of any records with short fields is loaded: each record is stored in turn.
  pub load-rdb_file :
      (env : Setting) (now : ℤ) (kvs : List KvWithTtl) (s : Storage)
      → AreSaved kvs
      → length kvs < 2 ^ 32
      → load env now z (some (rdb_file z kvs)) s ≡ (store_all env now kvs s, true)
  unfolding trailer write_uint32 big_endian_onto
  load-rdb_file env now kvs s ok few =
      let behind = write_uint32 (length kvs % 2 ^ 32) ++ write_all kvs (eof_marker ∷ trailer kvs) in
      rw
        (
          load_eq env now kvs s,
          header_matches-rdb_file kvs,
          crc_matches-rdb_file kvs,
          drop-rdb_file kvs,
          read_uint32-write_uint32 1 behind (omega arith),
          load_databases-one env now kvs (eof_marker ∷ trailer kvs) s ok few (omega arith),
        )
        refl
