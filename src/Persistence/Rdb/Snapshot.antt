-- ===== src/Persistence/Rdb/Snapshot.antt =====
-- persistence/rdb.cpp: save and load of a whole file. zlib is a parameter; what the file system does
-- is an argument of `save`, and the clock stands still during a load.
use concurrent_cache.Prelude.{
  ℕ, zero, suc, ◌+◌, ◌-◌, ◌^◌, ◌%◌, ◌<◌, Bool, true, false, ◌&&◌, not, Option, none, some, List, [],
  ◌∷◌, ◌++◌, ◌==◌, ltb, if◌then◌else◌, length, take, drop, ℤ, pos, ltb_ℤ, ◌-ℤ◌, get_or,
}
use concurrent_cache.Text.{Bytes, codes, str_eq}
use concurrent_cache.Cache.Storage.{Setting, Storage, KvWithTtl, get_all_objects_with_ttl}
use concurrent_cache.Cache.Storage.Writes.{set, set_with_expire}
use concurrent_cache.Persistence.Rdb.{
  write_uint32, write_kv_pair, read_uint32, read_kv_pair, eof_marker,
}

-- zlib: crc32(crc, buf, len), and the initial value that crc32(0, Z_NULL, 0) gives.
pub record Zlib : Type 0 where
  pub crc32 : ℕ → Bytes → ℕ
  pub initial : ℕ
  pub crc32_fits : (crc : ℕ) (buf : Bytes) → crc32 crc buf < 2 ^ 32
  pub initial_fits : initial < 2 ^ 32

-- kRdbMagic, kRdbVersion
abbrev pub rdb_magic : ℕ
rdb_magic = 1128485444

abbrev pub rdb_version : Bytes
rdb_version = codes "0002"

unfoldable pub write_all : List KvWithTtl → Bytes → Bytes
write_all [] rest = rest
write_all (kv ∷ kvs) rest = write_kv_pair kv ++ write_all kvs rest

-- What a file has in front of its CRC: magic, version, one database, its records, the EOF marker.
unfoldable pub file_body : List KvWithTtl → Bytes
file_body kvs =
    write_uint32 rdb_magic
    ++ (rdb_version
        ++ (write_uint32 1
            ++ (write_uint32 (length kvs % 2 ^ 32) ++ write_all kvs (eof_marker ∷ []))))

abbrev pub agrees : Option (ℕ × Bytes) → ℕ → Bool
agrees none calculated = false
agrees (some (stored, rest)) calculated = stored == calculated

module _ (z : Zlib) where
  -- The loop over blocks of 4096 bytes; the fuel bounds their number.
  unfoldable pub crc_loop : ℕ → ℕ → Bytes → ℕ
  crc_loop zero crc s = crc
  crc_loop (suc f) crc s =
      let rest = crc_loop f (z.crc32 crc (take 4096 s)) (drop 4096 s) in
      if length s == 0 then crc else rest

  unfoldable pub calculate_crc32_for_range : Bytes → ℕ → ℕ
  calculate_crc32_for_range file end = crc_loop (suc end) z.initial (take end file)

  unfoldable pub rdb_file : List KvWithTtl → Bytes
  rdb_file kvs =
      let body = file_body kvs in
      body ++ write_uint32 (calculate_crc32_for_range body (length body))

  -- The CRC at the end of the file is that of what stands in front of it.
  unfoldable pub crc_matches : Bytes → Bool
  crc_matches file =
      let data_len = length file - 4 in
      agrees (read_uint32 (drop data_len file)) (calculate_crc32_for_range file data_len)

abbrev pub header_matches : Option (ℕ × Bytes) → Bool
header_matches none = false
header_matches (some (magic, rest)) =
    magic == rdb_magic && (not (ltb (length rest) 4) && str_eq (take 4 rest) rdb_version)

module _ (env : Setting) (now : ℤ) where
  -- A record that was read goes to the store, unless it has expired or its key is empty.
  unfoldable pub store_record : KvWithTtl → Storage → Storage
  store_record kv s =
      let ttl = kv.expire_time_ms -ℤ now in
      if length kv.key == 0
      then s
      else if ltb_ℤ (pos 0) kv.expire_time_ms
      then (if ltb_ℤ (pos 0) ttl then set_with_expire env s kv.key kv.value ttl now else s)
      else set env s kv.key kv.value now

  -- The loops of load. The store comes back with the bytes that remain, or with none after an
  -- exception.
  unfoldable pub load_records : ℕ → Bytes → Storage → Storage × Option Bytes
  load_records zero file s = (s, some file)
  load_records (suc n) file s = elim (read_kv_pair file) [
    | none ↦ (s, none)
    | some found ↦ load_records n found.1 (store_record found.0 s)
  ]

  abbrev pub load_counted : Option (ℕ × Bytes) → Storage → Storage × Option Bytes
  load_counted none s = (s, none)
  load_counted (some (kv_count, file)) s = load_records kv_count file s

  abbrev pub next_database :
      (Bytes → Storage → Storage × Option Bytes) → Storage × Option Bytes → Storage × Option Bytes
  next_database load_rest (s, none) = (s, none)
  next_database load_rest (s, some file) = load_rest file s

  unfoldable pub load_databases : ℕ → Bytes → Storage → Storage × Option Bytes
  load_databases zero file s = (s, some file)
  load_databases (suc n) file s =
      next_database (load_databases n) (load_counted (read_uint32 file) s)

  -- The body has ended one byte, the EOF marker, in front of the CRC.
  abbrev pub body_ends : Option Bytes → Bool
  body_ends none = false
  body_ends (some file) = length file == 5 && get_or file 0 0 == eof_marker

  abbrev pub load_body : Option (ℕ × Bytes) → Storage → Storage × Bool
  load_body none s = (s, false)
  load_body (some (db_count, file)) s =
      let (s', rest) = load_databases db_count file s in (s', body_ends rest)

  module _ (z : Zlib) where
    -- `none` is a file that cannot be opened.
    unfoldable pub load : Option Bytes → Storage → Storage × Bool
    load none s = (s, false)
    load (some []) s = (s, true)
    load (some (b ∷ file)) s =
        if header_matches (read_uint32 (b ∷ file)) && crc_matches z (b ∷ file)
        then load_body (read_uint32 (drop 8 (b ∷ file))) s
        else (s, false)

-- BgsaveStatus
pub data BgsaveStatus : Type 0 where
  idle : BgsaveStatus
  in_progress : BgsaveStatus
  success : BgsaveStatus
  failed : BgsaveStatus

pub record RdbStats : Type 0 where
  pub last_bgsave_time_sec : ℤ
  pub last_bgsave_status : BgsaveStatus
  pub last_bgsave_keys : ℕ
  pub total_rdb_saved_keys : ℕ

-- The counter is a size_t.
unfoldable pub record_save_result : ℤ → BgsaveStatus → ℕ → RdbStats → RdbStats
record_save_result now_sec success keys stats = record {
  last_bgsave_time_sec = now_sec;
  last_bgsave_status = success;
  last_bgsave_keys = keys;
  total_rdb_saved_keys = (stats.total_rdb_saved_keys + keys) % 2 ^ 64;
}
record_save_result now_sec status keys stats = record stats { last_bgsave_status = status }

-- How far the file system lets a save come.
pub data SaveIo : Type 0 where
  cannot_open : SaveIo
  write_fails : SaveIo
  rename_fails : SaveIo
  all_done : SaveIo

-- The file at the path, which is replaced by a rename at the end, with the statistics.
unfoldable pub save :
    Zlib → SaveIo → ℤ → ℤ → Storage → Option Bytes × RdbStats → (Option Bytes × RdbStats) × Bool
save z cannot_open now now_sec s (disk, stats) = ((disk, stats), false)
save z write_fails now now_sec s (disk, stats) =
    ((disk, record_save_result now_sec failed 0 stats), false)
save z rename_fails now now_sec s (disk, stats) =
    ((disk, record_save_result now_sec failed 0 stats), false)
save z all_done now now_sec s (disk, stats) =
    let kvs = get_all_objects_with_ttl s now in
    ((some (rdb_file z kvs), record_save_result now_sec success (length kvs % 2 ^ 32) stats), true)
