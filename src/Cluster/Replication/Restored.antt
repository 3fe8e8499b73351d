-- ===== src/Cluster/Replication/Restored.antt =====
-- A key of the snapshot, on the replica.
use concurrent_cache.Prelude.{
  ◌^◌, ◌<◌, ◌≤◌, ◌≡◌, ◌⊎◌, refl, sym, ap, ◌∙◌, true, ◌&&◌, none, some, [], length, if◌then◌else◌, ℤ,
  pos, ltb_ℤ, append-nil, Bool-cases, inl, inr,
}
use concurrent_cache.Text.{Bytes, codes, str_eq, str_eq_refl}
use concurrent_cache.Text.Decimal.{to_string_ℤ}
use concurrent_cache.Text.Stoll.{stoll, stoll-to_string_ℤ}
use concurrent_cache.Base.IntParse.{FitsInt64}
use concurrent_cache.Datatype.Object.{CacheObject}
use concurrent_cache.Datatype.Object.Clean.{IsClean}
use concurrent_cache.Datatype.Payload.{ScoreText, serialize, max_elements}
use concurrent_cache.Datatype.Payload.Scored.{IsFinite}
use concurrent_cache.Datatype.Payload.RoundTrip.{IsFilled, deserialize-serialize}
use concurrent_cache.Protocol.Resp.Encoder.{encode_simple_string}
use concurrent_cache.Cache.ExpireDict.Ttl.{is_over}
use concurrent_cache.Cache.Storage.{Setting, Storage}
use concurrent_cache.Cache.Storage.Lookup.{WellFormed}
use concurrent_cache.Cache.Storage.View.{view, Keeps}
use concurrent_cache.Cache.Storage.Sets.{set_lem, set_with_expire_lem}
use concurrent_cache.Command.Restore.{restore_command, restore_decoded, store_restored}
use concurrent_cache.Cluster.Replication.Sync.{restore_args}

module _ (env : Setting) (st : ScoreText) where
  -- What the replica shows of the key at `later`: the value, as long as its time to live has not run out.
  abbrev pub Restored : Storage → Bytes → Bytes → CacheObject → ℤ → ℤ → ℤ → Storage → Type 0
  Restored s key j value ttl now later s' =
      WellFormed env s'.stores
      × (view env s' key later
          ≡ (if ltb_ℤ (pos 0) ttl && is_over now ttl later then none else some value))
      × ((str_eq key j ≡ true) ⊎ Keeps env s s' j later)

  store_restored-Restored :
      (s : Storage) (key j : Bytes) (value : CacheObject) (ttl now later : ℤ)
      → WellFormed env s.stores
      → Restored s key j value ttl now later (store_restored env st s key value ttl now)
  unfolding store_restored
  store_restored-Restored s key j value ttl now later w = elim (Bool-cases (ltb_ℤ (pos 0) ttl)) [
    | inl limited ↦
        let (w', shown, others) = set_with_expire_lem env s key j value ttl now later w in
        rw limited (w', rw limited at shown, others)
    | inr lasting ↦ rw lasting (set_lem env s key j value now later w)
  ]

  read_ttl : (ttl : ℤ) → FitsInt64 ttl → stoll (to_string_ℤ ttl) ≡ some (ttl, [])
  read_ttl ttl h = ap stoll (sym (append-nil (to_string_ℤ ttl))) ∙ stoll-to_string_ℤ ttl [] h refl

  -- The RESTORE that the master sends for a key of its snapshot, on a well-formed store of the replica:
  -- for a value that holds one payload, is no empty container, and has finite scores, if its payload
  -- fits in memory and the time to live is an int64_t, the reply is OK, the key shows the same
  -- value until a positive time to live has run out or the clock stands at the largest int64_t,
  -- whatever stood there, and every other key
  -- shows the value that it had, or nothing when the store had reached its threshold.
  pub restore_command-restore_args :
      (s : Storage) (key j : Bytes) (value : CacheObject) (ttl now later : ℤ)
      → WellFormed env s.stores
      → IsClean value
      → IsFinite value.zset_val
      → IsFilled value.type value
      → length value.list_val ≤ max_elements
      → length (serialize st value) < 2 ^ 64
      → FitsInt64 ttl
      → let (s', reply) = restore_command env st s (restore_args st key ttl value) now in
        (reply ≡ some (encode_simple_string (codes "OK"))) × Restored s key j value ttl now later s'
  unfolding restore_command restore_decoded
  restore_command-restore_args s key j value ttl now later w clean finite filled few fits h =
      rw
        (
          read_ttl ttl h,
          str_eq_refl (codes "REPLACE"),
          deserialize-serialize st value clean finite filled few fits,
        )
        (refl, store_restored-Restored s key j value ttl now later w)
