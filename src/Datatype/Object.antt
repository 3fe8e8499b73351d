-- ===== src/Datatype/Object.antt =====
-- src/datatype/object.h and object.cpp: `CacheObject`, one value of the cache. As in the class, the
-- five payloads stand side by side and `type` says which one counts. Methods return the new object
-- with their result; the log lines are left out.
pub mod Members
pub mod Lists
pub mod Hashes
pub mod Sets
pub mod SortedSets
pub mod Ranges
pub mod PushPop
pub mod MemberOrder
pub mod Ordered
pub mod Scores
pub mod Clean
use concurrent_cache.Prelude.{
  ℕ, zero, suc, ◌+◌, ◌-◌, ◌≡◌, Bool, true, false, Option, none, some, List, [], ◌∷◌, ◌++◌,
  if◌then◌else◌, length, take, drop, ◌==◌, ◌||◌, ◌&&◌, not, ltb, ℤ, pos, pos_part, ◌+ℤ◌, ltb_ℤ,
}
use concurrent_cache.Text.{Bytes}
use concurrent_cache.Table.{Table, find, contains, insert_or_assign, erase, keys}
use concurrent_cache.Base.RangeClip.{clip_range}
use concurrent_cache.Datatype.Double.{Double}
use Members.{ZSetMember}

pub data ObjectType : Type 0 where
  string list hash set zset : ObjectType

pub record CacheObject : Type 0 where
  pub type : ObjectType
  pub string_val : Bytes
  pub list_val : List Bytes
  pub hash_val : Table Bytes
  pub set_val : Table (Unit {0})
  pub zset_val : List ZSetMember

-- CacheObject()
abbrev pub empty_object : CacheObject
empty_object = record {
  type = string;
  string_val = [];
  list_val = [];
  hash_val = [];
  set_val = [];
  zset_val = [];
}

-- CacheObject(const std::string&)
abbrev pub of_string : Bytes → CacheObject
of_string val = record empty_object { string_val = val }

-- CacheObject(std::vector<std::string>)
abbrev pub of_list : List Bytes → CacheObject
of_list vals = record empty_object { type = list; list_val = vals }

abbrev pub is_type : ObjectType → ObjectType → Bool
is_type string string = true
is_type list list = true
is_type hash hash = true
is_type set set = true
is_type zset zset = true
is_type _ _ = false

-- sizeof(double)
abbrev double_size : ℕ
double_size = 8

total_size : List Bytes → ℕ
total_size [] = 0
total_size (s ∷ ss) = length s + total_size ss

hash_size_total : Table Bytes → ℕ
hash_size_total [] = 0
hash_size_total ((k, v) ∷ m) = length k + length v + hash_size_total m

zset_size_total : List ZSetMember → ℕ
zset_size_total [] = 0
zset_size_total (z ∷ zs) = length z.member + double_size + zset_size_total zs

size_of_type : ObjectType → CacheObject → ℕ
size_of_type string o = length o.string_val
size_of_type list o = total_size o.list_val
size_of_type hash o = hash_size_total o.hash_val
size_of_type set o = total_size (keys o.set_val)
size_of_type zset o = zset_size_total o.zset_val

unfoldable memory_size : CacheObject → ℕ
unfolding size_of_type total_size hash_size_total zset_size_total
memory_size o = size_of_type o.type o

unfoldable pub get_string : CacheObject → Option Bytes
get_string o = if is_type o.type string then some o.string_val else none

unfoldable pub set_string : CacheObject → Bytes → CacheObject
set_string o val = record o { type = string; string_val = val }

unfoldable pub discard_string_payload : CacheObject → CacheObject
discard_string_payload o = record o { string_val = [] }
