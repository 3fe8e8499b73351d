-- ===== src/Datatype/Object/Clean.antt =====
-- An object holds one payload, that of its type: the invariant of `CacheObject`.
use concurrent_cache.Prelude.{◌≡◌, ◌⊎◌, Bool, false, List, [], ◌∷◌, arith}
use concurrent_cache.Text.{Bytes}
use concurrent_cache.Table.{IsDistinct, insert_or_assign-IsDistinct, erase-IsDistinct}
use concurrent_cache.Datatype.Double.{Double, is_nan}
use concurrent_cache.Datatype.Object.{
  CacheObject, zset, string, list, hash, set, of_string, of_list,
}
use concurrent_cache.Datatype.Object.Lists.{list_push, list_pop}
use concurrent_cache.Datatype.Object.Hashes.{hash_set, hash_del}
use concurrent_cache.Datatype.Object.Sets.{set_add, set_remove}
use concurrent_cache.Datatype.Object.SortedSets.{zset_add, zset_remove}
use concurrent_cache.Datatype.Object.Ordered.{IsOrdered, erase_member-IsOrdered}
use concurrent_cache.Datatype.Object.Scores.{updated}

pub record IsClean (o : CacheObject) : Type 0 where
  pub strings : (o.type ≡ string) ⊎ (o.string_val ≡ [])
  pub lists : (o.type ≡ list) ⊎ (o.list_val ≡ [])
  pub hashes : (o.type ≡ hash) ⊎ (o.hash_val ≡ [])
  pub sets : (o.type ≡ set) ⊎ (o.set_val ≡ [])
  pub zsets : (o.type ≡ zset) ⊎ (o.zset_val ≡ [])
  pub fields : IsDistinct o.hash_val
  pub members : IsDistinct o.set_val
  pub ordered : IsOrdered o.zset_val

list_push-IsClean :
    (o : CacheObject) (v : Bytes) (front : Bool) → IsClean o → IsClean (list_push o v front).0
unfolding list_push
list_push-IsClean o v front c = ground arith

list_pop-IsClean : (o : CacheObject) (front : Bool) → IsClean o → IsClean (list_pop o front).0
unfolding list_pop
list_pop-IsClean o front c = ground arith

hash_set-IsClean :
    (o : CacheObject) (field value : Bytes) → IsClean o → IsClean (hash_set o field value).0
unfolding hash_set
hash_set-IsClean o field value c =
    ground (arith, insert_or_assign-IsDistinct field value o.hash_val c.fields)

hash_del-IsClean : (o : CacheObject) (field : Bytes) → IsClean o → IsClean (hash_del o field).0
unfolding hash_del
hash_del-IsClean o field c = ground (arith, erase-IsDistinct field o.hash_val c.fields)

set_add-IsClean : (o : CacheObject) (member : Bytes) → IsClean o → IsClean (set_add o member).0
unfolding set_add
set_add-IsClean o member c =
    ground (arith, insert_or_assign-IsDistinct member tt o.set_val c.members)

set_remove-IsClean :
    (o : CacheObject) (member : Bytes) → IsClean o → IsClean (set_remove o member).0
unfolding set_remove
set_remove-IsClean o member c = ground (arith, erase-IsDistinct member o.set_val c.members)

zset_add-IsClean :
    (o : CacheObject) (member : Bytes) (score : Double)
    → is_nan score ≡ false
    → IsClean o
    → IsClean (zset_add o member score).0
unfolding zset_add
zset_add-IsClean o member score number c =
    ground (arith, (updated member score member o.zset_val number c.ordered).0)

zset_remove-IsClean :
    (o : CacheObject) (member : Bytes) → IsClean o → IsClean (zset_remove o member).0
unfolding zset_remove
zset_remove-IsClean o member c = ground (arith, erase_member-IsOrdered member o.zset_val c.ordered)

-- One call of an operation that changes a container.
pub data Change : Type 0 where
  push : Bytes → Bool → Change
  pop : Bool → Change
  put_field : Bytes → Bytes → Change
  drop_field : Bytes → Change
  add_member : Bytes → Change
  drop_member : Bytes → Change
  add_score : Bytes → (score : Double) → is_nan score ≡ false → Change
  drop_score : Bytes → Change

unfoldable change : CacheObject → Change → CacheObject
change o (push v front) = (list_push o v front).0
change o (pop front) = (list_pop o front).0
change o (put_field field value) = (hash_set o field value).0
change o (drop_field field) = (hash_del o field).0
change o (add_member member) = (set_add o member).0
change o (drop_member member) = (set_remove o member).0
change o (add_score member score _) = (zset_add o member score).0
change o (drop_score member) = (zset_remove o member).0

unfoldable pub change_all : CacheObject → List Change → CacheObject
unfolding change
change_all o [] = o
change_all o (c ∷ cs) = change_all (change o c) cs

change-IsClean : (o : CacheObject) (c : Change) → IsClean o → IsClean (change o c)
unfolding change
change-IsClean o (push v front) h = list_push-IsClean o v front h
change-IsClean o (pop front) h = list_pop-IsClean o front h
change-IsClean o (put_field field value) h = hash_set-IsClean o field value h
change-IsClean o (drop_field field) h = hash_del-IsClean o field h
change-IsClean o (add_member member) h = set_add-IsClean o member h
change-IsClean o (drop_member member) h = set_remove-IsClean o member h
change-IsClean o (add_score member score number) h = zset_add-IsClean o member score number h
change-IsClean o (drop_score member) h = zset_remove-IsClean o member h

-- Whatever container operations are called, in any order and with whatever answers, on an object
-- that holds one payload, it holds one payload afterwards, that of its type, with hash fields and set members
-- distinct and the sorted set in order. Scores are numbers.
pub change_all-IsClean :
    (o : CacheObject) (cs : List Change) → IsClean o → IsClean (change_all o cs)
unfolding change_all
change_all-IsClean o [] h = h
change_all-IsClean o (c ∷ cs) h = change_all-IsClean (change o c) cs (change-IsClean o c h)

of_string-IsClean : (v : Bytes) → IsClean (of_string v)
of_string-IsClean v = ground arith

pub of_list-IsClean : (vs : List Bytes) → IsClean (of_list vs)
of_list-IsClean vs = ground arith
