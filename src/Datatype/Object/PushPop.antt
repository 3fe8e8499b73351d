-- ===== src/Datatype/Object/PushPop.antt =====
-- Lists as stacks and queues: what comes out of `list_pop` after `list_push`.
use concurrent_cache.Prelude.{◌≡◌, refl, ap, Bool, true, false, some, List, [], ◌∷◌, ◌++◌}
use mathlib.Core.Path.{ap₂}
use concurrent_cache.Text.{Bytes}
use concurrent_cache.Datatype.Object.{CacheObject, list}
use concurrent_cache.Datatype.Object.Lists.{list_push, list_pop, pop_from, back_of, front_part}

back_of-append : (x v : Bytes) (xs : List Bytes) → back_of x (xs ++ v ∷ []) ≡ v
unfolding back_of
back_of-append x v [] = refl
back_of-append x v (y ∷ ys) = back_of-append y v ys

front_part-append : (x v : Bytes) (xs : List Bytes) → front_part x (xs ++ v ∷ []) ≡ x ∷ xs
unfolding front_part
front_part-append x v [] = refl
front_part-append x v (y ∷ ys) = ap (λ r. x ∷ r) (front_part-append y v ys)

pop_from_back :
    (xs : List Bytes) (v : Bytes) (o : CacheObject)
    → pop_from (xs ++ v ∷ []) o false ≡ (record o { list_val = xs }, some v)
unfolding pop_from back_of front_part
pop_from_back [] v o = refl
pop_from_back (x ∷ xs) v o =
    ap₂ (λ ys y. (record o { list_val = ys }, some y)) (front_part-append x v xs)
      (back_of-append x v xs)

-- A list is a stack at each end: popping where an element was pushed gives it back, and leaves the
-- object as it was.
pub list_pop-list_push :
    (o : CacheObject) (v : Bytes) (front : Bool)
    → o.type ≡ list
    → list_pop (list_push o v front).0 front ≡ (o, some v)
unfolding list_push list_pop
list_pop-list_push o v true h = rw h
list_pop-list_push o v false h = rw h (pop_from_back o.list_val v _)

-- And a queue from end to end: what was pushed at the back comes after all that was there.
pub list_pop-list_push_queue :
    (o : CacheObject) (x v : Bytes) (xs : List Bytes)
    → o.type ≡ list
    → o.list_val ≡ x ∷ xs
    → list_pop (list_push o v false).0 true ≡ (record o { list_val = xs ++ v ∷ [] }, some x)
unfolding list_push list_pop
list_pop-list_push_queue o x v xs h e = rw (h, e)
