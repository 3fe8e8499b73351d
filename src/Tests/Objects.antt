-- ===== src/Tests/Objects.antt =====
-- src/datatype/object.cpp at concrete inputs.
use concurrent_cache.Prelude.{
  ◌+◌, ◌-◌, ◌^◌, ◌<◌, ◌≡◌, ◌≢◌, refl, inl, inr, true, false, Option, some, none, List, [], ◌∷◌,
  arith, length, if◌then◌else◌, pos, negsuc, ◌≤ℤ◌, ◌+ℤ◌, pick, take,
}
use concurrent_cache.Text.{Bytes, codes, str_eq}
use concurrent_cache.Text.Decimal.{to_string}
use concurrent_cache.Base.RangeClip.{index_at, clip_range}
use concurrent_cache.Datatype.Double.{Double, double_lt}
use concurrent_cache.Datatype.Object.{CacheObject, zset, empty_object, of_list}
use concurrent_cache.Datatype.Object.Members.{member_lt, str_lt}
use concurrent_cache.Datatype.Object.Lists.{list_range, actual, front_part}
use concurrent_cache.Datatype.Object.SortedSets.{zset_add, zset_score}
use concurrent_cache.Datatype.Object.Ordered.{IsOrdered}
use concurrent_cache.Datatype.Object.Ranges.{between, list_range-pick, list_range_past_front}
use concurrent_cache.Datatype.Object.Scores.{settled, changes, zset_add_lem}
use concurrent_cache.Datatype.Object.Clean.{
  IsClean, Change, push, pop, add_member, add_score, change_all, change_all-IsClean,
  of_list-IsClean,
}
use concurrent_cache.Datatype.Payload.{ScoreText, serialize, deserialize, record_of}
use concurrent_cache.Datatype.Payload.RoundTrip.{deserialize-serialize}

-- 1.0 and 2.5
abbrev one : Double
one = 4607182418800017408

abbrev two_and_half : Double
two_and_half = 4612811918334230528

abbrev pub ranking : CacheObject
ranking = record empty_object {
  type = zset;
  zset_val =
      record { member = codes "a"; score = one }
      ∷ record { member = codes "b"; score = two_and_half }
      ∷ [];
}

abbrev three : CacheObject
three = of_list (codes "x" ∷ codes "y" ∷ codes "z" ∷ [])

-- A score as one symbol.
abbrev scan_symbol : Bytes → Option Double
scan_symbol [] = none
scan_symbol (d ∷ rest) = some d

abbrev pub symbols : ScoreText
symbols = record {
  format = λ d. d ∷ [];
  scan_score = scan_symbol;
  read_back = λ d number finite. refl;
}

ranking-IsOrdered : IsOrdered ranking.zset_val
unfolding member_lt str_lt double_lt str_eq
ranking-IsOrdered = (refl, (refl, refl, tt), (refl, tt, tt))

pub ranking-IsClean : IsClean ranking
ranking-IsClean = record {
  strings = inr refl;
  lists = inr refl;
  hashes = inr refl;
  sets = inr refl;
  zsets = inl refl;
  fields = tt;
  members = tt;
  ordered = ranking-IsOrdered;
}

pub ranking_filled : ranking.zset_val ≢ []
ranking_filled e = ground (arith, e)

pub ranking_fits : length (serialize symbols ranking) < 2 ^ 64
unfolding serialize record_of to_string
ranking_fits = omega arith

deserialize-serialize_example :
    deserialize symbols empty_object (serialize symbols ranking) ≡ (ranking, none)
deserialize-serialize_example =
    deserialize-serialize symbols ranking ranking-IsClean (refl, (refl, tt)) ranking_filled
      (omega arith) ranking_fits

zset_add_lem_example :
    let r = zset_add ranking (codes "a") two_and_half in
    (r.0.type ≡ zset)
    × IsOrdered r.0.zset_val
    × (zset_score r.0 (codes "b") ≡ (
        if str_eq (codes "a") (codes "b")
        then some (settled two_and_half (zset_score ranking (codes "a")))
        else zset_score ranking (codes "b")))
    × (r.1 ≡ changes two_and_half (zset_score ranking (codes "a")))
zset_add_lem_example =
    zset_add_lem ranking (codes "a") (codes "b") two_and_half refl refl ranking-IsOrdered

abbrev changes_made : List Change
changes_made =
    pop true ∷ push (codes "w") false ∷ add_member (codes "m") ∷ add_score (codes "s") one refl ∷ []

change_all-IsClean_example : IsClean (change_all three changes_made)
change_all-IsClean_example =
    change_all-IsClean three changes_made (of_list-IsClean (codes "x" ∷ codes "y" ∷ codes "z" ∷ []))

list_range_run : list_range three (pos 0) (negsuc 3) ≡ three.list_val
unfolding list_range clip_range front_part
list_range_run = refl

list_range-pick_example :
    list_range three (pos 0) (negsuc 0)
    ≡ pick
        (between (index_at 3 (actual 3 (pos 0))) (index_at 3 (actual 3 (negsuc 0))))
        0
        three.list_val
list_range-pick_example = list_range-pick three (pos 0) (negsuc 0) refl

three_last : pos 0 ≤ℤ index_at (length three.list_val) (negsuc 0)
unfolding ◌+ℤ◌
three_last = omega arith

list_range_past_front_example :
    list_range three (pos 0) (negsuc (3 + 1)) ≡ take (3 - 1) three.list_val
list_range_past_front_example = list_range_past_front three 1 refl (omega arith)
