-- ===== src/Tests/Numbers.antt =====
-- src/base: indices and integers at concrete inputs.
use concurrent_cache.Prelude.{◌<◌, ◌≤◌, ◌≡◌, refl, ◌↔◌, none, pos, negsuc, ◌≤ℤ◌, arith}
use concurrent_cache.Text.{codes}
use concurrent_cache.Base.RangeClip.{clip_range, index_at, Selects, clip_range_iff}
use concurrent_cache.Base.IntParse.{parse_ll_strict, parse_ll_strict-denotes, denotes, fitting}
use concurrent_cache.MemoryPool.SizeClass.{get_index, get_size, num_classes}
use concurrent_cache.MemoryPool.SizeClass.Rounding.{get_index_lem}

clip_range_run : clip_range 2 (pos 0) (negsuc 2) ≡ none
unfolding clip_range
clip_range_run = refl

clip_range_iff_example :
    Selects (clip_range 5 (pos 1) (negsuc 1)) 3
    ↔ ((3 < 5) × (index_at 5 (pos 1) ≤ℤ pos 3) × (pos 3 ≤ℤ index_at 5 (negsuc 1)))
clip_range_iff_example = clip_range_iff 5 (pos 1) (negsuc 1) 3

parse_run : parse_ll_strict (codes "10abc") ≡ none
unfolding parse_ll_strict
parse_run = refl

parse_ll_strict-denotes_example : parse_ll_strict (codes "-42") ≡ fitting (denotes (codes "-42"))
parse_ll_strict-denotes_example = parse_ll_strict-denotes (codes "-42")

get_index_run : get_index 300 ≡ 9
unfolding get_index
get_index_run = refl

get_index_lem_example : (get_index 300 < num_classes) × ((300 ≤ get_size 9) ↔ (get_index 300 ≤ 9))
get_index_lem_example = get_index_lem 300 9 (omega arith) (omega arith)
