-- ===== src/MemoryPool/SizeClass.antt =====
-- src/memorypool/size_class.h, src/memorypool/size_class.cpp: the 29 block sizes.
pub mod Rounding
use concurrent_cache.Prelude.{ℕ, suc, ◌-◌, ◌^◌, List, [], ◌∷◌, leb, ltb, if◌then◌else◌, get_or}

abbrev pub size_classes : List ℕ
size_classes =
    8 ∷ 16 ∷ 32 ∷ 48 ∷ 64 ∷ 96 ∷ 128 ∷ 192 ∷ 256 ∷ 384 ∷ 512 ∷ 768 ∷ 1024 ∷ 1536 ∷ 2048 ∷ 3072
    ∷ 4096 ∷ 6144 ∷ 8192 ∷ 12288 ∷ 16384 ∷ 24576 ∷ 32768 ∷ 49152 ∷ 65536 ∷ 98304 ∷ 131072 ∷ 196608
    ∷ 262144 ∷ []

abbrev pub num_classes : ℕ
num_classes = 29

abbrev pub class_at : ℕ → ℕ
class_at i = get_or size_classes i 0

-- `static_cast<size_t>(-1)`.
abbrev no_class : ℕ
no_class = 2 ^ 64 - 1

-- The search from position `i` on.
abbrev pub first_fit : List ℕ → ℕ → ℕ → ℕ
first_fit [] i size = num_classes - 1
first_fit (c ∷ cs) i size = let rest = first_fit cs (suc i) size in if leb size c then i else rest

unfoldable pub get_index : ℕ → ℕ
get_index size =
    if ltb (class_at (num_classes - 1)) size then no_class else first_fit size_classes 0 size

unfoldable pub get_size : ℕ → ℕ
get_size index = class_at index

unfoldable pub round_up : ℕ → ℕ
round_up size = if ltb (class_at (num_classes - 1)) size then size else class_at (get_index size)
