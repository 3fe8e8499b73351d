-- ===== src/Network/Buffer/Queue.antt =====
-- The buffer as a queue of bytes.
use concurrent_cache.Prelude.{
  ℕ, ◌+◌, ◌-◌, ◌/◌, ◌≡◌, refl, sym, ◌∙◌, ◌≤◌, [], ◌++◌, arith, ltb, ◌==◌, length, Bool-cases, inl,
  inr, ap, take, drop, drop-take, drop-drop,
}
use concurrent_cache.Text.{Bytes}
use concurrent_cache.Network.Buffer.{
  Buffer, readable_bytes, writable_bytes, ensure_writable, append, copy_backward, compact, advance,
  retrieve, to_string,
}
use concurrent_cache.Network.Buffer.Copies.{
  copy_backward-Moves, copy_backward-take, copied, resized, length-copied,
}

-- The read index is at most the write index, and that at most the end of the vector.
abbrev pub WellFormed : Buffer → Type 0
WellFormed b = (b.reader_idx ≤ b.writer_idx) × (b.writer_idx ≤ length b.buffer)

-- Room is made with no byte lost.
abbrev Room : ℕ → Buffer → Buffer → Type 0
Room len b c =
    (c.reader_idx ≡ b.reader_idx)
    × (c.writer_idx ≡ b.writer_idx)
    × (b.writer_idx + len ≤ length c.buffer)
    × (take (b.writer_idx - b.reader_idx) (drop b.reader_idx c.buffer) ≡ to_string b)

ensure_writable-Room : (len : ℕ) (b : Buffer) → WellFormed b → Room len b (ensure_writable len b)
unfolding ensure_writable to_string writable_bytes readable_bytes
ensure_writable-Room len b (low, high) =
    elim (Bool-cases (ltb (length b.buffer - b.writer_idx) len)) [
      | inl tight ↦ rw tight (
          let (kept, size) =
            resized b.buffer b.reader_idx b.writer_idx (b.writer_idx + len) low high
              (ground arith) in
          (refl, refl, omega (arith, size), kept))
      | inr roomy ↦ rw roomy (refl, refl, ground arith, refl)
    ]

appended :
    (bytes : Bytes) (b : Buffer)
    → WellFormed b
    → Room (length bytes) b (ensure_writable (length bytes) b)
    → (to_string (append bytes b) ≡ to_string b ++ bytes) × WellFormed (append bytes b)
unfolding append to_string readable_bytes
appended bytes b (low, high) (same_r, same_w, room, kept) =
    rw (same_r, same_w)
      (
        copied bytes (ensure_writable (length bytes) b).buffer b.reader_idx b.writer_idx low room
            ∙ ap (λ z. z ++ bytes) kept,
        (
          omega arith,
          omega (
            arith,
            length-copied bytes (ensure_writable (length bytes) b).buffer b.writer_idx room,
          ),
        ),
      )

-- In a well-formed buffer, the bytes appended stand behind the unread ones, and the buffer stays
-- well formed.
pub append_lem :
    (bytes : Bytes) (b : Buffer)
    → WellFormed b
    → (to_string (append bytes b) ≡ to_string b ++ bytes) × WellFormed (append bytes b)
append_lem bytes b wf = appended bytes b wf (ensure_writable-Room (length bytes) b wf)

take_zero : (n : ℕ) (v : Bytes) → n ≡ 0 → take n v ≡ []
take_zero n v e = rw e

-- What is left of a slice.
drop-slice :
    (len n r : ℕ) (v : Bytes) → drop len (take n (drop r v)) ≡ take (n - len) (drop (r + len) v)
drop-slice len n r v = drop-take len n (drop r v) ∙ ap (λ z. take (n - len) z) (drop-drop r len v)

-- A step that keeps the vector and moves the read index.
abbrev Advanced : ℕ → Buffer → Buffer → Type 0
Advanced len b c =
    (c.buffer ≡ b.buffer)
    × (c.writer_idx ≡ b.writer_idx)
    × (c.reader_idx ≤ c.writer_idx)
    × (to_string c ≡ drop len (to_string b))

advance-Advanced : (len : ℕ) (b : Buffer) → WellFormed b → Advanced len b (advance len b)
unfolding advance to_string readable_bytes
advance-Advanced len b (low, high) = elim (Bool-cases (ltb (b.writer_idx - b.reader_idx) len)) [
  | inl past ↦ rw past (
    refl,
    refl,
    omega arith,
    take_zero (b.writer_idx - b.writer_idx) (drop b.writer_idx b.buffer) (omega arith)
        ∙ sym (
            drop-slice len (b.writer_idx - b.reader_idx) b.reader_idx b.buffer
            ∙ take_zero (b.writer_idx - b.reader_idx - len) (drop (b.reader_idx + len) b.buffer)
                (ground arith)),
  )
  | inr within ↦ rw within (
    refl,
    refl,
    ground arith,
    ap (λ n. take n (drop (b.reader_idx + len) b.buffer)) {x = b.writer_idx - (b.reader_idx + len)}
          {y = b.writer_idx - b.reader_idx - len} (omega arith)
        ∙ sym (drop-slice len (b.writer_idx - b.reader_idx) b.reader_idx b.buffer),
  )
]

-- Where the unread bytes are no more than those before them, compacting keeps them.
compact_lem :
    (b : Buffer)
    → WellFormed b
    → b.writer_idx - b.reader_idx ≤ b.reader_idx
    → (to_string (compact b) ≡ to_string b) × WellFormed (compact b)
unfolding compact to_string readable_bytes
compact_lem b (low, high) apart = elim (Bool-cases (b.reader_idx == 0)) [
  | inl none_read ↦ rw none_read (refl, (low, high))
  | inr some_read ↦ rw some_read (
    ap (λ n. take n (copy_backward b.reader_idx (b.writer_idx - b.reader_idx) 0 b.buffer))
          {x = b.writer_idx - b.reader_idx - 0} {y = b.writer_idx - b.reader_idx} (omega arith)
        ∙ copy_backward-take b.reader_idx (b.writer_idx - b.reader_idx) b.buffer apart
            (omega arith),
    (
      omega arith,
      omega (
        arith,
        (copy_backward-Moves b.reader_idx (b.writer_idx - b.reader_idx) b.buffer apart
            (omega arith)).0,
      ),
    ),
  )
]

retrieved :
    (len : ℕ) (b : Buffer)
    → WellFormed b
    → Advanced len b (advance len b)
    → (to_string (retrieve len b) ≡ drop len (to_string b)) × WellFormed (retrieve len b)
unfolding retrieve
retrieved len b (low, high) (same, end, ordered, rest) =
    elim (Bool-cases (ltb (length b.buffer / 2) (advance len b).reader_idx)) [
      | inl behind ↦ rw behind (
          let (kept, wf) =
            compact_lem (advance len b) (ordered, omega (arith, ap length same))
              (ground (arith, ap length same)) in
          (kept ∙ rest, wf))
      | inr ahead ↦ rw ahead (rest, (ordered, omega (arith, ap length same)))
    ]

-- In a well-formed buffer, `retrieve len` takes the first `len` unread bytes away, or all of them
-- if there are fewer, whether or not it compacts, and the buffer stays well formed.
pub retrieve_lem :
    (len : ℕ) (b : Buffer)
    → WellFormed b
    → (to_string (retrieve len b) ≡ drop len (to_string b)) × WellFormed (retrieve len b)
retrieve_lem len b wf = retrieved len b wf (advance-Advanced len b wf)
