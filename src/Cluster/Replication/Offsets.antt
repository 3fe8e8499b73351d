-- ===== src/Cluster/Replication/Offsets.antt =====
-- The buffer of replicated commands: its offsets have no gap.
use concurrent_cache.Prelude.{
  ℕ, zero, suc, ◌+◌, ◌/◌, ◌≤◌, ◌≡◌, refl, sym, ◌∙◌, Option, none, some, List, [], ◌∷◌, ◌++◌, length,
  ltb, arith, get_elem?, drop, Bool-cases, inl, inr, ap,
}
use concurrent_cache.Text.{Bytes}
use concurrent_cache.Cluster.Replication.{
  ReplicationBufferEntry, ReplicationBuffer, total_size, cleanup_replication_buffer,
  add_to_replication_buffer, keep_from, entered, get_replication_commands, from_on,
  replication_buffer_size,
}

-- The commands of a buffer stand behind each other in the stream, from `start` to `stop`.
abbrev pub Contiguous : ℕ → List ReplicationBufferEntry → ℕ → Type 0
Contiguous start [] stop = start ≡ stop
Contiguous start (e ∷ es) stop = (e.offset ≡ start) × Contiguous (start + length e.command) es stop

abbrev pub WellKept : ReplicationBuffer → Type 0
WellKept b = Contiguous b.repl_buffer_start_offset b.repl_buffer b.master_repl_offset

Contiguous-snoc :
    (start : ℕ) (es : List ReplicationBufferEntry) (stop : ℕ) (command : Bytes)
    → Contiguous start es stop
    → Contiguous start
        (es ++ (record { command = command; offset = stop }) ∷ [])
        (stop + length command)
Contiguous-snoc start [] stop command h = (sym h, omega arith)
Contiguous-snoc start (e ∷ es) stop command (at, h) =
    (at, Contiguous-snoc (start + length e.command) es stop command h)

same_offset : (d e : ReplicationBufferEntry) → some d ≡ some e → d.offset ≡ e.offset
same_offset d e h = ap (λ o. elim o as (λ x. ℕ) [ none ↦ 0 | some x ↦ x.offset ]) h

Contiguous-drop :
    (k start : ℕ) (es : List ReplicationBufferEntry) (stop : ℕ) (e : ReplicationBufferEntry)
    → Contiguous start es stop
    → get_elem? es k ≡ some e
    → Contiguous e.offset (drop k es) stop
Contiguous-drop k start [] stop e h there = cc
Contiguous-drop zero start (d ∷ es) stop e (at, h) there =
    (same_offset d e there, rw (sym at ∙ same_offset d e there) at h)
Contiguous-drop (suc k) start (d ∷ es) stop e (at, h) there =
    Contiguous-drop k (start + length d.command) es stop e h there

keep_from-WellKept :
    (found : Option ReplicationBufferEntry) (k : ℕ) (b : ReplicationBuffer)
    → WellKept b
    → get_elem? b.repl_buffer k ≡ found
    → WellKept (keep_from found k b)
      × ((keep_from found k b).master_repl_offset ≡ b.master_repl_offset)
keep_from-WellKept none k b h e = (h, refl)
keep_from-WellKept (some e) k b h there = (
  Contiguous-drop k b.repl_buffer_start_offset b.repl_buffer b.master_repl_offset e h there,
  refl,
)

cleanup-WellKept :
    (b : ReplicationBuffer)
    → WellKept b
    → WellKept (cleanup_replication_buffer b)
      × ((cleanup_replication_buffer b).master_repl_offset ≡ b.master_repl_offset)
unfolding cleanup_replication_buffer
cleanup-WellKept b h =
    keep_from-WellKept (get_elem? b.repl_buffer (length b.repl_buffer / 2))
      (length b.repl_buffer / 2) b h refl

-- A buffer in which the commands stand behind each other in the stream, from its start offset to the
-- master's offset, stays so when a command is added, whether or not older ones are dropped, and the
-- master's offset grows by the length of the command.
pub add_to_replication_buffer-WellKept :
    (b : ReplicationBuffer) (command : Bytes)
    → WellKept b
    → let b' = add_to_replication_buffer b command in
      WellKept b' × (b'.master_repl_offset ≡ b.master_repl_offset + length command)
unfolding add_to_replication_buffer
add_to_replication_buffer-WellKept b command h =
    let h' =
      Contiguous-snoc b.repl_buffer_start_offset b.repl_buffer b.master_repl_offset command h in
    elim (Bool-cases (ltb replication_buffer_size (total_size (entered b command).repl_buffer))) [
      | inl e ↦ rw e (cleanup-WellKept (entered b command) h')
      | inr e ↦ rw e (h', refl)
    ]

-- No command is empty.
abbrev pub AllSome : List ReplicationBufferEntry → Type 0
AllSome [] = Unit {0}
AllSome (e ∷ es) = (1 ≤ length e.command) × AllSome es

all_behind :
    (from start : ℕ) (es : List ReplicationBufferEntry) (stop : ℕ)
    → Contiguous start es stop
    → from ≤ start
    → from_on from es ≡ es
all_behind from start [] stop h le = refl
all_behind from start (e ∷ es) stop (at, h) le =
    ground (arith, all_behind from (start + length e.command) es stop h (omega arith))

skipped :
    (from start : ℕ) (seen es : List ReplicationBufferEntry) (stop : ℕ)
    → Contiguous start (seen ++ es) stop
    → AllSome seen
    → from ≡ start + total_size seen
    → from_on from (seen ++ es) ≡ es
unfolding total_size
skipped from start [] es stop h some_byte at = all_behind from start es stop h (omega arith)
skipped from start (e ∷ seen) es stop (here, h) (one, some_byte) at =
    ground (arith, skipped from (start + length e.command) seen es stop h some_byte (omega arith))

-- A replica that has the first commands of such a buffer, none of them empty, and asks from the
-- offset behind them, gets exactly the others, in order.
pub get_replication_commands-seen :
    (b : ReplicationBuffer) (seen es : List ReplicationBufferEntry)
    → WellKept b
    → b.repl_buffer ≡ seen ++ es
    → AllSome seen
    → get_replication_commands b (b.repl_buffer_start_offset + total_size seen) ≡ es
unfolding get_replication_commands
get_replication_commands-seen b seen es h parts some_byte = rw parts (
    skipped _ b.repl_buffer_start_offset seen es b.master_repl_offset (rw parts at h) some_byte
      refl)
