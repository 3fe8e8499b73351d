-- ===== src/Tests/Buffers.antt =====
-- src/network/buffer.cpp at concrete inputs.
use concurrent_cache.Prelude.{◌≡◌, refl, ◌++◌, drop, arith}
use concurrent_cache.Text.{codes}
use concurrent_cache.Network.Buffer.{
  Buffer, new_buffer, append, retrieve, to_string, compact, copy_backward, copy, ensure_writable,
  resize, advance, readable_bytes, writable_bytes,
}
use concurrent_cache.Network.Buffer.Queue.{WellFormed, append_lem, retrieve_lem}

-- Six bytes come in, four are taken, which compacts.
buffer_run : to_string (retrieve 4 (append (codes "PING\r\n") new_buffer)) ≡ codes "\r\n"
unfolding to_string retrieve append compact copy_backward copy ensure_writable resize advance
    readable_bytes writable_bytes
buffer_run = refl

abbrev pending : Buffer
pending = record { buffer = codes "PINGPONG"; reader_idx = 4; writer_idx = 8 }

append_lem_example :
    (to_string (append (codes "!") pending) ≡ to_string pending ++ codes "!")
    × WellFormed (append (codes "!") pending)
append_lem_example = append_lem (codes "!") pending (omega arith, omega arith)

retrieve_lem_example :
    (to_string (retrieve 3 pending) ≡ drop 3 (to_string pending)) × WellFormed (retrieve 3 pending)
retrieve_lem_example = retrieve_lem 3 pending (omega arith, omega arith)
