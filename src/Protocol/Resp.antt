-- ===== src/Protocol/Resp.antt =====
-- src/protocol/resp.h, src/protocol/resp.cpp: the values of the protocol.
pub mod Scan
pub mod Parser
pub mod Encoder
pub mod Lines
pub mod Arrays
pub mod Commands
pub mod Replies
pub mod Stuck
pub mod Nested
use concurrent_cache.Prelude.{ℕ, suc, Bool, true, false, List, [], ◌∷◌, ℤ, pos}
use concurrent_cache.Text.{Bytes}

-- A value with its type byte: the alternatives of `data` and `type` that occur together. `unset` is
-- a default-constructed value (std::monostate, UNKNOWN).
mutual
  pub data RespValue : Type 0 where
    unset : RespValue
    simple_string : Bytes → RespValue
    error : Bytes → RespValue
    integer : ℤ → RespValue
    bulk_string : Bytes → RespValue
    array : RespValues → RespValue

  pub data RespValues : Type 0 where
    no_values : RespValues
    value : RespValue → RespValues → RespValues

unfoldable pub as_string : RespValue → Bytes
as_string unset = []
as_string (simple_string s) = s
as_string (error s) = s
as_string (integer n) = []
as_string (bulk_string s) = s
as_string (array vs) = []

unfoldable pub as_integer : RespValue → ℤ
as_integer (integer n) = n
as_integer unset = pos 0
as_integer (simple_string s) = pos 0
as_integer (error s) = pos 0
as_integer (bulk_string s) = pos 0
as_integer (array vs) = pos 0

unfoldable pub as_array : RespValue → RespValues
as_array (array vs) = vs
as_array unset = no_values
as_array (simple_string s) = no_values
as_array (error s) = no_values
as_array (integer n) = no_values
as_array (bulk_string s) = no_values

unfoldable pub is_null : RespValue → Bool
is_null unset = true
is_null (simple_string s) = false
is_null (error s) = false
is_null (integer n) = false
is_null (bulk_string s) = false
is_null (array vs) = false
