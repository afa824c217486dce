-- ===== src/Bytes.antt =====
-- The little-endian integers that every file format and frame of the repository is made of:
-- demo-db/include/binary.h, and its copies in demo-db/src/wal.cpp (in place), demo-chat/src/protocol.cpp
-- and demo-chat/src/history.cpp. A byte string is the list of its bytes, a `std::string` too.
pub mod Laws
mod Tests
use c_book.Prelude.{
  ℕ, zero, suc, ◌+◌, ◌*◌, ◌/◌, ◌%◌, ◌^◌, ◌<◌, bit_or, List, [], ◌∷◌, ◌++◌, get_or, length, take,
  drop, All,
}

abbrev pub IsByte : ℕ → Type 0
IsByte b = b < 256

abbrev pub AreBytes : List ℕ → Type 0
AreBytes = All IsByte

-- The rounds of `for (i = 0; i < n; ++i) out.push_back((v >> (i * 8)) & 0xFF)` from `i` on.
unfoldable pub write_loop : ℕ → ℕ → ℕ → List ℕ → List ℕ
write_loop zero i v out = out
write_loop (suc n) i v out = write_loop n (i + 1) v (out ++ (v / 2 ^ (i * 8) % 256) ∷ [])

-- The rounds of `for (i = 0; i < n; ++i) v |= p[i] << (i * 8)` from `i` on. A pointer is the list
-- of the bytes from it on; the callers see to it that `n` bytes are there.
unfoldable pub read_loop : ℕ → ℕ → List ℕ → ℕ → ℕ
read_loop zero i p v = v
read_loop (suc n) i p v = read_loop n (i + 1) p (bit_or v (get_or p i 0 * 2 ^ (i * 8)))

unfoldable pub write_u16 : List ℕ → ℕ → List ℕ
write_u16 out v = (out ++ (v % 256) ∷ []) ++ (v / 2 ^ 8 % 256) ∷ []

unfoldable pub write_u32 : List ℕ → ℕ → List ℕ
unfolding write_loop
write_u32 out v = write_loop 4 0 v out

unfoldable pub write_u64 : List ℕ → ℕ → List ℕ
unfolding write_loop
write_u64 out v = write_loop 8 0 v out

-- The length is cut to 32 bits by its cast.
unfoldable pub write_string : List ℕ → List ℕ → List ℕ
unfolding write_u32
write_string out s = write_u32 out (length s % 2 ^ 32) ++ s

unfoldable pub read_u16 : List ℕ → ℕ
read_u16 p = bit_or (get_or p 0 0) (get_or p 1 0 * 2 ^ 8)

unfoldable pub read_u32 : List ℕ → ℕ
unfolding read_loop
read_u32 p = read_loop 4 0 p 0

unfoldable pub read_u64 : List ℕ → ℕ
unfolding read_loop
read_u64 p = read_loop 8 0 p 0

-- The string and the value left in `consumed`.
unfoldable pub read_string : List ℕ → List ℕ × ℕ
unfolding read_u32
read_string p = let len = read_u32 p in (take len (drop 4 p), 4 + len)
