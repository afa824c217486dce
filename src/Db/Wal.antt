-- ===== src/Db/Wal.antt =====
-- demo-db/src/wal.cpp. The log file is its bytes; `log_insert` appends to them and `replay` reads
-- them from the start. An `int64_t` is the integer that it holds; its cast to `uint64_t` is taken
-- modulo 2 ^ 64.
pub mod Records
pub mod Replay
pub mod Damage
mod Tests
use c_book.Prelude.{
  ℕ, zero, suc, ◌+◌, ◌-◌, ◌*◌, ◌%◌, ◌^◌, ◌<◌, ◌≤◌, Bool, true, false, not, List, [], ◌∷◌, ◌++◌,
  Option, none, some, length, take, drop, get_or, ltb, ◌==◌, if◌then◌else◌,
}
use c_book.Prelude.Int.{ℤ, pos, negsuc}
use c_book.Bytes.{write_u32, write_u64, read_u32, read_u64}

abbrev pub payload_bytes : ℕ
payload_bytes = 1 + 8 + 8

abbrev pub record_bytes : ℕ
record_bytes = 4 + payload_bytes + 4

-- static_cast<std::uint64_t>(key) and back.
unfoldable pub to_u64 : ℤ → ℕ
to_u64 (pos n) = n % 2 ^ 64
to_u64 (negsuc n) = (2 ^ 64 - 1 - n % 2 ^ 64) % 2 ^ 64

unfoldable pub of_u64 : ℕ → ℤ
of_u64 u = if ltb u (2 ^ 63) then pos u else negsuc (2 ^ 64 - 1 - u)

-- One round of the hash, `h = h * 31u + data[i]` in 32 bits, and the loop over the bytes.
pub crc_step : ℕ → ℕ → ℕ
crc_step h b = (h * 31 + b) % 2 ^ 32

pub crc_loop : ℕ → List ℕ → ℕ
unfolding crc_step
crc_loop h [] = h
crc_loop h (b ∷ bs) = crc_loop (crc_step h b) bs

pub crc32_simple : List ℕ → ℕ
unfolding crc_loop
crc32_simple bs = crc_loop 0xCAFEBABE bs

-- type, key, value
pub payload : ℤ → ℤ → List ℕ
unfolding to_u64
payload key value = write_u64 (write_u64 (1 ∷ []) (to_u64 key)) (to_u64 value)

-- The bytes of `rec`: length, payload, checksum.
pub record_of : List ℕ → List ℕ
record_of body = write_u32 (write_u32 [] payload_bytes ++ body) (crc32_simple body)

pub log_insert : List ℕ → ℤ → ℤ → List ℕ
unfolding record_of payload
log_insert file key value = file ++ record_of (payload key value)

-- `read_all(rfd, buf, n)`: the next `n` bytes and what follows, or a failure at the end of the file.
pub read_all : ℕ → List ℕ → Option (List ℕ × List ℕ)
read_all n file = if ltb (length file) n then none else some (take n file, drop n file)

abbrev pub Row : Type 0
Row = ℤ × ℤ

infixl 5 ◌>>=◌
abbrev ◌>>=◌ {ℓ} : {A B : Type ℓ} → Option A → (A → Option B) → Option B
none >>= f = none
some a >>= f = f a

-- What the code does with a payload and its checksum: the row for the callback, or a break.
pub check_body : List ℕ → List ℕ → Option Row
unfolding of_u64
check_body body tail =
    if not (read_u32 tail == crc32_simple body)
    then none
    else if not (get_or body 0 0 == 1)
    then none
    else some (of_u64 (read_u64 (drop 1 body)), of_u64 (read_u64 (drop 9 body)))

-- A round of the loop: the row that was read and the rest of the file, or a break.
pub read_record : List ℕ → Option (Row × List ℕ)
unfolding read_all check_body
read_record file = do
  (header, after_header) ← read_all 4 file
  if not (read_u32 header == payload_bytes) then none else do
    (body, after_body) ← read_all payload_bytes after_header
    (tail, rest) ← read_all 4 after_body
    row ← check_body body tail
    some (row, rest)

-- The loop. A record takes 25 bytes, so the length of the file is fuel enough.
unfoldable pub replay_loop : ℕ → List ℕ → List Row
replay_loop zero file = []
replay_loop (suc fuel) file = elim (read_record file) [
  | none ↦ []
  | some (row, rest) ↦ row ∷ replay_loop fuel rest
]

-- The rows given to the callback, in order.
unfoldable pub replay : List ℕ → List Row
unfolding replay_loop read_record
replay file = replay_loop (length file) file

-- `ftruncate(fd, 0)`, and the size of the file.
unfoldable pub truncate : List ℕ → List ℕ
truncate file = []

pub size_on_disk : List ℕ → ℕ
size_on_disk file = length file
