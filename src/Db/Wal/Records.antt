-- ===== src/Db/Wal/Records.antt =====
-- The bytes of one record, and the casts between the signed rows and the words of the file.
use c_book.Prelude.{
  ℕ, ◌^◌, ◌<◌, ◌≡◌, ◌≢◌, refl, ap, ◌∙◌, List, [], ◌∷◌, ◌++◌, append_assoc, none, some, length, drop,
  get_or, arith, length-append, take-append, drop-append, le→ltb, ==_iff,
}
use mathlib.Core.Option
use c_book.Prelude.Int.{ℤ, pos, negsuc}
use c_book.Bytes.{write_u32, write_u64, read_u32, read_u64}
use c_book.Bytes.Laws.{
  le_bytes, le_bytes-AreBytes, write_u32_lem, write_u64_lem, read_u32-le_bytes, read_u64-le_bytes,
}
use c_book.Db.Wal.{
  to_u64, of_u64, crc_step, crc_loop, crc32_simple, payload, record_of, read_all, Row, check_body,
  read_record,
}

abbrev pub IsInt64 : ℤ → Type 0
IsInt64 (pos n) = n < 2 ^ 63
IsInt64 (negsuc n) = n < 2 ^ 63

-- The two casts undo one another on the values of `int64_t`.
pub of_u64-to_u64 : (k : ℤ) → IsInt64 k → of_u64 (to_u64 k) ≡ k
unfolding of_u64 to_u64
of_u64-to_u64 (pos n) h = ground arith
of_u64-to_u64 (negsuc n) h = ground arith

pub to_u64-lt : (k : ℤ) → to_u64 k < 2 ^ 64
unfolding to_u64
to_u64-lt (pos n) = omega arith
to_u64-lt (negsuc n) = omega arith

abbrev pub IsRow : Row → Type 0
IsRow (k, v) = IsInt64 k × IsInt64 v

-- The layout of wal.h.
abbrev pub body_of : ℤ → ℤ → List ℕ
body_of k v = 1 ∷ (le_bytes 8 (to_u64 k) ++ le_bytes 8 (to_u64 v))

pub payload_lem : (k v : ℤ) → payload k v ≡ body_of k v
unfolding payload
payload_lem k v =
    rw (write_u64_lem (write_u64 (1 ∷ []) (to_u64 k)) (to_u64 v), write_u64_lem (1 ∷ []) (to_u64 k))

pub record_of_lem :
    (body : List ℕ) → record_of body ≡ le_bytes 4 17 ++ (body ++ le_bytes 4 (crc32_simple body))
unfolding record_of
record_of_lem body =
    rw (write_u32_lem (write_u32 [] 17 ++ body) (crc32_simple body), write_u32_lem [] 17)

crc_loop-lt : (h : ℕ) (bs : List ℕ) → h < 2 ^ 32 → crc_loop h bs < 2 ^ 32
unfolding crc_loop
crc_loop-lt h [] p = p
crc_loop-lt h (b ∷ bs) p = crc_loop-lt (crc_step h b) bs (omega arith)

pub crc32_simple-lt : (bs : List ℕ) → crc32_simple bs < 2 ^ 32
unfolding crc32_simple
crc32_simple-lt bs = crc_loop-lt 0xCAFEBABE bs (omega arith)

pub read_all-append :
    (n : ℕ) (xs ys : List ℕ) → length xs ≡ n → read_all n (xs ++ ys) ≡ some (xs, ys)
unfolding read_all
read_all-append n xs ys h = rw (
  le→ltb (length (xs ++ ys)) n (omega (arith, length-append xs ys)),
  take-append n xs ys h,
  drop-append n xs ys h,
)

accepts :
    (body tail : List ℕ) (k v : ℤ)
    → IsRow (k, v)
    → read_u32 tail ≡ crc32_simple body
    → get_or body 0 0 ≡ 1
    → read_u64 (drop 1 body) ≡ to_u64 k
    → read_u64 (drop 9 body) ≡ to_u64 v
    → check_body body tail ≡ some (k, v)
unfolding check_body
accepts body tail k v h sum type key value =
    rw
      (
        (==_iff (read_u32 tail) (crc32_simple body)).1 sum,
        type,
        key,
        value,
        of_u64-to_u64 k h.0,
        of_u64-to_u64 v h.1,
      )
      refl

pub check_body-body_of :
    (k v : ℤ)
    → IsRow (k, v)
    → check_body (body_of k v) (le_bytes 4 (crc32_simple (body_of k v))) ≡ some (k, v)
check_body-body_of k v h =
    accepts (body_of k v) (le_bytes 4 (crc32_simple (body_of k v))) k v h
      (read_u32-le_bytes [] tt (crc32_simple (body_of k v)) (crc32_simple-lt (body_of k v))) refl
      (read_u64-le_bytes (le_bytes 8 (to_u64 v)) (le_bytes-AreBytes 8 (to_u64 v)) (to_u64 k)
        (to_u64-lt k))
      (read_u64-le_bytes [] tt (to_u64 v) (to_u64-lt v))

abbrev pub record_for : Row → List ℕ
record_for (k, v) = record_of (payload k v)

-- Length, payload and checksum.
pub record_for_lem :
    (k v : ℤ)
    → record_for (k, v) ≡ le_bytes 4 17 ++ (body_of k v ++ le_bytes 4 (crc32_simple (body_of k v)))
record_for_lem k v = ap record_of (payload_lem k v) ∙ record_of_lem (body_of k v)

pub length-record_for : (r : Row) → length (record_for r) ≡ 25
length-record_for (k, v) = ap length (record_for_lem k v)

read_record_lem :
    (file header a body b tail rest : List ℕ)
    → read_all 4 file ≡ some (header, a)
    → read_u32 header ≡ 17
    → read_all 17 a ≡ some (body, b)
    → read_all 4 b ≡ some (tail, rest)
    → read_record file ≡ Option.map (λ row. (row, rest)) (check_body body tail)
unfolding read_record
read_record_lem file header a body b tail rest e1 e2 e3 e4 = ground arith

-- A file that begins with a length field of 17, a payload and a checksum field is decided by
-- `check_body` alone.
pub read_record-parts :
    (body tail rest : List ℕ)
    → length body ≡ 17
    → length tail ≡ 4
    → read_record ((le_bytes 4 17 ++ (body ++ tail)) ++ rest)
      ≡ Option.map (λ row. (row, rest)) (check_body body tail)
read_record-parts body tail rest hb ht =
    read_record_lem _ (le_bytes 4 17) ((body ++ tail) ++ rest) body (tail ++ rest) tail rest
      (read_all-append 4 (le_bytes 4 17) ((body ++ tail) ++ rest) refl)
      (read_u32-le_bytes [] tt 17 (omega arith))
      (rw (append_assoc body tail rest) (read_all-append 17 body (tail ++ rest) hb))
      (read_all-append 4 tail rest ht)

-- Any other value in the length field ends the loop.
pub read_record-length :
    (header rest : List ℕ)
    → length header ≡ 4
    → read_u32 header ≢ 17
    → read_record (header ++ rest) ≡ none
unfolding read_record
read_record-length header rest hl ne = let e = read_all-append 4 header rest hl in ground (arith, e)

pub read_record-record_for :
    (r : Row) (rest : List ℕ) → IsRow r → read_record (record_for r ++ rest) ≡ some (r, rest)
read_record-record_for (k, v) rest h = rw (record_for_lem k v) (
    read_record-parts (body_of k v) (le_bytes 4 (crc32_simple (body_of k v))) rest refl refl
    ∙ ap (Option.map (λ row. (row, rest))) (check_body-body_of k v h))
