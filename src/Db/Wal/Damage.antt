-- ===== src/Db/Wal/Damage.antt =====
-- Damaged logs: what the checksum finds, and what a torn record does to later ones.
use c_book.Prelude.{
  ℕ, zero, suc, ◌+◌, ◌-◌, ◌^◌, ◌<◌, ◌≤◌, ◌≡◌, ◌≢◌, refl, sym, ap, ◌∙◌, List, [], ◌∷◌, ◌++◌,
  append_assoc, append-nil, none, length, take, get_or, set, All, All-append, All-append, ltb,
  arith, length-take, length-set, All-set, get_or-set, set-append_left, set-append_right,
  get_or-append_left, get_or-append_right, Bool-cases, inl, inr, subst,
}
use mathlib.Core.Option
use c_book.Prelude.Int.{ℤ}
use c_book.Bytes.{IsByte, AreBytes, read_u32}
use c_book.Bytes.Laws.{
  le_bytes, le_bytes-AreBytes, read_u32-le_bytes, read_u32-injective, of_le, prefix, read_u32_lem,
}
use c_book.Db.Wal.{to_u64, Row, read_record, replay, check_body, crc_step, crc_loop, crc32_simple}
use c_book.Db.Wal.Records.{
  IsRow, body_of, record_for, record_for_lem, crc32_simple-lt, read_record-parts,
  read_record-length,
}
use c_book.Db.Wal.Replay.{
  log_all, log_all-append, records, replay-log_all, replay-stop, read_record-short,
}

crc_step-injective : (h h' b : ℕ) → h < 2 ^ 32 → h' < 2 ^ 32 → crc_step h b ≡ crc_step h' b → h ≡ h'
unfolding crc_step
crc_step-injective h h' b p q e = omega arith

crc_step-byte : (h b b' : ℕ) → b < 256 → b' < 256 → crc_step h b ≡ crc_step h b' → b ≡ b'
unfolding crc_step
crc_step-byte h b b' p q e = omega arith

crc_step-lt : (h b : ℕ) → crc_step h b < 2 ^ 32
unfolding crc_step
crc_step-lt h b = omega arith

crc_loop-injective :
    (bs : List ℕ) (h h' : ℕ) → h < 2 ^ 32 → h' < 2 ^ 32 → crc_loop h bs ≡ crc_loop h' bs → h ≡ h'
unfolding crc_loop
crc_loop-injective [] h h' p q e = e
crc_loop-injective (b ∷ bs) h h' p q e =
    crc_step-injective h h' b p q
      (crc_loop-injective bs (crc_step h b) (crc_step h' b) (crc_step-lt h b) (crc_step-lt h' b) e)

-- Changing one byte of a string changes the hash, from any seed.
crc_loop-set :
    (bs : List ℕ) (h i b : ℕ)
    → AreBytes bs
    → i < length bs
    → b < 256
    → crc_loop h bs ≡ crc_loop h (set bs i b)
    → get_or bs i 0 ≡ b
unfolding crc_loop
crc_loop-set [] h i b hb p q e = absurd (omega arith)
crc_loop-set (c ∷ bs) h zero b hb p q e =
    crc_step-byte h c b hb.0 q
      (crc_loop-injective bs (crc_step h c) (crc_step h b) (crc_step-lt h c) (crc_step-lt h b) e)
crc_loop-set (c ∷ bs) h (suc i) b hb p q e =
    crc_loop-set bs (crc_step h c) i b hb.1 (omega arith) q e

-- The checksum of a string of bytes differs from that of the string with one byte changed.
pub crc32_simple-set :
    (bs : List ℕ) (i b : ℕ)
    → AreBytes bs
    → i < length bs
    → b < 256
    → get_or bs i 0 ≢ b
    → crc32_simple bs ≢ crc32_simple (set bs i b)
unfolding crc32_simple
crc32_simple-set bs i b hb p q ne e = ne (crc_loop-set bs 0xCAFEBABE i b hb p q e)

check_body-sum :
    (body tail : List ℕ) → read_u32 tail ≢ crc32_simple body → check_body body tail ≡ none
unfolding check_body
check_body-sum body tail ne = ground arith

-- A record of a payload and a checksum that do not match is not read.
bad_sum :
    (body tail rest : List ℕ)
    → length body ≡ 17
    → length tail ≡ 4
    → read_u32 tail ≢ crc32_simple body
    → read_record ((le_bytes 4 17 ++ (body ++ tail)) ++ rest) ≡ none
bad_sum body tail rest hb ht ne =
    read_record-parts body tail rest hb ht
    ∙ ap (Option.map (λ row. (row, rest))) (check_body-sum body tail ne)

changed : (xs : List ℕ) (i b : ℕ) → i < length xs → get_or xs i 0 ≢ b → set xs i b ≢ xs
changed xs i b p ne e = ne (sym (ap (λ l. get_or l i 0) e) ∙ get_or-set xs i b 0 p)

-- A four byte field with one byte changed reads as another number.
read_u32-set :
    (xs : List ℕ) (i b : ℕ)
    → AreBytes xs
    → length xs ≡ 4
    → i < 4
    → b < 256
    → get_or xs i 0 ≢ b
    → read_u32 (set xs i b) ≢ read_u32 xs
read_u32-set xs i b hx size p small ne e = changed xs i b (omega arith) ne (
    read_u32-injective (set xs i b) xs (All-set IsByte xs i b hx small) hx
      (length-set xs i b ∙ size) size e)

module _ (body seal rest : List ℕ) (b : ℕ) (hb : AreBytes body) (hs : AreBytes seal)
    (size : length body ≡ 17) (size' : length seal ≡ 4) (sum : read_u32 seal ≡ crc32_simple body)
    (small : b < 256) where
  damaged_length :
      (i : ℕ)
      → i < 4
      → get_or (le_bytes 4 17) i 0 ≢ b
      → read_record (set (le_bytes 4 17 ++ (body ++ seal)) i b ++ rest) ≡ none
  damaged_length i p ne =
      rw
        (
          set-append_left (le_bytes 4 17) (body ++ seal) i b p,
          append_assoc (set (le_bytes 4 17) i b) (body ++ seal) rest,
        )
        (read_record-length (set (le_bytes 4 17) i b) ((body ++ seal) ++ rest)
          (length-set (le_bytes 4 17) i b)
          (λ e.
            read_u32-set (le_bytes 4 17) i b (le_bytes-AreBytes 4 17) refl p small ne
              (e ∙ sym (read_u32-le_bytes [] tt 17 (omega arith)))))

  damaged_body :
      (i j : ℕ)
      → i ≡ 4 + j
      → j < 17
      → get_or body j 0 ≢ b
      → read_record (set (le_bytes 4 17 ++ (body ++ seal)) i b ++ rest) ≡ none
  damaged_body i j e p ne =
      rw
        (
          set-append_right (le_bytes 4 17) (body ++ seal) i j b e,
          set-append_left body seal j b (omega arith),
        )
        (bad_sum (set body j b) seal rest (length-set body j b ∙ size) size'
          (λ e'. crc32_simple-set body j b hb (omega arith) small ne (sym sum ∙ e')))

  damaged_sum :
      (i j : ℕ)
      → i ≡ 21 + j
      → j < 4
      → get_or seal j 0 ≢ b
      → read_record (set (le_bytes 4 17 ++ (body ++ seal)) i b ++ rest) ≡ none
  damaged_sum i j e p ne =
      rw
        (
          set-append_right (le_bytes 4 17) (body ++ seal) i (17 + j) b (omega arith),
          set-append_right body seal (17 + j) j b (omega arith),
        )
        (bad_sum body (set seal j b) rest size (length-set seal j b ∙ size')
          (λ e'. read_u32-set seal j b hs size' p small ne (e' ∙ sym sum)))

  -- At every position of the record.
  damaged_record :
      (i : ℕ)
      → i < 25
      → get_or (le_bytes 4 17 ++ (body ++ seal)) i 0 ≢ b
      → read_record (set (le_bytes 4 17 ++ (body ++ seal)) i b ++ rest) ≡ none
  damaged_record i p ne = elim (Bool-cases (ltb i 4)) [
    | inl front ↦
        damaged_length i (ground arith)
          (λ e. ne (get_or-append_left (le_bytes 4 17) (body ++ seal) i 0 (ground arith) ∙ e))
    | inr behind ↦ elim (Bool-cases (ltb i 21)) [
      | inl middle ↦ damaged_body i (i - 4) (ground arith) (ground arith) (λ e.
          ne (in_rest (ground arith) ∙ get_or-append_left body seal (i - 4) 0 (ground arith) ∙ e))
      | inr back ↦ damaged_sum i (i - 21) (ground arith) (ground arith) (λ e. ne (
          in_rest (ground arith)
          ∙ get_or-append_right body seal (i - 4) (i - 21) 0 (ground arith)
          ∙ e))
    ]
  ]
    where
      in_rest :
          4 ≤ i → get_or (le_bytes 4 17 ++ (body ++ seal)) i 0 ≡ get_or (body ++ seal) (i - 4) 0
      in_rest far = get_or-append_right (le_bytes 4 17) (body ++ seal) i (i - 4) 0 (omega arith)

body_of-AreBytes : (k v : ℤ) → AreBytes (body_of k v)
body_of-AreBytes k v = (
  omega arith,
  All-append IsByte (le_bytes 8 (to_u64 k)) (le_bytes 8 (to_u64 v)) (le_bytes-AreBytes 8 (to_u64 k))
      (le_bytes-AreBytes 8 (to_u64 v)),
)

-- One byte of one record is changed, anywhere in it. Replay gives exactly the rows logged before
-- that record: the damage is noticed, and nothing after it is read.
pub replay-damaged :
    (rows : List Row) (row : Row) (i b : ℕ) (more : List ℕ)
    → All IsRow rows
    → i < 25
    → b < 256
    → get_or (record_for row) i 0 ≢ b
    → replay (log_all [] rows ++ (set (record_for row) i b ++ more)) ≡ rows
replay-damaged rows (k, v) i b more h p small ne =
    replay-log_all rows (set (record_for (k, v)) i b ++ more) h
    ∙ ap (λ l. rows ++ l) (replay-stop _ unread)
    ∙ append-nil rows
  where
    body : List ℕ
    body = body_of k v

    unread : read_record (set (record_for (k, v)) i b ++ more) ≡ none
    unread = rw (record_for_lem k v) (
        damaged_record body (le_bytes 4 (crc32_simple body)) more b (body_of-AreBytes k v)
          (le_bytes-AreBytes 4 (crc32_simple body)) refl refl
          (read_u32-le_bytes [] tt (crc32_simple body) (crc32_simple-lt body)) small i p
          (subst (λ (l : List ℕ). get_or l i 0 ≢ b) (record_for_lem k v) ne))

other_length :
    (header rest : List ℕ)
    → AreBytes header
    → length header ≡ 4
    → of_le (prefix 4 header) ≢ 17
    → read_record (header ++ rest) ≡ none
other_length header rest hb size ne =
    read_record-length header rest size (λ e. ne (sym (read_u32_lem header hb) ∙ e))

-- A record whose first byte is not the first byte of what follows a torn length field.
torn_header :
    (n : ℕ) (k v : ℤ) (body rest : List ℕ)
    → 0 < n
    → n < 4
    → read_record (take n (le_bytes 4 17 ++ body) ++ (record_for (k, v) ++ rest)) ≡ none
torn_header zero k v body rest p q = absurd (omega arith)
torn_header (suc zero) k v body rest p q =
    rw (record_for_lem k v) (other_length (17 ∷ 17 ∷ 0 ∷ 0 ∷ []) _ (omega arith) refl (omega arith))
torn_header (suc (suc zero)) k v body rest p q =
    rw (record_for_lem k v) (other_length (17 ∷ 0 ∷ 17 ∷ 0 ∷ []) _ (omega arith) refl (omega arith))
torn_header (suc (suc (suc zero))) k v body rest p q =
    rw (record_for_lem k v) (other_length (17 ∷ 0 ∷ 0 ∷ 17 ∷ []) _ (omega arith) refl (omega arith))
torn_header (suc (suc (suc (suc n)))) k v body rest p q = absurd (omega arith)

-- A crash left one, two or three bytes of a record in the file, and the log is opened again and
-- written to without being truncated. No row logged from then on is ever replayed: replay gives
-- the rows from before the crash and nothing else.
pub replay-after_torn :
    (rows later : List Row) (row : Row) (n : ℕ)
    → All IsRow rows
    → 0 < n
    → n < 4
    → replay (log_all (log_all [] rows ++ take n (record_for row)) later) ≡ rows
replay-after_torn rows later (k, v) n h p q =
    ap replay (
      log_all-append (log_all [] rows ++ take n (record_for (k, v))) later
      ∙ append_assoc (log_all [] rows) (take n (record_for (k, v))) (records later))
    ∙ replay-log_all rows (take n (record_for (k, v)) ++ records later) h
    ∙ ap (λ l. rows ++ l) (replay-stop _ (unread later))
    ∙ append-nil rows
  where
    unread : (rs : List Row) → read_record (take n (record_for (k, v)) ++ records rs) ≡ none
    unread [] =
        rw (append-nil (take n (record_for (k, v))))
          (read_record-short _ (omega (arith, length-take n (record_for (k, v)))))
    unread ((k', v') ∷ rs) = rw (record_for_lem k v) (
        torn_header n k' v' (body_of k v ++ le_bytes 4 (crc32_simple (body_of k v))) (records rs) p
          q)
