-- ===== src/Db/Wal/Replay.antt =====
-- Replay of a log that was written by `log_insert`, complete or cut off by a crash.
use c_book.Prelude.{
  ℕ, zero, suc, ◌+◌, ◌<◌, ◌≤◌, ◌≡◌, refl, sym, ap, ◌∙◌, List, [], ◌∷◌, ◌++◌, append_assoc,
  append-nil, none, some, length, take, drop, All, ltb, if◌then◌else◌, arith, length-append,
  length-take, length-drop, Option-cases, Bool-cases, inl, inr, take-all,
}
use c_book.Prelude.Int.{ℤ}
use c_book.Db.Wal.{log_insert, read_all, Row, read_record, replay_loop, replay}
use c_book.Db.Wal.Records.{IsRow, record_for, length-record_for, read_record-record_for}

-- The file after a row of calls.
abbrev pub log_all : List ℕ → List Row → List ℕ
log_all file [] = file
log_all file ((k, v) ∷ rows) = log_all (log_insert file k v) rows

abbrev pub records : List Row → List ℕ
records [] = []
records (r ∷ rows) = record_for r ++ records rows

pub log_all-append : (file : List ℕ) (rows : List Row) → log_all file rows ≡ file ++ records rows
unfolding log_insert
log_all-append file [] = sym (append-nil file)
log_all-append file ((k, v) ∷ rows) =
    log_all-append (log_insert file k v) rows ∙ log_insert-append file k v (records rows)
  where
    log_insert-append :
        (file : List ℕ) (k v : ℤ) (more : List ℕ)
        → log_insert file k v ++ more ≡ file ++ (record_for (k, v) ++ more)
    log_insert-append file k v more = append_assoc file (record_for (k, v)) more

read_record-shrinks :
    (file rest : List ℕ) (row : Row)
    → read_record file ≡ some (row, rest)
    → length rest + 25 ≤ length file
unfolding read_record read_all
read_record-shrinks file rest row e =
    ground (
      arith,
      length-drop 4 file,
      length-drop 17 (drop 4 file),
      length-drop 4 (drop 17 (drop 4 file)),
    )

-- Less than a record is no record, whatever its bytes are.
pub read_record-short : (file : List ℕ) → length file < 25 → read_record file ≡ none
read_record-short file h = elim (Option-cases (read_record file)) [
  | inl e ↦ e
  | inr ((row, rest), e) ↦ absurd (omega (arith, read_record-shrinks file rest row e))
]

replay_loop-stop : (n : ℕ) (file : List ℕ) → read_record file ≡ none → replay_loop n file ≡ []
unfolding replay_loop
replay_loop-stop zero file e = refl
replay_loop-stop (suc n) file e = rw (e, replay_loop)

replay_loop-next :
    (n : ℕ) (file rest : List ℕ) (row : Row)
    → read_record file ≡ some (row, rest)
    → replay_loop (suc n) file ≡ row ∷ replay_loop n rest
unfolding replay_loop
replay_loop-next n file rest row e = rw (e, replay_loop)

-- Any fuel from the length of the file on gives the same rows.
replay_loop-fuel :
    (m n : ℕ) (file : List ℕ)
    → length file ≤ m
    → length file ≤ n
    → replay_loop m file ≡ replay_loop n file
replay_loop-fuel zero n file h k =
    let none_read = read_record-short file (omega arith) in
    replay_loop-stop zero file none_read ∙ sym (replay_loop-stop n file none_read)
replay_loop-fuel (suc m) zero file h k =
    let none_read = read_record-short file (omega arith) in
    replay_loop-stop (suc m) file none_read ∙ sym (replay_loop-stop zero file none_read)
replay_loop-fuel (suc m) (suc n) file h k = elim (Option-cases (read_record file)) [
  | inl e ↦ replay_loop-stop (suc m) file e ∙ sym (replay_loop-stop (suc n) file e)
  | inr ((row, rest), e) ↦
      replay_loop-next m file rest row e
      ∙ ap (λ l. row ∷ l)
          (replay_loop-fuel m n rest (omega (arith, read_record-shrinks file rest row e))
            (omega (arith, read_record-shrinks file rest row e)))
      ∙ sym (replay_loop-next n file rest row e)
]

pub replay-stop : (file : List ℕ) → read_record file ≡ none → replay file ≡ []
unfolding replay
replay-stop file e = replay_loop-stop (length file) file e

replay-record_for :
    (r : Row) (more : List ℕ) → IsRow r → replay (record_for r ++ more) ≡ r ∷ replay more
unfolding replay
replay-record_for r more h =
    let e = read_record-record_for r more h in
    let size = length-append (record_for r) more in
    replay_loop-fuel (length (record_for r ++ more)) (suc (length (record_for r ++ more)))
      (record_for r ++ more) (omega arith) (omega arith)
    ∙ replay_loop-next (length (record_for r ++ more)) (record_for r ++ more) more r e
    ∙ ap (λ l. r ∷ l)
        (replay_loop-fuel (length (record_for r ++ more)) (length more) more (omega (arith, size))
          (omega arith))

replay-records :
    (rows : List Row) (more : List ℕ)
    → All IsRow rows
    → replay (records rows ++ more) ≡ rows ++ replay more
replay-records [] more h = refl
replay-records (r ∷ rows) more h =
    ap replay (append_assoc (record_for r) (records rows) more)
    ∙ replay-record_for r (records rows ++ more) h.0
    ∙ ap (λ l. r ∷ l) (replay-records rows more h.1)

-- Replay of a log that begins with the records of `rows` gives these rows first, in order, and
-- then what replay makes of the bytes behind them.
pub replay-log_all :
    (rows : List Row) (more : List ℕ)
    → All IsRow rows
    → replay (log_all [] rows ++ more) ≡ rows ++ replay more
replay-log_all rows more h = rw (log_all-append [] rows) (replay-records rows more h)

-- A crash in the middle of an append leaves the first `n` bytes of the new record. Replay then
-- gives the rows that were logged before, and the new row exactly if its record is complete.
pub replay-crash :
    (rows : List Row) (row : Row) (n : ℕ)
    → All IsRow rows
    → IsRow row
    → replay (log_all [] rows ++ take n (record_for row))
      ≡ rows ++ (if ltb n 25 then [] else row ∷ [])
replay-crash rows row n h hr =
    replay-log_all rows (take n (record_for row)) h ∙ ap (λ l. rows ++ l) tail
  where
    size : length (record_for row) ≡ 25
    size = length-record_for row

    torn : n < 25 → replay (take n (record_for row)) ≡ []
    torn p = replay-stop _ (read_record-short _ (omega (arith, length-take n (record_for row))))

    whole : 25 ≤ n → replay (take n (record_for row)) ≡ row ∷ []
    whole p =
        ap replay
          (take-all n (record_for row) (omega (arith, size)) ∙ sym (append-nil (record_for row)))
        ∙ replay-record_for row [] hr
        ∙ ap (λ l. row ∷ l) (replay-stop [] (read_record-short [] (omega arith)))

    tail : replay (take n (record_for row)) ≡ (if ltb n 25 then [] else row ∷ [])
    tail = elim (Bool-cases (ltb n 25)) [
      | inl p ↦ rw p (torn (ground arith))
      | inr p ↦ rw p (whole (ground arith))
    ]
