-- ===== src/Db/Wal/Tests.antt =====
-- The log of demo-db/src/wal.cpp on concrete rows.
use c_book.Prelude.{◌≡◌, refl, [], ◌∷◌, ◌++◌, arith, take, set, get_or, ltb, if◌then◌else◌}
use c_book.Prelude.Int.{pos, negsuc}
use c_book.Bytes.{read_u32, read_u64, read_loop, write_u32, write_u64, write_loop}
use c_book.Db.Wal.{
  record_of, payload, to_u64, of_u64, crc_loop, crc_step, replay_loop, read_record, read_all,
  check_body, Row, log_insert, replay, crc32_simple,
}
use c_book.Db.Wal.Records.{record_for}
use c_book.Db.Wal.Replay.{log_all, replay-log_all, replay-crash}
use c_book.Db.Wal.Damage.{replay-damaged, replay-after_torn}

abbrev row_a : Row
row_a = (pos 7, negsuc 0)

abbrev row_b : Row
row_b = (pos 8, pos 9)

replay-log_all_example :
    replay (log_all [] (row_a ∷ row_b ∷ []) ++ 17 ∷ []) ≡ row_a ∷ row_b ∷ [] ++ replay (17 ∷ [])
replay-log_all_example =
    replay-log_all (row_a ∷ row_b ∷ []) (17 ∷ [])
      ((omega arith, omega arith), ((omega arith, omega arith), tt))

replay-crash_example :
    replay (log_all [] (row_a ∷ []) ++ take 20 (record_for row_b))
    ≡ row_a ∷ [] ++ (if ltb 20 25 then [] else row_b ∷ [])
replay-crash_example =
    replay-crash (row_a ∷ []) row_b 20 ((omega arith, omega arith), tt) (omega arith, omega arith)

first_byte : get_or (record_for row_b) 0 0 ≡ 17
unfolding record_of payload to_u64 write_u32 write_u64 write_loop crc32_simple crc_loop crc_step
first_byte = refl

replay-damaged_example :
    replay (log_all [] (row_a ∷ []) ++ (set (record_for row_b) 0 18 ++ 4 ∷ [])) ≡ row_a ∷ []
replay-damaged_example =
    replay-damaged (row_a ∷ []) row_b 0 18 (4 ∷ []) ((omega arith, omega arith), tt) (omega arith)
      (omega arith) (λ e. omega (arith, e, first_byte))

replay-after_torn_example :
    replay (log_all (log_all [] (row_a ∷ []) ++ take 2 (record_for row_b)) (row_b ∷ []))
    ≡ row_a ∷ []
replay-after_torn_example =
    replay-after_torn (row_a ∷ []) (row_b ∷ []) row_b 2 ((omega arith, omega arith), tt)
      (omega arith) (omega arith)

replay_test : replay (log_insert [] (pos 1) (negsuc 4)) ≡ (pos 1, negsuc 4) ∷ []
unfolding replay replay_loop read_record read_all check_body of_u64 read_u32 read_u64 read_loop
    log_insert record_of payload to_u64 write_u32 write_u64 write_loop crc32_simple crc_loop
    crc_step
replay_test = refl
