-- ===== src/Chat/History/Tests.antt =====
-- Records of demo-chat/src/history.cpp on concrete entries.
use c_book.Prelude.{◌≡◌, refl, [], ◌∷◌, ◌++◌, length, arith, take}
use c_book.Bytes.{write_u16, write_u32, write_loop}
use c_book.Chat.History.{body, HistoryRecord, append, recent}
use c_book.Chat.History.Entries.{Fits}
use c_book.Chat.History.Recent.{append_all, of_room, last, recent-append_all}

abbrev hello : HistoryRecord
hello = record { timestamp = 1000; name = 97 ∷ []; room = 1 ∷ []; text = 104 ∷ 105 ∷ [] }

abbrev bye : HistoryRecord
bye = record { timestamp = 1001; name = 98 ∷ []; room = 2 ∷ []; text = 98 ∷ [] }

hello-Fits : Fits hello
hello-Fits = record {
  time_fits = omega arith;
  name_fits = omega arith;
  room_fits = omega arith;
  body_fits = omega arith;
  name_bytes = (omega arith, tt);
  room_bytes = (omega arith, tt);
  text_bytes = (omega arith, (omega arith, tt));
}

bye-Fits : Fits bye
bye-Fits = record {
  time_fits = omega arith;
  name_fits = omega arith;
  room_fits = omega arith;
  body_fits = omega arith;
  name_bytes = (omega arith, tt);
  room_bytes = (omega arith, tt);
  text_bytes = (omega arith, tt);
}

append-length : length (append [] hello) ≡ 18
unfolding append body write_u16 write_u32 write_loop
append-length = refl

recent-append_all_example :
    recent (append_all [] (hello ∷ bye ∷ []) ++ take 3 (append [] hello)) (2 ∷ []) 10
    ≡ last 10 (of_room (2 ∷ []) (hello ∷ bye ∷ []))
recent-append_all_example =
    recent-append_all (hello ∷ bye ∷ []) hello 3 (2 ∷ []) 10
      ((hello-Fits, omega arith), ((bye-Fits, omega arith), tt)) hello-Fits
      (omega (arith, append-length))
