-- ===== src/Chat/Protocol/Tests.antt =====
-- Frames of demo-chat/src/protocol.cpp on concrete bytes.
use c_book.Prelude.{ℕ, ◌≡◌, refl, List, [], ◌∷◌, ◌++◌, some, ok, throw}
use c_book.Bytes.{read_u32, read_loop, write_u32, write_loop}
use c_book.Chat.Protocol.{encode, Decoded, try_decode, Message, invalid_frame_length}
use c_book.Chat.Protocol.Stream.{send_all}

abbrev hi : List ℕ
hi = 104 ∷ 105 ∷ []

abbrev pub hi_frame : List ℕ
hi_frame = 4 ∷ 0 ∷ 0 ∷ 0 ∷ 1 ∷ 7 ∷ 104 ∷ 105 ∷ []

abbrev decoded_hi : Decoded
decoded_hi = record { out_type = 7; out_payload = hi; acc = 9 ∷ [] }

try_decode_hi : try_decode (4 ∷ 0 ∷ 0 ∷ 0 ∷ 1 ∷ 7 ∷ 104 ∷ 105 ∷ 9 ∷ []) ≡ ok (some decoded_hi)
unfolding try_decode read_u32 read_loop
try_decode_hi = refl

abbrev pub two_messages : List Message
two_messages = (7, hi) ∷ (3, []) ∷ []

pub send_two : send_all two_messages ≡ ok (hi_frame ++ 2 ∷ 0 ∷ 0 ∷ 0 ∷ 1 ∷ 3 ∷ [])
unfolding send_all encode write_u32 write_loop
send_two = refl

bad_length_test : try_decode (1 ∷ 0 ∷ 0 ∷ 0 ∷ []) ≡ throw (invalid_frame_length 1)
unfolding try_decode read_u32 read_loop
bad_length_test = refl
