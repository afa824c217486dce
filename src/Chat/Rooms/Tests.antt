-- ===== src/Chat/Rooms/Tests.antt =====
-- Two clients in a room.
use c_book.Prelude.{
  ◌+◌, ◌<◌, ◌++◌, utf8, throw, replicate, length, length-append, length-replicate, ℕ, ◌≡◌, refl,
  false, List, [], ◌∷◌, none, some, codes, bytes_eq, ok, if◌then◌else◌, ◌==◌, ◌&&◌, not, arith,
  Bool-cases, inl, inr,
}
use c_book.Chat.Protocol.{receive}
use c_book.Chat.Protocol.Stream.{Received, handle_all, receive-send_all}
use c_book.Chat.Protocol.Tests.{hi_frame, two_messages, send_two}
use c_book.Chat.Rooms.{
  ClientState, Server, process_message, drop_client, members, k_leave, k_message,
}
use c_book.Bytes.{write_u32}
use c_book.Chat.Protocol.{encode, payload_too_large}
use c_book.Chat.Rooms.Delivery.{process_message-pushed, pushed}
use c_book.Chat.Rooms.Sets.{elem, set_erase, set_insert}
use c_book.Chat.Rooms.Invariant.{IsConsistent, room_of}
use c_book.Chat.Rooms.Moves.{unnamed, farewell}
use c_book.Chat.Rooms.Reachable.{start, Reachable-IsConsistent, started, accepted, handled}
use c_book.Chat.Rooms.{accept_client, k_hello, k_join}
use c_book.Chat.Rooms.Overflow.{drop_client-throw}
use c_book.Chat.Rooms.Steps.{process_message-IsConsistent, drop_client-IsConsistent}

abbrev client : ℕ → List ℕ → List ℕ → ClientState
client fd name room = record { fd = fd; name = name; room = room; recv_buf = []; send_buf = [] }

-- The clients 4 and 5 in one room.
abbrev pair : List ℕ → List ℕ → Server
pair name room = record {
  clients = λ g.
      if g == 4
      then some (client 4 name room)
      else if g == 5
      then some (client 5 (codes "bob") room)
      else none;
  rooms = λ r. if bytes_eq room r then some (4 ∷ 5 ∷ []) else none;
}

pair-IsConsistent : (name room : List ℕ) → IsConsistent (pair name room)
unfolding members
pair-IsConsistent name room = record {
  agree = λ r g named. ground (arith, unnamed r named);
  distinct = λ r. elim (Bool-cases (bytes_eq room r)) [
    | inl e ↦ rw (members, e) (refl, (refl, tt))
    | inr e ↦ rw (members, e) tt
  ];
}

abbrev two_clients : Server
two_clients = pair (codes "ann") (codes "go")

two_clients-IsConsistent : IsConsistent two_clients
two_clients-IsConsistent = pair-IsConsistent (codes "ann") (codes "go")

process_message-IsConsistent_example : IsConsistent (process_message 4 k_leave [] two_clients).1
unfolding process_message encode bytes_eq set_erase
process_message-IsConsistent_example =
    process_message-IsConsistent 4 k_leave [] two_clients two_clients-IsConsistent refl

drop_client-IsConsistent_example :
    IsConsistent (drop_client 5 two_clients).1
    × (elem 5 (members (drop_client 5 two_clients).1 (codes "go")) ≡ false)
unfolding drop_client encode bytes_eq set_erase
drop_client-IsConsistent_example =
    drop_client-IsConsistent 5 (codes "go") two_clients two_clients-IsConsistent refl refl

abbrev frame : List ℕ
frame = 0x0C ∷ 0 ∷ 0 ∷ 0 ∷ 1 ∷ 2 ∷ codes "<ann> Hey!"

process_message-pushed_example :
    ((process_message 4 k_message (codes "Hey!") two_clients).0 ≡ ok tt)
    × ((g : ℕ)
        → (process_message 4 k_message (codes "Hey!") two_clients).1.clients g ≡ (
            if not (4 == g) && bytes_eq (room_of two_clients g) (codes "go")
            then pushed frame (two_clients.clients g)
            else two_clients.clients g))
unfolding encode write_u32
process_message-pushed_example =
    process_message-pushed 4 (client 4 (codes "ann") (codes "go")) (codes "Hey!") frame two_clients
      two_clients-IsConsistent refl refl refl

-- A name that `hello` takes, and a room that makes the notice of its departure too long.
abbrev long_name : List ℕ
long_name = replicate 65480 97

abbrev long_room : List ℕ
long_room = replicate 50 98

encode_too_long :
    (type : ℕ) (p : List ℕ) → 65536 < length p → encode type p ≡ throw payload_too_large
unfolding encode
encode_too_long type p h = ground arith

length-farewell :
    (name room : List ℕ) → length (farewell (client 4 name room)) ≡ length name + 17 + length room
length-farewell name room =
    omega (
      arith,
      length-append (name ++ utf8 " вышел из ") room,
      length-append name (utf8 " вышел из "),
    )

drop_client-throw_example : (drop_client 4 (pair long_name long_room)).0 ≡ throw payload_too_large
drop_client-throw_example =
    drop_client-throw 4 5 (client 4 long_name long_room) (client 5 (codes "bob") long_room)
      payload_too_large (pair long_name long_room) (pair-IsConsistent long_name long_room) refl refl
      refl refl refl
      (encode_too_long 3 _ (
        omega (
          arith,
          length-farewell long_name long_room,
          length-replicate {A = ℕ} 65480 97,
          length-replicate {A = ℕ} 50 98,
        )))

abbrev greeted : Server
greeted = (process_message 4 k_hello (codes "ann") (accept_client 4 start)).1

Reachable-IsConsistent_example : IsConsistent (process_message 4 k_join (codes "go") greeted).1
unfolding process_message accept_client encode bytes_eq set_erase set_insert
Reachable-IsConsistent_example =
    Reachable-IsConsistent (process_message 4 k_join (codes "go") greeted).1 (
      handled 4 k_join (codes "go") greeted refl (
        handled 4 k_hello (codes "ann") (accept_client 4 start) refl
          (accepted 4 start refl started)))

abbrev chunks : List (List ℕ)
chunks = (4 ∷ 0 ∷ 0 ∷ []) ∷ (0 ∷ 1 ∷ 7 ∷ 104 ∷ 105 ∷ 2 ∷ []) ∷ (0 ∷ 0 ∷ 0 ∷ 1 ∷ 3 ∷ []) ∷ []

receive-send_all_example :
    Received
      (handle_all (process_message 4) two_messages two_clients)
      (receive (process_message 4) [] chunks two_clients)
receive-send_all_example =
    receive-send_all (process_message 4) two_messages (hi_frame ++ 2 ∷ 0 ∷ 0 ∷ 0 ∷ 1 ∷ 3 ∷ [])
      chunks two_clients ((omega arith, (omega arith, (omega arith, tt))), ((omega arith, tt), tt))
      send_two
      (
        (omega arith, (omega arith, (omega arith, tt))),
        (
          (
            omega arith,
            (omega arith, (omega arith, (omega arith, (omega arith, (omega arith, tt))))),
          ),
          ((omega arith, (omega arith, (omega arith, (omega arith, (omega arith, tt))))), tt),
        ),
      )
      refl
