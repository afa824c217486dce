-- ===== src/Chat/Rooms/Steps.antt =====
-- `process_message` and the end of a connection keep rooms and clients of
-- demo-chat/utils/rooms_chat_server.cpp in agreement.
use c_book.Prelude.{
  ◌++◌, utf8, ℕ, ◌≡◌, refl, sym, ap, ◌∙◌, subst, Bool, true, false, List, [], Option, none, some,
  Outcome, ok, bytes_eq, ◌==◌, if◌then◌else◌, arith, Option-cases, Bool-cases, inl, inr,
}
use c_book.Chat.Protocol.{ProtocolError}
use c_book.Chat.Rooms.Sets.{elem}
use c_book.Chat.Rooms.{
  accept_client, ClientState, Server, Exec, put_client, is_empty, update_client, enqueue_frame,
  members, leave_room, enter_room, set_name, hello, join, message, process_message, drop_client,
  k_notify, k_message, ◌>>◌,
}
use c_book.Chat.Rooms.Invariant.{
  room_of, is_there, IsConsistent, SameRooms, SameRooms-trans, same-IsConsistent,
  SameRooms-IsConsistent, enqueue_frame-SameRooms, broadcast_room-SameRooms, continue-SameRooms,
  update_client-SameRooms,
}
use c_book.Chat.Rooms.{announce, change_room, leave, handle, k_hello, k_join, k_leave}
use c_book.Chat.Rooms.Moves.{unnamed, continue-returned, leave_room-Moved, enter_room-Moved}

-- One step after another, none of which moves a client.
then-SameRooms :
    (m f : Exec) (s : Server)
    → SameRooms s (m s).1
    → ((s : Server) → SameRooms s (f s).1)
    → SameRooms s ((m >> f) s).1
then-SameRooms m f s x y = continue-SameRooms s (m s) f x y

hello-SameRooms : (fd : ℕ) (payload : List ℕ) (s : Server) → SameRooms s (hello fd payload s).1
unfolding hello set_name
hello-SameRooms fd payload s =
    let s1 = update_client fd (set_name payload) s in
    SameRooms-trans s s1 (hello fd payload s).1
      (update_client-SameRooms fd (set_name payload) s (λ c. refl))
      (enqueue_frame-SameRooms fd k_notify _ s1)

message-SameRooms :
    (fd : ℕ) (c : ClientState) (payload : List ℕ) (s : Server)
    → SameRooms s (message fd c payload s).1
unfolding message
message-SameRooms fd c payload s = elim (Bool-cases (is_empty c.room)) [
  | inl outside ↦
      rw (message, outside) (enqueue_frame-SameRooms fd k_notify (utf8 "не в комнате") s)
  | inr named ↦ rw (message, named) (broadcast_room-SameRooms c.room fd k_message _ s)
]

change_room-IsConsistent :
    (fd : ℕ) (c : ClientState) (payload : List ℕ) (s : Server)
    → IsConsistent s
    → is_there s fd ≡ true
    → (change_room fd c payload s).0 ≡ ok tt
    → IsConsistent (change_room fd c payload s).1
unfolding change_room announce
change_room-IsConsistent fd c payload s good there returned =
    let next : Exec = λ s'. announce fd c payload (enter_room fd payload s') in
    let (first, whole) = continue-returned (leave_room fd s) next returned in
    let out = leave_room-Moved fd s good first in
    let s1 = (leave_room fd s).1 in
    let inside =
      enter_room-Moved fd payload s1 out.consistent (out.at fd ∙ ground arith)
        (out.there fd ∙ there) in
    let s2 = enter_room fd payload s1 in
    subst (λ o. IsConsistent o.1) (sym whole)
      (SameRooms-IsConsistent s2 (announce fd c payload s2).1
        (then-SameRooms (enqueue_frame fd k_notify (utf8 "вы в комнате " ++ payload)) _ s2
          (enqueue_frame-SameRooms fd k_notify _ s2)
          (broadcast_room-SameRooms payload fd k_notify (c.name ++ utf8 " вошёл в " ++ payload)))
        inside.consistent)

-- What a step keeps where it returns.
abbrev Keeps : Outcome ProtocolError Unit × Server → Type 0
Keeps o = o.0 ≡ ok tt → IsConsistent o.1

if-Keeps :
    (b : Bool) (x y : Outcome ProtocolError Unit × Server)
    → Keeps x
    → Keeps y
    → Keeps (if b then x else y)
if-Keeps true x y h k = h
if-Keeps false x y h k = k

SameRooms-Keeps :
    (s : Server) (o : Outcome ProtocolError Unit × Server)
    → IsConsistent s
    → SameRooms s o.1
    → Keeps o
SameRooms-Keeps s o good same returned = SameRooms-IsConsistent s o.1 same good

enqueue_frame-Keeps :
    (fd : ℕ) (payload : List ℕ) (s : Server)
    → IsConsistent s
    → Keeps (enqueue_frame fd k_notify payload s)
enqueue_frame-Keeps fd payload s good =
    SameRooms-Keeps s (enqueue_frame fd k_notify payload s) good
      (enqueue_frame-SameRooms fd k_notify payload s)

join-Keeps :
    (fd : ℕ) (c : ClientState) (payload : List ℕ) (s : Server)
    → IsConsistent s
    → is_there s fd ≡ true
    → Keeps (join fd c payload s)
unfolding join
join-Keeps fd c payload s good there = elim (Bool-cases (is_empty c.name)) [
  | inl nameless ↦ subst Goal (sym nameless) (enqueue_frame-Keeps fd (utf8 "сначала Hello") s good)
  | inr named ↦ subst Goal (sym named) (change_room-IsConsistent fd c payload s good there)
]
  where
    Goal : Bool → Type 0
    Goal b = Keeps (
        (if b then enqueue_frame fd k_notify (utf8 "сначала Hello") else change_room fd c payload)
          s)

leave-Keeps : (fd : ℕ) (s : Server) → IsConsistent s → Keeps (leave fd s)
unfolding leave
leave-Keeps fd s good returned =
    let (first, whole) =
      continue-returned (leave_room fd s) (enqueue_frame fd k_notify (utf8 "вы вышли")) returned in
    subst (λ o. IsConsistent o.1) (sym whole)
      (SameRooms-IsConsistent (leave_room fd s).1 _
        (enqueue_frame-SameRooms fd k_notify (utf8 "вы вышли") (leave_room fd s).1)
        (leave_room-Moved fd s good first).consistent)

handle-Keeps :
    (fd type : ℕ) (c : ClientState) (payload : List ℕ) (s : Server)
    → IsConsistent s
    → is_there s fd ≡ true
    → Keeps (handle fd c type payload s)
unfolding handle
handle-Keeps fd type c payload s good there =
    if-Keeps (type == k_hello) _ _
      (SameRooms-Keeps s (hello fd payload s) good (hello-SameRooms fd payload s))
      (if-Keeps (type == k_join) _ _ (join-Keeps fd c payload s good there) (
        if-Keeps (type == k_leave) _ _ (leave-Keeps fd s good) (
          if-Keeps (type == k_message) _ _
            (SameRooms-Keeps s (message fd c payload s) good (message-SameRooms fd c payload s))
            (enqueue_frame-Keeps fd (utf8 "неизвестный тип") s good))))

-- Rooms and clients agree again after every message that `process_message` handles without an
-- exception: the set of a named room has the clients whose room it is, once each.
pub process_message-IsConsistent :
    (fd type : ℕ) (payload : List ℕ) (s : Server)
    → IsConsistent s
    → (process_message fd type payload s).0 ≡ ok tt
    → IsConsistent (process_message fd type payload s).1
unfolding process_message
process_message-IsConsistent fd type payload s good = elim (Option-cases (s.clients fd)) [
  | inl absent ↦ subst Goal (sym absent) (λ r. good)
  | inr (c, found) ↦ subst Goal (sym found) (handle-Keeps fd type c payload s good (ground arith))
]
  where
    Goal : Option ClientState → Type 0
    Goal o = Keeps (elim o [ none ↦ (ok tt, s) | some c ↦ handle fd c type payload s ])

members-put_client :
    (fd : ℕ) (c : Option ClientState) (s : Server) (room : List ℕ)
    → members (put_client fd c s) room ≡ members s room
unfolding put_client members
members-put_client fd c s room = refl

room_of-put_client :
    (fd : ℕ) (s : Server) (g : ℕ)
    → room_of s fd ≡ []
    → room_of (put_client fd none s) g ≡ room_of s g
unfolding put_client
room_of-put_client fd s g gone = ground arith

-- A connection that ends without an exception leaves rooms and clients in agreement, and its
-- descriptor in no named room, so that the next client with it starts outside.
pub drop_client-IsConsistent :
    (fd : ℕ) (room : List ℕ) (s : Server)
    → IsConsistent s
    → is_empty room ≡ false
    → (drop_client fd s).0 ≡ ok tt
    → IsConsistent (drop_client fd s).1 × (elem fd (members (drop_client fd s).1 room) ≡ false)
unfolding drop_client
drop_client-IsConsistent fd room s good named returned =
    let erase : Exec = λ s'. (ok tt, put_client fd none s') in
    let (first, whole) = continue-returned (leave_room fd s) erase returned in
    let out = leave_room-Moved fd s good first in
    let s1 = (leave_room fd s).1 in
    let gone = out.at fd ∙ ground arith in
    let good' =
      same-IsConsistent s1 (put_client fd none s1) (members-put_client fd none s1)
        (λ g. room_of-put_client fd s1 g gone) out.consistent in
    subst (λ o. IsConsistent o.1 × (elem fd (members o.1 room) ≡ false)) (sym whole)
      (
        good',
        good'.agree room fd named
            ∙ ap (λ r. bytes_eq r room) (room_of-put_client fd s1 fd gone ∙ gone)
            ∙ unnamed room named,
      )

-- A new connection, on a descriptor that no client has.
pub accept_client-IsConsistent :
    (fd : ℕ) (s : Server) → IsConsistent s → s.clients fd ≡ none → IsConsistent (accept_client fd s)
unfolding accept_client put_client
accept_client-IsConsistent fd s good free =
    same-IsConsistent s (accept_client fd s) (λ r. members-put_client fd _ s r) (λ g. ground arith)
      good
