-- ===== src/Chat/Rooms.antt =====
-- demo-chat/utils/rooms_chat_server.cpp: the clients, the rooms, and what a message does to them. The
-- two maps are functions of their keys; a set of descriptors is a list without repetitions.
pub mod Sets
pub mod Invariant
pub mod Moves
pub mod Steps
pub mod Delivery
pub mod Overflow
pub mod Reachable
mod Tests
use c_book.Prelude.{
  ℕ, zero, suc, Bool, true, false, List, [], ◌∷◌, ◌++◌, Option, none, some, Outcome, ok, throw,
  codes, utf8, bytes_eq, ◌==◌, if◌then◌else◌,
}
use c_book.Chat.Protocol.{ProtocolError, encode}
use Sets.{set_insert, set_erase}

pub record ClientState : Type 0 where
  pub fd : ℕ
  pub name : List ℕ
  pub room : List ℕ
  pub recv_buf : List ℕ
  pub send_buf : List ℕ

pub record Server : Type 0 where
  pub clients : ℕ → Option ClientState
  pub rooms : List ℕ → Option (List ℕ)

abbrev pub k_hello : ℕ
k_hello = 1

abbrev pub k_message : ℕ
k_message = 2

abbrev pub k_notify : ℕ
k_notify = 3

abbrev pub k_join : ℕ
k_join = 4

abbrev pub k_leave : ℕ
k_leave = 5

abbrev pub Exec : Type 0
Exec = Server → Outcome ProtocolError Unit × Server

abbrev pub continue : Outcome ProtocolError Unit → Exec → Exec
continue (ok u) f s = f s
continue (throw e) f s = (throw e, s)

infixl 5 ◌>>◌
abbrev pub ◌>>◌ : Exec → Exec → Exec
◌>>◌ m f s = let (r, s') = m s in continue r f s'

-- `clients[fd] = c` and `clients.erase(fd)`; the same for the rooms.
pub put_client : ℕ → Option ClientState → Server → Server
put_client fd c s = record s { clients = λ g. if fd == g then c else s.clients g }

pub put_room : List ℕ → Option (List ℕ) → Server → Server
put_room room ms s = record s { rooms = λ r. if bytes_eq room r then ms else s.rooms r }

abbrev pub is_empty : List ℕ → Bool
is_empty [] = true
is_empty (x ∷ xs) = false

-- A write to a field of the client, where there is one.
pub update_client : ℕ → (ClientState → ClientState) → Server → Server
unfolding put_client
update_client fd f s = elim (s.clients fd) [ none ↦ s | some c ↦ put_client fd (some (f c)) s ]

pub push_frame : List ℕ → ClientState → ClientState
push_frame frame c = record c { send_buf = c.send_buf ++ frame }

-- Of a client that is there; `broadcast_room` goes past a descriptor that has none.
pub enqueue_frame : ℕ → ℕ → List ℕ → Exec
unfolding update_client push_frame
enqueue_frame fd type payload s = elim (s.clients fd) [
  | none ↦ (ok tt, s)
  | some c ↦ elim (encode type payload) [
    | throw e ↦ (throw e, s)
    | ok frame ↦ (ok tt, update_client fd (push_frame frame) s)
  ]
]

pub broadcast_loop : List ℕ → ℕ → ℕ → List ℕ → Exec
unfolding enqueue_frame
broadcast_loop [] from_fd type payload s = (ok tt, s)
broadcast_loop (fd ∷ fds) from_fd type payload s =
    if fd == from_fd
    then broadcast_loop fds from_fd type payload s
    else (enqueue_frame fd type payload >> broadcast_loop fds from_fd type payload) s

pub broadcast_room : List ℕ → ℕ → ℕ → List ℕ → Exec
unfolding broadcast_loop
broadcast_room room from_fd type payload s = elim (s.rooms room) [
  | none ↦ (ok tt, s)
  | some fds ↦ broadcast_loop fds from_fd type payload s
]

-- `rooms[room]`, which adds an empty set for a new room.
pub members : Server → List ℕ → List ℕ
members s room = elim (s.rooms room) [ none ↦ [] | some fds ↦ fds ]

pub set_room : List ℕ → ClientState → ClientState
set_room room c = record c { room = room }

-- `rooms[room].erase(fd)`, and the room with it once it is empty.
pub erase_member : List ℕ → ℕ → Server → Server
unfolding members put_room
erase_member room fd s =
    let rest = set_erase fd (members s room) in
    put_room room (if is_empty rest then none else some rest) s

pub leave_room : ℕ → Exec
unfolding erase_member broadcast_room update_client set_room
leave_room fd s = elim (s.clients fd) [
  | none ↦ (ok tt, s)
  | some c ↦
      if is_empty c.room
      then (ok tt, s)
      else (broadcast_room c.room fd k_notify (c.name ++ utf8 " вышел из " ++ c.room)
            >> (λ s'. (ok tt, update_client fd (set_room []) s')))
          (erase_member c.room fd s)
]

pub insert_member : List ℕ → ℕ → Server → Server
unfolding members put_room
insert_member room fd s = put_room room (some (set_insert fd (members s room))) s

-- `c.room = payload; rooms[c.room].insert(fd);`
pub enter_room : ℕ → List ℕ → Server → Server
unfolding insert_member update_client set_room
enter_room fd room s = insert_member room fd (update_client fd (set_room room) s)

pub set_name : List ℕ → ClientState → ClientState
set_name name c = record c { name = name }

pub hello : ℕ → List ℕ → Exec
unfolding update_client set_name enqueue_frame
hello fd payload s =
    enqueue_frame fd k_notify (utf8 "Привет, " ++ payload ++ utf8 ". /join <room> для входа.")
      (update_client fd (set_name payload) s)

pub announce : ℕ → ClientState → List ℕ → Exec
unfolding enqueue_frame broadcast_room
announce fd c payload =
    enqueue_frame fd k_notify (utf8 "вы в комнате " ++ payload)
    >> broadcast_room payload fd k_notify (c.name ++ utf8 " вошёл в " ++ payload)

pub change_room : ℕ → ClientState → List ℕ → Exec
unfolding leave_room enter_room announce
change_room fd c payload = leave_room fd >> λ s. announce fd c payload (enter_room fd payload s)

pub join : ℕ → ClientState → List ℕ → Exec
unfolding enqueue_frame change_room
join fd c payload =
    if is_empty c.name
    then enqueue_frame fd k_notify (utf8 "сначала Hello")
    else change_room fd c payload

pub message : ℕ → ClientState → List ℕ → Exec
unfolding enqueue_frame broadcast_room
message fd c payload =
    if is_empty c.room
    then enqueue_frame fd k_notify (utf8 "не в комнате")
    else broadcast_room c.room fd k_message (codes "<" ++ c.name ++ codes "> " ++ payload)

pub leave : ℕ → Exec
unfolding leave_room enqueue_frame
leave fd = leave_room fd >> enqueue_frame fd k_notify (utf8 "вы вышли")

-- The `switch` of `process_message`; the line that it prints is not modelled.
pub handle : ℕ → ClientState → ℕ → List ℕ → Exec
unfolding hello join leave message enqueue_frame
handle fd c type payload s =
    if type == k_hello
    then hello fd payload s
    else if type == k_join
    then join fd c payload s
    else if type == k_leave
    then leave fd s
    else if type == k_message
    then message fd c payload s
    else enqueue_frame fd k_notify (utf8 "неизвестный тип") s

pub process_message : ℕ → ℕ → List ℕ → Exec
unfolding handle
process_message fd type payload s = elim (s.clients fd) [
  | none ↦ (ok tt, s)
  | some c ↦ handle fd c type payload s
]

-- An accepted connection, and the end of one, which stands outside the `try` block.
pub accept_client : ℕ → Server → Server
unfolding put_client
accept_client fd s =
    put_client fd (some (record { fd = fd; name = []; room = []; recv_buf = []; send_buf = [] })) s

pub drop_client : ℕ → Exec
unfolding leave_room put_client
drop_client fd = leave_room fd >> λ s. (ok tt, put_client fd none s)
