-- ===== src/Chat/Rooms/Invariant.antt =====
-- The rooms and the clients of demo-chat/utils/rooms_chat_server.cpp agree: who is in the set of a
-- room is who has that room.
use c_book.Prelude.{
  ℕ, ◌≡◌, refl, sym, ap, ◌∙◌, subst, Bool, true, false, List, [], ◌∷◌, Option, none, some, Outcome,
  ok, throw, bytes_eq, ◌==◌, if◌then◌else◌, arith, Option-cases, Bool-cases, inl, inr,
}
use c_book.Chat.Protocol.{ProtocolError, encode}
use c_book.Chat.Rooms.Sets.{elem, IsDistinct, set_insert, set_erase}
use c_book.Chat.Rooms.{
  ClientState, Server, Exec, continue, put_client, put_room, is_empty, update_client, push_frame,
  enqueue_frame, broadcast_loop, broadcast_room, members, set_room, erase_member, insert_member,
  ◌>>◌,
}

abbrev pub room_of : Server → ℕ → List ℕ
room_of s fd = elim (s.clients fd) [ none ↦ [] | some c ↦ c.room ]

abbrev pub is_there : Server → ℕ → Bool
is_there s fd = elim (s.clients fd) [ none ↦ false | some c ↦ true ]

-- Of a named room the set has the clients whose room it is, once each. The room without a name is
-- left out: a client in no room has it too.
pub record IsConsistent (s : Server) : Type 0 where
  pub agree :
      (room : List ℕ) (fd : ℕ)
      → is_empty room ≡ false
      → elem fd (members s room) ≡ bytes_eq (room_of s fd) room
  pub distinct : (room : List ℕ) → IsDistinct (members s room)

-- A step that leaves the rooms and the room of each client alone.
pub record SameRooms (s s' : Server) : Type 0 where
  pub sets : (room : List ℕ) → s'.rooms room ≡ s.rooms room
  pub at : (fd : ℕ) → room_of s' fd ≡ room_of s fd
  pub there : (fd : ℕ) → is_there s' fd ≡ is_there s fd

pub SameRooms-refl : (s : Server) → SameRooms s s
SameRooms-refl s = record { sets = λ r. refl; at = λ fd. refl; there = λ fd. refl }

pub SameRooms-trans : (a b c : Server) → SameRooms a b → SameRooms b c → SameRooms a c
SameRooms-trans a b c x y = record {
  sets = λ r. y.sets r ∙ x.sets r;
  at = λ fd. y.at fd ∙ x.at fd;
  there = λ fd. y.there fd ∙ x.there fd;
}

pub members-SameRooms : (s s' : Server) → SameRooms s s' → (r : List ℕ) → members s' r ≡ members s r
unfolding members
members-SameRooms s s' x r =
    ap (λ (o : Option (List ℕ)). elim o [ none ↦ [] | some fds ↦ fds ]) (x.sets r)

pub same-IsConsistent :
    (s s' : Server)
    → ((r : List ℕ) → members s' r ≡ members s r)
    → ((fd : ℕ) → room_of s' fd ≡ room_of s fd)
    → IsConsistent s
    → IsConsistent s'
same-IsConsistent s s' sets at c = record {
  agree = λ room fd named.
      ap (elem fd) (sets room) ∙ c.agree room fd named ∙ ap (λ r. bytes_eq r room) (sym (at fd));
  distinct = λ room. subst IsDistinct (sym (sets room)) (c.distinct room);
}

pub SameRooms-IsConsistent : (s s' : Server) → SameRooms s s' → IsConsistent s → IsConsistent s'
SameRooms-IsConsistent s s' x = same-IsConsistent s s' (members-SameRooms s s' x) x.at

-- A write to the client that leaves its room alone.
pub update_client-SameRooms :
    (fd : ℕ) (f : ClientState → ClientState) (s : Server)
    → ((c : ClientState) → (f c).room ≡ c.room)
    → SameRooms s (update_client fd f s)
unfolding update_client put_client
update_client-SameRooms fd f s keeps = record {
  sets = λ r. ground arith;
  at = λ g. elim (Option-cases (s.clients fd)) [
    | inl absent ↦ ground arith
    | inr (c, found) ↦ ground (arith, keeps c)
  ];
  there = λ g. ground arith;
}

pub enqueue_frame-SameRooms :
    (fd type : ℕ) (payload : List ℕ) (s : Server) → SameRooms s (enqueue_frame fd type payload s).1
unfolding enqueue_frame push_frame
enqueue_frame-SameRooms fd type payload s = elim (Option-cases (s.clients fd)) [
  | inl absent ↦ rw (enqueue_frame, absent) (SameRooms-refl s)
  | inr (c, found) ↦ go (encode type payload) refl c found
]
  where
    go :
        (o : Outcome ProtocolError (List ℕ))
        → encode type payload ≡ o
        → (c : ClientState) → s.clients fd ≡ some c
        → SameRooms s (enqueue_frame fd type payload s).1
    go (throw e) d c found = rw (enqueue_frame, found, d) (SameRooms-refl s)
    go (ok frame) d c found =
        rw (enqueue_frame, found, d) (update_client-SameRooms fd (push_frame frame) s (λ c. refl))

-- A sequence of two such steps.
pub continue-SameRooms :
    (a : Server) (o : Outcome ProtocolError Unit × Server) (f : Exec)
    → SameRooms a o.1
    → ((s : Server) → SameRooms s (f s).1)
    → SameRooms a (continue o.0 f o.1).1
continue-SameRooms a (throw e, s) f x y = x
continue-SameRooms a (ok u, s) f x y = SameRooms-trans a s (f s).1 x (y s)

broadcast_loop-SameRooms :
    (fds : List ℕ) (from_fd type : ℕ) (payload : List ℕ) (s : Server)
    → SameRooms s (broadcast_loop fds from_fd type payload s).1
unfolding broadcast_loop
broadcast_loop-SameRooms [] from_fd type payload s = SameRooms-refl s
broadcast_loop-SameRooms (fd ∷ fds) from_fd type payload s = elim (Bool-cases (fd == from_fd)) [
  | inl own ↦
      subst
        (λ b.
          SameRooms s
            (if b
              then broadcast_loop fds from_fd type payload s
              else (enqueue_frame fd type payload >> broadcast_loop fds from_fd type payload) s).1)
        (sym own) (broadcast_loop-SameRooms fds from_fd type payload s)
  | inr other ↦
      subst
        (λ b.
          SameRooms s
            (if b
              then broadcast_loop fds from_fd type payload s
              else (enqueue_frame fd type payload >> broadcast_loop fds from_fd type payload) s).1)
        (sym other)
        (continue-SameRooms s (enqueue_frame fd type payload s)
          (broadcast_loop fds from_fd type payload) (enqueue_frame-SameRooms fd type payload s)
          (broadcast_loop-SameRooms fds from_fd type payload))
]

pub broadcast_room-SameRooms :
    (room : List ℕ) (from_fd type : ℕ) (payload : List ℕ) (s : Server)
    → SameRooms s (broadcast_room room from_fd type payload s).1
unfolding broadcast_room
broadcast_room-SameRooms room from_fd type payload s = elim (Option-cases (s.rooms room)) [
  | inl absent ↦ rw (broadcast_room, absent) (SameRooms-refl s)
  | inr (fds, found) ↦
      rw (broadcast_room, found) (broadcast_loop-SameRooms fds from_fd type payload s)
]

-- `leave_room`: the client of `fd` gets no room, the set of its room loses it.
pub room_of-set_room :
    (fd : ℕ) (room : List ℕ) (s : Server) (g : ℕ)
    → is_there s fd ≡ true
    → room_of (update_client fd (set_room room) s) g ≡ (if fd == g then room else room_of s g)
unfolding update_client put_client set_room
room_of-set_room fd room s g there = ground arith

pub is_there-update_client :
    (fd : ℕ) (f : ClientState → ClientState) (s : Server) (g : ℕ)
    → is_there (update_client fd f s) g ≡ is_there s g
unfolding update_client put_client
is_there-update_client fd f s g = ground arith

pub members-update_client :
    (fd : ℕ) (f : ClientState → ClientState) (s : Server) (room : List ℕ)
    → members (update_client fd f s) room ≡ members s room
unfolding update_client put_client members
members-update_client fd f s room = ground arith

members-put_room :
    (r room : List ℕ) (ms : Option (List ℕ)) (s : Server)
    → members (put_room r ms s) room
      ≡ (if bytes_eq r room then elim ms [ none ↦ [] | some fds ↦ fds ] else members s room)
unfolding put_room members
members-put_room r room ms s = ground arith

pub members-erase_member :
    (r room : List ℕ) (fd : ℕ) (s : Server)
    → members (erase_member r fd s) room
      ≡ (if bytes_eq r room then set_erase fd (members s r) else members s room)
unfolding erase_member
members-erase_member r room fd s = members-put_room r room _ s ∙ ground arith

pub members-insert_member :
    (r room : List ℕ) (fd : ℕ) (s : Server)
    → members (insert_member r fd s) room
      ≡ (if bytes_eq r room then set_insert fd (members s r) else members s room)
unfolding insert_member
members-insert_member r room fd s = members-put_room r room _ s
