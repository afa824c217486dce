-- ===== src/Chat/Rooms/Moves.antt =====
-- Leaving, joining and the other steps of demo-chat/utils/rooms_chat_server.cpp keep rooms and
-- clients in agreement.
use c_book.Prelude.{
  ◌++◌, utf8, ℕ, ◌≡◌, refl, sym, ap, ap₂, ◌∙◌, subst, true, false, List, [], ◌∷◌, Option, none,
  some, Outcome, ok, throw, bytes_eq, bytes_eq→eq, ◌==◌, if◌then◌else◌, arith, Option-cases,
  Bool-cases, inl, inr,
}
use c_book.Chat.Protocol.{ProtocolError}
use c_book.Chat.Rooms.Sets.{
  IsDistinct, set_insert, set_erase, elem-set_insert, elem-set_erase, set_insert-IsDistinct,
  set_erase-IsDistinct,
}
use c_book.Chat.Rooms.{
  ClientState, Server, Exec, continue, put_room, is_empty, update_client, broadcast_room, members,
  set_room, erase_member, leave_room, insert_member, enter_room, k_notify, ◌>>◌,
}
use c_book.Chat.Rooms.Invariant.{
  room_of, is_there, is_there-update_client, IsConsistent, SameRooms, members-SameRooms,
  broadcast_room-SameRooms, room_of-set_room, members-update_client, members-erase_member,
  members-insert_member,
}

pub unnamed : (room : List ℕ) → is_empty room ≡ false → bytes_eq [] room ≡ false
unfolding bytes_eq
unnamed [] h = absurd (ground arith)
unnamed (b ∷ room) h = refl

-- A state in which the client of `fd` has moved from its room to `room`, and no other has.
pub record Moved (fd : ℕ) (room : List ℕ) (s s' : Server) : Type 0 where
  pub consistent : IsConsistent s'
  pub at : (g : ℕ) → room_of s' g ≡ (if fd == g then room else room_of s g)
  pub there : (g : ℕ) → is_there s' g ≡ is_there s g

left-IsConsistent :
    (fd : ℕ) (room : List ℕ) (s s' : Server)
    → IsConsistent s
    → room_of s fd ≡ room
    → is_empty room ≡ false
    → ((r : List ℕ)
        → members s' r ≡ (if bytes_eq room r then set_erase fd (members s room) else members s r))
    → ((g : ℕ) → room_of s' g ≡ (if fd == g then [] else room_of s g))
    → IsConsistent s'
left-IsConsistent fd room s s' c own named sets at = record {
  agree = λ r g n. ground (
    arith,
    sets r,
    at g,
    c.agree r g n,
    c.agree room g named,
    bytes_eq→eq room r,
    elem-set_erase fd g (members s room),
    unnamed r n,
    own,
  );
  distinct = λ r. elim (Bool-cases (bytes_eq room r)) [
    | inl e ↦
        subst IsDistinct
          (sym (sets r ∙ ap (λ b. if b then set_erase fd (members s room) else members s r) e))
          (set_erase-IsDistinct fd (members s room) (c.distinct room))
    | inr e ↦
        subst IsDistinct
          (sym (sets r ∙ ap (λ b. if b then set_erase fd (members s room) else members s r) e))
          (c.distinct r)
  ];
}

entered-IsConsistent :
    (fd : ℕ) (room : List ℕ) (s s' : Server)
    → IsConsistent s
    → room_of s fd ≡ []
    → ((r : List ℕ)
        → members s' r ≡ (if bytes_eq room r then set_insert fd (members s room) else members s r))
    → ((g : ℕ) → room_of s' g ≡ (if fd == g then room else room_of s g))
    → IsConsistent s'
entered-IsConsistent fd room s s' c own sets at = record {
  agree = λ r g n. ground (
    arith,
    sets r,
    at g,
    c.agree r g n,
    bytes_eq→eq room r,
    elem-set_insert fd g (members s room),
    unnamed r n,
    own,
  );
  distinct = λ r. elim (Bool-cases (bytes_eq room r)) [
    | inl e ↦
        subst IsDistinct
          (sym (sets r ∙ ap (λ b. if b then set_insert fd (members s room) else members s r) e))
          (set_insert-IsDistinct fd (members s room) (c.distinct room))
    | inr e ↦
        subst IsDistinct
          (sym (sets r ∙ ap (λ b. if b then set_insert fd (members s room) else members s r) e))
          (c.distinct r)
  ];
}

-- A sequence that returned.
pub continue-returned :
    (o : Outcome ProtocolError Unit × Server) (f : Exec)
    → (continue o.0 f o.1).0 ≡ ok tt
    → (o.0 ≡ ok tt) × (continue o.0 f o.1 ≡ f o.1)
continue-returned (throw e, s) f h = absurd (ground arith)
continue-returned (ok u, s) f h = (refl, refl)

abbrev pub farewell : ClientState → List ℕ
farewell c = c.name ++ utf8 " вышел из " ++ c.room

pub leave_room-named :
    (fd : ℕ) (s : Server) (c : ClientState)
    → s.clients fd ≡ some c
    → is_empty c.room ≡ false
    → leave_room fd s
      ≡ (broadcast_room c.room fd k_notify (farewell c)
            >> (λ s'. (ok tt, update_client fd (set_room []) s')))
          (erase_member c.room fd s)
unfolding leave_room
leave_room-named fd s c found named = rw (leave_room, found, named) refl

pub erase_member-clients :
    (room : List ℕ) (fd g : ℕ) (s : Server) → (erase_member room fd s).clients g ≡ s.clients g
unfolding erase_member put_room
erase_member-clients room fd g s = refl

left-Moved :
    (fd : ℕ) (s : Server) (c : ClientState)
    → IsConsistent s
    → s.clients fd ≡ some c
    → is_empty c.room ≡ false
    → (s2 : Server) → SameRooms (erase_member c.room fd s) s2
    → Moved fd [] s (update_client fd (set_room []) s2)
left-Moved fd s c good found named s2 same = record {
  consistent =
      left-IsConsistent fd c.room s (update_client fd (set_room []) s2) good own named
        (λ r.
          members-update_client fd (set_room []) s2 r
          ∙ members-SameRooms (erase_member c.room fd s) s2 same r
          ∙ members-erase_member c.room r fd s)
        at;
  at = at;
  there = λ g. is_there-update_client fd (set_room []) s2 g ∙ same.there g ∙ is_there-erase g;
}
  where
    own : room_of s fd ≡ c.room
    own = ground arith

    is_there-erase : (g : ℕ) → is_there (erase_member c.room fd s) g ≡ is_there s g
    is_there-erase g =
        ap (λ (o : Option ClientState). elim o [ none ↦ false | some c ↦ true ])
          (erase_member-clients c.room fd g s)

    room_of-erase : (g : ℕ) → room_of (erase_member c.room fd s) g ≡ room_of s g
    room_of-erase g =
        ap (λ (o : Option ClientState). elim o [ none ↦ [] | some c ↦ c.room ])
          (erase_member-clients c.room fd g s)

    at :
        (g : ℕ)
        → room_of (update_client fd (set_room []) s2) g ≡ (if fd == g then [] else room_of s g)
    at g =
        room_of-set_room fd [] s2 g (same.there fd ∙ is_there-erase fd ∙ ground arith)
        ∙ ap (λ r. if fd == g then [] else r) (same.at g ∙ room_of-erase g)

-- `leave_room` where it returns.
pub leave_room-Moved :
    (fd : ℕ) (s : Server)
    → IsConsistent s
    → (leave_room fd s).0 ≡ ok tt
    → Moved fd [] s (leave_room fd s).1
unfolding leave_room
leave_room-Moved fd s good returned = elim (Option-cases (s.clients fd)) [
  | inl absent ↦ subst (λ o. Moved fd [] s o.1) (sym (nothing absent)) (still (ground arith))
  | inr (c, found) ↦ elim (Bool-cases (is_empty c.room)) [
    | inl outside ↦
        subst (λ o. Moved fd [] s o.1) (sym (no_room c found outside)) (still (ground arith))
    | inr named ↦
        let e = leave_room-named fd s c found named in
        let b = broadcast_room c.room fd k_notify (farewell c) (erase_member c.room fd s) in
        let (first, whole) =
          continue-returned b (λ s'. (ok tt, update_client fd (set_room []) s'))
            (sym (ap (λ o. o.0) e) ∙ returned) in
        subst (λ o. Moved fd [] s o.1) (sym (e ∙ whole))
          (left-Moved fd s c good found named b.1
            (broadcast_room-SameRooms c.room fd k_notify (farewell c) (erase_member c.room fd s)))
  ]
]
  where
    still : room_of s fd ≡ [] → Moved fd [] s s
    still h = record { consistent = good; at = λ g. ground arith; there = λ g. refl }

    nothing : s.clients fd ≡ none → leave_room fd s ≡ (ok tt, s)
    nothing absent = rw (leave_room, absent) refl

    no_room :
        (c : ClientState)
        → s.clients fd ≡ some c
        → is_empty c.room ≡ true
        → leave_room fd s ≡ (ok tt, s)
    no_room c found outside = rw (leave_room, found, outside) refl

-- `c.room = payload; rooms[c.room].insert(fd);` for a client without a room.
pub enter_room-Moved :
    (fd : ℕ) (room : List ℕ) (s : Server)
    → IsConsistent s
    → room_of s fd ≡ []
    → is_there s fd ≡ true
    → Moved fd room s (enter_room fd room s)
unfolding enter_room insert_member put_room
enter_room-Moved fd room s good outside there =
    let s1 = update_client fd (set_room room) s in
    let at = λ (g : ℕ). room_of-set_room fd room s g there in
    record {
      consistent =
          entered-IsConsistent fd room s (enter_room fd room s) good outside
            (λ r.
              members-insert_member room r fd s1
              ∙ ap₂ {A = List ℕ} {B = List ℕ}
                  (λ x y. if bytes_eq room r then set_insert fd x else y)
                  (members-update_client fd (set_room room) s room)
                  (members-update_client fd (set_room room) s r))
            at;
      at = at;
      there = λ g. is_there-update_client fd (set_room room) s g;
    }
