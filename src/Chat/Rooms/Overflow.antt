-- ===== src/Chat/Rooms/Overflow.antt =====
-- A departure whose notice is too long for a frame, in demo-chat/utils/rooms_chat_server.cpp.
use c_book.Prelude.{
  ℕ, ◌≡◌, refl, sym, ap, ap₂, ◌∙◌, subst, Bool, true, false, List, [], ◌∷◌, Option, none, some,
  Outcome, ok, throw, bytes_eq_refl, ◌==◌, if◌then◌else◌, arith, Option-cases, Bool-cases, inl, inr,
}
use c_book.Chat.Protocol.{ProtocolError, encode}
use c_book.Chat.Rooms.Sets.{elem, set_erase, elem-set_erase}
use c_book.Chat.Rooms.{
  ClientState, Server, Exec, continue, is_empty, enqueue_frame, broadcast_loop, broadcast_room,
  members, erase_member, drop_client, k_notify, ◌>>◌, update_client, set_room, put_client,
}
use c_book.Chat.Rooms.Invariant.{room_of, is_there, IsConsistent}
use c_book.Chat.Rooms.Moves.{leave_room-named, farewell, erase_member-clients}

broadcast_loop-throw :
    (fds : List ℕ) (from_fd g type : ℕ) (payload : List ℕ) (e : ProtocolError) (s : Server)
    → encode type payload ≡ throw e
    → elem g fds ≡ true
    → (g == from_fd) ≡ false
    → is_there s g ≡ true
    → (broadcast_loop fds from_fd type payload s).0 ≡ throw e
unfolding broadcast_loop enqueue_frame
broadcast_loop-throw [] from_fd g type payload e s long member other there = absurd (ground arith)
broadcast_loop-throw (fd ∷ fds) from_fd g type payload e s long member other there =
    elim (Bool-cases (fd == from_fd)) [
      | inl own ↦
          subst Throws (sym own)
            (broadcast_loop-throw fds from_fd g type payload e s long (ground arith) other there)
      | inr foreign ↦ subst Throws (sym foreign) (elim (Option-cases (s.clients fd)) [
        | inl absent ↦
            subst (λ o. (continue o.0 next o.1).0 ≡ throw e) (sym (skipped absent))
              (broadcast_loop-throw fds from_fd g type payload e s long (ground arith) other there)
        | inr (c, found) ↦
            subst (λ o. (continue o.0 next o.1).0 ≡ throw e) (sym (thrown c found)) refl
      ])
    ]
  where
    next : Exec
    next = broadcast_loop fds from_fd type payload

    Throws : Bool → Type 0
    Throws b = ((if b then next s else (enqueue_frame fd type payload >> next) s)).0 ≡ throw e

    skipped : s.clients fd ≡ none → enqueue_frame fd type payload s ≡ (ok tt, s)
    skipped absent = rw (enqueue_frame, absent) refl

    thrown :
        (c : ClientState) → s.clients fd ≡ some c → enqueue_frame fd type payload s ≡ (throw e, s)
    thrown c found = rw (enqueue_frame, found, long) refl

not_empty : (g : ℕ) (fds : List ℕ) → elem g fds ≡ true → is_empty fds ≡ false
not_empty g [] h = absurd (ground arith)
not_empty g (x ∷ fds) h = refl

-- Where rooms and clients agree, another client is in the room of the client that leaves, and the notice
-- of the departure does not fit a frame, what the server does at the end of a connection throws.
pub drop_client-throw :
    (fd g : ℕ) (c d : ClientState) (e : ProtocolError) (s : Server)
    → IsConsistent s
    → s.clients fd ≡ some c
    → is_empty c.room ≡ false
    → s.clients g ≡ some d
    → d.room ≡ c.room
    → (g == fd) ≡ false
    → encode k_notify (farewell c) ≡ throw e
    → (drop_client fd s).0 ≡ throw e
unfolding drop_client broadcast_room
drop_client-throw fd g c d e s good found named there together other long =
    ap (λ o. (continue o.0 last o.1).0) (leave_room-named fd s c found named)
    ∙ ap (λ r. (continue (continue r clear b.1).0 last (continue r clear b.1).1).0) broken
  where
    last : Exec
    last s' = (ok tt, put_client fd none s')

    clear : Exec
    clear s' = (ok tt, update_client fd (set_room []) s')

    rest : List ℕ
    rest = set_erase fd (members s c.room)

    s1 : Server
    s1 = erase_member c.room fd s

    b : Outcome ProtocolError Unit × Server
    b = broadcast_room c.room fd k_notify (farewell c) s1

    inside : room_of s g ≡ c.room
    inside =
        ap (λ (o : Option ClientState). elim o [ none ↦ [] | some c ↦ c.room ]) there ∙ together

    member : elem g rest ≡ true
    member =
        elem-set_erase fd g (members s c.room)
        ∙ ground (arith, good.agree c.room g named, inside, bytes_eq_refl c.room)

    kept : s1.rooms c.room ≡ some rest
    kept =
        ap₂ (λ p q. if p then (if q then none else some rest) else s.rooms c.room)
          (bytes_eq_refl c.room) (not_empty g rest member)

    seen : Option (List ℕ) → Outcome ProtocolError Unit × Server
    seen o = elim o [
      | none ↦ (ok tt, s1)
      | some fds ↦ broadcast_loop fds fd k_notify (farewell c) s1
    ]

    still : is_there s1 g ≡ true
    still =
        ap (λ (o : Option ClientState). elim o [ none ↦ false | some c ↦ true ])
          (erase_member-clients c.room fd g s ∙ there)

    broken : b.0 ≡ throw e
    broken =
        ap (λ o. (seen o).0) kept
        ∙ broadcast_loop-throw rest fd g k_notify (farewell c) e s1 long member other still
