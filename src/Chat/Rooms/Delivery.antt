-- ===== src/Chat/Rooms/Delivery.antt =====
-- Whom a message in a room of demo-chat/utils/rooms_chat_server.cpp reaches.
use c_book.Prelude.{
  codes, ◌++◌, utf8, ℕ, ◌≡◌, refl, sym, ap, ◌∙◌, subst, Bool, false, not, ◌&&◌, List, [], ◌∷◌,
  Option, none, some, Outcome, ok, bytes_eq, bytes_eq_refl, ◌==◌, if◌then◌else◌, arith,
  Option-cases, Bool-cases, inl, inr,
}
use c_book.Chat.Protocol.{ProtocolError, encode}
use c_book.Chat.Rooms.Sets.{elem, IsDistinct}
use c_book.Chat.Rooms.{
  ClientState, Server, continue, put_client, is_empty, update_client, push_frame, enqueue_frame,
  broadcast_loop, broadcast_room, members, message, process_message, k_notify, k_message, ◌>>◌,
}
use c_book.Chat.Rooms.Invariant.{room_of, IsConsistent}
use c_book.Chat.Rooms.{handle}

-- The frame at the end of what waits for a client, where there is one.
abbrev pub pushed : List ℕ → Option ClientState → Option ClientState
pushed frame none = none
pushed frame (some c) = some (push_frame frame c)

enqueue_frame-pushed :
    (fd type : ℕ) (payload frame : List ℕ) (s : Server) (g : ℕ)
    → encode type payload ≡ ok frame
    → ((enqueue_frame fd type payload s).0 ≡ ok tt)
      × ((enqueue_frame fd type payload s).1.clients g
          ≡ (if fd == g then pushed frame (s.clients g) else s.clients g))
unfolding enqueue_frame update_client put_client
enqueue_frame-pushed fd type payload frame s g e = (ground arith, ground arith)

broadcast_loop-pushed :
    (fds : List ℕ) (from_fd type : ℕ) (payload frame : List ℕ) (s : Server)
    → encode type payload ≡ ok frame
    → IsDistinct fds
    → ((broadcast_loop fds from_fd type payload s).0 ≡ ok tt)
      × ((g : ℕ)
          → (broadcast_loop fds from_fd type payload s).1.clients g ≡ (
              if not (from_fd == g) && elem g fds then pushed frame (s.clients g) else s.clients g))
unfolding broadcast_loop
broadcast_loop-pushed [] from_fd type payload frame s e d = (refl, λ g. ground arith)
broadcast_loop-pushed (fd ∷ fds) from_fd type payload frame s e d =
    elim (Bool-cases (fd == from_fd)) [
      | inl own ↦
          let (returned, reach) = broadcast_loop-pushed fds from_fd type payload frame s e d.1 in
          subst Reaches (sym own) (returned, λ g. reach g ∙ ground arith)
      | inr other ↦
          let s1 = (enqueue_frame fd type payload s).1 in
          let (returned, reach) = broadcast_loop-pushed fds from_fd type payload frame s1 e d.1 in
          subst Reaches (sym other) (
            subst Reached
              (sym (
                ap (λ r. continue r (broadcast_loop fds from_fd type payload) s1)
                  (enqueue_frame-pushed fd type payload frame s fd e).0))
              (
                returned,
                λ g.
                    reach g
                    ∙ ground (arith, (enqueue_frame-pushed fd type payload frame s g e).1, d.0),
              ))
    ]
  where
    Reached : Outcome ProtocolError Unit × Server → Type 0
    Reached o =
        (o.0 ≡ ok tt)
        × ((g : ℕ)
            → o.1.clients g ≡ (
                if not (from_fd == g) && elem g (fd ∷ fds)
                then pushed frame (s.clients g)
                else s.clients g))

    Reaches : Bool → Type 0
    Reaches b = Reached (
        if b
        then broadcast_loop fds from_fd type payload s
        else (enqueue_frame fd type payload >> broadcast_loop fds from_fd type payload) s)

-- The text that goes out, and the frame with it.
abbrev pub line : List ℕ → List ℕ → List ℕ
line name text = codes "<" ++ name ++ codes "> " ++ text

-- A text from a client in a named room, short enough to go out, reaches the other clients of that
-- room, each once, behind what waited for them before, and nobody else.
pub process_message-pushed :
    (fd : ℕ) (c : ClientState) (payload frame : List ℕ) (s : Server)
    → IsConsistent s
    → s.clients fd ≡ some c
    → is_empty c.room ≡ false
    → encode k_message (line c.name payload) ≡ ok frame
    → ((process_message fd k_message payload s).0 ≡ ok tt)
      × ((g : ℕ)
          → (process_message fd k_message payload s).1.clients g ≡ (
              if not (fd == g) && bytes_eq (room_of s g) c.room
              then pushed frame (s.clients g)
              else s.clients g))
unfolding process_message handle message broadcast_room members
process_message-pushed fd c payload frame s good found named e =
    elim (Option-cases (s.rooms c.room)) [
      | inl absent ↦ absurd (ground (arith, good.agree c.room fd named, bytes_eq_refl c.room))
      | inr (fds, there) ↦
          let same : members s c.room ≡ fds =
            ap (λ (o : Option (List ℕ)). elim o [ none ↦ [] | some l ↦ l ]) there in
          let (returned, reach) =
            broadcast_loop-pushed fds fd k_message (line c.name payload) frame s e
              (subst IsDistinct same (good.distinct c.room)) in
          subst Reached (sym (run fds there)) (
            returned,
            λ g.
                reach g
                ∙ ap (λ b. if not (fd == g) && b then pushed frame (s.clients g) else s.clients g)
                    (sym (ap (elem g) same) ∙ good.agree c.room g named),
          )
    ]
  where
    Reached : Outcome ProtocolError Unit × Server → Type 0
    Reached o =
        (o.0 ≡ ok tt)
        × ((g : ℕ)
            → o.1.clients g ≡ (
                if not (fd == g) && bytes_eq (room_of s g) c.room
                then pushed frame (s.clients g)
                else s.clients g))

    run :
        (fds : List ℕ)
        → s.rooms c.room ≡ some fds
        → process_message fd k_message payload s
          ≡ broadcast_loop fds fd k_message (line c.name payload) s
    run fds there =
        ap
          (λ (o : Option ClientState). elim o [
            | none ↦ (ok tt, s)
            | some d ↦ handle fd d k_message payload s
          ])
          found
        ∙ ap
            (λ b.
              (if b
                  then enqueue_frame fd k_notify (utf8 "не в комнате")
                  else broadcast_room c.room fd k_message (line c.name payload))
                s)
            named
        ∙ ap
            (λ (o : Option (List ℕ)). elim o [
              | none ↦ (ok tt, s)
              | some l ↦ broadcast_loop l fd k_message (line c.name payload) s
            ])
            there
