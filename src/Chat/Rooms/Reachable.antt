-- ===== src/Chat/Rooms/Reachable.antt =====
-- The life of the server of demo-chat/utils/rooms_chat_server.cpp as steps: connections that come and
-- end, and messages, in any order and from any clients.
use c_book.Prelude.{ℕ, ◌≡◌, refl, sym, ◌∷◌, List, [], none, ok}
use c_book.Chat.Rooms.{Server, accept_client, process_message, drop_client, members}
use c_book.Chat.Rooms.Invariant.{IsConsistent}
use c_book.Chat.Rooms.Moves.{unnamed}
use c_book.Chat.Rooms.Steps.{
  accept_client-IsConsistent, process_message-IsConsistent, drop_client-IsConsistent,
}

abbrev pub start : Server
start = record { clients = λ fd. none; rooms = λ room. none }

-- `accept` gives a descriptor that is free; the other steps are those that return.
pub data Reachable : Server → Type 0 where
  started : Reachable start
  accepted :
      (fd : ℕ) (s : Server) → s.clients fd ≡ none → Reachable s → Reachable (accept_client fd s)
  handled :
      (fd type : ℕ) (payload : List ℕ) (s : Server)
      → (process_message fd type payload s).0 ≡ ok tt
      → Reachable s
      → Reachable (process_message fd type payload s).1
  dropped :
      (fd : ℕ) (s : Server)
      → (drop_client fd s).0 ≡ ok tt
      → Reachable s
      → Reachable (drop_client fd s).1

start-IsConsistent : IsConsistent start
unfolding members
start-IsConsistent = record {
  agree = λ room fd named. sym (unnamed room named);
  distinct = λ room. tt;
}

-- In every state that the server reaches from its start, by connections, messages and departures in
-- any order that throw nothing, rooms and clients agree: the set of a named room has the clients
-- whose room it is, once each.
pub Reachable-IsConsistent : (s : Server) → Reachable s → IsConsistent s
Reachable-IsConsistent s started = start-IsConsistent
Reachable-IsConsistent s (accepted fd s' free r) =
    accept_client-IsConsistent fd s' (Reachable-IsConsistent s' r) free
Reachable-IsConsistent s (handled fd type payload s' e r) =
    process_message-IsConsistent fd type payload s' (Reachable-IsConsistent s' r) e
Reachable-IsConsistent s (dropped fd s' e r) =
    (drop_client-IsConsistent fd (0 ∷ []) s' (Reachable-IsConsistent s' r) refl e).0
