-- ===== src/Chat/Protocol.antt =====
-- demo-chat/include/protocol.h and demo-chat/src/protocol.cpp, and the receive loop of
-- demo-chat/utils/rooms_chat_server.cpp that calls them.
pub mod Frames
pub mod Stream
pub mod Canonical
pub mod Tests
use c_book.Prelude.{
  ℕ, zero, suc, ◌+◌, ◌-◌, ◌*◌, ◌%◌, ◌^◌, Bool, true, ◌||◌, List, [], ◌∷◌, ◌++◌, Option, none, some,
  Outcome, ok, throw, length, take, drop, get_or, ltb, ◌==◌, if◌then◌else◌,
}
use c_book.Bytes.{write_u32, read_u32}

-- What is thrown; the numbers are those of the messages.
pub data ProtocolError : Type 0 where
  payload_too_large : ProtocolError
  invalid_frame_length : ℕ → ProtocolError
  unsupported_version : ℕ → ProtocolError

abbrev pub proto_version : ℕ
proto_version = 1

abbrev pub max_payload : ℕ
max_payload = 64 * 1024

unfoldable pub encode : ℕ → List ℕ → Outcome ProtocolError (List ℕ)
encode type payload =
    if ltb max_payload (length payload)
    then throw payload_too_large
    else ok (
        ((write_u32 [] ((2 + length payload) % 2 ^ 32) ++ proto_version ∷ []) ++ type ∷ [])
        ++ payload)

-- A decoded frame, and the bytes left in the accumulator.
pub record Decoded : Type 0 where
  pub out_type : ℕ
  pub out_payload : List ℕ
  pub acc : List ℕ

-- `none` is the return value false, which leaves the accumulator alone.
pub try_decode : List ℕ → Outcome ProtocolError (Option Decoded)
try_decode acc =
    if ltb (length acc) 4
    then ok none
    else let len = read_u32 acc in
      if ltb len 2 || ltb (max_payload + 2) len
      then throw (invalid_frame_length len)
      else if ltb (length acc) (4 + len)
      then ok none
      else let version = get_or acc 4 0 in
        if version == proto_version
        then ok (
            some (record {
              out_type = get_or acc 5 0;
              out_payload = take (len - 2) (drop 6 acc);
              acc = drop (4 + len) acc;
            }))
        else throw (unsupported_version version)

abbrev pub Message : Type 0
Message = ℕ × List ℕ

-- `process_message`, which may throw, on the state of the server.
abbrev pub Handler : Type 0 → Type 0
Handler S = ℕ → List ℕ → S → Outcome ProtocolError Unit × S

-- The state of the server, the bytes that stay in `recv_buf`, and the exception that ended the loop,
-- if one did.
pub record Drained (S : Type 0) : Type 0 where
  pub state : S
  pub recv_buf : List ℕ
  pub error : Option ProtocolError

module _ {S : Type 0} (handle : Handler S) where
  -- `while (try_decode(recv_buf, type, payload)) process_message(...)` in its `try` block. Both calls
  -- may throw; where `process_message` does, `try_decode` has taken the frame. A frame takes six bytes at least, so the length of
  -- the buffer is fuel enough.
  pub drain_loop : ℕ → List ℕ → S → Drained S
  drain_loop zero buf s = record { state = s; recv_buf = buf; error = none }
  drain_loop (suc fuel) buf s = elim (try_decode buf) [
    | throw e ↦ record { state = s; recv_buf = buf; error = some e }
    | ok none ↦ record { state = s; recv_buf = buf; error = none }
    | ok (some d) ↦
        let (r, s') = handle d.out_type d.out_payload s in
        elim r [
          | throw e ↦ record { state = s'; recv_buf = d.acc; error = some e }
          | ok u ↦ drain_loop fuel d.acc s'
        ]
  ]

  pub drain : List ℕ → S → Drained S
  unfolding drain_loop
  drain buf s = drain_loop (length buf) buf s

  -- One readiness event after another, each with the bytes that `recv` gave: they go to the end of
  -- `recv_buf`, and the loop runs. An exception drops the client.
  pub receive : List ℕ → List (List ℕ) → S → Drained S
  receive buf [] s = record { state = s; recv_buf = buf; error = none }
  receive buf (chunk ∷ chunks) s =
      let d = drain (buf ++ chunk) s in
      elim d.error [ some e ↦ d | none ↦ receive d.recv_buf chunks d.state ]
