-- ===== src/Chat/History.antt =====
-- demo-chat/include/history.h and demo-chat/src/history.cpp. The file is its bytes: `append` adds a
-- record at the end, `recent` reads from the start.
pub mod Entries
pub mod Recent
mod Tests
use c_book.Prelude.{
  ℕ, zero, suc, ◌+◌, ◌-◌, ◌*◌, ◌%◌, ◌^◌, Bool, true, false, ◌||◌, List, [], ◌∷◌, ◌++◌, Option, none,
  some, length, take, drop, ltb, bytes_eq, if◌then◌else◌,
}
use c_book.Bytes.{write_u16, write_u32, read_u16, read_u32}

pub record HistoryRecord : Type 0 where
  pub timestamp : ℕ
  pub name : List ℕ
  pub room : List ℕ
  pub text : List ℕ

-- The three sizes are cut to 16 bits by their casts.
pub body : HistoryRecord → List ℕ
body r =
    (((write_u16
            (write_u16 (write_u16 (write_u32 [] r.timestamp) (length r.name % 2 ^ 16))
              (length r.room % 2 ^ 16))
            (length r.text % 2 ^ 16)
          ++ r.name)
        ++ r.room)
      ++ r.text)

pub append : List ℕ → HistoryRecord → List ℕ
unfolding body
append file r = file ++ (write_u32 [] (length (body r) % 2 ^ 32) ++ body r)

abbrev pub max_record : ℕ
max_record = 2 ^ 20

-- `read_all(rfd, buf, n)`: the next `n` bytes and what follows, or a failure at the end of the file.
pub read_all : ℕ → List ℕ → Option (List ℕ × List ℕ)
read_all n file = if ltb (length file) n then none else some (take n file, drop n file)

infixl 5 ◌>>=◌
abbrev ◌>>=◌ {ℓ} : {A B : Type ℓ} → Option A → (A → Option B) → Option B
none >>= f = none
some a >>= f = f a

-- The fields of a body, where its lengths fit into it.
pub parse_body : List ℕ → Option HistoryRecord
parse_body b =
    let nl = read_u16 (drop 4 b) in
    let rl = read_u16 (drop 6 b) in
    let tl = read_u16 (drop 8 b) in
    if ltb (length b) (10 + nl + rl + tl)
    then none
    else some (record {
      timestamp = read_u32 b;
      name = take nl (drop 10 b);
      room = take rl (drop (10 + nl) b);
      text = take tl (drop (10 + nl + rl) b);
    })

-- A round of the loop of `recent`: the record and the rest of the file, or a break.
pub read_entry : List ℕ → Option (HistoryRecord × List ℕ)
unfolding read_all parse_body
read_entry file = do
  (header, after) ← read_all 4 file
  let body_len = read_u32 header
  if ltb body_len 10 || ltb max_record body_len
      then none
      else do (b, rest) ← read_all body_len after; r ← parse_body b; some (r, rest)

keep : List ℕ → HistoryRecord → List HistoryRecord → List HistoryRecord
keep room r rest = if bytes_eq room [] || bytes_eq r.room room then r ∷ rest else rest

-- The loop. A record takes four bytes at least, so the length of the file is fuel enough.
pub scan_loop : ℕ → List ℕ → List ℕ → List HistoryRecord
unfolding keep
scan_loop zero room file = []
scan_loop (suc fuel) room file = elim (read_entry file) [
  | none ↦ []
  | some (r, rest) ↦ keep room r (scan_loop fuel room rest)
]

-- The last `n` records of a room, or of all rooms where `room` is empty.
pub recent : List ℕ → List ℕ → ℕ → List HistoryRecord
unfolding scan_loop read_entry bytes_eq
recent file room n =
    let all = scan_loop (length file) room file in
    if ltb n (length all) then drop (length all - n) all else all
