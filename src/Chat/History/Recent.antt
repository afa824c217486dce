-- ===== src/Chat/History/Recent.antt =====
-- The whole file: what `recent` returns after a row of appends, complete or cut off by a crash.
use c_book.Prelude.{
  ℕ, zero, suc, ◌+◌, ◌-◌, ◌%◌, ◌^◌, ◌<◌, ◌≤◌, ◌≡◌, refl, sym, ap, ◌∙◌, List, [], ◌∷◌, ◌++◌,
  append_assoc, append-nil, none, some, length, take, drop, ltb, arith, if◌then◌else◌, length-drop,
  All, take-all, Option-cases, Bool-cases, inl, inr, bytes_eq,
}
use c_book.Bytes.{read_u32}
use c_book.Chat.History.{HistoryRecord, append, read_all, read_entry, keep, scan_loop, recent}
use c_book.Chat.History.Entries.{Fits, cut_text, read_entry-append, read_entry-torn}

-- The file after a row of calls.
abbrev pub append_all : List ℕ → List HistoryRecord → List ℕ
append_all file [] = file
append_all file (r ∷ rs) = append_all (append file r) rs

-- A record whose text fits the length field as well.
abbrev pub IsStorable : HistoryRecord → Type 0
IsStorable r = Fits r × (length r.text < 2 ^ 16)

-- The records of a room, or all of them where no room is named.
abbrev pub of_room : List ℕ → List HistoryRecord → List HistoryRecord
of_room room [] = []
of_room [] (r ∷ rs) = r ∷ of_room [] rs
of_room (c ∷ room) (r ∷ rs) =
    if bytes_eq r.room (c ∷ room) then r ∷ of_room (c ∷ room) rs else of_room (c ∷ room) rs

abbrev pub last : ℕ → List HistoryRecord → List HistoryRecord
last n rs = drop (length rs - n) rs

abbrev entries : List HistoryRecord → List ℕ
entries [] = []
entries (r ∷ rs) = append [] r ++ entries rs

append_all-append :
    (file : List ℕ) (rs : List HistoryRecord) → append_all file rs ≡ file ++ entries rs
unfolding append
append_all-append file [] = sym (append-nil file)
append_all-append file (r ∷ rs) =
    append_all-append (append file r) rs ∙ append_assoc file (append [] r) (entries rs)

read_entry-shrinks :
    (file rest : List ℕ) (r : HistoryRecord)
    → read_entry file ≡ some (r, rest)
    → length rest + 4 ≤ length file
unfolding read_entry read_all
read_entry-shrinks file rest r e =
    ground (arith, length-drop 4 file, length-drop (read_u32 (take 4 file)) (drop 4 file))

scan-stop : (n : ℕ) (room file : List ℕ) → read_entry file ≡ none → scan_loop n room file ≡ []
unfolding scan_loop
scan-stop zero room file e = refl
scan-stop (suc n) room file e = rw (e, scan_loop)

scan-next :
    (n : ℕ) (room file rest : List ℕ) (r : HistoryRecord)
    → read_entry file ≡ some (r, rest)
    → scan_loop (suc n) room file ≡ keep room r (scan_loop n room rest)
unfolding scan_loop
scan-next n room file rest r e = rw (e, scan_loop)

scan-none : (n : ℕ) (room file : List ℕ) → length file < 4 → scan_loop n room file ≡ []
scan-none n room file h = elim (Option-cases (read_entry file)) [
  | inl e ↦ scan-stop n room file e
  | inr ((r, rest), e) ↦ absurd (omega (arith, read_entry-shrinks file rest r e))
]

keep-of_room :
    (room : List ℕ) (r : HistoryRecord) (rs : List HistoryRecord)
    → keep room r (of_room room rs) ≡ of_room room (r ∷ rs)
unfolding keep bytes_eq
keep-of_room [] r rs = refl
keep-of_room (c ∷ room) r rs = refl

cut_text-storable : (r : HistoryRecord) → IsStorable r → cut_text r ≡ r
cut_text-storable r h =
    ap (λ l. record r { text = l }) (take-all (length r.text % 2 ^ 16) r.text (omega arith))

read_entry-storable :
    (r : HistoryRecord) (more : List ℕ)
    → IsStorable r
    → read_entry (append [] r ++ more) ≡ some (r, more)
read_entry-storable r more h =
    read_entry-append r more h.0 ∙ ap (λ x. some (x, more)) (cut_text-storable r h)

-- With fuel for every record the scan finds the records in front of a tail that holds none.
scan-entries :
    (fuel : ℕ) (room tail : List ℕ) (rs : List HistoryRecord)
    → All IsStorable rs
    → read_entry tail ≡ none
    → length (entries rs ++ tail) ≤ fuel
    → scan_loop fuel room (entries rs ++ tail) ≡ of_room room rs
scan-entries fuel room tail [] h stop enough = scan-stop fuel room tail stop
scan-entries zero room tail (r ∷ rs) h stop enough =
    let e = read_entry-storable r (entries rs ++ tail) h.0 in
    absurd (
      omega (
        arith,
        read_entry-shrinks _ _ _ e,
        ap length (append_assoc (append [] r) (entries rs) tail),
      ))
scan-entries (suc fuel) room tail (r ∷ rs) h stop enough =
    let e = read_entry-storable r (entries rs ++ tail) h.0 in
    let bound = read_entry-shrinks (append [] r ++ (entries rs ++ tail)) (entries rs ++ tail) r e in
    let size = ap length (append_assoc (append [] r) (entries rs) tail) in
    ap (scan_loop (suc fuel) room) (append_assoc (append [] r) (entries rs) tail)
    ∙ scan-next fuel room (append [] r ++ (entries rs ++ tail)) (entries rs ++ tail) r e
    ∙ ap (keep room r) (scan-entries fuel room tail rs h.1 stop (omega (arith, bound, size)))
    ∙ keep-of_room room r rs

recent_lem :
    (file room : List ℕ) (n : ℕ) (found : List HistoryRecord)
    → scan_loop (length file) room file ≡ found
    → recent file room n ≡ last n found
unfolding recent
recent_lem file room n found e = rw e (elim (Bool-cases (ltb n (length found))) [
  | inl more ↦ rw more
  | inr few ↦ rw few (let z : length found - n ≡ 0 = ground arith in rw z)
])

-- After a row of appends of records that the file can hold, and one more append that a crash cut off
-- after `k` bytes, `recent` returns the last `n` of the room's records, in the order of the appends; of
-- all records where the room is the empty string. A record can be held if its time is below 2 ^ 32, its
-- name, room and text are shorter than 2 ^ 16 bytes each, and the whole is no longer than `max_record`;
-- of the record that was cut off the text may be of any length within that.
pub recent-append_all :
    (rs : List HistoryRecord) (r : HistoryRecord) (k : ℕ) (room : List ℕ) (n : ℕ)
    → All IsStorable rs
    → Fits r
    → k < length (append [] r)
    → recent (append_all [] rs ++ take k (append [] r)) room n ≡ last n (of_room room rs)
recent-append_all rs r k room n h f short = rw (append_all-append [] rs) (
    recent_lem (entries rs ++ take k (append [] r)) room n (of_room room rs) (
      scan-entries (length (entries rs ++ take k (append [] r))) room (take k (append [] r)) rs h
        (read_entry-torn r k f short) (omega arith)))
