-- ===== src/Chat/History/Entries.antt =====
-- One record in the file: its layout, and what is read back of it.
use native.Mathlib.Nat.{mod-eq_of_lt}
use c_book.Prelude.{
  ℕ, zero, suc, ◌+◌, ◌-◌, ◌%◌, ◌^◌, ◌<◌, ◌≤◌, ◌≡◌, refl, ap, ◌∙◌, List, [], ◌++◌, append_assoc,
  none, some, length, take, drop, ltb, arith, length-append, length-take, take-append, drop-append,
  drop-add, All-append, le→ltb, lt→ltb, Bool-cases, inl, inr,
}
use c_book.Bytes.{IsByte, AreBytes, write_u16, write_u32, read_u16, read_u32}
use c_book.Bytes.Laws.{
  le_bytes, le_bytes-AreBytes, write_u16_lem, write_u32_lem, read_u16-le_bytes, read_u32-le_bytes,
}
use c_book.Chat.History.{HistoryRecord, body, append, max_record, read_all, parse_body, read_entry}

-- Sizes that the format can hold, except for the text.
pub record Fits (r : HistoryRecord) : Type 0 where
  pub time_fits : r.timestamp < 2 ^ 32
  pub name_fits : length r.name < 2 ^ 16
  pub room_fits : length r.room < 2 ^ 16
  pub body_fits : 10 + length r.name + length r.room + length r.text ≤ max_record
  pub name_bytes : AreBytes r.name
  pub room_bytes : AreBytes r.room
  pub text_bytes : AreBytes r.text

-- The layout of history.h, with `tl` in the field for the length of the text.
abbrev layout : ℕ → HistoryRecord → List ℕ
layout tl r =
    le_bytes 4 r.timestamp
    ++ (le_bytes 2 (length r.name)
        ++ (le_bytes 2 (length r.room) ++ (le_bytes 2 tl ++ (r.name ++ (r.room ++ r.text)))))

body_lem : (r : HistoryRecord) → Fits r → body r ≡ layout (length r.text % 2 ^ 16) r
unfolding body
body_lem r f =
    rw
      (
        mod-eq_of_lt f.name_fits,
        mod-eq_of_lt f.room_fits,
        write_u16_lem
            (write_u16 (write_u16 (write_u32 [] r.timestamp) (length r.name)) (length r.room))
            (length r.text % 2 ^ 16),
        write_u16_lem (write_u16 (write_u32 [] r.timestamp) (length r.name)) (length r.room),
        write_u16_lem (write_u32 [] r.timestamp) (length r.name),
        write_u32_lem [] r.timestamp,
      )
      (rw (append_assoc r.name r.room r.text))

-- What is kept of the text: as many bytes as the 16-bit length says.
abbrev pub cut_text : HistoryRecord → HistoryRecord
cut_text r = record r { text = take (length r.text % 2 ^ 16) r.text }

parse_fields :
    (b : List ℕ) (t nl rl tl : ℕ)
    → read_u32 b ≡ t
    → read_u16 (drop 4 b) ≡ nl
    → read_u16 (drop 6 b) ≡ rl
    → read_u16 (drop 8 b) ≡ tl
    → 10 + nl + rl + tl ≤ length b
    → parse_body b
      ≡ some (record {
        timestamp = t;
        name = take nl (drop 10 b);
        room = take rl (drop (10 + nl) b);
        text = take tl (drop (10 + nl + rl) b);
      })
unfolding parse_body
parse_fields b t nl rl tl e0 e1 e2 e3 h =
    rw (e0, e1, e2, e3, le→ltb (length b) (10 + nl + rl + tl) h)

parse_body-layout :
    (r : HistoryRecord) (tl : ℕ)
    → Fits r
    → tl < 2 ^ 16
    → tl ≤ length r.text
    → parse_body (layout tl r) ≡ some (record r { text = take tl r.text })
parse_body-layout r tl f p q =
    parse_fields (layout tl r) r.timestamp (length r.name) (length r.room) tl
      (read_u32-le_bytes (sized (length r.name) from_room)
        (two (length r.name) from_room (two (length r.room) from_text (two tl strings are_bytes)))
        r.timestamp f.time_fits)
      (read_u16-le_bytes from_room (two (length r.room) from_text (two tl strings are_bytes))
        (length r.name) f.name_fits)
      (read_u16-le_bytes from_text (two tl strings are_bytes) (length r.room) f.room_fits)
      (read_u16-le_bytes strings are_bytes tl p)
      (omega (arith, length-append r.name (r.room ++ r.text), length-append r.room r.text))
    ∙ rw
        (
          drop-add (10 + length r.name) (length r.room) (layout tl r),
          drop-add 10 (length r.name) (layout tl r),
          drop-append (length r.name) r.name (r.room ++ r.text) refl,
          drop-append (length r.room) r.room r.text refl,
          take-append (length r.name) r.name (r.room ++ r.text) refl,
          take-append (length r.room) r.room r.text refl,
        )
        refl
  where
    strings : List ℕ
    strings = r.name ++ (r.room ++ r.text)

    sized : ℕ → List ℕ → List ℕ
    sized n l = le_bytes 2 n ++ l

    from_text : List ℕ
    from_text = sized tl strings

    from_room : List ℕ
    from_room = sized (length r.room) from_text

    are_bytes : AreBytes (r.name ++ (r.room ++ r.text))
    are_bytes =
        All-append IsByte r.name (r.room ++ r.text) f.name_bytes
          (All-append IsByte r.room r.text f.room_bytes f.text_bytes)

    two : (v : ℕ) (l : List ℕ) → AreBytes l → AreBytes (le_bytes 2 v ++ l)
    two v l h = All-append IsByte (le_bytes 2 v) l (le_bytes-AreBytes 2 v) h

length-layout :
    (r : HistoryRecord) (tl : ℕ)
    → length (layout tl r) ≡ 10 + length r.name + length r.room + length r.text
length-layout r tl =
    omega (arith, length-append r.name (r.room ++ r.text), length-append r.room r.text)

read_entry_lem :
    (file header a b rest : List ℕ) (n : ℕ) (r : HistoryRecord)
    → read_all 4 file ≡ some (header, a)
    → read_u32 header ≡ n
    → 10 ≤ n
    → n ≤ max_record
    → read_all n a ≡ some (b, rest)
    → parse_body b ≡ some r
    → read_entry file ≡ some (r, rest)
unfolding read_entry
read_entry_lem file header a b rest n r e1 e2 lo hi e3 e4 = ground arith

pub read_all-append :
    (n : ℕ) (xs ys : List ℕ) → length xs ≡ n → read_all n (xs ++ ys) ≡ some (xs, ys)
unfolding read_all
read_all-append n xs ys h = rw (
  le→ltb (length (xs ++ ys)) n (omega (arith, length-append xs ys)),
  take-append n xs ys h,
  drop-append n xs ys h,
)

entry_lem :
    (r : HistoryRecord)
    → Fits r
    → append [] r
      ≡ le_bytes 4 (length (layout (length r.text % 2 ^ 16) r)) ++ layout (length r.text % 2 ^ 16) r
unfolding append
entry_lem r f =
    rw
      (
        body_lem r f,
        mod-eq_of_lt small,
        write_u32_lem [] (length (layout (length r.text % 2 ^ 16) r)),
      )
      refl
  where
    small : length (layout (length r.text % 2 ^ 16) r) < 2 ^ 32
    small = omega (arith, length-layout r (length r.text % 2 ^ 16), f.body_fits)

-- A record comes back with its time, name and room, and with as much of its text as the 16-bit
-- length field says.
pub read_entry-append :
    (r : HistoryRecord) (rest : List ℕ)
    → Fits r
    → read_entry (append [] r ++ rest) ≡ some (cut_text r, rest)
read_entry-append r rest f =
    rw (entry_lem r f, append_assoc (le_bytes 4 n) l rest)
      (read_entry_lem (le_bytes 4 n ++ (l ++ rest)) (le_bytes 4 n) (l ++ rest) l rest n (cut_text r)
        (read_all-append 4 (le_bytes 4 n) (l ++ rest) refl)
        (read_u32-le_bytes [] tt n (omega (arith, size, f.body_fits))) (omega (arith, size))
        (omega (arith, size, f.body_fits)) (read_all-append n l rest refl)
        (parse_body-layout r (length r.text % 2 ^ 16) f (omega arith) (omega arith)))
  where
    l : List ℕ
    l = layout (length r.text % 2 ^ 16) r

    n : ℕ
    n = length l

    size : n ≡ 10 + length r.name + length r.room + length r.text
    size = length-layout r (length r.text % 2 ^ 16)

read_entry-few : (file : List ℕ) → length file < 4 → read_entry file ≡ none
unfolding read_entry read_all
read_entry-few file h = rw (lt→ltb (length file) 4 h)

read_entry-missing :
    (file header a : List ℕ) (n : ℕ)
    → read_all 4 file ≡ some (header, a)
    → read_u32 header ≡ n
    → length a < n
    → read_entry file ≡ none
unfolding read_entry read_all
read_entry-missing file header a n e1 e2 h = ground arith

-- Cutting a list that begins with four known elements.
take-header :
    (k n : ℕ) (l : List ℕ) → 4 ≤ k → take k (le_bytes 4 n ++ l) ≡ le_bytes 4 n ++ take (k - 4) l
take-header (suc (suc (suc (suc k)))) n l h =
    let e : suc (suc (suc (suc k))) - 4 ≡ k = omega arith in rw e
take-header zero n l h = absurd (omega arith)
take-header (suc zero) n l h = absurd (omega arith)
take-header (suc (suc zero)) n l h = absurd (omega arith)
take-header (suc (suc (suc zero))) n l h = absurd (omega arith)

-- A piece of a record at the end of the file is not read.
pub read_entry-torn :
    (r : HistoryRecord) (k : ℕ)
    → Fits r
    → k < length (append [] r)
    → read_entry (take k (append [] r)) ≡ none
read_entry-torn r k f short = elim (Bool-cases (ltb k 4)) [
  | inl few ↦ read_entry-few _ (ground (arith, length-take k (append [] r)))
  | inr many ↦
      rw (entry_lem r f, take-header k n l (ground arith))
        (read_entry-missing _ (le_bytes 4 n) (take (k - 4) l) n
          (read_all-append 4 (le_bytes 4 n) (take (k - 4) l) refl)
          (read_u32-le_bytes [] tt n
            (omega (arith, length-layout r (length r.text % 2 ^ 16), f.body_fits)))
          (ground (arith, length-take (k - 4) l, ap length (entry_lem r f))))
]
  where
    l : List ℕ
    l = layout (length r.text % 2 ^ 16) r

    n : ℕ
    n = length l
