-- ===== src/Shell/Tokenizer.antt =====
-- demo-shell/src/exec_runner.cpp: `tokenize`. A line and a token are the bytes of their strings.
pub mod Quoting
pub mod RoundTrip
use c_book.Prelude.{
  ℕ, zero, suc, ◌+◌, ◌-◌, Bool, true, false, not, ◌&&◌, ◌||◌, List, [], ◌∷◌, ◌++◌, Outcome, ok,
  throw, length, drop, get_or, ltb, ◌==◌, if◌then◌else◌, codes,
}

-- What the parser of lines throws, by the text of its messages.
pub data ParseError : Type 0 where
  unclosed_quote not_a_redirect missing_target empty_before_bar empty_after_bar nameless_command :
      ParseError

-- The characters that the tokenizer looks for.
abbrev pub single_quote : ℕ
single_quote = 39

abbrev pub double_quote : ℕ
double_quote = 34

abbrev pub backslash : ℕ
backslash = 92

abbrev pub greater : ℕ
greater = 62

-- The local variables of `tokenize`.
pub record Scan : Type 0 where
  pub tokens : List (List ℕ)
  pub current : List ℕ
  pub in_dq : Bool
  pub in_sq : Bool

unfoldable pub is_nil : List ℕ → Bool
is_nil [] = true
is_nil (c ∷ s) = false

-- The character at a position is `c`; past the end it is none.
unfoldable pub starts : ℕ → List ℕ → Bool
starts c [] = false
starts c (d ∷ s) = d == c

-- The number of characters that are taken, and the token; 0 for none.
unfoldable pub match_special : List ℕ → ℕ × List ℕ
unfolding starts
match_special [] = (0, [])
match_special (c ∷ s) =
    if c == 124
    then (1, codes "|")
    else if c == 60
    then (1, codes "<")
    else if c == greater
    then (if starts greater s then (2, codes ">>") else (1, codes ">"))
    else (0, [])

unfoldable pub push_token : List ℕ → Scan → Scan
push_token t s = record s { tokens = s.tokens ++ t ∷ [] }

unfoldable pub push_char : ℕ → Scan → Scan
push_char c s = record s { current = s.current ++ c ∷ [] }

-- The lambda `flush`.
unfoldable pub flush : Scan → Scan
unfolding is_nil
flush s =
    if is_nil s.current then s else record s { tokens = s.tokens ++ s.current ∷ []; current = [] }

-- What a backslash in double quotes takes the meaning of.
unfoldable pub is_escapable : List ℕ → Bool
is_escapable [] = false
is_escapable (d ∷ s) = d == double_quote || (d == backslash || (d == 36 || d == 96))

-- A character in double quotes; the second component is the line after what it took.
unfoldable pub scan_double : ℕ → List ℕ → Scan → Scan × List ℕ
unfolding is_escapable push_char
scan_double c rest s =
    if c == double_quote
    then (record s { in_dq = false }, rest)
    else if c == backslash && is_escapable rest
    then (push_char (get_or rest 0 0) s, drop 1 rest)
    else (push_char c s, rest)

-- `2>&1`, `2>>` or `2>`, from the `>` on.
unfoldable pub scan_error_redirect : List ℕ → Scan → Scan × List ℕ
unfolding starts push_token
scan_error_redirect rest s =
    if starts 38 (drop 1 rest) && starts 49 (drop 2 rest)
    then (push_token (codes "2>&1") s, drop 3 rest)
    else if starts greater (drop 1 rest)
    then (push_token (codes "2>>") s, drop 2 rest)
    else (push_token (codes "2>") s, drop 1 rest)

unfoldable pub scan_special : ℕ → List ℕ → Scan → Scan × List ℕ
unfolding match_special flush push_token push_char
scan_special c rest s =
    let special = match_special (c ∷ rest) in
    if ltb 0 special.0
    then (push_token special.1 (flush s), drop (special.0 - 1) rest)
    else (push_char c s, rest)

-- A character outside quotes.
unfoldable pub scan_plain : ℕ → List ℕ → Scan → Scan × List ℕ
unfolding is_nil push_char flush starts scan_error_redirect scan_special
scan_plain c rest s =
    if c == single_quote
    then (record s { in_sq = true }, rest)
    else if c == double_quote
    then (record s { in_dq = true }, rest)
    else if c == backslash && not (is_nil rest)
    then (push_char (get_or rest 0 0) s, drop 1 rest)
    else if c == 32 || c == 9
    then (flush s, rest)
    else if is_nil s.current && (c == 50 && starts greater rest)
    then scan_error_redirect rest s
    else scan_special c rest s

-- A round of the loop.
unfoldable pub scan_char : ℕ → List ℕ → Scan → Scan × List ℕ
unfolding push_char scan_double scan_plain
scan_char c rest s =
    if s.in_sq
    then ((if c == single_quote then record s { in_sq = false } else push_char c s), rest)
    else if s.in_dq
    then scan_double c rest s
    else scan_plain c rest s

-- The loop. A round takes a character at least, so the length of the line is fuel enough.
unfoldable pub tokenize_loop : ℕ → List ℕ → Scan → Scan
unfolding scan_char
tokenize_loop zero line s = s
tokenize_loop (suc fuel) [] s = s
tokenize_loop (suc fuel) (c ∷ rest) s =
    let next = scan_char c rest s in tokenize_loop fuel next.1 next.0

-- What is done behind the loop.
unfoldable pub finish : Scan → Outcome ParseError (List (List ℕ))
unfolding flush
finish s = if s.in_sq || s.in_dq then throw unclosed_quote else ok (flush s).tokens

unfoldable pub tokenize : List ℕ → Outcome ParseError (List (List ℕ))
unfolding tokenize_loop finish
tokenize line = finish (
    tokenize_loop (length line) line
      (record { tokens = []; current = []; in_dq = false; in_sq = false }))
