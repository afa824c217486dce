-- ===== src/Rpg/Streams.antt =====
-- What demo-rpg/src/save_manager.cpp and demo-rpg/src/world_parser.cpp use of the streams of the
-- standard library: lines, words and decimal integers of 32 bits. Reading from a stream that failed
-- leaves the variable as it was.
use c_book.Prelude.{
  ℕ, zero, suc, ◌+◌, ◌-◌, ◌*◌, ◌/◌, ◌%◌, Bool, true, false, not, ◌&&◌, ◌||◌, List, [], ◌∷◌, ◌++◌,
  ltb, leb, ◌==◌, if◌then◌else◌,
}
use c_book.Prelude.Int.{ℤ, pos, negsuc, sub_ℕ}

pub record Stream : Type 0 where
  pub rest : List ℕ
  pub failed : Bool

abbrev pub stream : List ℕ → Stream
stream text = record { rest = text; failed = false }

-- `isspace` in the C locale.
abbrev pub is_white : ℕ → Bool
is_white c = c == 32 || (leb 9 c && leb c 13)

abbrev pub is_decimal : ℕ → Bool
is_decimal c = leb 48 c && leb c 57

unfoldable pub skip_spaces : List ℕ → List ℕ
skip_spaces [] = []
skip_spaces (c ∷ cs) = let rest = skip_spaces cs in if is_white c then rest else c ∷ cs

-- The longest prefix whose bytes pass a test, and the rest.
unfoldable pub span_of : (ℕ → Bool) → List ℕ → List ℕ × List ℕ
span_of p [] = ([], [])
span_of p (c ∷ cs) = let rest = span_of p cs in if p c then (c ∷ rest.0, rest.1) else ([], c ∷ cs)

take_word : List ℕ → List ℕ → List ℕ × Stream
unfolding span_of
take_word old [] = (old, record { rest = []; failed = true })
take_word old (c ∷ cs) =
    let (word, rest) = span_of (λ b. not (is_white b)) (c ∷ cs) in (word, stream rest)

-- `ss >> s` on a string that was `old`.
unfoldable pub next_word : List ℕ → Stream → List ℕ × Stream
unfolding take_word skip_spaces
next_word old s = if s.failed then (old, s) else take_word old (skip_spaces s.rest)

unfoldable pub decimal_value : ℕ → List ℕ → ℕ
decimal_value acc [] = acc
decimal_value acc (d ∷ ds) = decimal_value (acc * 10 + (d - 48)) ds

-- A number out of the range of `int` gives the end of the range, and fails.
unfoldable pub int_of : Bool → ℕ → List ℕ → ℤ × Stream
int_of negative n rest =
    if negative
    then (if ltb 2147483648 n
        then (negsuc 2147483647, record { rest = rest; failed = true })
        else (sub_ℕ 0 n, stream rest))
    else if ltb 2147483647 n
    then (pos 2147483647, record { rest = rest; failed = true })
    else (pos n, stream rest)

-- Without a digit, the variable is set to 0.
unfoldable pub number_of : Bool → List ℕ × List ℕ → ℤ × Stream
unfolding decimal_value int_of
number_of negative ([], rest) = (pos 0, record { rest = rest; failed = true })
number_of negative (d ∷ ds, rest) = int_of negative (decimal_value 0 (d ∷ ds)) rest

unfoldable pub take_digits : Bool → List ℕ → ℤ × Stream
unfolding span_of number_of
take_digits negative text = number_of negative (span_of is_decimal text)

unfoldable pub take_int : ℤ → List ℕ → ℤ × Stream
unfolding take_digits
take_int old [] = (old, record { rest = []; failed = true })
take_int old (c ∷ cs) =
    if c == 45
    then take_digits true cs
    else if c == 43
    then take_digits false cs
    else take_digits false (c ∷ cs)

-- `ss >> n` on an `int` that was `old`.
unfoldable pub next_int : ℤ → Stream → ℤ × Stream
unfolding take_int skip_spaces
next_int old s = if s.failed then (old, s) else take_int old (skip_spaces s.rest)

-- The lines that `std::getline` gives one after the other.
unfoldable pub lines : List ℕ → List (List ℕ)
lines [] = []
lines (c ∷ cs) =
    let rest = lines cs in
    if c == 10 then [] ∷ rest else elim rest [ [] ↦ (c ∷ []) ∷ [] | l ∷ ls ↦ (c ∷ l) ∷ ls ]

-- `ss << n`: the digits of a number below 10 ^ fuel.
unfoldable pub digits : ℕ → ℕ → List ℕ
digits zero n = []
digits (suc fuel) n =
    let high = digits fuel (n / 10) in
    if ltb n 10 then (48 + n) ∷ [] else high ++ (48 + n % 10) ∷ []

-- Ten digits are enough for an `int`.
unfoldable pub print_int : ℤ → List ℕ
unfolding digits
print_int (pos n) = digits 10 n
print_int (negsuc n) = 45 ∷ digits 10 (suc n)
