-- ===== src/Db/Sql.antt =====
-- demo-db/include/sql.h and demo-db/src/sql.cpp: the statements of the database, from the line that
-- was typed. Character classes are those of the "C" locale.
pub mod Parser
mod Tests
use c_book.Prelude.{
  ℕ, zero, suc, ◌+◌, ◌-◌, ◌*◌, ◌^◌, Bool, true, false, not, ◌&&◌, ◌||◌, List, [], ◌∷◌, ◌++◌,
  Outcome, ok, throw, length, ltb, leb, ◌==◌, if◌then◌else◌, codes, bytes_eq,
}
use c_book.Prelude.Int.{ℤ, pos, negsuc}

pub data TokenType : Type 0 where
  k_ident k_keyword k_number k_star k_comma k_lparen k_rparen k_op k_semi k_end : TokenType

pub record Token : Type 0 where
  pub type : TokenType
  pub text : List ℕ

pub data SqlError : Type 0 where
  bad_operator unknown_character unexpected_token expected_keyword unknown_statement
        trailing_tokens :
      SqlError

abbrev pub in_range : ℕ → ℕ → ℕ → Bool
in_range a b c = leb a c && leb c b

abbrev pub is_digit : ℕ → Bool
is_digit c = in_range 48 57 c

abbrev pub is_alpha : ℕ → Bool
is_alpha c = in_range 65 90 c || in_range 97 122 c

abbrev pub is_blank : ℕ → Bool
is_blank c = c == 32 || in_range 9 13 c

-- A character of a name behind the first.
abbrev pub is_name_char : ℕ → Bool
is_name_char c = is_alpha c || (is_digit c || c == 95)

unfoldable pub to_upper : List ℕ → List ℕ
to_upper [] = []
to_upper (c ∷ s) = (if in_range 97 122 c then c - 32 else c) ∷ to_upper s

abbrev pub keywords : List (List ℕ)
keywords =
    codes "CREATE"
    ∷ codes "TABLE"
    ∷ codes "INT"
    ∷ codes "PRIMARY"
    ∷ codes "KEY"
    ∷ codes "INDEX"
    ∷ codes "ON"
    ∷ codes "INSERT"
    ∷ codes "INTO"
    ∷ codes "VALUES"
    ∷ codes "SELECT"
    ∷ codes "FROM"
    ∷ codes "WHERE"
    ∷ codes "EXPLAIN"
    ∷ []

unfoldable pub is_one_of : List (List ℕ) → List ℕ → Bool
unfolding bytes_eq
is_one_of [] u = false
is_one_of (k ∷ kw) u = bytes_eq u k || is_one_of kw u

unfoldable pub is_keyword : List ℕ → Bool
unfolding is_one_of
is_keyword u = is_one_of keywords u

-- The longest prefix of such characters, and what follows it.
unfoldable pub span : (ℕ → Bool) → List ℕ → List ℕ × List ℕ
span p [] = ([], [])
span p (c ∷ s) = let rest = span p s in if p c then (c ∷ rest.0, rest.1) else ([], c ∷ s)

abbrev pub token : TokenType → List ℕ → Token
token type text = record { type = type; text = text }

-- The first character satisfies the test; past the end none does.
unfoldable pub next_is : (ℕ → Bool) → List ℕ → Bool
next_is p [] = false
next_is p (c ∷ s) = p c

unfoldable pub operator_token : List ℕ → List ℕ → Outcome SqlError (Token × List ℕ)
unfolding is_one_of
operator_token op rest =
    if is_one_of (codes "=" ∷ codes "<" ∷ codes ">" ∷ codes "<=" ∷ codes ">=" ∷ codes "!=" ∷ []) op
    then ok (token k_op op, rest)
    else throw bad_operator

unfoldable pub scan_operator : ℕ → List ℕ → Outcome SqlError (Token × List ℕ)
unfolding operator_token
scan_operator c [] = operator_token (c ∷ []) []
scan_operator c (d ∷ s) =
    if d == 61 then operator_token (c ∷ 61 ∷ []) s else operator_token (c ∷ []) (d ∷ s)

unfoldable pub scan_number : ℕ → List ℕ → Outcome SqlError (Token × List ℕ)
unfolding span
scan_number c rest = let digits = span is_digit rest in ok (token k_number (c ∷ digits.0), digits.1)

unfoldable pub scan_name : ℕ → List ℕ → Outcome SqlError (Token × List ℕ)
unfolding span to_upper is_keyword
scan_name c rest =
    let name = span is_name_char rest in
    let upper = to_upper (c ∷ name.0) in
    ok ((if is_keyword upper then token k_keyword upper else token k_ident (c ∷ name.0)), name.1)

-- The token that begins with a character that is no white space, and the line behind it.
unfoldable pub scan_token : ℕ → List ℕ → Outcome SqlError (Token × List ℕ)
unfolding next_is scan_operator scan_number scan_name
scan_token c rest =
    if c == 40
    then ok (token k_lparen (codes "("), rest)
    else if c == 41
    then ok (token k_rparen (codes ")"), rest)
    else if c == 44
    then ok (token k_comma (codes ","), rest)
    else if c == 59
    then ok (token k_semi (codes ";"), rest)
    else if c == 42
    then ok (token k_star (codes "*"), rest)
    else if c == 61 || (c == 60 || (c == 62 || c == 33))
    then scan_operator c rest
    else if is_digit c || (c == 45 && next_is is_digit rest)
    then scan_number c rest
    else if is_alpha c || c == 95
    then scan_name c rest
    else throw unknown_character

-- The loop. A round takes a character at least, so the length of the line is fuel enough.
unfoldable pub sql_loop : ℕ → List ℕ → Outcome SqlError (List Token)
unfolding scan_token
sql_loop zero s = ok (token k_end [] ∷ [])
sql_loop (suc fuel) [] = ok (token k_end [] ∷ [])
sql_loop (suc fuel) (c ∷ s) = elim (is_blank c) [
  | true ↦ sql_loop fuel s
  | false ↦ elim (scan_token c s) [
    | throw e ↦ throw e
    | ok (t, rest) ↦ elim (sql_loop fuel rest) [ throw e ↦ throw e | ok ts ↦ ok (t ∷ ts) ]
  ]
]

unfoldable pub tokenize_sql : List ℕ → Outcome SqlError (List Token)
unfolding sql_loop
tokenize_sql s = sql_loop (length s) s

-- `strtoll` on the text of a number: it stops at the ends of the range.
unfoldable pub decimal : ℕ → List ℕ → ℕ
decimal n [] = n
decimal n (d ∷ ds) = decimal (n * 10 + (d - 48)) ds

unfoldable pub number_value : List ℕ → ℤ
unfolding decimal
number_value [] = pos 0
number_value (c ∷ s) =
    let below = decimal 0 s in
    let n = decimal 0 (c ∷ s) in
    if c == 45
    then (if below == 0
        then pos 0
        else if ltb (2 ^ 63) below
        then negsuc (2 ^ 63 - 1)
        else negsuc (below - 1))
    else if ltb n (2 ^ 63)
    then pos n
    else pos (2 ^ 63 - 1)
