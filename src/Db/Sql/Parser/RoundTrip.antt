-- ===== src/Db/Sql/Parser/RoundTrip.antt =====
-- Statements that are written out as tokens are parsed back.
use c_book.Prelude.{
  ℕ, zero, suc, ◌<◌, ◌≡◌, refl, ap, ◌∙◌, Bool, true, false, List, [], ◌∷◌, ◌++◌, ok, length,
  length-append, codes, bytes_eq, arith, map, Option, none, some,
}
use c_book.Prelude.Int.{ℤ}
use c_book.Db.Sql.{
  TokenType, k_ident, k_keyword, k_number, k_comma, k_lparen, k_rparen, k_op, k_semi, k_end, Token,
  token, number_value,
}
use c_book.Db.Sql.Parser.{
  k_insert, k_select, Statement, new_statement, Parse, proceed, pure, peek, peek_is, peek_keyword,
  expect, expect_keyword, accept, accept_keyword, consume, parse_number, comma_next, comma_loop,
  separated, end_insert, parse_insert, parse_select_columns, parse_where, parse_from, parse_select,
  parse, check_end, parse_tokens_sql,
}

abbrev pub keyword : List ℕ → Token
keyword text = token k_keyword text

abbrev pub comma : Token
comma = token k_comma (codes ",")

-- Tokens of one type, from their texts, with commas between them.
abbrev pub commas : TokenType → List ℕ → List (List ℕ) → List Token
commas type x [] = token type x ∷ []
commas type x (y ∷ xs) = token type x ∷ comma ∷ commas type y xs

-- The end of a statement, with a semicolon or without.
abbrev pub ending : Bool → List Token
ending true = token k_semi (codes ";") ∷ token k_end [] ∷ []
ending false = token k_end [] ∷ []

comma_next-stop :
    {A : Type 0} (again : Parse (List A)) (a : A) (rest : List Token)
    → peek_is k_comma rest ≡ false
    → comma_next again a rest ≡ ok (a ∷ [], rest)
unfolding comma_next accept
comma_next-stop again a rest k = rw (comma_next, accept, k) refl

comma_next-more :
    {A : Type 0} (again : Parse (List A)) (a : A) (ts : List Token)
    → comma_next again a (comma ∷ ts) ≡ proceed (again ts) (λ rest. pure (a ∷ rest))
unfolding comma_next accept peek_is consume
comma_next-more again a ts = refl

module _ {A : Type 0} (type : TokenType) (one : Parse A) (value : List ℕ → A)
    (reads : (x : List ℕ) (ts : List Token) → one (token type x ∷ ts) ≡ ok (value x, ts)) where
  comma_loop-commas :
      (fuel : ℕ) (x : List ℕ) (xs : List (List ℕ)) (rest : List Token)
      → length xs < fuel
      → peek_is k_comma rest ≡ false
      → comma_loop fuel one (commas type x xs ++ rest) ≡ ok (value x ∷ map value xs, rest)
  unfolding comma_loop
  comma_loop-commas zero x xs rest h k = absurd (omega arith)
  comma_loop-commas (suc fuel) x [] rest h k =
      ap (λ o. proceed o (comma_next (comma_loop fuel one))) (reads x rest)
      ∙ comma_next-stop (comma_loop fuel one) (value x) rest k
  comma_loop-commas (suc fuel) x (y ∷ xs) rest h k =
      ap (λ o. proceed o (comma_next (comma_loop fuel one)))
        (reads x (comma ∷ (commas type y xs ++ rest)))
      ∙ comma_next-more (comma_loop fuel one) (value x) (commas type y xs ++ rest)
      ∙ ap (λ o. proceed o (λ more. pure (value x ∷ more)))
          (comma_loop-commas fuel y xs rest (omega arith) k)

  length-commas : (x : List ℕ) (xs : List (List ℕ)) → length xs < length (commas type x xs)
  length-commas x [] = omega arith
  length-commas x (y ∷ xs) = omega (arith, length-commas y xs)

  separated-commas :
      (x : List ℕ) (xs : List (List ℕ)) (rest : List Token)
      → peek_is k_comma rest ≡ false
      → separated one (commas type x xs ++ rest) ≡ ok (value x ∷ map value xs, rest)
  unfolding separated
  separated-commas x xs rest k =
      comma_loop-commas (length (commas type x xs ++ rest)) x xs rest
        (omega (arith, length-commas x xs, length-append (commas type x xs) rest)) k

-- `INSERT INTO table VALUES (x, ...)`.
abbrev pub insert_tokens : List ℕ → List ℕ → List (List ℕ) → Bool → List Token
insert_tokens table x xs semi =
    keyword (codes "INSERT")
    ∷ keyword (codes "INTO")
    ∷ token k_ident table
    ∷ keyword (codes "VALUES")
    ∷ token k_lparen (codes "(")
    ∷ (commas k_number x xs ++ token k_rparen (codes ")") ∷ ending semi)

parse_number-reads :
    (x : List ℕ) (ts : List Token) → parse_number (token k_number x ∷ ts) ≡ ok (number_value x, ts)
unfolding parse_number expect peek_is consume
parse_number-reads x ts = refl

end_insert-ending :
    (table : List ℕ) (values : List ℤ) (semi : Bool)
    → end_insert table values (token k_rparen (codes ")") ∷ ending semi)
      ≡ ok (
        record new_statement { kind = k_insert; table = table; values = values },
        token k_end [] ∷ [],
      )
unfolding end_insert expect accept peek_is consume
end_insert-ending table values true = refl
end_insert-ending table values false = refl

parse_insert-tokens :
    (table x : List ℕ) (xs : List (List ℕ)) (semi : Bool)
    → parse_insert (insert_tokens table x xs semi)
      ≡ ok (
        record new_statement {
          kind = k_insert;
          table = table;
          values = number_value x ∷ map number_value xs;
        },
        token k_end [] ∷ [],
      )
unfolding parse_insert expect expect_keyword peek_is peek_keyword consume bytes_eq
parse_insert-tokens table x xs semi =
    ap (λ o. proceed o (end_insert table))
      (separated-commas k_number parse_number number_value parse_number-reads x xs
        (token k_rparen (codes ")") ∷ ending semi) refl)
    ∙ end_insert-ending table (number_value x ∷ map number_value xs) semi

accepted :
    (ts : List Token) (st : Statement)
    → parse ts ≡ ok (st, token k_end [] ∷ [])
    → parse_tokens_sql ts ≡ ok st
unfolding parse_tokens_sql check_end peek_is
accepted ts st e = ap check_end e

parse-insert :
    (table x : List ℕ) (xs : List (List ℕ)) (semi : Bool)
    → parse (insert_tokens table x xs semi) ≡ parse_insert (insert_tokens table x xs semi)
unfolding parse peek_is peek_keyword peek bytes_eq
parse-insert table x xs semi = refl

-- `WHERE col op number`, or nothing.
abbrev pub where_tokens : Option (List ℕ × (List ℕ × List ℕ)) → List Token
where_tokens none = []
where_tokens (some (col, (op, n))) =
    keyword (codes "WHERE") ∷ token k_ident col ∷ token k_op op ∷ token k_number n ∷ []

abbrev pub with_where : Option (List ℕ × (List ℕ × List ℕ)) → Statement → Statement
with_where none st = st
with_where (some (col, (op, n))) st = record st {
  has_where = true;
  where_col = col;
  where_op = op;
  where_val = number_value n;
}

-- `SELECT col, ... FROM table WHERE ...`.
abbrev pub select_tokens :
    List ℕ → List (List ℕ) → List ℕ → Option (List ℕ × (List ℕ × List ℕ)) → Bool → List Token
select_tokens col cols table cond semi =
    keyword (codes "SELECT")
    ∷ (commas k_ident col cols
        ++ keyword (codes "FROM") ∷ token k_ident table ∷ (where_tokens cond ++ ending semi))

abbrev pub selected :
    List ℕ → List (List ℕ) → List ℕ → Option (List ℕ × (List ℕ × List ℕ)) → Statement
selected col cols table cond =
    with_where cond
      (record new_statement { kind = k_select; select_columns = col ∷ cols; table = table })

expect-reads : (x : List ℕ) (ts : List Token) → expect k_ident (token k_ident x ∷ ts) ≡ ok (x, ts)
unfolding expect peek_is consume
expect-reads x ts = refl

parse_from-tokens :
    (cols : List (List ℕ)) (table : List ℕ) (cond : Option (List ℕ × (List ℕ × List ℕ)))
    (semi : Bool)
    → parse_from cols
        (keyword (codes "FROM") ∷ token k_ident table ∷ (where_tokens cond ++ ending semi))
      ≡ ok (
        with_where cond
            (record new_statement { kind = k_select; select_columns = cols; table = table }),
        token k_end [] ∷ [],
      )
unfolding parse_from parse_where expect expect_keyword accept accept_keyword parse_number peek_is
    peek_keyword peek consume bytes_eq
parse_from-tokens cols table none true = refl
parse_from-tokens cols table none false = refl
parse_from-tokens cols table (some (col, (op, n))) true = refl
parse_from-tokens cols table (some (col, (op, n))) false = refl

map_id : (xs : List (List ℕ)) → map (λ x. x) xs ≡ xs
map_id [] = refl
map_id (x ∷ xs) = ap (λ l. x ∷ l) (map_id xs)

-- Past the keyword, a name is no star.
parse_select_columns-names :
    (col : List ℕ) (cols : List (List ℕ)) (rest : List Token)
    → parse_select_columns (commas k_ident col cols ++ rest)
      ≡ separated (expect k_ident) (commas k_ident col cols ++ rest)
unfolding parse_select_columns accept peek_is peek
parse_select_columns-names col [] rest = refl
parse_select_columns-names col (c ∷ cols) rest = refl

parse-select :
    (col : List ℕ) (cols : List (List ℕ)) (table : List ℕ)
    (cond : Option (List ℕ × (List ℕ × List ℕ))) (semi : Bool)
    → parse (select_tokens col cols table cond semi)
      ≡ ok (selected col cols table cond, token k_end [] ∷ [])
unfolding parse parse_select expect_keyword peek_is peek_keyword peek consume bytes_eq
parse-select col cols table cond semi =
    let rest : List Token =
      keyword (codes "FROM") ∷ token k_ident table ∷ (where_tokens cond ++ ending semi) in
    ap (λ o. proceed o parse_from)
      (parse_select_columns-names col cols rest
        ∙ separated-commas k_ident (expect k_ident) (λ x. x) expect-reads col cols rest refl)
    ∙ ap (λ l. parse_from (col ∷ l) rest) (map_id cols)
    ∙ parse_from-tokens (col ∷ cols) table cond semi

-- The tokens of an insert of one value or more are parsed to the statement with the values of these
-- numbers, in order; those of a select of one column or more, with a condition or without one, to the
-- statement with these columns and this condition. A semicolon at the end changes nothing.
pub parse_tokens_sql_lem :
    (table x : List ℕ) (xs : List (List ℕ)) (cond : Option (List ℕ × (List ℕ × List ℕ)))
    (semi : Bool)
    → (parse_tokens_sql (insert_tokens table x xs semi)
        ≡ ok (record new_statement {
          kind = k_insert;
          table = table;
          values = number_value x ∷ map number_value xs;
        }))
      × (parse_tokens_sql (select_tokens x xs table cond semi) ≡ ok (selected x xs table cond))
parse_tokens_sql_lem table x xs cond semi = (
  accepted (insert_tokens table x xs semi) _
      (parse-insert table x xs semi ∙ parse_insert-tokens table x xs semi),
  accepted (select_tokens x xs table cond semi) _ (parse-select x xs table cond semi),
)
