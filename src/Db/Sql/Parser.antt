-- ===== src/Db/Sql/Parser.antt =====
-- The recursive descent of demo-db/src/sql.cpp. The parser's state is the tokens from its position on;
-- the last of them is the end, and no call moves past it.
pub mod RoundTrip
use c_book.Prelude.{
  ℕ, zero, suc, Bool, true, false, not, ◌&&◌, List, [], ◌∷◌, ◌++◌, Outcome, ok, throw, length,
  if◌then◌else◌, codes, bytes_eq, ◌==◌,
}
use c_book.Prelude.Int.{ℤ, pos}
use c_book.Db.Sql.{
  TokenType, k_ident, k_keyword, k_number, k_star, k_comma, k_lparen, k_rparen, k_op, k_semi, k_end,
  Token, token, SqlError, unexpected_token, expected_keyword, unknown_statement, trailing_tokens,
  tokenize_sql, number_value,
}

pub data Kind : Type 0 where
  k_create k_create_index k_insert k_select : Kind

pub record Statement : Type 0 where
  pub kind : Kind
  pub is_explain : Bool
  pub table : List ℕ
  pub columns : List (List ℕ × List ℕ)
  pub index_name : List ℕ
  pub values : List ℤ
  pub select_columns : List (List ℕ)
  pub has_where : Bool
  pub where_col : List ℕ
  pub where_op : List ℕ
  pub where_val : ℤ

-- The default values of the fields.
abbrev pub new_statement : Statement
new_statement = record {
  kind = k_select;
  is_explain = false;
  table = [];
  columns = [];
  index_name = [];
  values = [];
  select_columns = [];
  has_where = false;
  where_col = [];
  where_op = [];
  where_val = pos 0;
}

abbrev pub type_code : TokenType → ℕ
type_code k_ident = 0
type_code k_keyword = 1
type_code k_number = 2
type_code k_star = 3
type_code k_comma = 4
type_code k_lparen = 5
type_code k_rparen = 6
type_code k_op = 7
type_code k_semi = 8
type_code k_end = 9

abbrev pub type_eq : TokenType → TokenType → Bool
type_eq a b = type_code a == type_code b

abbrev pub Parse : Type 0 → Type 0
Parse A = List Token → Outcome SqlError (A × List Token)

abbrev pub pure : {A : Type 0} → A → Parse A
pure a ts = ok (a, ts)

abbrev pub proceed :
    {A B : Type 0}
    → Outcome SqlError (A × List Token)
    → (A → Parse B)
    → Outcome SqlError (B × List Token)
proceed (throw e) next = throw e
proceed (ok (a, ts)) next = next a ts

infixl 5 ◌>>=◌
abbrev pub ◌>>=◌ : {A B : Type 0} → Parse A → (A → Parse B) → Parse B
◌>>=◌ first next ts = proceed (first ts) next

unfoldable pub peek : List Token → Token
peek [] = token k_end []
peek (t ∷ ts) = t

unfoldable pub consume : Parse Token
unfolding peek
consume [] = ok (token k_end [], [])
consume (t ∷ ts) = ok (t, ts)

unfoldable pub peek_is : TokenType → List Token → Bool
unfolding peek
peek_is type ts = type_eq (peek ts).type type

unfoldable pub peek_keyword : List ℕ → List Token → Bool
unfolding peek bytes_eq
peek_keyword kw ts = type_eq (peek ts).type k_keyword && bytes_eq (peek ts).text kw

-- The text of the token is all that the callers use.
unfoldable pub expect : TokenType → Parse (List ℕ)
unfolding peek_is consume
expect type ts =
    if peek_is type ts then (consume >>= λ t. pure t.text) ts else throw unexpected_token

unfoldable pub expect_keyword : List ℕ → Parse (List ℕ)
unfolding peek_keyword consume
expect_keyword kw ts =
    if peek_keyword kw ts then (consume >>= λ t. pure t.text) ts else throw expected_keyword

-- A token that may be there: it is taken, and whether it was.
unfoldable pub accept : TokenType → Parse Bool
unfolding peek_is consume
accept type ts = if peek_is type ts then (consume >>= λ t. pure true) ts else pure false ts

unfoldable pub accept_keyword : List ℕ → Parse Bool
unfolding peek_keyword consume
accept_keyword kw ts = if peek_keyword kw ts then (consume >>= λ t. pure true) ts else pure false ts

unfoldable pub parse_number : Parse ℤ
unfolding expect number_value
parse_number = expect k_number >>= λ text. pure (number_value text)

-- Behind one thing: a comma and the others, or nothing more.
unfoldable pub comma_next : {A : Type 0} → Parse (List A) → A → Parse (List A)
unfolding accept
comma_next again a =
    accept k_comma >>= λ more. if more then (again >>= λ rest. pure (a ∷ rest)) else pure (a ∷ [])

-- A `while (true)` loop over things with commas between them; each takes a token, so the number
-- of tokens is fuel enough.
unfoldable pub comma_loop : {A : Type 0} → ℕ → Parse A → Parse (List A)
unfolding comma_next
comma_loop zero one = pure []
comma_loop (suc fuel) one = one >>= comma_next (comma_loop fuel one)

unfoldable pub separated : {A : Type 0} → Parse A → Parse (List A)
unfolding comma_loop
separated one ts = comma_loop (length ts) one ts

unfoldable pub parse_column : Parse (List ℕ × List ℕ)
unfolding expect expect_keyword accept_keyword
parse_column = expect k_ident >>= λ col. expect_keyword (codes "INT") >>= λ t.
    accept_keyword (codes "PRIMARY") >>= λ primary.
    (if primary then expect_keyword (codes "KEY") else pure []) >>= λ k. pure (col, codes "INT")

unfoldable pub parse_create_index : Parse Statement
unfolding expect expect_keyword accept
parse_create_index = expect k_ident >>= λ index_name. expect_keyword (codes "ON") >>= λ t.
    expect k_ident >>= λ table. expect k_lparen >>= λ l. expect k_ident >>= λ col.
    expect k_rparen >>= λ r. accept k_semi >>= λ semi. pure (record new_statement {
      kind = k_create_index;
      index_name = index_name;
      table = table;
      columns = (col, codes "INT") ∷ [];
    })

unfoldable pub parse_create_table : Parse Statement
unfolding expect expect_keyword separated parse_column accept
parse_create_table = expect_keyword (codes "TABLE") >>= λ t. expect k_ident >>= λ table.
    expect k_lparen >>= λ l. separated parse_column >>= λ columns. expect k_rparen >>= λ r.
    accept k_semi >>= λ semi.
    pure (record new_statement { kind = k_create; table = table; columns = columns })

unfoldable pub parse_create : Parse Statement
unfolding expect_keyword accept_keyword parse_create_index parse_create_table
parse_create = expect_keyword (codes "CREATE") >>= λ t. accept_keyword (codes "INDEX") >>= λ index.
    if index then parse_create_index else parse_create_table

-- What follows the values.
unfoldable pub end_insert : List ℕ → List ℤ → Parse Statement
unfolding expect accept
end_insert table values = expect k_rparen >>= λ r. accept k_semi >>= λ semi.
    pure (record new_statement { kind = k_insert; table = table; values = values })

unfoldable pub parse_insert : Parse Statement
unfolding expect expect_keyword separated parse_number end_insert
parse_insert = expect_keyword (codes "INSERT") >>= λ a. expect_keyword (codes "INTO") >>= λ b.
    expect k_ident >>= λ table. expect_keyword (codes "VALUES") >>= λ c.
    expect k_lparen >>= λ l. separated parse_number >>= end_insert table

unfoldable pub parse_select_columns : Parse (List (List ℕ))
unfolding accept separated expect
parse_select_columns =
    accept k_star >>= λ star. if star then pure (codes "*" ∷ []) else separated (expect k_ident)

unfoldable pub parse_where : Statement → Parse Statement
unfolding accept_keyword expect parse_number
parse_where st = accept_keyword (codes "WHERE") >>= λ present.
    if present
    then (expect k_ident >>= λ col. expect k_op >>= λ op. parse_number >>= λ val.
        pure (record st { has_where = true; where_col = col; where_op = op; where_val = val }))
    else pure st

-- What follows the columns.
unfoldable pub parse_from : List (List ℕ) → Parse Statement
unfolding expect_keyword expect parse_where accept
parse_from cols = expect_keyword (codes "FROM") >>= λ b. expect k_ident >>= λ table.
    parse_where (record new_statement { kind = k_select; select_columns = cols; table = table })
    >>= λ st. accept k_semi >>= λ semi. pure st

unfoldable pub parse_select : Parse Statement
unfolding expect_keyword parse_select_columns parse_from
parse_select = expect_keyword (codes "SELECT") >>= λ a. parse_select_columns >>= parse_from

unfoldable pub parse : Parse Statement
unfolding peek_is peek_keyword consume parse_select parse_create parse_insert
parse ts =
    if not (peek_is k_keyword ts)
    then throw expected_keyword
    else if peek_keyword (codes "EXPLAIN") ts
    then (consume >>= λ t. parse_select >>= λ st. pure (record st { is_explain = true })) ts
    else if peek_keyword (codes "CREATE") ts
    then parse_create ts
    else if peek_keyword (codes "INSERT") ts
    then parse_insert ts
    else if peek_keyword (codes "SELECT") ts
    then parse_select ts
    else throw unknown_statement

-- What follows a statement is the end.
unfoldable pub check_end : Outcome SqlError (Statement × List Token) → Outcome SqlError Statement
unfolding peek_is
check_end (throw e) = throw e
check_end (ok (st, ts)) = if peek_is k_end ts then ok st else throw trailing_tokens

unfoldable pub parse_tokens_sql : List Token → Outcome SqlError Statement
unfolding parse check_end
parse_tokens_sql ts = check_end (parse ts)

unfoldable pub parse_sql : List ℕ → Outcome SqlError Statement
unfolding tokenize_sql parse_tokens_sql
parse_sql sql = elim (tokenize_sql sql) [ throw e ↦ throw e | ok ts ↦ parse_tokens_sql ts ]
