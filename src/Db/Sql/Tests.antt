-- ===== src/Db/Sql/Tests.antt =====
-- Statements on concrete lines.
use c_book.Prelude.{◌≡◌, refl, true, [], ◌∷◌, some, ok, throw, codes, map}
use c_book.Prelude.Int.{pos, negsuc}
use c_book.Db.Sql.{number_value, bad_operator}
use c_book.Db.Sql.Parser.{k_insert, new_statement, parse_tokens_sql, parse_sql}
use c_book.Db.Sql.Parser.RoundTrip.{insert_tokens, select_tokens, selected, parse_tokens_sql_lem}

parse_tokens_sql_lem_example :
    (parse_tokens_sql (insert_tokens (codes "t") (codes "1") (codes "-2" ∷ []) true)
      ≡ ok (record new_statement {
        kind = k_insert;
        table = codes "t";
        values = number_value (codes "1") ∷ map number_value (codes "-2" ∷ []);
      }))
    × (parse_tokens_sql (
          select_tokens
            (codes "1")
            (codes "-2" ∷ [])
            (codes "t")
            (some (codes "a", (codes "<", codes "7")))
            true)
        ≡ ok (
            selected
              (codes "1")
              (codes "-2" ∷ [])
              (codes "t")
              (some (codes "a", (codes "<", codes "7")))))
parse_tokens_sql_lem_example =
    parse_tokens_sql_lem (codes "t") (codes "1") (codes "-2" ∷ [])
      (some (codes "a", (codes "<", codes "7"))) true

insert_test :
    parse_sql (codes "insert INTO t values(1, -2);")
    ≡ ok (record new_statement {
      kind = k_insert;
      table = codes "t";
      values = pos 1 ∷ negsuc 1 ∷ [];
    })
unfolding parse_sql
insert_test = refl

operator_test : parse_sql (codes "SELECT * FROM t WHERE a ! 1") ≡ throw bad_operator
unfolding parse_sql
operator_test = refl
