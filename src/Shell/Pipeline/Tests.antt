-- ===== src/Shell/Pipeline/Tests.antt =====
-- Lines of the shell on concrete input.
use c_book.Prelude.{ℕ, ◌≡◌, refl, List, [], ◌∷◌, ok, throw, codes, bytes_eq}
use c_book.Shell.Tokenizer.{is_nil, tokenize, unclosed_quote}
use c_book.Shell.Tokenizer.Quoting.{Style, escaped, double_quoted, single_quoted, write_line}
use c_book.Shell.Tokenizer.RoundTrip.{tokenize-write_line}
use c_book.Shell.Pipeline.{
  output, err_to_out, Command, is_redirect_token, is_bar, parse_tokens, parse_pipeline,
}
use c_book.Shell.Pipeline.Printing.{print_pipeline}
use c_book.Shell.Pipeline.RoundTrip.{parse_tokens-print_pipeline, parse_pipeline-quoted}

abbrev grep_file : Command
grep_file = record {
  argv = codes "grep" ∷ codes "a b" ∷ [];
  redirects =
      record { type = output; target = codes "f" } ∷ record { type = err_to_out; target = [] } ∷ [];
}

abbrev count_lines : Command
count_lines = record { argv = codes "wc" ∷ []; redirects = [] }

abbrev quoted_tokens : List (Style × List ℕ)
quoted_tokens =
    (escaped, codes "wc") ∷ (single_quoted, codes "|") ∷ (double_quoted, codes "wc") ∷ []

tokenize-write_line_example :
    tokenize (
      write_line
        ((double_quoted, codes "a b") ∷ (single_quoted, codes "|") ∷ (escaped, codes "'") ∷ []))
    ≡ ok (codes "a b" ∷ codes "|" ∷ codes "'" ∷ [])
unfolding is_nil
tokenize-write_line_example =
    tokenize-write_line
      ((double_quoted, codes "a b") ∷ (single_quoted, codes "|") ∷ (escaped, codes "'") ∷ [])
      (refl, ((refl, refl), (refl, tt)))

parse_tokens-print_pipeline_example :
    parse_tokens (print_pipeline (grep_file ∷ count_lines ∷ [])) ≡ ok (grep_file ∷ count_lines ∷ [])
unfolding is_redirect_token is_bar bytes_eq
parse_tokens-print_pipeline_example = parse_tokens-print_pipeline grep_file (count_lines ∷ []) (
  (tt, (((refl, refl), ((refl, refl), tt)), ((refl, refl), (refl, tt)))),
  ((tt, (((refl, refl), tt), tt)), tt),
)

parse_pipeline-quoted_example :
    parse_pipeline (write_line quoted_tokens) ≡ ok (count_lines ∷ count_lines ∷ [])
unfolding is_redirect_token is_bar bytes_eq is_nil
parse_pipeline-quoted_example =
    parse_pipeline-quoted quoted_tokens count_lines (count_lines ∷ [])
      (refl, ((refl, refl), (refl, tt)))
      ((tt, (((refl, refl), tt), tt)), ((tt, (((refl, refl), tt), tt)), tt)) refl

unclosed_test : tokenize (codes "echo 'a") ≡ throw unclosed_quote
unfolding tokenize
unclosed_test = refl

operators_test :
    tokenize (codes "a>>b 2>&1|c")
    ≡ ok (codes "a" ∷ codes ">>" ∷ codes "b" ∷ codes "2>&1" ∷ codes "|" ∷ codes "c" ∷ [])
unfolding tokenize
operators_test = refl
