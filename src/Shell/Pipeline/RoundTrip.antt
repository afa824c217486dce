-- ===== src/Shell/Pipeline/RoundTrip.antt =====
-- From a pipeline to tokens, to a line, and back.
use c_book.Prelude.{
  ℕ, ◌≡◌, refl, sym, ap, ◌∙◌, List, [], ◌∷◌, ◌++◌, append-nil, ok, ◌>>=◌, All, All-append, codes,
}
use c_book.Shell.Tokenizer.Quoting.{Style, write_line, IsWritable, words_of}
use c_book.Shell.Tokenizer.RoundTrip.{tokenize-write_line}
use c_book.Shell.Pipeline.{
  Redirect, Command, Pipeline, is_bar, parse_command, parse_segments, check_named, parse_tokens,
  parse_pipeline,
}
use c_book.Shell.Pipeline.Printing.{
  print_redirects, print_command, print_pipeline, IsCommand, IsNamed, IsNoBar, parse_arguments,
  parse_segments-shift, redirects-IsNoBar, arguments-IsNoBar,
}

command-IsNoBar : (c : Command) → IsCommand c → All IsNoBar (print_command c)
command-IsNoBar c (n, (a, r)) =
    All-append IsNoBar c.argv (print_redirects c.redirects) (arguments-IsNoBar c.argv a)
      (redirects-IsNoBar c.redirects r)

last_segment :
    (args : List (List ℕ)) (rs : List Redirect)
    → IsNamed args
    → parse_command (args ++ print_redirects rs) ≡ ok (record { argv = args; redirects = rs })
    → parse_segments (args ++ print_redirects rs) []
      ≡ ok (record { argv = args; redirects = rs } ∷ [])
unfolding parse_segments
last_segment [] rs n e = absurd n
last_segment (a ∷ args) rs n e = ap (λ o. o >>= λ c. ok (c ∷ [])) e

next_segment :
    (args : List (List ℕ)) (rs : List Redirect) (ts : List (List ℕ)) (cs : Pipeline)
    → IsNamed args
    → parse_command (args ++ print_redirects rs) ≡ ok (record { argv = args; redirects = rs })
    → parse_segments [] ts ≡ ok cs
    → parse_segments (args ++ print_redirects rs) (codes "|" ∷ ts)
      ≡ ok (record { argv = args; redirects = rs } ∷ cs)
unfolding parse_segments is_bar
next_segment [] rs ts cs n e f = absurd n
next_segment (a ∷ args) rs ts cs n e f =
    ap (λ o. o >>= λ c. parse_segments [] ts >>= λ more. ok (c ∷ more)) e
    ∙ ap (λ o. o >>= λ more. ok (record { argv = a ∷ args; redirects = rs } ∷ more)) f

parse_segments-print :
    (c : Command) (cs : Pipeline)
    → All IsCommand (c ∷ cs)
    → parse_segments [] (print_pipeline (c ∷ cs)) ≡ ok (c ∷ cs)
parse_segments-print c [] ((n, (a, r)), h) =
    ap (parse_segments []) (sym (append-nil (print_command c)))
    ∙ parse_segments-shift (print_command c) [] [] (command-IsNoBar c (n, (a, r)))
    ∙ last_segment c.argv c.redirects n (parse_arguments c.argv c.redirects a r)
parse_segments-print c (d ∷ cs) ((n, (a, r)), h) =
    parse_segments-shift (print_command c) [] (codes "|" ∷ print_pipeline (d ∷ cs))
      (command-IsNoBar c (n, (a, r)))
    ∙ next_segment c.argv c.redirects (print_pipeline (d ∷ cs)) (d ∷ cs) n
        (parse_arguments c.argv c.redirects a r) (parse_segments-print d cs h)

check_named-cons :
    (args : List (List ℕ)) (rs : List Redirect) (cs : Pipeline)
    → IsNamed args
    → check_named cs ≡ ok cs
    → check_named (record { argv = args; redirects = rs } ∷ cs)
      ≡ ok (record { argv = args; redirects = rs } ∷ cs)
unfolding check_named
check_named-cons [] rs cs n e = absurd n
check_named-cons (a ∷ args) rs cs n e =
    ap (λ o. o >>= λ rest. ok (record { argv = a ∷ args; redirects = rs } ∷ rest)) e

check_named-All : (cs : Pipeline) → All IsCommand cs → check_named cs ≡ ok cs
unfolding check_named
check_named-All [] h = refl
check_named-All (c ∷ cs) (h, hs) =
    check_named-cons c.argv c.redirects cs h.0 (check_named-All cs hs)

parse_tokens-segments :
    (ts : List (List ℕ)) (cs : Pipeline)
    → parse_segments [] ts ≡ ok cs
    → check_named cs ≡ ok cs
    → parse_tokens ts ≡ ok cs
unfolding parse_tokens parse_segments
parse_tokens-segments [] cs e f = cc
parse_tokens-segments (t ∷ ts) cs e f = ap (λ o. o >>= check_named) e ∙ f

-- The tokens of a pipeline of at least one command are parsed back to it: the arguments of each
-- command and then its redirects, with a bar between commands. Arguments and files are no
-- operators, and every command has an argument.
pub parse_tokens-print_pipeline :
    (c : Command) (cs : Pipeline)
    → All IsCommand (c ∷ cs)
    → parse_tokens (print_pipeline (c ∷ cs)) ≡ ok (c ∷ cs)
parse_tokens-print_pipeline c cs h =
    parse_tokens-segments (print_pipeline (c ∷ cs)) (c ∷ cs) (parse_segments-print c cs h)
      (check_named-All (c ∷ cs) h)

-- A line whose tokens, operators among them, are all quoted in some way is parsed to the pipeline
-- that the bare tokens stand for: a quoted operator is still an operator.
pub parse_pipeline-quoted :
    (ws : List (Style × List ℕ)) (c : Command) (cs : Pipeline)
    → All IsWritable ws
    → All IsCommand (c ∷ cs)
    → words_of ws ≡ print_pipeline (c ∷ cs)
    → parse_pipeline (write_line ws) ≡ ok (c ∷ cs)
unfolding parse_pipeline
parse_pipeline-quoted ws c cs h k e =
    ap (λ o. o >>= parse_tokens) (tokenize-write_line ws h)
    ∙ ap parse_tokens e
    ∙ parse_tokens-print_pipeline c cs k
