-- ===== src/Shell/Pipeline.antt =====
-- demo-shell/include/pipeline.h and the parser of demo-shell/src/pipeline.cpp. What runs a
-- pipeline, with its processes and pipes, is not modelled.
pub mod Printing
pub mod RoundTrip
mod Tests
use c_book.Prelude.{
  ℕ, zero, suc, Bool, true, false, not, ◌&&◌, ◌||◌, List, [], ◌∷◌, ◌++◌, Outcome, ok, throw, ◌>>=◌,
  bytes_eq, if◌then◌else◌, codes, ◌≡◌, refl,
}
use c_book.Shell.Tokenizer.{
  ParseError, not_a_redirect, missing_target, empty_before_bar, empty_after_bar, nameless_command,
  tokenize,
}

pub data RedirectType : Type 0 where
  input output append err_output err_append err_to_out : RedirectType

pub record Redirect : Type 0 where
  pub type : RedirectType
  pub target : List ℕ

pub record Command : Type 0 where
  pub argv : List (List ℕ)
  pub redirects : List Redirect

abbrev pub Pipeline : Type 0
Pipeline = List Command

unfoldable pub is_redirect_token : List ℕ → Bool
unfolding bytes_eq
is_redirect_token t =
    bytes_eq t (codes "<")
    || (bytes_eq t (codes ">")
        || (bytes_eq t (codes ">>")
            || (bytes_eq t (codes "2>")
                || (bytes_eq t (codes "2>>") || bytes_eq t (codes "2>&1")))))

unfoldable pub redirect_type_for : List ℕ → Outcome ParseError RedirectType
unfolding bytes_eq
redirect_type_for t =
    if bytes_eq t (codes "<")
    then ok input
    else if bytes_eq t (codes ">")
    then ok output
    else if bytes_eq t (codes ">>")
    then ok append
    else if bytes_eq t (codes "2>")
    then ok err_output
    else if bytes_eq t (codes "2>>")
    then ok err_append
    else if bytes_eq t (codes "2>&1")
    then ok err_to_out
    else throw not_a_redirect

unfoldable pub is_bar : List ℕ → Bool
unfolding bytes_eq
is_bar t = bytes_eq t (codes "|")

abbrev pub add_argument : List ℕ → Command → Command
add_argument t c = record c { argv = t ∷ c.argv }

abbrev pub add_redirect : RedirectType → List ℕ → Command → Command
add_redirect type target c = record c {
  redirects = record { type = type; target = target } ∷ c.redirects;
}

abbrev pub no_target : RedirectType → Bool
no_target err_to_out = true
no_target input = false
no_target output = false
no_target append = false
no_target err_output = false
no_target err_append = false

-- A redirect with the token after it, over what the tokens from there on and those behind it parse
-- to.
unfoldable pub with_target :
    RedirectType
    → List ℕ
    → Outcome ParseError Command
    → Outcome ParseError Command
    → Outcome ParseError Command
unfolding is_redirect_token is_bar
with_target type u from_here behind = elim (no_target type) [
  | true ↦ do c ← from_here; ok (add_redirect type [] c)
  | false ↦ elim (is_redirect_token u || is_bar u) [
    | true ↦ throw missing_target
    | false ↦ do c ← behind; ok (add_redirect type u c)
  ]
]

-- The tokens between two bars. The vectors are built from the front.
unfoldable pub parse_command : List (List ℕ) → Outcome ParseError Command
unfolding is_redirect_token redirect_type_for with_target
parse_command [] = ok (record { argv = []; redirects = [] })
parse_command (t ∷ []) = elim (is_redirect_token t) [
  | false ↦ ok (record { argv = t ∷ []; redirects = [] })
  | true ↦ do
    type ← redirect_type_for t
    if no_target type
        then ok (record { argv = []; redirects = record { type = type; target = [] } ∷ [] })
        else throw missing_target
]
parse_command (t ∷ u ∷ ts) = elim (is_redirect_token t) [
  | false ↦ do c ← parse_command (u ∷ ts); ok (add_argument t c)
  | true ↦
      redirect_type_for t >>= λ type. with_target type u (parse_command (u ∷ ts)) (parse_command ts)
]

-- The loop over the tokens; the segment is what stands between `seg_start` and the iterator.
unfoldable pub parse_segments : List (List ℕ) → List (List ℕ) → Outcome ParseError Pipeline
unfolding parse_command is_bar
parse_segments [] [] = throw empty_after_bar
parse_segments (s ∷ segment) [] = do c ← parse_command (s ∷ segment); ok (c ∷ [])
parse_segments segment (t ∷ ts) = elim (is_bar t) [
  | false ↦ parse_segments (segment ++ t ∷ []) ts
  | true ↦ elim segment [
    | [] ↦ throw empty_before_bar
    | s ∷ more ↦ do c ← parse_command (s ∷ more); cs ← parse_segments [] ts; ok (c ∷ cs)
  ]
]

-- Every command has an argument.
unfoldable pub check_named : Pipeline → Outcome ParseError Pipeline
check_named [] = ok []
check_named (c ∷ cs) = elim c.argv [
  | [] ↦ throw nameless_command
  | a ∷ more ↦ do rest ← check_named cs; ok (c ∷ rest)
]

unfoldable pub parse_tokens : List (List ℕ) → Outcome ParseError Pipeline
unfolding parse_segments check_named
parse_tokens [] = ok []
parse_tokens (t ∷ ts) = parse_segments [] (t ∷ ts) >>= check_named

unfoldable pub parse_pipeline : List ℕ → Outcome ParseError Pipeline
unfolding tokenize parse_tokens
parse_pipeline line = tokenize line >>= parse_tokens
