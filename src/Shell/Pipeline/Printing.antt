-- ===== src/Shell/Pipeline/Printing.antt =====
-- A pipeline that is written out as tokens is parsed back.
use c_book.Prelude.{
  ℕ, ◌≡◌, refl, sym, ap, ◌∙◌, subst, true, false, List, [], ◌∷◌, ◌++◌, append_assoc, append-nil,
  Outcome, ok, ◌>>=◌, All, All-append, codes, bytes_eq, arith,
}
use c_book.Shell.Tokenizer.{ParseError}
use c_book.Shell.Pipeline.{
  RedirectType, input, output, append, err_output, err_append, err_to_out, Redirect, Command,
  Pipeline, is_redirect_token, redirect_type_for, is_bar, add_argument, add_redirect, no_target,
  with_target, parse_command, parse_segments,
}

-- No operator.
abbrev pub IsPlain : List ℕ → Type 0
IsPlain t = (is_redirect_token t ≡ false) × (is_bar t ≡ false)

abbrev pub print_redirect : Redirect → List (List ℕ)
print_redirect r = elim r.type [
  | input ↦ codes "<" ∷ r.target ∷ []
  | output ↦ codes ">" ∷ r.target ∷ []
  | append ↦ codes ">>" ∷ r.target ∷ []
  | err_output ↦ codes "2>" ∷ r.target ∷ []
  | err_append ↦ codes "2>>" ∷ r.target ∷ []
  | err_to_out ↦ codes "2>&1" ∷ []
]

abbrev pub print_redirects : List Redirect → List (List ℕ)
print_redirects [] = []
print_redirects (r ∷ rs) = print_redirect r ++ print_redirects rs

abbrev pub print_command : Command → List (List ℕ)
print_command c = c.argv ++ print_redirects c.redirects

abbrev pub print_pipeline : Pipeline → List (List ℕ)
print_pipeline [] = []
print_pipeline (c ∷ []) = print_command c
print_pipeline (c ∷ d ∷ cs) = print_command c ++ codes "|" ∷ print_pipeline (d ∷ cs)

-- The file of a redirect is no operator, and `2>&1` has none.
abbrev pub IsRedirect : Redirect → Type 0
IsRedirect r = elim r.type [
  | input ↦ IsPlain r.target
  | output ↦ IsPlain r.target
  | append ↦ IsPlain r.target
  | err_output ↦ IsPlain r.target
  | err_append ↦ IsPlain r.target
  | err_to_out ↦ r.target ≡ []
]

abbrev pub IsNamed : List (List ℕ) → Type 0
IsNamed [] = ⊥
IsNamed (a ∷ more) = Unit {0}

abbrev pub IsCommand : Command → Type 0
IsCommand c = IsNamed c.argv × (All IsPlain c.argv × All IsRedirect c.redirects)

parse_command-plain :
    (t : List ℕ) (ts : List (List ℕ)) (c : Command)
    → is_redirect_token t ≡ false
    → parse_command ts ≡ ok c
    → parse_command (t ∷ ts) ≡ ok (add_argument t c)
unfolding parse_command
parse_command-plain t [] c h e = ground arith
parse_command-plain t (u ∷ ts) c h e = rw (parse_command, h, e) refl

with_target-plain :
    (f : List ℕ) (type : RedirectType) (from_here behind : Outcome ParseError Command) (c : Command)
    → no_target type ≡ false
    → IsPlain f
    → behind ≡ ok c
    → with_target type f from_here behind ≡ ok (add_redirect type f c)
unfolding with_target
with_target-plain f type from_here behind c w (h, k) e = rw (with_target, w, h, k, e) refl

parse_command-typed :
    (t f : List ℕ) (ts : List (List ℕ))
    → is_redirect_token t ≡ true
    → parse_command (t ∷ f ∷ ts) ≡ (
        redirect_type_for t >>= λ type.
        with_target type f (parse_command (f ∷ ts)) (parse_command ts))
unfolding parse_command
parse_command-typed t f ts d = rw (parse_command, d) refl

parse_command-target :
    (t f : List ℕ) (type : RedirectType) (ts : List (List ℕ)) (c : Command)
    → is_redirect_token t ≡ true
    → redirect_type_for t ≡ ok type
    → no_target type ≡ false
    → IsPlain f
    → parse_command ts ≡ ok c
    → parse_command (t ∷ f ∷ ts) ≡ ok (add_redirect type f c)
unfolding parse_command
parse_command-target t f type ts c d n w h e =
    parse_command-typed t f ts d
    ∙ ap (λ o. o >>= λ type. with_target type f (parse_command (f ∷ ts)) (parse_command ts)) n
    ∙ with_target-plain f type (parse_command (f ∷ ts)) (parse_command ts) c w h e

parse_command-join :
    (ts : List (List ℕ)) (c : Command)
    → parse_command ts ≡ ok c
    → parse_command (codes "2>&1" ∷ ts) ≡ ok (add_redirect err_to_out [] c)
unfolding parse_command is_redirect_token redirect_type_for bytes_eq with_target
parse_command-join [] c e = ap (λ o. o >>= λ d. ok (add_redirect err_to_out [] d)) e
parse_command-join (u ∷ ts) c e = ap (λ o. o >>= λ d. ok (add_redirect err_to_out [] d)) e

parse_command-redirect :
    (type : RedirectType) (f : List ℕ) (ts : List (List ℕ)) (c : Command)
    → IsRedirect (record { type = type; target = f })
    → parse_command ts ≡ ok c
    → parse_command (print_redirect (record { type = type; target = f }) ++ ts)
      ≡ ok (add_redirect type f c)
unfolding is_redirect_token redirect_type_for bytes_eq
parse_command-redirect input f ts c h e =
    parse_command-target (codes "<") f input ts c refl refl refl h e
parse_command-redirect output f ts c h e =
    parse_command-target (codes ">") f output ts c refl refl refl h e
parse_command-redirect append f ts c h e =
    parse_command-target (codes ">>") f append ts c refl refl refl h e
parse_command-redirect err_output f ts c h e =
    parse_command-target (codes "2>") f err_output ts c refl refl refl h e
parse_command-redirect err_append f ts c h e =
    parse_command-target (codes "2>>") f err_append ts c refl refl refl h e
parse_command-redirect err_to_out f ts c h e =
    subst (λ g. parse_command (codes "2>&1" ∷ ts) ≡ ok (add_redirect err_to_out g c)) (sym h)
      (parse_command-join ts c e)

parse_redirects :
    (rs : List Redirect)
    → All IsRedirect rs
    → parse_command (print_redirects rs) ≡ ok (record { argv = []; redirects = rs })
unfolding parse_command
parse_redirects [] h = refl
parse_redirects (r ∷ rs) (h, hs) =
    parse_command-redirect r.type r.target (print_redirects rs) _ h (parse_redirects rs hs)

pub parse_arguments :
    (args : List (List ℕ)) (rs : List Redirect)
    → All IsPlain args
    → All IsRedirect rs
    → parse_command (args ++ print_redirects rs) ≡ ok (record { argv = args; redirects = rs })
parse_arguments [] rs h k = parse_redirects rs k
parse_arguments (a ∷ args) rs (h, hs) k =
    parse_command-plain a (args ++ print_redirects rs) _ h.0 (parse_arguments args rs hs k)

-- No token of a printed command is a bar.
abbrev pub IsNoBar : List ℕ → Type 0
IsNoBar t = is_bar t ≡ false

redirect-IsNoBar :
    (type : RedirectType) (f : List ℕ)
    → IsRedirect (record { type = type; target = f })
    → All IsNoBar (print_redirect (record { type = type; target = f }))
unfolding is_bar bytes_eq
redirect-IsNoBar input f h = (refl, (h.1, tt))
redirect-IsNoBar output f h = (refl, (h.1, tt))
redirect-IsNoBar append f h = (refl, (h.1, tt))
redirect-IsNoBar err_output f h = (refl, (h.1, tt))
redirect-IsNoBar err_append f h = (refl, (h.1, tt))
redirect-IsNoBar err_to_out f h = (refl, tt)

pub redirects-IsNoBar : (rs : List Redirect) → All IsRedirect rs → All IsNoBar (print_redirects rs)
redirects-IsNoBar [] h = tt
redirects-IsNoBar (r ∷ rs) (h, hs) =
    All-append IsNoBar (print_redirect r) (print_redirects rs) (redirect-IsNoBar r.type r.target h)
      (redirects-IsNoBar rs hs)

pub arguments-IsNoBar : (args : List (List ℕ)) → All IsPlain args → All IsNoBar args
arguments-IsNoBar [] h = tt
arguments-IsNoBar (a ∷ args) (h, hs) = (h.1, arguments-IsNoBar args hs)

parse_segments-plain :
    (x : List ℕ) (ts segment : List (List ℕ))
    → is_bar x ≡ false
    → parse_segments segment (x ∷ ts) ≡ parse_segments (segment ++ x ∷ []) ts
unfolding parse_segments
parse_segments-plain x ts [] h = rw (parse_segments, h) refl
parse_segments-plain x ts (s ∷ segment) h = rw (parse_segments, h) refl

pub parse_segments-shift :
    (xs segment ts : List (List ℕ))
    → All IsNoBar xs
    → parse_segments segment (xs ++ ts) ≡ parse_segments (segment ++ xs) ts
parse_segments-shift [] segment ts h = ap (λ s. parse_segments s ts) (sym (append-nil segment))
parse_segments-shift (x ∷ xs) segment ts (h, hs) =
    parse_segments-plain x (xs ++ ts) segment h
    ∙ parse_segments-shift xs (segment ++ x ∷ []) ts hs
    ∙ ap (λ s. parse_segments s ts) (append_assoc segment (x ∷ []) xs)
