-- ===== src/Shell/Tokenizer/RoundTrip.antt =====
-- A line of quoted words is read back word by word.
use c_book.Prelude.{
  ℕ, zero, suc, ◌≡◌, refl, sym, ap, ◌∙◌, subst, false, List, [], ◌∷◌, ◌++◌, append_assoc,
  append-nil, ok, length, All, arith,
}
use c_book.Shell.Tokenizer.{
  single_quote, double_quote, Scan, is_nil, flush, tokenize_loop, finish, tokenize,
}
use c_book.Shell.Tokenizer.Quoting.{
  Style, escaped, double_quoted, single_quoted, in_double, write, write_line, IsWritable, words_of,
  plain, Goes, Goes-refl, Goes-trans, step_open, step_close, step_single, step_end, step_space,
  Goes-escape, Goes-double, Goes-single,
}

regroup : (q : ℕ) (xs rest : List ℕ) → (xs ++ q ∷ []) ++ rest ≡ xs ++ q ∷ rest
regroup q xs rest = append_assoc xs (q ∷ []) rest

-- A written word, from an empty one.
Goes-word :
    (style : Style) (w rest : List ℕ) (ts : List (List ℕ))
    → IsWritable (style, w)
    → Goes (write style w ++ rest) (plain ts []) rest (plain ts w)
Goes-word escaped w rest ts h = Goes-escape w rest [] ts
Goes-word double_quoted w rest ts h =
    subst (λ l. Goes (double_quote ∷ l) (plain ts []) rest (plain ts w))
      (sym (regroup double_quote (in_double w) rest))
      (Goes-trans (step_open ts (in_double w ++ double_quote ∷ rest) [])
        (Goes-trans (Goes-double w (double_quote ∷ rest) [] ts) (step_close ts rest w)))
Goes-word single_quoted w rest ts h =
    subst (λ l. Goes (single_quote ∷ l) (plain ts []) rest (plain ts w))
      (sym (regroup single_quote w rest))
      (Goes-trans (step_single ts (w ++ single_quote ∷ rest) [])
        (Goes-trans (Goes-single w (single_quote ∷ rest) [] ts h.1) (step_end ts rest w)))

not_nil : (style : Style) (w : List ℕ) → IsWritable (style, w) → is_nil w ≡ false
not_nil escaped w h = h
not_nil double_quoted w h = h
not_nil single_quoted w h = h.0

Goes-line :
    (ws : List (Style × List ℕ)) (ts : List (List ℕ))
    → All IsWritable ws
    → Goes (write_line ws) (plain ts []) [] (plain (ts ++ words_of ws) [])
Goes-line [] ts h =
    subst (λ x. Goes [] (plain ts []) [] (plain x [])) (sym (append-nil ts)) (Goes-refl _ _)
Goes-line ((style, w) ∷ ws) ts (h, hs) =
    subst (λ l. Goes (write_line ((style, w) ∷ ws)) (plain ts []) [] (plain l []))
      (append_assoc ts (w ∷ []) (words_of ws))
      (Goes-trans (Goes-word style w (32 ∷ write_line ws) ts h) (
        Goes-trans (step_space ts (write_line ws) w (not_nil style w h))
          (Goes-line ws (ts ++ w ∷ []) hs)))

loop-nil : (k : ℕ) (s : Scan) → tokenize_loop k [] s ≡ s
unfolding tokenize_loop
loop-nil zero s = refl
loop-nil (suc k) s = refl

-- Words that are not empty, each written with backslashes, in double quotes or in single quotes, and
-- with a space behind it, are the tokens of the line, in order, whatever characters they consist
-- of. A word in single quotes has none of them.
pub tokenize-write_line :
    (ws : List (Style × List ℕ)) → All IsWritable ws → tokenize (write_line ws) ≡ ok (words_of ws)
unfolding tokenize finish flush
tokenize-write_line ws h =
    let (k, enough, e) = (Goes-line ws [] h).go (length (write_line ws)) (omega arith) in
    ap finish (e ∙ loop-nil k _)
