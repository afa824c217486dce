-- ===== src/Shell/Tokenizer/Quoting.antt =====
-- Words that are written with any of the three ways to quote come back as they were.
use c_book.Prelude.{
  ℕ, zero, suc, ◌≤◌, ◌≡◌, refl, sym, ap, ◌∙◌, subst, Bool, true, false, ◌||◌, List, [], ◌∷◌, ◌++◌,
  append_assoc, append-nil, length, ◌==◌, if◌then◌else◌, arith, Bool-cases, inl, inr,
}
use c_book.Shell.Tokenizer.{
  single_quote, double_quote, backslash, Scan, is_nil, is_escapable, push_char, flush, scan_char,
  scan_double, scan_plain, tokenize_loop,
}

-- A backslash before every character; double quotes, with a backslash before a double quote and
-- before a backslash; or single quotes.
pub data Style : Type 0 where
  escaped double_quoted single_quoted : Style

abbrev pub escape : List ℕ → List ℕ
escape [] = []
escape (c ∷ w) = backslash ∷ c ∷ escape w

abbrev pub in_double : List ℕ → List ℕ
in_double [] = []
in_double (c ∷ w) =
    if c == double_quote || c == backslash then backslash ∷ c ∷ in_double w else c ∷ in_double w

abbrev pub write : Style → List ℕ → List ℕ
write escaped w = escape w
write double_quoted w = double_quote ∷ (in_double w ++ double_quote ∷ [])
write single_quoted w = single_quote ∷ (w ++ single_quote ∷ [])

-- The words with a space behind each.
abbrev pub write_line : List (Style × List ℕ) → List ℕ
write_line [] = []
write_line ((style, w) ∷ ws) = write style w ++ 32 ∷ write_line ws

abbrev pub has_single : List ℕ → Bool
has_single [] = false
has_single (c ∷ w) = c == single_quote || has_single w

-- Not empty, and without a single quote where that is what quotes it.
abbrev pub IsWritable : Style × List ℕ → Type 0
IsWritable (escaped, w) = is_nil w ≡ false
IsWritable (double_quoted, w) = is_nil w ≡ false
IsWritable (single_quoted, w) = (is_nil w ≡ false) × (has_single w ≡ false)

abbrev pub words_of : List (Style × List ℕ) → List (List ℕ)
words_of [] = []
words_of ((style, w) ∷ ws) = w ∷ words_of ws

-- The state in the three modes.
abbrev pub plain : List (List ℕ) → List ℕ → Scan
plain ts cur = record { tokens = ts; current = cur; in_dq = false; in_sq = false }

abbrev pub doubled : List (List ℕ) → List ℕ → Scan
doubled ts cur = record { tokens = ts; current = cur; in_dq = true; in_sq = false }

abbrev pub singled : List (List ℕ) → List ℕ → Scan
singled ts cur = record { tokens = ts; current = cur; in_dq = false; in_sq = true }

-- From one place of the line to another, whatever fuel is left, as long as it is enough.
pub record Goes (line : List ℕ) (s : Scan) (line' : List ℕ) (s' : Scan) : Type 0 where
  pub go :
      (fuel : ℕ)
      → length line ≤ fuel
      → (k : ℕ) × (length line' ≤ k) × (tokenize_loop fuel line s ≡ tokenize_loop k line' s')

pub Goes-refl : (line : List ℕ) (s : Scan) → Goes line s line s
Goes-refl line s = record { go = λ fuel enough. (fuel, enough, refl) }

pub Goes-trans : {a b c : List ℕ} {s t u : Scan} → Goes a s b t → Goes b t c u → Goes a s c u
Goes-trans f g = record {
  go = λ fuel enough.
      let (k, h, e) = f.go fuel enough in let (m, h', e') = g.go k h in (m, h', e ∙ e');
}

Goes-step :
    (c : ℕ) (rest line : List ℕ) (s s' : Scan)
    → scan_char c rest s ≡ (s', line)
    → length line ≤ length rest
    → Goes (c ∷ rest) s line s'
unfolding tokenize_loop
Goes-step c rest line s s' e h = record { go = stepped }
  where
    stepped :
        (fuel : ℕ)
        → length (c ∷ rest) ≤ fuel
        → (k : ℕ) × (length line ≤ k) × (tokenize_loop fuel (c ∷ rest) s ≡ tokenize_loop k line s')
    stepped zero enough = absurd (omega arith)
    stepped (suc fuel) enough = (fuel, omega arith, ap (λ o. tokenize_loop fuel o.1 o.0) e)

module _ (ts : List (List ℕ)) (rest cur : List ℕ) where
  step_escape : (c : ℕ) → Goes (backslash ∷ c ∷ rest) (plain ts cur) rest (plain ts (cur ++ c ∷ []))
  unfolding scan_char scan_plain push_char is_nil
  step_escape c = Goes-step backslash (c ∷ rest) rest _ _ refl (omega arith)

  pub step_open : Goes (double_quote ∷ rest) (plain ts cur) rest (doubled ts cur)
  unfolding scan_char scan_plain
  step_open = Goes-step double_quote rest rest _ _ refl (omega arith)

  pub step_close : Goes (double_quote ∷ rest) (doubled ts cur) rest (plain ts cur)
  unfolding scan_char scan_double
  step_close = Goes-step double_quote rest rest _ _ refl (omega arith)

  step_marked :
      (c : ℕ)
      → c == double_quote || c == backslash ≡ true
      → Goes (backslash ∷ c ∷ rest) (doubled ts cur) rest (doubled ts (cur ++ c ∷ []))
  unfolding scan_char scan_double is_escapable push_char
  step_marked c h = Goes-step backslash (c ∷ rest) rest _ _ (ground arith) (omega arith)

  step_inside :
      (c : ℕ)
      → c == double_quote || c == backslash ≡ false
      → Goes (c ∷ rest) (doubled ts cur) rest (doubled ts (cur ++ c ∷ []))
  unfolding scan_char scan_double push_char
  step_inside c h = Goes-step c rest rest _ _ (ground arith) (omega arith)

  pub step_single : Goes (single_quote ∷ rest) (plain ts cur) rest (singled ts cur)
  unfolding scan_char scan_plain
  step_single = Goes-step single_quote rest rest _ _ refl (omega arith)

  pub step_end : Goes (single_quote ∷ rest) (singled ts cur) rest (plain ts cur)
  unfolding scan_char
  step_end = Goes-step single_quote rest rest _ _ refl (omega arith)

  step_raw :
      (c : ℕ)
      → c == single_quote ≡ false
      → Goes (c ∷ rest) (singled ts cur) rest (singled ts (cur ++ c ∷ []))
  unfolding scan_char push_char
  step_raw c h = Goes-step c rest rest _ _ (ground arith) (omega arith)

  pub step_space :
      is_nil cur ≡ false → Goes (32 ∷ rest) (plain ts cur) rest (plain (ts ++ cur ∷ []) [])
  unfolding scan_char scan_plain flush
  step_space h = Goes-step 32 rest rest _ _ (ground arith) (omega arith)

-- One more character of a word.
longer : (cur w : List ℕ) (c : ℕ) → (cur ++ c ∷ []) ++ w ≡ cur ++ c ∷ w
longer cur w c = append_assoc cur (c ∷ []) w

pub Goes-escape :
    (w rest cur : List ℕ) (ts : List (List ℕ))
    → Goes (escape w ++ rest) (plain ts cur) rest (plain ts (cur ++ w))
Goes-escape [] rest cur ts =
    subst (λ x. Goes rest (plain ts cur) rest (plain ts x)) (sym (append-nil cur)) (Goes-refl _ _)
Goes-escape (c ∷ w) rest cur ts =
    subst (λ x. Goes (escape (c ∷ w) ++ rest) (plain ts cur) rest (plain ts x)) (longer cur w c)
      (Goes-trans (step_escape ts (escape w ++ rest) cur c) (Goes-escape w rest (cur ++ c ∷ []) ts))

pub Goes-double :
    (w rest cur : List ℕ) (ts : List (List ℕ))
    → Goes (in_double w ++ rest) (doubled ts cur) rest (doubled ts (cur ++ w))
Goes-double [] rest cur ts =
    subst (λ x. Goes rest (doubled ts cur) rest (doubled ts x)) (sym (append-nil cur))
      (Goes-refl _ _)
Goes-double (c ∷ w) rest cur ts =
    subst (λ x. Goes (in_double (c ∷ w) ++ rest) (doubled ts cur) rest (doubled ts x))
      (longer cur w c)
      (elim (Bool-cases (c == double_quote || c == backslash)) [
        | inl marked ↦
            subst (λ l. Goes (l ++ rest) (doubled ts cur) rest (doubled ts ((cur ++ c ∷ []) ++ w)))
              (sym (marked_first c w marked))
              (Goes-trans (step_marked ts (in_double w ++ rest) cur c marked)
                (Goes-double w rest (cur ++ c ∷ []) ts))
        | inr raw ↦
            subst (λ l. Goes (l ++ rest) (doubled ts cur) rest (doubled ts ((cur ++ c ∷ []) ++ w)))
              (sym (raw_first c w raw))
              (Goes-trans (step_inside ts (in_double w ++ rest) cur c raw)
                (Goes-double w rest (cur ++ c ∷ []) ts))
      ])
  where
    marked_first :
        (c : ℕ) (w : List ℕ)
        → c == double_quote || c == backslash ≡ true
        → in_double (c ∷ w) ≡ backslash ∷ c ∷ in_double w
    marked_first c w h = rw h refl

    raw_first :
        (c : ℕ) (w : List ℕ)
        → c == double_quote || c == backslash ≡ false
        → in_double (c ∷ w) ≡ c ∷ in_double w
    raw_first c w h = rw h refl

pub Goes-single :
    (w rest cur : List ℕ) (ts : List (List ℕ))
    → has_single w ≡ false
    → Goes (w ++ rest) (singled ts cur) rest (singled ts (cur ++ w))
Goes-single [] rest cur ts h =
    subst (λ x. Goes rest (singled ts cur) rest (singled ts x)) (sym (append-nil cur))
      (Goes-refl _ _)
Goes-single (c ∷ w) rest cur ts h =
    subst (λ x. Goes (c ∷ (w ++ rest)) (singled ts cur) rest (singled ts x)) (longer cur w c)
      (Goes-trans (step_raw ts (w ++ rest) cur c (ground arith))
        (Goes-single w rest (cur ++ c ∷ []) ts (ground arith)))
