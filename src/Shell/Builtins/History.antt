-- ===== src/Shell/Builtins/History.antt =====
-- The history of the shell, in memory and in its file.
use c_book.Prelude.{
  ℕ, ◌≡◌, refl, sym, ap, ◌∙◌, Bool, false, ◌||◌, List, [], ◌∷◌, ◌++◌, append_assoc, append-nil, All,
  bytes_eq, ◌==◌, arith, Bool-cases, inl, inr, All-append,
}
use c_book.Shell.Builtins.{
  Shell, is_empty_line, is_last, history_add, read_lines, keep_lines, history_load, save_lines,
  history_save,
}

abbrev pub has_newline : List ℕ → Bool
has_newline [] = false
has_newline (c ∷ s) = c == 10 || has_newline s

-- What `getline` can have given: no end of line inside, and not empty.
abbrev pub IsLine : List ℕ → Type 0
IsLine l = (is_empty_line l ≡ false) × (has_newline l ≡ false)

-- No two neighbours are the same.
abbrev pub IsVaried : List (List ℕ) → Type 0
IsVaried [] = Unit {0}
IsVaried (l ∷ []) = Unit {0}
IsVaried (l ∷ m ∷ ls) = (bytes_eq l m ≡ false) × IsVaried (m ∷ ls)

IsVaried-append :
    (hs : List (List ℕ)) (line : List ℕ)
    → IsVaried hs
    → is_last line hs ≡ false
    → IsVaried (hs ++ line ∷ [])
unfolding is_last
IsVaried-append [] line h k = tt
IsVaried-append (l ∷ []) line h k = (k, tt)
IsVaried-append (l ∷ m ∷ ls) line (h, hs) k = (h, IsVaried-append (m ∷ ls) line hs k)

-- Any line that `getline` gives, the empty one too, leaves a history of lines without neighbours that
-- are the same as such a history.
pub history_add_lem :
    (line : List ℕ) (s : Shell)
    → has_newline line ≡ false
    → All IsLine s.g_history
    → IsVaried s.g_history
    → All IsLine (history_add line s).g_history × IsVaried (history_add line s).g_history
unfolding history_add
history_add_lem line s n h v = elim (Bool-cases (is_empty_line line)) [
  | inl nothing ↦ rw (history_add, nothing) (h, v)
  | inr some_line ↦ elim (Bool-cases (is_last line s.g_history)) [
    | inl again ↦ rw (history_add, some_line, again) (h, v)
    | inr new ↦
        rw (history_add, some_line, new)
          (
            All-append IsLine s.g_history (line ∷ []) h ((some_line, n), tt),
            IsVaried-append s.g_history line v new,
          )
  ]
]

read_lines-line :
    (w line rest : List ℕ)
    → has_newline w ≡ false
    → read_lines line (w ++ 10 ∷ rest) ≡ (line ++ w) ∷ read_lines [] rest
unfolding read_lines
read_lines-line [] line rest h = ap (λ l. l ∷ read_lines [] rest) (sym (append-nil line))
read_lines-line (c ∷ w) line rest h =
    read_lines-char c (w ++ 10 ∷ rest) line (ground arith)
    ∙ read_lines-line w (line ++ c ∷ []) rest (ground arith)
    ∙ ap (λ l. l ∷ read_lines [] rest) (append_assoc line (c ∷ []) w)
  where
    read_lines-char :
        (c : ℕ) (s line : List ℕ)
        → c == 10 ≡ false
        → read_lines line (c ∷ s) ≡ read_lines (line ++ c ∷ []) s
    read_lines-char c s line h = rw (read_lines, h) refl

keep-save : (ls : List (List ℕ)) → All IsLine ls → keep_lines (read_lines [] (save_lines ls)) ≡ ls
unfolding keep_lines save_lines read_lines
keep-save [] h = refl
keep-save (l ∷ ls) ((full, h), hs) =
    ap keep_lines (read_lines-line l [] (save_lines ls) h)
    ∙ keep_lines-full l (read_lines [] (save_lines ls)) full
    ∙ ap (λ m. l ∷ m) (keep-save ls hs)
  where
    keep_lines-full :
        (l : List ℕ) (ls : List (List ℕ))
        → is_empty_line l ≡ false
        → keep_lines (l ∷ ls) ≡ l ∷ keep_lines ls
    keep_lines-full l ls h = rw (keep_lines, h) refl

-- A history of lines that are not empty is loaded from the file that it was saved to, line by line,
-- behind what the shell has already.
pub history_load-history_save :
    (s t : Shell)
    → All IsLine s.g_history
    → (history_load (history_save s) t).g_history ≡ t.g_history ++ s.g_history
unfolding history_load history_save
history_load-history_save s t h = ap (λ l. t.g_history ++ l) (keep-save s.g_history h)
