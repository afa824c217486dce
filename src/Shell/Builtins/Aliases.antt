-- ===== src/Shell/Builtins/Aliases.antt =====
-- What an alias stands for.
use c_book.Prelude.{
  ℕ, ◌≡◌, refl, ap, ◌∙◌, Bool, true, false, ◌||◌, List, [], ◌∷◌, ◌++◌, some, ◌==◌, arith, codes,
  if◌then◌else◌,
}
use c_book.Prelude.Tables.{find_key, assign, find_key-assign}
use c_book.Shell.Builtins.{
  Shell, split_eq, alias_loop, builtin_alias, is_blank_char, skip_blanks, first_word, expand_alias,
}

-- Neither `=` nor a blank.
abbrev pub is_name : List ℕ → Bool
is_name [] = true
is_name (c ∷ w) = if c == 61 || is_blank_char c then false else is_name w

split_eq-name :
    (key val : List ℕ) → is_name key ≡ true → split_eq (key ++ 61 ∷ val) ≡ some (key, val)
unfolding split_eq
split_eq-name [] val h = refl
split_eq-name (c ∷ key) val h = ground (arith, split_eq-name key val)

first_word-name :
    (key rest : List ℕ) → is_name key ≡ true → first_word (key ++ 32 ∷ rest) ≡ (key, 32 ∷ rest)
unfolding first_word
first_word-name [] rest h = refl
first_word-name (c ∷ key) rest h = ground (arith, first_word-name key rest)

skip_blanks-name :
    (c : ℕ) (key rest : List ℕ)
    → is_name (c ∷ key) ≡ true
    → skip_blanks ((c ∷ key) ++ rest) ≡ (c ∷ key) ++ rest
unfolding skip_blanks
skip_blanks-name c key rest h = ground arith

expand_alias-found :
    (line : List ℕ) (s : Shell) (c : ℕ) (rest key behind target : List ℕ)
    → skip_blanks line ≡ c ∷ rest
    → first_word (c ∷ rest) ≡ (key, behind)
    → find_key key s.g_aliases ≡ some target
    → expand_alias line s ≡ target ++ behind
unfolding expand_alias
expand_alias-found line s c rest key behind target h k f = ground arith

alias_defines :
    (key val : List ℕ) (s : Shell)
    → is_name key ≡ true
    → (builtin_alias (codes "alias" ∷ (key ++ 61 ∷ val) ∷ []) s).1.g_aliases
      ≡ assign key val s.g_aliases
unfolding builtin_alias alias_loop
alias_defines key val s h = ground (arith, split_eq-name key val h)

-- After `alias key=value`, whatever the shell's aliases were, a line that begins with the key and a
-- blank is expanded to the value and the rest of the line. The key is a word without `=`.
pub expand_alias-builtin_alias :
    (c : ℕ) (key val rest : List ℕ) (s : Shell)
    → is_name (c ∷ key) ≡ true
    → expand_alias
        ((c ∷ key) ++ 32 ∷ rest)
        (builtin_alias (codes "alias" ∷ ((c ∷ key) ++ 61 ∷ val) ∷ []) s).1
      ≡ val ++ 32 ∷ rest
expand_alias-builtin_alias c key val rest s h =
    expand_alias-found ((c ∷ key) ++ 32 ∷ rest) _ c (key ++ 32 ∷ rest) (c ∷ key) (32 ∷ rest) val
      (skip_blanks-name c key (32 ∷ rest) h) (first_word-name (c ∷ key) rest h)
      (ap (find_key (c ∷ key)) (alias_defines (c ∷ key) val s h)
        ∙ find_key-assign (c ∷ key) val s.g_aliases)
