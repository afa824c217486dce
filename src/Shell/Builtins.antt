-- ===== src/Shell/Builtins.antt =====
-- demo-shell/src/builtins.cpp: the commands that change the shell's own state, aliases and history.
-- What goes to the terminal is left out, except for `echo`, which is its output.
pub mod History
pub mod Aliases
mod Tests
use c_book.Prelude.{
  ℕ, Bool, true, false, not, ◌||◌, List, [], ◌∷◌, ◌++◌, Option, none, some, bytes_eq, codes, ◌==◌,
  if◌then◌else◌,
}
use c_book.Prelude.Tables.{Table, find_key, assign}

-- The static variables, and the environment of the process.
pub record Shell : Type 0 where
  pub g_history : List (List ℕ)
  pub g_aliases : Table (List ℕ)
  pub environment : Table (List ℕ)

unfoldable pub is_empty_line : List ℕ → Bool
is_empty_line [] = true
is_empty_line (c ∷ s) = false

-- `kv.find('=')` and the two `substr`, or npos.
unfoldable pub split_eq : List ℕ → Option (List ℕ × List ℕ)
split_eq [] = none
split_eq (c ∷ s) =
    let rest = split_eq s in
    if c == 61
    then some ([], s)
    else elim rest [ none ↦ none | some (key, val) ↦ some (c ∷ key, val) ]

-- `setenv` with overwriting; it fails on an empty name.
unfoldable pub setenv : List ℕ → List ℕ → Table (List ℕ) → Option (Table (List ℕ))
unfolding is_empty_line
setenv key val env = if is_empty_line key then none else some (assign key val env)

-- `unsetenv` fails on an empty name and on one with `=`.
unfoldable pub remove_key : List ℕ → Table (List ℕ) → Table (List ℕ)
unfolding bytes_eq
remove_key k [] = []
remove_key k ((j, v) ∷ t) =
    let rest = remove_key k t in if bytes_eq j k then rest else (j, v) ∷ rest

unfoldable pub unsetenv : List ℕ → Table (List ℕ) → Option (Table (List ℕ))
unfolding is_empty_line split_eq remove_key
unsetenv key env =
    if is_empty_line key
    then none
    else elim (split_eq key) [ none ↦ some (remove_key key env) | some kv ↦ none ]

-- The loop of `export` over the arguments: the exit code, and the environment that is left.
unfoldable pub export_loop : List (List ℕ) → Table (List ℕ) → ℕ × Table (List ℕ)
unfolding split_eq setenv
export_loop [] env = (0, env)
export_loop (kv ∷ args) env = elim (split_eq kv) [
  | none ↦ (1, env)
  | some (key, val) ↦ elim (setenv key val env) [
    | none ↦ (1, env)
    | some env' ↦ export_loop args env'
  ]
]

unfoldable pub builtin_export : List (List ℕ) → Shell → ℕ × Shell
unfolding export_loop
builtin_export (cmd ∷ a ∷ args) s =
    let r = export_loop (a ∷ args) s.environment in (r.0, record s { environment = r.1 })
builtin_export [] s = (1, s)
builtin_export (cmd ∷ []) s = (1, s)

unfoldable pub unset_loop : List (List ℕ) → Table (List ℕ) → ℕ × Table (List ℕ)
unfolding unsetenv
unset_loop [] env = (0, env)
unset_loop (key ∷ args) env = elim (unsetenv key env) [
  | none ↦ (1, env)
  | some env' ↦ unset_loop args env'
]

unfoldable pub builtin_unset : List (List ℕ) → Shell → ℕ × Shell
unfolding unset_loop
builtin_unset [] s = (0, s)
builtin_unset (cmd ∷ args) s =
    let r = unset_loop args s.environment in (r.0, record s { environment = r.1 })

-- The loop of `alias`: an argument without `=` only asks, and sets the exit code if there is none.
unfoldable pub alias_loop : List (List ℕ) → Table (List ℕ) → ℕ → ℕ × Table (List ℕ)
unfolding split_eq
alias_loop [] aliases rc = (rc, aliases)
alias_loop (a ∷ args) aliases rc = elim (split_eq a) [
  | none ↦ elim (find_key a aliases) [
    | none ↦ alias_loop args aliases 1
    | some target ↦ alias_loop args aliases rc
  ]
  | some (key, val) ↦ alias_loop args (assign key val aliases) rc
]

unfoldable pub builtin_alias : List (List ℕ) → Shell → ℕ × Shell
unfolding alias_loop
builtin_alias [] s = (0, s)
builtin_alias (cmd ∷ args) s =
    let r = alias_loop args s.g_aliases 0 in (r.0, record s { g_aliases = r.1 })

unfoldable pub unalias_loop : List (List ℕ) → Table (List ℕ) → Table (List ℕ)
unfolding remove_key
unalias_loop [] aliases = aliases
unalias_loop (a ∷ args) aliases = unalias_loop args (remove_key a aliases)

unfoldable pub builtin_unalias : List (List ℕ) → Shell → ℕ × Shell
unfolding unalias_loop
builtin_unalias [] s = (0, s)
builtin_unalias (cmd ∷ args) s = (0, record s { g_aliases = unalias_loop args s.g_aliases })

-- The words with a space between them.
unfoldable pub echo_words : List (List ℕ) → List ℕ
echo_words [] = []
echo_words (w ∷ []) = w
echo_words (w ∷ v ∷ ws) = w ++ 32 ∷ echo_words (v ∷ ws)

unfoldable pub builtin_echo : List (List ℕ) → List ℕ
unfolding echo_words bytes_eq
builtin_echo [] = 10 ∷ []
builtin_echo (cmd ∷ []) = 10 ∷ []
builtin_echo (cmd ∷ a ∷ args) =
    if bytes_eq a (codes "-n") then echo_words args else echo_words (a ∷ args) ++ 10 ∷ []

abbrev pub is_blank_char : ℕ → Bool
is_blank_char c = c == 32 || c == 9

unfoldable pub skip_blanks : List ℕ → List ℕ
skip_blanks [] = []
skip_blanks (c ∷ s) = let rest = skip_blanks s in if is_blank_char c then rest else c ∷ s

-- The first word, and the line from its end on.
unfoldable pub first_word : List ℕ → List ℕ × List ℕ
first_word [] = ([], [])
first_word (c ∷ s) =
    let rest = first_word s in if is_blank_char c then ([], c ∷ s) else (c ∷ rest.0, rest.1)

unfoldable pub expand_alias : List ℕ → Shell → List ℕ
unfolding skip_blanks first_word
expand_alias line s = elim (skip_blanks line) [
  | [] ↦ line
  | c ∷ rest ↦
      let word = first_word (c ∷ rest) in
      elim (find_key word.0 s.g_aliases) [ none ↦ line | some target ↦ target ++ word.1 ]
]

-- `!g_history.empty() && g_history.back() == line`.
unfoldable pub is_last : List ℕ → List (List ℕ) → Bool
unfolding bytes_eq
is_last line [] = false
is_last line (h ∷ []) = bytes_eq h line
is_last line (h ∷ i ∷ hs) = is_last line (i ∷ hs)

unfoldable pub history_add : List ℕ → Shell → Shell
unfolding is_empty_line is_last
history_add line s =
    if is_empty_line line
    then s
    else if is_last line s.g_history
    then s
    else record s { g_history = s.g_history ++ line ∷ [] }

-- The lines that `getline` reads; the last may lack its end.
unfoldable pub read_lines : List ℕ → List ℕ → List (List ℕ)
unfolding is_empty_line
read_lines line [] = if is_empty_line line then [] else line ∷ []
read_lines line (c ∷ s) = elim (c == 10) [
  | true ↦ line ∷ read_lines [] s
  | false ↦ read_lines (line ++ c ∷ []) s
]

unfoldable pub keep_lines : List (List ℕ) → List (List ℕ)
unfolding is_empty_line
keep_lines [] = []
keep_lines (l ∷ ls) = let rest = keep_lines ls in if is_empty_line l then rest else l ∷ rest

-- From the contents of a file that could be opened.
unfoldable pub history_load : List ℕ → Shell → Shell
unfolding read_lines keep_lines
history_load file s = record s { g_history = s.g_history ++ keep_lines (read_lines [] file) }

unfoldable pub save_lines : List (List ℕ) → List ℕ
save_lines [] = []
save_lines (l ∷ ls) = l ++ 10 ∷ save_lines ls

-- The contents of the file afterwards.
unfoldable pub history_save : Shell → List ℕ
unfolding save_lines
history_save s = save_lines s.g_history

unfoldable pub is_builtin_name : List ℕ → Bool
unfolding bytes_eq
is_builtin_name name =
    bytes_eq name (codes "cd")
    || (bytes_eq name (codes "pwd")
        || (bytes_eq name (codes "export")
            || (bytes_eq name (codes "unset")
                || (bytes_eq name (codes "history")
                    || (bytes_eq name (codes "echo")
                        || (bytes_eq name (codes "type")
                            || (bytes_eq name (codes "alias")
                                || (bytes_eq name (codes "unalias")
                                    || (bytes_eq name (codes "exit")
                                        || bytes_eq name (codes "quit"))))))))))

-- The exit code and the shell after a built-in command, or `none` where the name is no command of
-- `try_builtin`. The codes of `cd`, `pwd` and `type` are the operating system's to give, by the
-- arguments.
unfoldable pub try_builtin : (List (List ℕ) → ℕ) → List (List ℕ) → Shell → Option (ℕ × Shell)
unfolding bytes_eq builtin_export builtin_unset builtin_alias builtin_unalias
try_builtin os [] s = some (0, s)
try_builtin os (cmd ∷ args) s =
    if bytes_eq cmd (codes "cd")
    then some (os (cmd ∷ args), s)
    else if bytes_eq cmd (codes "pwd")
    then some (os (cmd ∷ args), s)
    else if bytes_eq cmd (codes "export")
    then some (builtin_export (cmd ∷ args) s)
    else if bytes_eq cmd (codes "unset")
    then some (builtin_unset (cmd ∷ args) s)
    else if bytes_eq cmd (codes "history")
    then some (0, s)
    else if bytes_eq cmd (codes "echo")
    then some (0, s)
    else if bytes_eq cmd (codes "type")
    then some (os (cmd ∷ args), s)
    else if bytes_eq cmd (codes "alias")
    then some (builtin_alias (cmd ∷ args) s)
    else if bytes_eq cmd (codes "unalias")
    then some (builtin_unalias (cmd ∷ args) s)
    else none
