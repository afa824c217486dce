-- ===== src/Shell/Builtins/Tests.antt =====
-- The built-in commands on concrete input.
use c_book.Prelude.{◌≡◌, refl, [], ◌∷◌, codes, bytes_eq}
use c_book.Shell.Builtins.{Shell, builtin_alias, expand_alias, builtin_echo}

abbrev shell : Shell
shell = record { g_history = codes "ls" ∷ codes "pwd" ∷ []; g_aliases = []; environment = [] }

alias_test :
    expand_alias (codes " ll /tmp") (builtin_alias (codes "alias" ∷ codes "ll=ls -l" ∷ []) shell).1
    ≡ codes "ls -l /tmp"
unfolding expand_alias builtin_alias bytes_eq
alias_test = refl

echo_test : builtin_echo (codes "echo" ∷ codes "-n" ∷ codes "a" ∷ codes "b" ∷ []) ≡ codes "a b"
unfolding builtin_echo
echo_test = refl
