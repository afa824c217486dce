-- ===== src/Shell.antt =====
-- demo-shell: the parser of command lines and the built-in commands.
pub mod Tokenizer
pub mod Pipeline
pub mod Builtins
