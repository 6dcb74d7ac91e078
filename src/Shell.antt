-- ===== src/Shell.antt =====
-- kernel/lib/shell_line.c: the line editor of the shell, its tokenizer and its number parsers.
pub mod Line
pub mod Editing
pub mod Tokens
pub mod Words
pub mod Commands
pub mod Numbers
pub mod Numerals
mod Tests
