-- ===== src/Shell/Line.antt =====
-- kernel/lib/shell_line.c, shell_line_init and shell_line_feed: the line being typed. A character
-- is an unsigned byte.
use utamo_os.Common.{ℕ, ◌+◌, ◌-◌, ◌||◌, List, ltb, ◌==◌, if◌then◌else◌, set, replicate}

-- UTAMO_SHELL_LINE_CAPACITY
abbrev pub line_capacity : ℕ
line_capacity = 128

pub record ShellLine : Type 0 where
  pub bytes : List ℕ
  pub length : ℕ
  pub limit : ℕ

pub data ShellEdit : Type 0 where
  ignored : ShellEdit
  appended : ShellEdit
  erased : ShellEdit
  submitted : ShellEdit
  full : ShellEdit

unfoldable pub shell_line_init : ℕ → ShellLine
shell_line_init limit = record {
  bytes = replicate line_capacity 0;
  length = 0;
  limit = if ltb limit line_capacity then limit else line_capacity - 1;
}

-- `--line->length` and the NUL there
abbrev pub erase_last : ShellLine → ShellLine
erase_last l = record l { bytes = set l.bytes (l.length - 1) 0; length = l.length - 1 }

abbrev pub append : ShellLine → ℕ → ShellLine
append l character = record l {
  bytes = set (set l.bytes l.length character) (l.length + 1) 0;
  length = l.length + 1;
}

unfoldable pub shell_line_feed : ShellLine → ℕ → ShellEdit × ShellLine
shell_line_feed l character =
    if character == b'\n' || character == b'\r'
    then (submitted, l)
    else if character == 0x08
    then if l.length == 0 then (ignored, l) else (erased, erase_last l)
    else (let character = if character == b'\t' then b' ' else character in
        if ltb character 0x20 || ltb 0x7e character
        then (ignored, l)
        else if l.length == l.limit
        then (full, l)
        else (appended, append l character))
