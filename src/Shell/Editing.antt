-- ===== src/Shell/Editing.antt =====
-- The line editor of kernel/lib/shell_line.c as a stack of characters, and the C string in it.
use utamo_os.Common.{
  ℕ, suc, ◌+◌, ◌-◌, ◌≤◌, ◌<◌, min, ◌≡◌, refl, ap, ◌∙◌, sym, Bool, true, false, ◌||◌, List, [], ◌∷◌,
  ltb, ◌==◌, if◌then◌else◌, set, replicate, length, All, arith,
}
use utamo_os.Shell.Line.{
  line_capacity, ShellLine, ShellEdit, ignored, appended, erased, submitted, full, shell_line_init,
  erase_last, append, shell_line_feed,
}

-- The characters of a text, newest first, in the order of the array, before `rest`.
abbrev pub laid : List ℕ → List ℕ → List ℕ
laid [] rest = rest
laid (c ∷ text) rest = laid text (c ∷ rest)

set-laid :
    (text rest : List ℕ) (i v : ℕ)
    → set (laid text rest) (length text + i) v ≡ laid text (set rest i v)
set-laid [] rest i v = ap (λ k. set rest k v) (omega arith)
set-laid (c ∷ text) rest i v =
    let e : suc (length text) + i ≡ length text + suc i = omega arith in
    rw e (set-laid text (c ∷ rest) (suc i) v)

-- Space and the printable characters, the only ones that a line holds
abbrev pub IsShown : ℕ → Type 0
IsShown c = (32 ≤ c) × (c ≤ 126)

-- The line holds the text, newest first, and NULs up to the end of the array.
pub record Holds (l : ShellLine) (text : List ℕ) : Type 0 where
  pub bytes_are : l.bytes ≡ laid text (replicate (line_capacity - length text) 0)
  pub size : l.length ≡ length text
  pub within : length text ≤ l.limit
  pub bound : l.limit < line_capacity
  pub shown : All IsShown text

erase : List ℕ → ShellEdit × List ℕ
erase [] = (ignored, [])
erase (c ∷ text) = (erased, text)

abbrev put : ℕ → List ℕ → ℕ → ShellEdit × List ℕ
put limit text c =
    if ltb c 32 || ltb 126 c
    then (ignored, text)
    else if length text == limit
    then (full, text)
    else (appended, c ∷ text)

-- What a key does to the text: an editor whose text is a stack of at most `limit` characters.
unfoldable pub edit : ℕ → List ℕ → ℕ → ShellEdit × List ℕ
unfolding erase
edit limit text c =
    if c == 10 || c == 13
    then (submitted, text)
    else if c == 8
    then erase text
    else put limit text (if c == 9 then 32 else c)

zeros-suc :
    (n : ℕ)
    → n < line_capacity
    → replicate {A = ℕ} (line_capacity - n) 0 ≡ 0 ∷ replicate (line_capacity - suc n) 0
zeros-suc n h =
    let e : line_capacity - n ≡ suc (line_capacity - suc n) = omega arith in
    ap (λ n. replicate {A = ℕ} n 0) e

-- A write at the end of the text
set-end :
    (l : ShellLine) (text rest : List ℕ) (v : ℕ)
    → l.length ≡ length text
    → set (laid text rest) l.length v ≡ laid text (set rest 0 v)
set-end l text rest v h =
    let e : l.length ≡ length text + 0 = omega arith in rw e (set-laid text rest 0 v)

Holds-erase_last :
    (l : ShellLine) (c : ℕ) (text : List ℕ) → Holds l (c ∷ text) → Holds (erase_last l) text
Holds-erase_last l c text h =
    let size : l.length - 1 ≡ length text = omega (arith, h.size) in
    let below : length text < line_capacity = omega (arith, h.within, h.bound) in
    let tail = zeros-suc (length text) below in
    record {
      bytes_are =
          rw (h.bytes_are, size, tail)
            (set-end (record l { length = length text }) text
              (c ∷ replicate (line_capacity - suc (length text)) 0) 0 refl);
      size = size;
      within = omega (arith, h.within);
      bound = h.bound;
      shown = h.shown.1;
    }

Holds-append :
    (l : ShellLine) (c : ℕ) (text : List ℕ)
    → Holds l text
    → length text < l.limit
    → IsShown c
    → Holds (append l c) (c ∷ text)
Holds-append l c text h room shown =
    let below : length text < line_capacity = omega (arith, h.bound) in
    let below' : suc (length text) < line_capacity = omega (arith, h.bound) in
    let first =
      set-end l text (0 ∷ 0 ∷ replicate (line_capacity - suc (suc (length text))) 0) c h.size in
    let second =
      set-end (record l { length = l.length + 1 }) (c ∷ text)
        (0 ∷ replicate (line_capacity - suc (suc (length text))) 0) 0 (omega (arith, h.size)) in
    record {
      bytes_are =
          rw
            (
              h.bytes_are,
              zeros-suc (length text) below,
              zeros-suc (suc (length text)) below',
              first,
            )
            second;
      size = omega (arith, h.size);
      within = room;
      bound = h.bound;
      shown = (shown, h.shown);
    }

-- An answer and a line agree with an answer and a text.
abbrev pub Agree : ℕ → ShellEdit × ShellLine → ShellEdit × List ℕ → Type 0
Agree limit r s = (r.0 ≡ s.0) × Holds r.1 s.1 × (r.1.limit ≡ limit)

Agree-if :
    (limit : ℕ) (b : Bool) {r r' : ShellEdit × ShellLine} {s s' : ShellEdit × List ℕ}
    → (b ≡ true → Agree limit r s)
    → (b ≡ false → Agree limit r' s')
    → Agree limit (if b then r else r') (if b then s else s')
Agree-if limit true h h' = h refl
Agree-if limit false h h' = h' refl

Agree-erase :
    (l : ShellLine) (text : List ℕ)
    → Holds l text
    → Agree l.limit (if l.length == 0 then (ignored, l) else (erased, erase_last l)) (erase text)
unfolding erase
Agree-erase l [] h =
    let empty : (l.length == 0) ≡ true = ground (arith, h.size) in rw empty (refl, h, refl)
Agree-erase l (c ∷ text) h =
    let some_left : (l.length == 0) ≡ false = ground (arith, h.size) in
    rw some_left (refl, Holds-erase_last l c text h, refl)

Agree-put :
    (l : ShellLine) (text : List ℕ) (c : ℕ)
    → Holds l text
    → Agree l.limit
        (if ltb c 0x20 || ltb 0x7e c
          then (ignored, l)
          else if l.length == l.limit
          then (full, l)
          else (appended, append l c))
        (put l.limit text c)
Agree-put l text c h =
    let same : (length text == l.limit) ≡ (l.length == l.limit) =
      ap (λ n. n == l.limit) (sym h.size) in
    rw same (
      Agree-if l.limit (ltb c 0x20 || ltb 0x7e c) (λ e. (refl, h, refl))
        (λ shown.
          Agree-if l.limit (l.length == l.limit) (λ e. (refl, h, refl))
            (λ room.
              let below : length text < l.limit = ground (arith, h.size, h.within) in
              (refl, Holds-append l c text h below (ground arith, ground arith), refl))))

-- On a line that holds a text, the answer to a key and the new line agree with what the key does to
-- the text: the editor is a stack of at most `limit` printable characters, newest first, in
-- which a tab is a space, backspace pops, newline and return submit, other controls are ignored and
-- a character for a full stack is refused. The array keeps the text with NULs behind it, and the
-- limit stays.
pub shell_line_feed-edit :
    (l : ShellLine) (text : List ℕ) (c : ℕ)
    → Holds l text
    → Agree l.limit (shell_line_feed l c) (edit l.limit text c)
unfolding shell_line_feed edit
shell_line_feed-edit l text c h =
    Agree-if l.limit (c == 10 || c == 13) (λ e. (refl, h, refl))
      (λ e.
        Agree-if l.limit (c == 8) (λ e'. Agree-erase l text h)
          (λ e'. Agree-put l text (if c == 9 then 32 else c) h))

unfoldable pub feed_all : ShellLine → List ℕ → List ShellEdit × ShellLine
unfolding shell_line_feed
feed_all l [] = ([], l)
feed_all l (c ∷ keys) =
    let (answer, next) = shell_line_feed l c in
    let (answers, last) = feed_all next keys in (answer ∷ answers, last)

unfoldable pub edit_all : ℕ → List ℕ → List ℕ → List ShellEdit × List ℕ
unfolding edit
edit_all limit text [] = ([], text)
edit_all limit text (c ∷ keys) =
    let (answer, next) = edit limit text c in
    let (answers, last) = edit_all limit next keys in (answer ∷ answers, last)

-- The characters before the first NUL
unfoldable pub c_string : List ℕ → List ℕ
c_string [] = []
c_string (c ∷ rest) = let more = c_string rest in if c == 0 then [] else c ∷ more

c_string_shown : (c : ℕ) (rest : List ℕ) → IsShown c → c_string (c ∷ rest) ≡ c ∷ c_string rest
unfolding c_string
c_string_shown c rest h = ground (arith, h.0)

c_string-laid :
    (text rest : List ℕ) → All IsShown text → c_string (laid text rest) ≡ laid text (c_string rest)
c_string-laid [] rest h = refl
c_string-laid (c ∷ text) rest h =
    let here : c_string (c ∷ rest) ≡ c ∷ c_string rest = c_string_shown c rest h.0 in
    c_string-laid text (c ∷ rest) h.1 ∙ ap (laid text) here

feed_all-edit_all :
    (keys : List ℕ) (l : ShellLine) (text : List ℕ)
    → Holds l text
    → ((feed_all l keys).0 ≡ (edit_all l.limit text keys).0)
      × Holds (feed_all l keys).1 (edit_all l.limit text keys).1
unfolding feed_all edit_all
feed_all-edit_all [] l text h = (refl, h)
feed_all-edit_all (c ∷ keys) l text h =
    let (answer, holds, limit) = shell_line_feed-edit l text c h in
    let rest = feed_all-edit_all keys (shell_line_feed l c).1 (edit l.limit text c).1 holds in
    let (answers, last) = rw limit at rest in (rw (answer, answers) refl, last)

shell_line_init-Holds : (limit : ℕ) → Holds (shell_line_init limit) []
unfolding shell_line_init
shell_line_init-Holds limit = record {
  bytes_are = refl;
  size = refl;
  within = omega arith;
  bound = ground arith;
  shown = tt;
}

limit_is : (limit : ℕ) → (shell_line_init limit).limit ≡ min limit 127
unfolding shell_line_init
limit_is limit = ground arith

-- The text of a line as a C string.
string-Holds : (l : ShellLine) (text : List ℕ) → Holds l text → c_string l.bytes ≡ laid text []
unfolding c_string
string-Holds l text h =
    let some_left : line_capacity - length text ≡ suc (line_capacity - suc (length text)) =
      omega (arith, h.within, h.bound) in
    rw (h.bytes_are, some_left)
      (c_string-laid text (0 ∷ replicate (line_capacity - suc (length text)) 0) h.shown)

-- On a line that was just initialized, the answers to every sequence of keys are those of the
-- editor that starts with no text and has the limit, but at most 127; at the end, the array holds
-- the editor's text, with NULs up to its end, so the text is the C string in it.
pub feed_all-shell_line_init :
    (limit : ℕ) (keys : List ℕ)
    → ((feed_all (shell_line_init limit) keys).0 ≡ (edit_all (min limit 127) [] keys).0)
      × Holds (feed_all (shell_line_init limit) keys).1 (edit_all (min limit 127) [] keys).1
      × (c_string (feed_all (shell_line_init limit) keys).1.bytes
          ≡ laid (edit_all (min limit 127) [] keys).1 [])
feed_all-shell_line_init limit keys =
    let (answers, holds) =
      simp (limit_is limit) at
        (feed_all-edit_all keys (shell_line_init limit) [] (shell_line_init-Holds limit)) in
    (
      answers,
      holds,
      string-Holds (feed_all (shell_line_init limit) keys).1 (edit_all (min limit 127) [] keys).1
          holds,
    )
