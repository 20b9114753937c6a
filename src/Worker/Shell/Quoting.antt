-- ===== src/Worker/Shell/Quoting.antt =====
-- What a shell reads from a quoted prompt.
use mathlib.Core.List.{append_assoc}
use aetherium.Base.{
  ℕ, ◌≡◌, refl, inl, inr, Option, none, some, [], ◌∷◌, ◌++◌, arith, ◌==◌, if◌then◌else◌, Bool-cases,
  Text,
}
use aetherium.Worker.Shell.{escape_shell_arg, quoted}

abbrev add_byte : ℕ → Option (Text × Text) → Option (Text × Text)
add_byte c none = none
add_byte c (some (word, rest)) = some (c ∷ word, rest)

pub data Mode : Type 0 where
  outside inside escaped : Mode

-- How a POSIX shell reads one word, as far as quotes, backslashes and blanks go: within single quotes
-- each byte stands for itself, outside a backslash takes the next byte, and a blank or the end of the
-- text ends the word. The result is the word and what is left, none where a quote stays open.
unfoldable pub read_word : Mode → Text → Option (Text × Text)
read_word outside [] = some ([], [])
read_word inside [] = none
read_word escaped [] = none
read_word outside (c ∷ s) =
    let quote = read_word inside s in
    let backslash = read_word escaped s in
    let plain = add_byte c (read_word outside s) in
    if c == b'\''
    then quote
    else if c == b' '
    then some ([], c ∷ s)
    else if c == b'\\'
    then backslash
    else plain
read_word inside (c ∷ s) =
    let closed = read_word outside s in
    let more = add_byte c (read_word inside s) in if c == b'\'' then closed else more
read_word escaped (c ∷ s) = add_byte c (read_word outside s)

-- A text that is closed by a quote.
abbrev pub closed : Text → Text → Text
closed s rest = escape_shell_arg s ++ (b'\'' ∷ rest)

read_closed :
    (s rest word left : Text)
    → read_word outside rest ≡ some (word, left)
    → read_word inside (closed s rest) ≡ some (s ++ word, left)
unfolding read_word escape_shell_arg
read_closed [] rest word left e = e
read_closed (c ∷ s) rest word left e = elim (Bool-cases (c == b'\'')) [
  | inl q ↦ let same : c ≡ b'\'' = ground arith in rw (q, read_closed s rest word left e, same) refl
  | inr q ↦ rw q (rw (q, read_closed s rest word left e) refl)
]

-- A text that escapeShellArg has escaped, between single quotes, is read back by the shell byte for
-- byte, whatever it contains, and what stands behind the quotes is read as if the text was not there.
pub read_word-quoted :
    (s rest word left : Text)
    → read_word outside rest ≡ some (word, left)
    → read_word outside (quoted s ++ rest) ≡ some (s ++ word, left)
unfolding read_word
read_word-quoted s rest word left e =
    rw (append_assoc (escape_shell_arg s) (b'\'' ∷ []) rest) (read_closed s rest word left e)
