-- ===== src/Response/Lines.antt =====
-- The lines of an HTTP header as a client reads them.
use uco.Prelude.{
  ℕ, ◌≡◌, refl, ap, ◌∙◌, Bool, true, false, not, ◌&&◌, ◌||◌, List, [], ◌∷◌, ◌++◌, Option, none,
  some, ◌==◌, if◌then◌else◌, arith,
}
use mathlib.Core.List.{append-nil, append_assoc}
use uco.Prelude.Bytes.{Bytes}
use uco.Prelude.Decimal.{to_string, to_string_lem, is_digit, IsDigits}

-- A strict client: a line ends at a CR with an LF behind it, and either of them alone is an error; it
-- stops at the first empty line. The lines, and what follows them.
abbrev pub end_line : Bytes → Bytes → Option (List Bytes × Bytes) → Option (List Bytes × Bytes)
end_line [] rest lines = some ([], rest)
end_line (x ∷ line) rest none = none
end_line (x ∷ line) rest (some (lines, body)) = some ((x ∷ line) ∷ lines, body)

-- With the line so far, and whether a CR came last.
unfoldable pub read_from : Bytes → Bool → Bytes → Option (List Bytes × Bytes)
read_from line after_cr [] = none
read_from line true (c ∷ s) =
    let ended = end_line line s (read_from [] false s) in if c == 10 then ended else none
read_from line false (c ∷ s) =
    let cr = read_from line true s in
    let longer = read_from (line ++ (c ∷ [])) false s in
    if c == 13 then cr else if c == 10 then none else longer

unfoldable pub read_lines : Bytes → Option (List Bytes × Bytes)
read_lines s = read_from [] false s

-- A text without CR and LF, and one that is not empty.
unfoldable pub is_clean : Bytes → Bool
is_clean [] = true
is_clean (c ∷ s) = not (c == 13 || c == 10) && is_clean s

unfoldable pub is_line : Bytes → Bool
is_line [] = false
is_line (c ∷ s) = is_clean (c ∷ s)

pub is_clean-append : (s t : Bytes) → is_clean (s ++ t) ≡ is_clean s && is_clean t
unfolding is_clean
is_clean-append [] t = refl
is_clean-append (c ∷ s) t = ground (arith, is_clean-append s t)

pub is_line-append : (s t : Bytes) → is_line s ≡ true → is_clean t ≡ true → is_line (s ++ t) ≡ true
unfolding is_line
is_line-append [] t h k = ground arith
is_line-append (c ∷ s) t h k = ground (arith, is_clean-append (c ∷ s) t)

digits_clean : (s : Bytes) → IsDigits s → is_clean s ≡ true
unfolding is_clean is_digit
digits_clean [] h = refl
digits_clean (c ∷ s) h = ground (arith, digits_clean s h.1)

pub to_string-clean : (n : ℕ) → is_clean (to_string n) ≡ true
to_string-clean n = digits_clean (to_string n) (to_string_lem n).1

read_line :
    (line t rest : Bytes)
    → is_clean t ≡ true
    → read_from line false (t ++ (13 ∷ 10 ∷ rest))
      ≡ end_line (line ++ t) rest (read_from [] false rest)
unfolding read_from is_clean
read_line line [] rest h = rw (append-nil line) refl
read_line line (c ∷ t) rest h =
    ground (arith, read_line (line ++ (c ∷ [])) t rest, append_assoc line (c ∷ []) t)

abbrev pub lines_text : List Bytes → Bytes
lines_text [] = []
lines_text (l ∷ ls) = l ++ (13 ∷ 10 ∷ lines_text ls)

unfoldable pub all_lines : List Bytes → Bool
all_lines [] = true
all_lines (l ∷ ls) = is_line l && all_lines ls

pub read_lines-text :
    (ls : List Bytes) (body : Bytes)
    → all_lines ls ≡ true
    → read_lines (lines_text ls ++ (13 ∷ 10 ∷ body)) ≡ some (ls, body)
unfolding read_lines read_from all_lines is_line
read_lines-text [] body h = refl
read_lines-text ([] ∷ ls) body h = ground arith
read_lines-text ((c ∷ l) ∷ ls) body h =
    rw (append_assoc l (13 ∷ 10 ∷ lines_text ls) (13 ∷ 10 ∷ body)) (
      read_line [] (c ∷ l) (lines_text ls ++ (13 ∷ 10 ∷ body)) (ground arith)
      ∙ ap (end_line (c ∷ l) (lines_text ls ++ (13 ∷ 10 ∷ body)))
          (read_lines-text ls body (ground arith)))
