-- ===== src/Text/Words.antt =====
-- What the program uses of Python's `str.split`, `in` on texts, `str.lower` and `int()` of a text.
-- Texts are taken to be ASCII where spaces and letters are told apart.
use perfrunner.Prelude.{
  ℕ, ◌+◌, ◌-◌, ◌*◌, Bool, true, false, ◌&&◌, ◌||◌, List, [], ◌∷◌, Result, ok, err, value_error,
  ◌>>=◌, leb, ◌==◌, if◌then◌else◌,
}
use perfrunner.Prelude.Int.{ℤ, pos, ◌-ℤ◌}
use perfrunner.Text.{Text, eq_text}

abbrev pub is_space : ℕ → Bool
is_space c = (c == 32) || (leb 9 c && leb c 13) || (leb 28 c && leb c 31)

abbrev pub on_head : ℕ → List Text → List Text
on_head c [] = (c ∷ []) ∷ []
on_head c (w ∷ ws) = (c ∷ w) ∷ ws

-- The pieces between the characters that satisfy `sep`: one more than there are such characters.
unfoldable pub pieces : (ℕ → Bool) → Text → List Text
pieces sep [] = [] ∷ []
pieces sep (c ∷ t) = let rest = pieces sep t in if sep c then [] ∷ rest else on_head c rest

-- t.split(c)
unfoldable pub split_on : ℕ → Text → List Text
unfolding pieces
split_on c t = pieces (λ d. d == c) t

abbrev pub drop_empty : List Text → List Text
drop_empty [] = []
drop_empty ([] ∷ ws) = drop_empty ws
drop_empty ((c ∷ w) ∷ ws) = (c ∷ w) ∷ drop_empty ws

-- t.split()
unfoldable pub split : Text → List Text
unfolding pieces
split t = drop_empty (pieces is_space t)

abbrev pub starts_with : Text → Text → Bool
starts_with [] t = true
starts_with (c ∷ p) [] = false
starts_with (c ∷ p) (d ∷ t) = c == d && starts_with p t

-- `p in t` for texts
unfoldable pub is_infix : Text → Text → Bool
is_infix p [] = starts_with p []
is_infix p (d ∷ t) = starts_with p (d ∷ t) || is_infix p t

-- `x in ts` for a list of texts
unfoldable pub is_member : Text → List Text → Bool
is_member x [] = false
is_member x (t ∷ ts) = eq_text x t || is_member x ts

abbrev pub lower_char : ℕ → ℕ
lower_char c = if leb b'A' c && leb c b'Z' then c + 32 else c

unfoldable pub lower : Text → Text
lower [] = []
lower (c ∷ t) = lower_char c ∷ lower t

abbrev pub strip_left : Text → Text
strip_left [] = []
strip_left (c ∷ t) = let rest = strip_left t in if is_space c then rest else c ∷ t

abbrev all_spaces : Text → Bool
all_spaces [] = true
all_spaces (c ∷ t) = is_space c && all_spaces t

abbrev is_digit : ℕ → Bool
is_digit c = leb b'0' c && leb c b'9'

-- The decimal digits of `int()` behind `acc`: an underscore stands between two digits, and white
-- space may follow; `after` tells that a digit stands in front.
unfoldable pub read_int : Bool → ℕ → Text → Result ℕ
read_int true acc [] = ok acc
read_int false acc [] = err value_error
read_int true acc (c ∷ t) =
    let digit_next = read_int true (acc * 10 + (c - b'0')) t in
    let underscore_next = read_int false acc t in
    if is_digit c
    then digit_next
    else if c == b'_'
    then underscore_next
    else if all_spaces (c ∷ t)
    then ok acc
    else err value_error
read_int false acc (c ∷ t) =
    let digit_next = read_int true (acc * 10 + (c - b'0')) t in
    if is_digit c then digit_next else err value_error

abbrev signed : Text → Result ℤ
signed [] = err value_error
signed (c ∷ t) =
    if c == b'-'
    then (read_int false 0 t >>= λ n. ok (pos 0 -ℤ pos n))
    else if c == b'+'
    then (read_int false 0 t >>= λ n. ok (pos n))
    else (read_int false 0 (c ∷ t) >>= λ n. ok (pos n))

-- int(t)
unfoldable pub parse_int : Text → Result ℤ
unfolding read_int
parse_int t = signed (strip_left t)
