-- ===== src/PipeEcho/Discloses.antt =====
-- What the child of IPC/PIPE.cpp prints.
use mathlib.Core.Option
use codespaces_blank.Prelude.{
  ℕ, ◌≤◌, ◌≡◌, ◌≢◌, refl, ap, ◌∙◌, List, [], ◌∷◌, ◌++◌, append-nil, Option, none, some, arith,
  length, drop, length-drop, length-append,
}
use codespaces_blank.PipeEcho.{until_zero, read_into, pipe_echo}

abbrev pub NoZero : List ℕ → Type 0
NoZero [] = Unit
NoZero (b ∷ bs) = (b ≢ 0) × NoZero bs

map-append_nil : (o : Option (List ℕ)) → o ≡ Option.map (λ t. [] ++ t) o
map-append_nil none = refl
map-append_nil (some t) = refl

until_zero-append :
    (xs ys : List ℕ) → NoZero xs → until_zero (xs ++ ys) ≡ Option.map (λ t. xs ++ t) (until_zero ys)
unfolding until_zero
until_zero-append [] ys h = map-append_nil (until_zero ys)
until_zero-append (x ∷ xs) ys h = ground (arith, until_zero-append xs ys h.1, h.0)

drop_all : (n : ℕ) (xs : List ℕ) → length xs ≤ n → drop n xs ≡ []
drop_all n xs h = by_length (drop n xs) (omega (arith, length-drop n xs))
  where
    by_length : (ys : List ℕ) → length ys ≡ 0 → ys ≡ []
    by_length [] e = refl
    by_length (y ∷ ys) e = absurd (omega arith)

-- Where both arrays have 100 bytes, the terminal gives a line of at most that length, with no byte
-- 0 in it: the child prints the line, and then what was in the parent's array behind it, up to the
-- first 0; and where there is none it reads behind its array.
pub echo_discloses :
    (parent_buf child_buf line : List ℕ)
    → length parent_buf ≡ 100
    → length child_buf ≡ 100
    → length line ≤ 100
    → NoZero line
    → pipe_echo parent_buf child_buf (some line)
      ≡ Option.map (λ t. line ++ t) (until_zero (drop (length line) parent_buf))
unfolding pipe_echo read_into
echo_discloses parent_buf child_buf line p c l z =
    let sent = line ++ drop (length line) parent_buf in
    let full : drop (length sent) child_buf ≡ [] = drop_all (length sent) child_buf (
      omega (
        arith,
        length-append line (drop (length line) parent_buf),
        length-drop (length line) parent_buf,
      )) in
    ap (λ k. until_zero (sent ++ k)) full
    ∙ ap until_zero (append-nil sent)
    ∙ until_zero-append line (drop (length line) parent_buf) z
