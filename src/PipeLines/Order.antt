-- ===== src/PipeLines/Order.antt =====
-- The parent of socket/epoll/pipe/pipe.cpp reads line by line what the child has written.
use codespaces_blank.Prelude.{
  ℕ, zero, suc, ◌+◌, ◌%◌, ◌≡◌, refl, sym, ap, ap₂, ◌∙◌, List, [], ◌∷◌, ◌++◌, length, take, drop,
  arith, append_assoc,
}
use codespaces_blank.PipeLines.{
  maxline, fill, next_char, fill_lines, Channel, opening, Step, writes, reads, Reach, here, next,
}

-- The line of a character.
abbrev pub line : ℕ → List ℕ
line ch = ch ∷ ch ∷ ch ∷ ch ∷ 10 ∷ []

-- The character of line number `k`: from 'a' on, as a byte.
abbrev pub letter : ℕ → ℕ
letter k = (97 + k) % 256

-- The `n` lines from number `k` on.
abbrev pub lines : (n k : ℕ) → List ℕ
lines zero k = []
lines (suc n) k = line (letter k) ++ lines n (k + 1)

fill_lines_lem :
    (ch : ℕ) (buf : List ℕ)
    → length buf ≡ maxline
    → (fill_lines ch buf).0 ≡ line ch ++ line (next_char ch)
unfolding fill_lines fill
fill_lines_lem ch [] e = absurd (omega (arith, e))
fill_lines_lem ch (a ∷ []) e = absurd (omega (arith, e))
fill_lines_lem ch (a ∷ b ∷ []) e = absurd (omega (arith, e))
fill_lines_lem ch (a ∷ b ∷ c ∷ []) e = absurd (omega (arith, e))
fill_lines_lem ch (a ∷ b ∷ c ∷ d ∷ []) e = absurd (omega (arith, e))
fill_lines_lem ch (a ∷ b ∷ c ∷ d ∷ f ∷ []) e = absurd (omega (arith, e))
fill_lines_lem ch (a ∷ b ∷ c ∷ d ∷ f ∷ g ∷ []) e = absurd (omega (arith, e))
fill_lines_lem ch (a ∷ b ∷ c ∷ d ∷ f ∷ g ∷ h ∷ []) e = absurd (omega (arith, e))
fill_lines_lem ch (a ∷ b ∷ c ∷ d ∷ f ∷ g ∷ h ∷ i ∷ []) e = absurd (omega (arith, e))
fill_lines_lem ch (a ∷ b ∷ c ∷ d ∷ f ∷ g ∷ h ∷ i ∷ j ∷ []) e = absurd (omega (arith, e))
fill_lines_lem ch (a ∷ b ∷ c ∷ d ∷ f ∷ g ∷ h ∷ i ∷ j ∷ k ∷ []) e = refl
fill_lines_lem ch (a ∷ b ∷ c ∷ d ∷ f ∷ g ∷ h ∷ i ∷ j ∷ k ∷ l ∷ xs) e = absurd (omega (arith, e))

next_letter : (k : ℕ) → next_char (letter k) ≡ letter (k + 1)
next_letter k = omega arith

-- A line at the end.
lines-snoc : (n k : ℕ) → lines n k ++ line (letter (k + n)) ≡ lines (suc n) k
lines-snoc zero k = ap (λ m. line (letter m)) (omega arith)
lines-snoc (suc n) k =
    ap (λ l. line (letter k) ++ l)
      (ap (λ m. lines n (k + 1) ++ line (letter m)) (omega arith) ∙ lines-snoc n (k + 1))

-- `r` lines are read, and `q` lines are in the pipe.
pub record AtLines (s : Channel) (r q : ℕ) : Type 0 where
  pub size : length s.buf ≡ maxline
  pub char : s.ch ≡ letter (r + q)
  pub printed : s.output ≡ lines r 0
  pub waiting : s.pipe ≡ lines q r

fill_lines_char : (ch : ℕ) (buf : List ℕ) → (fill_lines ch buf).1 ≡ next_char (next_char ch)
unfolding fill_lines
fill_lines_char ch buf = refl

step-AtLines :
    {s t : Channel} (r q : ℕ) → AtLines s r q → Step s t → (r' : ℕ) × (q' : ℕ) × AtLines t r' q'
step-AtLines {s} r q v writes = (
  r,
  suc (suc q),
  record {
    size = ap length filled;
    char =
        fill_lines_char s.ch s.buf
        ∙ ap (λ c. next_char (next_char c)) v.char
        ∙ ap next_char (next_letter (r + q))
        ∙ next_letter (r + q + 1)
        ∙ ap letter (omega arith);
    printed = v.printed;
    waiting =
        ap₂ ◌++◌ v.waiting (
          filled ∙ ap₂ (λ c d. line c ++ line d) v.char (ap next_char v.char ∙ next_letter (r + q)))
        ∙ sym (append_assoc (lines q r) (line (letter (r + q))) (line (letter (r + q + 1))))
        ∙ ap (λ l. l ++ line (letter (r + q + 1))) (lines-snoc q r)
        ∙ ap (λ m. lines (suc q) r ++ line (letter m)) (omega arith)
        ∙ lines-snoc (suc q) r;
  },
)
  where
    filled : (fill_lines s.ch s.buf).0 ≡ line s.ch ++ line (next_char s.ch)
    filled = fill_lines_lem s.ch s.buf v.size
step-AtLines {s} r zero v (reads h) = absurd (omega (arith, ap length v.waiting))
step-AtLines {s} r (suc q) v (reads h) = (
  suc r,
  q,
  record {
    size = v.size;
    char = v.char ∙ ap letter (omega arith);
    printed =
        ap₂ ◌++◌ v.printed (ap (take 5) v.waiting)
        ∙ ap (λ m. lines r 0 ++ line (letter m)) (omega arith)
        ∙ lines-snoc r 0;
    waiting = ap (drop 5) v.waiting ∙ ap (lines q) (omega arith);
  },
)

-- However `write` and `read` alternate, and whatever was in the child's buffer: the output of the
-- parent is the first lines in their order, each whole, line `k` being four times character
-- `(97 + k) % 256` and a newline, and in the pipe are the next ones.
pub output_is_lines :
    (buf : List ℕ) (s : Channel)
    → length buf ≡ maxline
    → Reach (opening buf) s
    → (r : ℕ) × (q : ℕ) × (s.output ≡ lines r 0) × (s.pipe ≡ lines q r)
output_is_lines buf s e p = let (r, q, v) = at_lines p in (r, q, v.printed, v.waiting)
  where
    at_lines : {t : Channel} → Reach (opening buf) t → (r : ℕ) × (q : ℕ) × AtLines t r q
    at_lines here = (0, 0, record { size = e; char = refl; printed = refl; waiting = refl })
    at_lines (next p x) = let (r, q, v) = at_lines p in step-AtLines r q v x
