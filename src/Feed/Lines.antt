-- ===== src/Feed/Lines.antt =====
-- sentinel_feed.c: the scan for line ends. The source runs `memchr (p, '\n', ...)` in each pass;
-- here a buffer is cut once, into lines that know whether a line end followed.
use nginx_http_sentinel_modu.Prelude.{
  ℕ, ◌≡◌, refl, ap, ◌∙◌, Bool, true, false, List, [], ◌∷◌, ◌++◌, Option, none, some, ◌==◌,
  if◌then◌else◌, Bytes, Bool-cases, inl, inr, ==_iff, codes, ◌&&◌, leb, length, strncmp_eq,
}

pub record Line : Type 0 where
  pub text : Bytes
  pub ended : Bool

abbrev newline : ℕ
newline = 10

-- One more byte in front of the first line.
abbrev cons_byte : ℕ → List Line → List Line
cons_byte c [] = record { text = c ∷ []; ended = false } ∷ []
cons_byte c (l ∷ ls) = record l { text = c ∷ l.text } ∷ ls

unfoldable pub split_lines : Bytes → List Line
split_lines [] = []
split_lines (c ∷ cs) =
    let rest = split_lines cs in
    if c == newline then record { text = []; ended = true } ∷ rest else cons_byte c rest

-- The bytes of a run of lines.
unfoldable pub line_bytes : List Line → Bytes
line_bytes [] = []
line_bytes (l ∷ ls) = l.text ++ (if l.ended then newline ∷ line_bytes ls else line_bytes ls)

abbrev pub eof_mark : Bytes
eof_mark = codes "%%EOF "

-- `ll >= 6 && ngx_strncmp (q, "%%EOF ", 6) == 0`
unfoldable pub is_trailer : Bytes → Bool
is_trailer t = leb 6 (length t) && strncmp_eq t eof_mark 6

-- The search for the trailer: the lines before it, and its text.
unfoldable pub find_trailer : List Line → Option (List Line × Bytes)
find_trailer [] = none
find_trailer (l ∷ ls) =
    let rest = find_trailer ls in
    if is_trailer l.text
    then some ([], l.text)
    else elim rest [ none ↦ none | some (body, t) ↦ some (l ∷ body, t) ]

cons_byte-bytes : (c : ℕ) (ls : List Line) → line_bytes (cons_byte c ls) ≡ c ∷ line_bytes ls
unfolding line_bytes
cons_byte-bytes c [] = refl
cons_byte-bytes c (l ∷ ls) = refl

-- Cutting a buffer into lines loses nothing: joining them gives the buffer again.
split_lines_join : (b : Bytes) → line_bytes (split_lines b) ≡ b
unfolding split_lines line_bytes
split_lines_join [] = refl
split_lines_join (c ∷ cs) = elim (Bool-cases (c == newline)) [
  | inl e ↦ rw (e, split_lines_join cs, (==_iff c newline).0 e)
  | inr e ↦ rw e (cons_byte-bytes c (split_lines cs) ∙ ap (◌∷◌ c) (split_lines_join cs))
]
