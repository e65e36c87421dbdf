-- ===== src/Redis/Cursor.antt =====
-- sentinel_redis_parse_cursor against the value of a decimal string.
use nginx_http_sentinel_modu.Prelude.{
  ℕ, ◌+◌, ◌-◌, ◌*◌, ◌/◌, ◌%◌, ◌^◌, ◌<◌, ◌≤◌, ◌≡◌, refl, Bool, true, false, [], ◌∷◌, ◌++◌, ltb, ◌||◌,
  if◌then◌else◌, arith, All, Bytes,
}

-- A byte that is not a digit.
abbrev no_digit : ℕ → Bool
no_digit c = ltb c b'0' || ltb b'9' c

-- The loop, from the value read so far.
unfoldable pub cursor_loop : ℕ → Bytes → ℕ
cursor_loop v [] = v
cursor_loop v (c ∷ s) =
    let rest = cursor_loop ((v * 10 + (c - b'0')) % 2 ^ 64) s in
    if no_digit c then v else if ltb ((2 ^ 64 - 1) / 10) v then 0 else rest

-- `sentinel_redis_parse_cursor`
unfoldable pub parse_cursor : Bytes → ℕ
parse_cursor s = cursor_loop 0 s

-- The number that decimal digits denote, behind the digits of `v`.
abbrev decimal_from : ℕ → Bytes → ℕ
decimal_from v [] = v
decimal_from v (c ∷ s) = decimal_from (v * 10 + (c - b'0')) s

abbrev pub decimal : Bytes → ℕ
decimal s = decimal_from 0 s

abbrev IsDigit : ℕ → Type 0
IsDigit c = no_digit c ≡ false

-- A string that starts with no digit.
abbrev EndsNumber : Bytes → Type 0
EndsNumber [] = Unit
EndsNumber (c ∷ s) = no_digit c ≡ true

decimal_from-le : (v : ℕ) (s : Bytes) → v ≤ decimal_from v s
decimal_from-le v [] = omega arith
decimal_from-le v (c ∷ s) = omega (arith, decimal_from-le (v * 10 + (c - b'0')) s)

cursor_loop_end : (v : ℕ) (t : Bytes) → EndsNumber t → cursor_loop v t ≡ v
unfolding cursor_loop
cursor_loop_end v [] e = refl
cursor_loop_end v (c ∷ t) e = ground arith

cursor_loop_digits :
    (v : ℕ) (s t : Bytes)
    → All IsDigit s
    → EndsNumber t
    → decimal_from v s < 2 ^ 64
    → cursor_loop v (s ++ t) ≡ decimal_from v s
unfolding cursor_loop
cursor_loop_digits v [] t d e h = cursor_loop_end v t e
cursor_loop_digits v (c ∷ s) t d e h =
    let v' = v * 10 + (c - b'0') in
    let le = decimal_from-le v' s in
    let same : v' % 2 ^ 64 ≡ v' = omega (arith, le, h) in
    let rest = cursor_loop_digits v' s t d.1 e h in
    let small : ltb ((2 ^ 64 - 1) / 10) v ≡ false = ground (arith, le, h) in
    rw (d.0, small, same) rest

-- A cursor that the server sends in decimal digits is read back as its number when that is below
-- 2^64, whatever follows the digits.
pub parse_cursor_lem :
    (s t : Bytes)
    → All IsDigit s
    → EndsNumber t
    → decimal s < 2 ^ 64
    → parse_cursor (s ++ t) ≡ decimal s
unfolding parse_cursor
parse_cursor_lem s t d e h = cursor_loop_digits 0 s t d e h
