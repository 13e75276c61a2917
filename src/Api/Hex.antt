-- ===== src/Api/Hex.antt =====
-- strconv.ParseUint(s, 16, 64) and fmt.Sprintf("%x", n), as api/auth.go and api/endpoints.go use them.
use ezproxy.Base.{
  ℕ, zero, suc, ◌+◌, ◌-◌, ◌*◌, ◌/◌, ◌%◌, ◌^◌, ◌<◌, ◌≡◌, refl, true, ◌&&◌, Option, none, some, [],
  ◌∷◌, ltb, leb, if◌then◌else◌, arith, ◌>>=◌, ◌∙◌, ap, inl, inr, Bool-cases,
}
use native.Mathlib.Nat.{pow-suc}
use ezproxy.Api.Http.{Text}

-- The value of a hexadecimal digit, in either case.
unfoldable pub digit_value : ℕ → Option ℕ
digit_value c =
    if leb b'0' c && leb c b'9'
    then some (c - b'0')
    else if leb b'a' c && leb c b'f'
    then some (c - b'a' + 10)
    else if leb b'A' c && leb c b'F'
    then some (c - b'A' + 10)
    else none

unfoldable pub parse_digits : ℕ → Text → Option ℕ
unfolding digit_value
parse_digits n [] = some n
parse_digits n (c ∷ cs) = digit_value c >>= λ d. parse_digits (n * 16 + d) cs

abbrev fits : ℕ → Option ℕ
fits n = if ltb n 0x1_0000_0000_0000_0000 then some n else none

-- No digit at all, a character that is none, and a value of 2^64 or more are errors.
unfoldable pub parse_uint : Text → Option ℕ
unfolding parse_digits
parse_uint [] = none
parse_uint (c ∷ cs) = parse_digits 0 (c ∷ cs) >>= fits

unfoldable pub digit_char : ℕ → ℕ
digit_char d = if ltb d 10 then b'0' + d else b'a' + d - 10

-- The digits of n, in front of those that follow; as many as the first argument allows.
unfoldable pub print_digits : ℕ → ℕ → Text → Text
unfolding digit_char
print_digits zero n acc = acc
print_digits (suc f) n acc =
    let more = print_digits f (n / 16) (digit_char (n % 16) ∷ acc) in
    if ltb n 16 then digit_char n ∷ acc else more

-- A uint64 has at most 16 digits.
unfoldable pub print_hex : ℕ → Text
print_hex n = print_digits 16 n []

digit_round_trip : (d : ℕ) → d < 16 → digit_value (digit_char d) ≡ some d
unfolding digit_value digit_char
digit_round_trip d l = ground arith

parse_digits-cons :
    (v d : ℕ) (acc : Text)
    → d < 16
    → parse_digits v (digit_char d ∷ acc) ≡ parse_digits (v * 16 + d) acc
unfolding parse_digits
parse_digits-cons v d acc l = rw (digit_round_trip d l) refl

one_digit : (n : ℕ) (acc : Text) → n < 16 → parse_digits 0 (digit_char n ∷ acc) ≡ parse_digits n acc
one_digit n acc l =
    let same : 0 * 16 + n ≡ n = omega arith in
    parse_digits-cons 0 n acc l ∙ ap (λ v. parse_digits v acc) same

last_digit :
    (n : ℕ) (acc : Text) → parse_digits (n / 16) (digit_char (n % 16) ∷ acc) ≡ parse_digits n acc
last_digit n acc =
    let same : n / 16 * 16 + n % 16 ≡ n = omega arith in
    parse_digits-cons (n / 16) (n % 16) acc (omega arith) ∙ ap (λ v. parse_digits v acc) same

-- Reading the digits of n, with more to follow.
parse_digits-print_digits :
    (f n : ℕ) (acc : Text)
    → n < 16 ^ suc f
    → parse_digits 0 (print_digits (suc f) n acc) ≡ parse_digits n acc
unfolding print_digits
parse_digits-print_digits zero n acc l =
    let d : n < 16 = omega (arith, l) in
    let small : ltb n 16 ≡ true = ground arith in rw small (one_digit n acc d)
parse_digits-print_digits (suc f) n acc l = elim (Bool-cases (ltb n 16)) [
  | inl small ↦ rw small (one_digit n acc (ground arith))
  | inr large ↦ rw large (
      parse_digits-print_digits f (n / 16) (digit_char (n % 16) ∷ acc)
        (omega (arith, pow-suc 16 (suc f)))
      ∙ last_digit n acc)
]

print_digits-cons :
    (f n : ℕ) (acc : Text) → (c : ℕ) × (cs : Text) × (print_digits (suc f) n acc ≡ c ∷ cs)
unfolding print_digits
print_digits-cons zero n acc = elim (Bool-cases (ltb n 16)) [
  | inl small ↦ (digit_char n, acc, rw small refl)
  | inr large ↦ (digit_char (n % 16), acc, rw large refl)
]
print_digits-cons (suc f) n acc = elim (Bool-cases (ltb n 16)) [
  | inl small ↦ (digit_char n, acc, rw small refl)
  | inr large ↦
      let (c, cs, e) = print_digits-cons f (n / 16) (digit_char (n % 16) ∷ acc) in
      (c, cs, rw large e)
]

parse_uint-some :
    (t : Text) (c : ℕ) (cs : Text) (n : ℕ)
    → t ≡ c ∷ cs
    → parse_digits 0 t ≡ some n
    → n < 0x1_0000_0000_0000_0000
    → parse_uint t ≡ some n
unfolding parse_uint
parse_uint-some [] c cs n e r l = absurd (cc e)
parse_uint-some (d ∷ ds) c cs n e r l =
    let small : ltb n 0x1_0000_0000_0000_0000 ≡ true = ground arith in rw r (rw small refl)

-- A 64-bit key that the server printed is read back as the same key.
pub parse_uint-print_hex : (n : ℕ) → n < 0x1_0000_0000_0000_0000 → parse_uint (print_hex n) ≡ some n
unfolding print_hex
parse_uint-print_hex n l =
    let (c, cs, e) = print_digits-cons 15 n [] in
    let read = parse_digits-print_digits 15 n [] (omega (arith, l)) in
    parse_uint-some (print_digits 16 n []) c cs n e (read ∙ unfold parse_digits in refl) l
