-- ===== src/Cli/Text/Durations.antt =====
-- The texts of humanDur in internal/cli/status.go, read back.
use agentpeek.Common.{
  ℕ, zero, suc, ◌+◌, ◌-◌, ◌*◌, ◌/◌, ◌%◌, ◌==◌, ◌≤◌, ◌<◌, pos, ◌≡◌, refl, ap, ◌∙◌, Bool, true, false,
  [], ◌∷◌, ◌++◌, arith, if◌then◌else◌, ltb, Bytes, str,
}
use agentpeek.Cli.Text.{numeral, decimal, human_dur}

-- The seconds of a unit, 0 for a digit.
abbrev unit_seconds : ℕ → ℕ
unit_seconds c =
    if c == b'd'
    then 86400
    else if c == b'h'
    then 3600
    else if c == b'm'
    then 60
    else if c == b's'
    then 1
    else 0

-- The seconds of a text like 2d3h, behind a number and a sum.
read_on : ℕ → ℕ → Bytes → ℕ
read_on n sum [] = sum
read_on n sum (c ∷ s) = elim (unit_seconds c) [
  | zero ↦ read_on (n * 10 + (c - b'0')) sum s
  | suc u ↦ read_on 0 (sum + n * suc u) s
]

unfoldable pub read_dur : Bytes → ℕ
unfolding read_on
read_dur s = read_on 0 0 s

read_digit :
    (n sum d : ℕ) (s : Bytes) → d < 10 → read_on n sum ((b'0' + d) ∷ s) ≡ read_on (n * 10 + d) sum s
unfolding read_on
read_digit n sum d s h = ground arith

read_numeral :
    (fuel n sum : ℕ) (s : Bytes) → n ≤ fuel → read_on 0 sum (numeral fuel n s) ≡ read_on n sum s
unfolding numeral
read_numeral zero n sum s h =
    read_digit 0 sum (n % 10) s (omega arith) ∙ ap (λ k. read_on k sum s) (omega arith)
read_numeral (suc fuel) n sum s h =
    split (ltb n 10) refl (read_numeral fuel (n / 10) sum _ (omega arith))
  where
    split :
        (b : Bool)
        → ltb n 10 ≡ b
        → read_on 0 sum (numeral fuel (n / 10) ((b'0' + n % 10) ∷ s))
          ≡ read_on (n / 10) sum ((b'0' + n % 10) ∷ s)
        → read_on 0 sum
            (elim b [ true ↦ (b'0' + n) ∷ s | false ↦ numeral fuel (n / 10) ((b'0' + n % 10) ∷ s) ])
          ≡ read_on n sum s
    split true eq again =
        read_digit 0 sum n s (ground arith) ∙ ap (λ k. read_on k sum s) (omega arith)
    split false eq again =
        again
        ∙ (read_digit (n / 10) sum (n % 10) s (omega arith)
            ∙ ap (λ k. read_on k sum s) (omega arith))

numeral-append : (fuel n : ℕ) (s t : Bytes) → numeral fuel n s ++ t ≡ numeral fuel n (s ++ t)
unfolding numeral
numeral-append zero n s t = refl
numeral-append (suc fuel) n s t = split (ltb n 10) (numeral-append fuel (n / 10) _ t)
  where
    split :
        (b : Bool)
        → numeral fuel (n / 10) ((b'0' + n % 10) ∷ s) ++ t
          ≡ numeral fuel (n / 10) ((b'0' + n % 10) ∷ (s ++ t))
        → elim b [ true ↦ (b'0' + n) ∷ s | false ↦ numeral fuel (n / 10) ((b'0' + n % 10) ∷ s) ]
            ++ t
          ≡ elim b [
            | true ↦ (b'0' + n) ∷ (s ++ t)
            | false ↦ numeral fuel (n / 10) ((b'0' + n % 10) ∷ (s ++ t))
          ]
    split true again = refl
    split false again = again

read_decimal : (n sum : ℕ) (s : Bytes) → read_on 0 sum (decimal n ++ s) ≡ read_on n sum s
unfolding decimal
read_decimal n sum s =
    ap (read_on 0 sum) (numeral-append n n [] s) ∙ read_numeral n n sum s (omega arith)

-- A part of a text: a number and its unit.
read_part :
    (n sum unit u : ℕ) (s : Bytes)
    → unit_seconds unit ≡ suc u
    → read_on 0 sum (decimal n ++ unit ∷ s) ≡ read_on 0 (sum + n * suc u) s
unfolding read_on
read_part n sum unit u s h =
    read_decimal n sum (unit ∷ s)
    ∙ ap
        (λ v. elim v [
          | zero ↦ read_on (n * 10 + (unit - b'0')) sum s
          | suc w ↦ read_on 0 (sum + n * suc w) s
        ])
        h

-- What a text leaves out: seconds from an hour on, and minutes from a day on.
abbrev pub grain : ℕ → ℕ
grain seconds = if ltb seconds 3600 then 1 else if ltb seconds 86400 then 60 else 3600

read_zero : read_dur (str "0s") ≡ 0
unfolding read_dur
read_zero = refl

one_part :
    (n unit u : ℕ) → unit_seconds unit ≡ suc u → read_dur (decimal n ++ unit ∷ []) ≡ n * suc u
unfolding read_dur
one_part n unit u h = read_part n 0 unit u [] h ∙ omega arith

two_parts :
    (n m unit unit' u u' : ℕ)
    → unit_seconds unit ≡ suc u
    → unit_seconds unit' ≡ suc u'
    → read_dur (decimal n ++ unit ∷ (decimal m ++ unit' ∷ [])) ≡ n * suc u + m * suc u'
unfolding read_dur
two_parts n m unit unit' u u' h h' =
    read_part n 0 unit u _ h ∙ (read_part m _ unit' u' [] h' ∙ omega arith)

-- The text that humanDur gives for a number of seconds is exact below an hour, and leaves out the
-- seconds below a day, and the minutes too from there on: read back, it is the number rounded down
-- to its grain.
pub read_dur-human_dur :
    (seconds : ℕ) → read_dur (human_dur (pos seconds)) ≡ seconds - seconds % grain seconds
unfolding human_dur
read_dur-human_dur seconds =
    let d = seconds / 86400 in
    let h = seconds % 86400 / 3600 in
    let m = seconds % 3600 / 60 in
    let s = seconds % 60 in
    ground (
      arith,
      read_zero,
      two_parts d h b'd' b'h' 86399 3599 refl refl,
      one_part d b'd' 86399 refl,
      two_parts h m b'h' b'm' 3599 59 refl refl,
      one_part h b'h' 3599 refl,
      two_parts m s b'm' b's' 59 0 refl refl,
      one_part m b'm' 59 refl,
      one_part s b's' 0 refl,
    )
