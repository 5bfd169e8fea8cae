-- ===== src/Cli/Text.antt =====
-- The text helpers of internal/cli/status.go: %d, truncate and humanDur.
pub mod Durations
use agentpeek.Common.{
  ℕ, zero, suc, ◌+◌, ◌-◌, ◌/◌, ◌%◌, ◌==◌, ℤ, pos, negsuc, Bool, true, false, ◌&&◌, ◌||◌, not, List,
  [], ◌∷◌, ◌++◌, if◌then◌else◌, leb, ltb, Bytes, str, length,
}

-- A numeral in front of a text; the fuel is at least the number.
numeral : ℕ → ℕ → Bytes → Bytes
numeral zero n rest = (b'0' + n % 10) ∷ rest
numeral (suc fuel) n rest = elim (ltb n 10) [
  | true ↦ (b'0' + n) ∷ rest
  | false ↦ numeral fuel (n / 10) ((b'0' + n % 10) ∷ rest)
]

-- %d of a number that is not negative
unfoldable pub decimal : ℕ → Bytes
unfolding numeral
decimal n = numeral n n []

-- %d
unfoldable pub decimal_int : ℤ → Bytes
unfolding decimal
decimal_int (pos n) = decimal n
decimal_int (negsuc n) = b'-' ∷ decimal (suc n)

-- The characters — and … in UTF-8.
abbrev pub dash : Bytes
dash = 226 ∷ 128 ∷ 148 ∷ []

abbrev pub ellipsis : Bytes
ellipsis = 226 ∷ 128 ∷ 166 ∷ []

-- A byte that may continue a rune.
continues : Bytes → Bool
continues [] = false
continues (c ∷ s) = leb 128 c && leb c 191

drop_one : Bytes → Bytes
drop_one [] = []
drop_one (c ∷ s) = s

-- Whether the next byte lies in a range.
next_in : ℕ → ℕ → Bytes → Bool
next_in lo hi [] = false
next_in lo hi (c ∷ s) = leb lo c && leb c hi

-- How many bytes after the first one the rune at the head of a text has; 0 also where the text is no
-- valid UTF-8.
tail_length : ℕ → Bytes → ℕ
unfolding next_in continues drop_one
tail_length c s =
    let two = continues (drop_one s) in
    let three = two && continues (drop_one (drop_one s)) in
    if leb 194 c && leb c 223 && next_in 128 191 s
    then 1
    else if (c == 224) && next_in 160 191 s && two
    then 2
    else if leb 225 c && leb c 239 && not (c == 237) && next_in 128 191 s && two
    then 2
    else if (c == 237) && next_in 128 159 s && two
    then 2
    else if (c == 240) && next_in 144 191 s && three
    then 3
    else if leb 241 c && leb c 243 && next_in 128 191 s && three
    then 3
    else if (c == 244) && next_in 128 143 s && three
    then 3
    else 0

take : ℕ → Bytes → Bytes
take zero s = []
take (suc n) [] = []
take (suc n) (c ∷ s) = c ∷ take n s

-- U+FFFD for a byte that starts no rune, else the bytes of the rune.
rune_bytes : ℕ → Bytes → Bytes
unfolding tail_length take
rune_bytes c s =
    let n = tail_length c s in if (n == 0) && leb 128 c then 239 ∷ 191 ∷ 189 ∷ [] else c ∷ take n s

-- []rune(s), each rune as string(r) gives it back. The first argument counts the bytes that the last
-- rune has left over.
unfoldable pub runes : ℕ → Bytes → List Bytes
unfolding rune_bytes tail_length
runes skip [] = []
runes zero (c ∷ s) = rune_bytes c s ∷ runes (tail_length c s) s
runes (suc skip) (c ∷ s) = runes skip s

-- string(r)
unfoldable pub concat : List Bytes → Bytes
concat [] = []
concat (b ∷ bs) = b ++ concat bs

first : ℕ → List Bytes → List Bytes
first zero rs = []
first (suc n) [] = []
first (suc n) (r ∷ rs) = r ∷ first n rs

-- func truncate
unfoldable pub truncate : Bytes → ℕ → Bytes
unfolding first
truncate s max_runes =
    let r = runes 0 s in
    if leb (length r) max_runes
    then s
    else if leb max_runes 1
    then ellipsis
    else concat (first (max_runes - 1) r) ++ ellipsis

-- fmt.Sprintf with %d, a unit, and the next part.
abbrev part : ℕ → ℕ → Bytes → Bytes
part n unit rest = decimal n ++ unit ∷ rest

-- func humanDur
unfoldable pub human_dur : ℤ → Bytes
human_dur (negsuc n) = str "0s"
human_dur (pos seconds) =
    let d = seconds / 86400 in
    let h = seconds % 86400 / 3600 in
    let m = seconds % 3600 / 60 in
    let s = seconds % 60 in
    if leb seconds 0
    then str "0s"
    else if ltb 0 d
    then if ltb 0 h then part d b'd' (part h b'h' []) else part d b'd' []
    else if ltb 0 h
    then if ltb 0 m then part h b'h' (part m b'm' []) else part h b'h' []
    else if ltb 0 m
    then if ltb 0 s then part m b'm' (part s b's' []) else part m b'm' []
    else part s b's' []
