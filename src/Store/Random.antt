-- ===== src/Store/Random.antt =====
-- newToken and mustToken of internal/store/locks.go: 16 random bytes in hexadecimal.
use agentpeek.Common.{ℕ, suc, ◌+◌, ◌-◌, ◌/◌, ◌%◌, [], ◌∷◌, ltb, if◌then◌else◌, Bytes}
use agentpeek.Store.Db.{rand}
use agentpeek.Store.Exec.{M, bytes, no_entropy, ok, err}

hex_digit : ℕ → ℕ
hex_digit d = if ltb d 10 then b'0' + d else b'a' + (d - 10)

-- hex.EncodeToString
unfoldable pub hex : Bytes → Bytes
unfolding hex_digit
hex [] = []
hex (b ∷ bs) = hex_digit (b / 16) ∷ hex_digit (b % 16) ∷ hex bs

-- func newToken() (string, error)
unfoldable pub new_token : M Bytes
new_token w = elim (w.entropy w.draws) [
  | bytes b ↦ ok (hex b) (record w { draws = suc w.draws })
  | no_entropy e ↦ err (rand e) (record w { draws = suc w.draws })
]
