-- ===== src/Base/Decimal.antt =====
-- `%d` of Go's fmt, for an `int`.
use Prim.Native.Nat.{ℕ, zero, suc, ◌/◌, ◌%◌}
use Prim.Native.Char.{Char}
use Prim.Native.String.{String, [], ◌∷◌}
use bunmq.Base.Tests.{if◌then◌else◌, ltb}
use bunmq.Base.Int.{ℤ, pos, negsuc}

-- The character at a place of a text, and `c` past its end.
char_at : String → ℕ → Char → Char
char_at [] n c = c
char_at (d ∷ s) zero c = d
char_at (d ∷ s) (suc n) c = char_at s n c

-- The digits of `n` before a text; each round takes the last one, so suc n rounds are enough.
digits_from : (rounds : ℕ) → ℕ → String → String
unfolding char_at
digits_from zero n s = s
digits_from (suc k) n s =
    let longer = char_at "0123456789" (n % 10) "x" ∷ s in
    let rest = digits_from k (n / 10) longer in if ltb n 10 then longer else rest

unfoldable pub decimal : ℤ → String
unfolding digits_from
decimal (pos n) = digits_from (suc n) n ""
decimal (negsuc n) = "-" ∷ digits_from (suc (suc n)) (suc n) ""
