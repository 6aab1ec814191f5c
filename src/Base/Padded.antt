-- ===== src/Base/Padded.antt =====
-- `PaddedNumber` (MemoryStateStore.cpp, RouterSupport.hpp): std::setw and std::setfill('0') on a
-- decimal number.
pub mod Order
use Prim.Native.Char.{Char}
use Prim.Native.Nat.{ℕ, zero, suc, ◌-◌, ◌/◌, ◌%◌}
use Prim.Native.String.{String, count}
use styio_platform.Base.Tests.{ltb, eqb, if◌then◌else◌}

abbrev pub digit : ℕ → Char
digit zero = "0"
digit (suc zero) = "1"
digit (suc (suc zero)) = "2"
digit (suc (suc (suc zero))) = "3"
digit (suc (suc (suc (suc zero)))) = "4"
digit (suc (suc (suc (suc (suc zero))))) = "5"
digit (suc (suc (suc (suc (suc (suc zero)))))) = "6"
digit (suc (suc (suc (suc (suc (suc (suc zero))))))) = "7"
digit (suc (suc (suc (suc (suc (suc (suc (suc zero)))))))) = "8"
digit n = "9"

-- The decimal digits of `n` before `rest`; the fuel `suc n` is enough.
pub decimal_from : ℕ → ℕ → String → String
decimal_from zero n rest = rest
decimal_from (suc fuel) n rest =
    let more = decimal_from fuel (n / 10) (String.◌∷◌ (digit (n % 10)) rest) in
    if ltb n 10 then String.◌∷◌ (digit n) rest else more

unfoldable pub decimal : ℕ → String
unfolding decimal_from
decimal n = decimal_from (suc n) n String.[]

pub fill : ℕ → String → String
fill zero s = s
fill (suc k) s = fill k (String.◌∷◌ "0" s)

unfoldable pub padded_number : ℕ → ℕ → String
unfolding fill decimal
padded_number value width = fill (width - count (decimal value)) (decimal value)
