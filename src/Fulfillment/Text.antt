-- ===== src/Fulfillment/Text.antt =====
-- `str(value).lower()` of a JSON value, as code points: ASCII letters are lowered.
use Prim.Native.Char.{code}
use edx_enterprise_subsidy.Common.{
  ℕ, zero, suc, ◌+◌, ◌/◌, ◌%◌, String, ◌&&◌, true, false, List, [], ◌∷◌, ◌++◌, leb, ltb,
  if◌then◌else◌,
}
use edx_enterprise_subsidy.Schema.Ledger.{Json}

abbrev lower : ℕ → ℕ
lower c = if leb b'A' c && leb c b'Z' then c + 32 else c

abbrev lower_codes : String → List ℕ
lower_codes String.[] = []
lower_codes (String.◌∷◌ c s) = lower (code c) ∷ lower_codes s

-- the decimal digits of `n`, of which there are fewer than `n + 2`
decimal : ℕ → ℕ → List ℕ
decimal zero n = []
decimal (suc fuel) n =
    let front = decimal fuel (n / 10) in
    let digit = b'0' + n % 10 in if ltb n 10 then digit ∷ [] else front ++ digit ∷ []

pub python_lower : Json → List ℕ
unfolding decimal
python_lower Json.null = lower_codes "none"
python_lower (Json.bool true) = lower_codes "true"
python_lower (Json.bool false) = lower_codes "false"
python_lower (Json.number n) = decimal (n + 1) n
python_lower (Json.text s) = lower_codes s
