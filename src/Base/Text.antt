-- ===== src/Base/Text.antt =====
-- Byte strings from literals, decimal numerals, and the path operators of std::filesystem, with `/` as separator.
use Prim.Native.Nat.{ℕ, zero, suc, ◌+◌, ◌/◌, ◌%◌}
use Prim.Native.Char.{code}
use Prim.Native.String.{String}
use mathlib.Core.List.{[], ◌∷◌, ◌++◌}
use pkcs11hsmsim.Base.Lists.{Bytes}
use pkcs11hsmsim.Base.Tests.{◌==◌, if◌then◌else◌}

abbrev pub codes : String → Bytes
codes String.[] = []
codes (String.◌∷◌ c s) = code c ∷ codes s

-- `directory / name`
abbrev pub join : Bytes → Bytes → Bytes
join dir name = dir ++ (b'/' ∷ name)

-- The digits of the number, before the text that is there.
unfoldable pub digits_before : ℕ → ℕ → Bytes → Bytes
digits_before zero n text = text
digits_before (suc fuel) n text =
    let digit = 48 + n % 10 in
    let more = digits_before fuel (n / 10) (digit ∷ text) in
    if n / 10 == 0 then digit ∷ text else more

-- `std::to_string` of a CK_ULONG, which has ten digits at most.
unfoldable pub decimal : ℕ → Bytes
unfolding digits_before
decimal n = digits_before 10 n []
