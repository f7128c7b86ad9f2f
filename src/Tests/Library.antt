-- ===== src/Tests/Library.antt =====
-- Runs of the memory fills, the digits, `printf` and the programs' string functions.
use linux_based_os.Prelude.{
  ℕ, ◌+◌, ◌≤◌, ◌≡◌, ◌↔◌, arith, leb, ltb, ◌&&◌, if◌then◌else◌, some, pos, ℤ, ◌%◌, signed32,
}
use linux_based_os.Strings.{Str}
use linux_based_os.Strings.Length.{HasLength}
use linux_based_os.Strings.Digits.{itoa}
use linux_based_os.Strings.Digits.RoundTrip.{Prints, itoa_lem}
use linux_based_os.Memory.Fill.{memset, memmove}
use linux_based_os.Memory.Fill.Set.{memset_lem}
use linux_based_os.Memory.Fill.Move.{memmove_lem}
use linux_based_os.Memory.Transfer.{transferred}
use linux_based_os.Printf.{signed_text}
use linux_based_os.Printf.Numbers.{spelled_signed, signed_text_lem}
use linux_based_os.User.{ece391_strcmp}
use linux_based_os.User.Support.{ece391_strcmp_lem}
use linux_based_os.Tests.Files.{letter}
use linux_based_os.Tests.Texts.{letter-HasLength}

memset_example :
    memset (λ a. a) 1001 511 11 1007
    ≡ (if leb 1001 1007 && ltb 1007 (1001 + 11) then 511 % 256 else 1007)
memset_example = memset_lem (λ a. a) 1001 511 11 1007

memmove_example : memmove (λ a. a) 1003 1000 8 1005 ≡ transferred (λ a. a) 1003 (λ a. a) 1000 8 1005
memmove_example = memmove_lem (λ a. a) 1003 1000 8 1005

itoa_example :
    (n : ℕ) × (out : Str) × (itoa 12 255 (λ i. 7) 16 ≡ some out) × Prints 8 16 255 n (λ i. 7) out
itoa_example =
    itoa_lem 8 12 255 16 (λ i. 7) (omega arith) (omega arith) (omega arith) (omega arith)
      (omega arith)

signed_text_example :
    (n : ℕ) × (out : Str) × (signed_text 12 4294967254 (λ i. 7) ≡ some out)
    × HasLength out n
    × (n ≤ 11)
    × (spelled_signed out n ≡ signed32 4294967254)
signed_text_example = signed_text_lem 12 4294967254 (λ i. 7) (omega arith) (omega arith)

ece391_strcmp_example :
    (r : ℤ) × (ece391_strcmp 9 (letter 97) (letter 98) ≡ some r)
    × ((r ≡ pos 0) ↔ ((j : ℕ) → 0 ≤ j → j ≤ 1 → letter 97 j ≡ letter 98 j))
ece391_strcmp_example = ece391_strcmp_lem 9 1 (letter 97) (letter 98) letter-HasLength (omega arith)
