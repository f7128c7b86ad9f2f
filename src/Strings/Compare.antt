-- ===== src/Strings/Compare.antt =====
-- `strncmp`: it tells strings apart by their first `n` characters.
use linux_based_os.Prelude.{ℕ, zero, suc, ◌+◌, ◌<◌, ◌≡◌, ◌↔◌, ◌⊎◌, refl, arith, pos, ◌-ℤ◌, signed8}
use linux_based_os.Strings.{Str, strncmp, strncmp_from}

abbrev pub IsBytes : Str → Type 0
IsBytes s = (i : ℕ) → s i < 256

-- Equal from offset `i` on, up to a common NUL or for `left` characters.
abbrev pub SamePrefix : ℕ → ℕ → Str → Str → Type 0
SamePrefix zero i s1 s2 = Unit {0}
SamePrefix (suc left) i s1 s2 = (s1 i ≡ s2 i) × ((s1 i ≡ 0) ⊎ SamePrefix left (i + 1) s1 s2)

signed8_diff : (a b : ℕ) → a < 256 → b < 256 → signed8 a -ℤ signed8 b ≡ pos 0 → a ≡ b
unfolding ◌-ℤ◌
signed8_diff a b ha hb e = ground arith

signed8_self : (a : ℕ) → signed8 a -ℤ signed8 a ≡ pos 0
unfolding ◌-ℤ◌
signed8_self a = ground arith

strncmp_from_zero :
    (left i : ℕ) (s1 s2 : Str)
    → IsBytes s1
    → IsBytes s2
    → strncmp_from left i s1 s2 ≡ pos 0
    → SamePrefix left i s1 s2
unfolding strncmp_from
strncmp_from_zero zero i s1 s2 h1 h2 e = tt
strncmp_from_zero (suc left) i s1 s2 h1 h2 e =
    ground
      (arith, h1 i, h2 i, signed8_diff (s1 i) (s2 i), strncmp_from_zero left (i + 1) s1 s2 h1 h2)

strncmp_from_same :
    (left i : ℕ) (s1 s2 : Str) → SamePrefix left i s1 s2 → strncmp_from left i s1 s2 ≡ pos 0
unfolding strncmp_from
strncmp_from_same zero i s1 s2 p = refl
strncmp_from_same (suc left) i s1 s2 p =
    ground (arith, signed8_self (s1 i), strncmp_from_same left (i + 1) s1 s2)

-- On bytes, `strncmp` returns 0 exactly when the first `n` characters agree, up to a common NUL.
pub strncmp_iff :
    (s1 s2 : Str) (n : ℕ)
    → IsBytes s1
    → IsBytes s2
    → (strncmp s1 s2 n ≡ pos 0) ↔ SamePrefix n 0 s1 s2
unfolding strncmp
strncmp_iff s1 s2 n h1 h2 = (strncmp_from_zero n 0 s1 s2 h1 h2, strncmp_from_same n 0 s1 s2)
