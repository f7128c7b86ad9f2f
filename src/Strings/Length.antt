-- ===== src/Strings/Length.antt =====
-- `strlen`: the index of the first NUL.
use linux_based_os.Prelude.{ℕ, zero, suc, ◌+◌, ◌<◌, ◌≡◌, ◌≢◌, some, arith, ==_false}
use linux_based_os.Strings.{Str, strlen, strlen_from}

-- The string at `s` has length `n`: its first NUL is at offset `n`.
pub record HasLength (s : Str) (n : ℕ) : Type 0 where
  pub nul : s n ≡ 0
  pub before : (i : ℕ) → i < n → s i ≢ 0

strlen_from_lem :
    (left i fuel : ℕ) (s : Str) (n : ℕ)
    → HasLength s n
    → i + left ≡ n
    → left < fuel
    → strlen_from fuel s i ≡ some n
unfolding strlen_from
strlen_from_lem left i zero s n h e f = absurd (omega arith)
strlen_from_lem zero i (suc fuel) s n h e f =
    let here : n ≡ i = omega arith in let z : s i ≡ 0 = rw here at h.nul in ground (arith, z, here)
strlen_from_lem (suc left) i (suc fuel) s n h e f =
    rw (==_false (s i) 0 (h.before i (omega arith)))
      (strlen_from_lem left (i + 1) fuel s n h (omega arith) (omega arith))

-- With fuel for its characters and the NUL, `strlen` returns the length of the string.
pub strlen_lem : (fuel : ℕ) (s : Str) (n : ℕ) → HasLength s n → n < fuel → strlen fuel s ≡ some n
unfolding strlen
strlen_lem fuel s n h f = strlen_from_lem n 0 fuel s n h (omega arith) f
