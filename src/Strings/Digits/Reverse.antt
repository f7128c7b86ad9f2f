-- ===== src/Strings/Digits/Reverse.antt =====
-- `strrev` turns a string around.
use linux_based_os.Prelude.{
  ℕ, zero, suc, ◌+◌, ◌-◌, ◌≤◌, ◌<◌, ◌≡◌, refl, arith, some, store, ltb, leb, ◌==◌, ◌&&◌,
  if◌then◌else◌, Option, Bool-cases, inl, inr, ==_iff, ltb→lt, ◌∙◌, false,
}
use linux_based_os.Strings.{Str}
use linux_based_os.Strings.Length.{HasLength, strlen_lem}
use linux_based_os.Strings.Digits.{strrev, reverse_length, swap_ends}

-- `s` with the offsets from `beg` to `end` in the opposite order.
abbrev pub turned : (beg end : ℕ) → Str → Str
turned beg end s j = if leb beg j && leb j end then s (beg + end - j) else s j

-- The swap of the two ends, and then of what is between them.
turned_step :
    (beg end : ℕ) (s : Str) (j : ℕ)
    → beg < end
    → turned (beg + 1) (end - 1) (store (store s end (s beg)) beg (s end)) j ≡ turned beg end s j
turned_step beg end s j h = elim (Bool-cases (j == beg)) [
  | inl e ↦
      let e' : j ≡ beg = (==_iff j beg).0 e in
      let other : beg + end - beg ≡ end = omega arith in rw (e', other) (ground arith)
  | inr e ↦ elim (Bool-cases (j == end)) [
    | inl f ↦
        let f' : j ≡ end = (==_iff j end).0 f in
        let other : beg + end - end ≡ beg = omega arith in rw (f', other) (ground arith)
    | inr f ↦
        let inner : beg + 1 + (end - 1) - j ≡ beg + end - j = omega arith in rw inner (ground arith)
  ]
]

-- `r` is `s` turned around between `beg` and `end`.
abbrev Turns : (beg end : ℕ) → Str → Option Str → Type 0
Turns beg end s r = (out : Str) × (r ≡ some out) × ((j : ℕ) → out j ≡ turned beg end s j)

-- With one offset or none between the ends, turning changes nothing.
turned_short : (beg end : ℕ) (s : Str) (j : ℕ) → end ≤ beg → s j ≡ turned beg end s j
turned_short beg end s j h = elim (Bool-cases (leb beg j && leb j end)) [
  | inl e ↦ let same : beg + end - j ≡ j = ground arith in rw (e, same) refl
  | inr e ↦ rw e refl
]

swap_ends_lem :
    (fuel beg end : ℕ) (s : Str)
    → end + 1 < beg + fuel
    → beg ≤ end + 1
    → Turns beg end s (swap_ends fuel beg end s)
unfolding swap_ends
swap_ends_lem zero beg end s f h = absurd (omega arith)
swap_ends_lem (suc fuel) beg end s f h = elim (Bool-cases (ltb beg end)) [
  | inl e ↦
      let lt : beg < end = ltb→lt beg end e in
      let (out, run, at) =
        swap_ends_lem fuel (beg + 1) (end - 1) (store (store s end (s beg)) beg (s end))
          (omega arith) (omega arith) in
      (out, rw e run, λ j. at j ∙ turned_step beg end s j lt)
  | inr e ↦ (s, rw e refl, λ j. turned_short beg end s j (ground arith))
]

-- With fuel for the string and its NUL, `strrev` returns the destination with the characters of the
-- string in the opposite order and no other cell changed.
pub strrev_lem :
    (fuel n : ℕ) (s : Str)
    → HasLength s n
    → n < fuel
    → (out : Str) × (strrev fuel s ≡ some out)
      × ((j : ℕ) → out j ≡ (if ltb j n then s (n - 1 - j) else s j))
unfolding strrev reverse_length
strrev_lem fuel zero s h f = (s, rw (strlen_lem fuel s zero h f) refl, λ j. ground arith)
strrev_lem fuel (suc n) s h f =
    let (out, run, at) = swap_ends_lem fuel 0 n s (omega arith) (omega arith) in
    let some_left : (suc n == 0) ≡ false = ground arith in
    let last : suc n - 1 ≡ n = omega arith in
    (out, rw (strlen_lem fuel s (suc n) h f, some_left, last) run, λ j. at j ∙ ground arith)
