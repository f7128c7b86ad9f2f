-- ===== src/Printf/Numbers.antt =====
-- The numbers that `printf` prints.
use linux_based_os.Prelude.{
  ℕ, zero, suc, ◌+◌, ◌-◌, ◌*◌, ◌^◌, ◌≤◌, ◌<◌, ◌≡◌, refl, arith, some, store, ltb, ◌==◌, for_range,
  if◌then◌else◌, Bool-cases, inl, inr, true, false, ◌∙◌, ap, ap₂, ℤ, pos, negsuc, signed32,
}
use linux_based_os.Strings.{Str, strlen}
use linux_based_os.Strings.Length.{HasLength, strlen_lem}
use linux_based_os.Strings.Digits.RoundTrip.{spelled, digit_value, Prints, itoa_lem}
use linux_based_os.Printf.{
  behind, with_behind, zero_fill, padded, filled_in, hex_padded, hex_text, signed_text,
}

zero_fill_lem :
    (rounds i : ℕ) (s : Str) (j : ℕ)
    → for_range rounds i (λ j s. store s j b'0') s j
      ≡ (if ltb j i then s j else if ltb j (i + rounds) then b'0' else s j)
unfolding for_range
zero_fill_lem zero i s j = ground arith
zero_fill_lem (suc rounds) i s j = ground (arith, zero_fill_lem rounds (i + 1) (store s i b'0') j)

spelled-ext :
    (radix : ℕ) (r s : Str) (n : ℕ)
    → ((i : ℕ) → i < n → r i ≡ s i)
    → spelled radix r n ≡ spelled radix s n
spelled-ext radix r s zero h = refl
spelled-ext radix r s (suc n) h =
    ap₂ (λ (a c : ℕ). a * radix + digit_value c)
      (spelled-ext radix r s n (λ i lt. h i (omega arith))) (h n (omega arith))

spelled-zero : (radix n : ℕ) (r : Str) → ((i : ℕ) → i < n → r i ≡ b'0') → spelled radix r n ≡ 0
spelled-zero radix zero r z = refl
spelled-zero radix (suc n) r z =
    let last : r n ≡ b'0' = z n (omega arith) in
    rw (spelled-zero radix n r (λ i lt. z i (omega arith)), last) (omega arith)

-- Zeros in front do not count.
spelled-padded :
    (radix m k n : ℕ) (r s : Str)
    → m ≡ k + n
    → ((i : ℕ) → i < k → r i ≡ b'0')
    → ((i : ℕ) → i < n → r (k + i) ≡ s i)
    → spelled radix r m ≡ spelled radix s n
spelled-padded radix m k zero r s e z h = spelled-zero radix m r (λ i lt. z i (omega arith))
spelled-padded radix zero k (suc n) r s e z h = absurd (omega arith)
spelled-padded radix (suc m) k (suc n) r s e z h =
    let at : m ≡ k + n = omega arith in
    ap₂ (λ (a c : ℕ). a * radix + digit_value c)
      (spelled-padded radix m k n r s at z (λ i lt. h i (omega arith)))
      (ap r at ∙ h n (omega arith))

behind-with_behind :
    (k : ℕ) (t s : Str) (n : ℕ) → HasLength t n → HasLength (behind k (with_behind k t s)) n
behind-with_behind k t s n h = record {
  nul = ground (arith, h.nul);
  before = λ i lt. ground (arith, h.before i lt);
}

-- The digits, and zeros in front of them up to eight characters.
module _ (n : ℕ) (digits conv_buf : Str) (short : n ≤ 8) where
  abbrev eight : Str
  eight = behind n (zero_fill n (with_behind 8 digits conv_buf))

  eight_at : (j : ℕ) → eight j ≡ (if ltb j (8 - n) then b'0' else digits (j - (8 - n)))
  unfolding zero_fill
  eight_at j = zero_fill_lem (8 - n) n (with_behind 8 digits conv_buf) (j + n) ∙ ground arith

  eight-HasLength :
      HasLength digits n → 1 ≤ n → ((j : ℕ) → j < n → b'0' ≤ digits j) → HasLength eight 8
  eight-HasLength h one visible = record {
    nul = let at : 8 - (8 - n) ≡ n = omega arith in eight_at 8 ∙ ground (arith, h.nul);
    before = λ i lt. rw (eight_at i) (ground (arith, visible (i - (8 - n))));
  }

-- For a machine word, `%#x` hands on a string of eight characters that spells the word in hex, zeros
-- in front; fuel for nine characters is enough.
pub hex_text_lem :
    (fuel word : ℕ) (conv_buf : Str)
    → word < 2 ^ 32
    → 8 < fuel
    → (out : Str) × (hex_text fuel true word conv_buf ≡ some out)
      × HasLength out 8
      × (spelled 16 out 8 ≡ word)
unfolding hex_text hex_padded filled_in padded
hex_text_lem fuel word conv_buf h f =
    let (n, digits, run, p) =
      itoa_lem 8 fuel word 16 (behind 8 conv_buf) (omega arith) (omega arith) h (omega arith) f in
    let length : strlen fuel (behind 8 (with_behind 8 digits conv_buf)) ≡ some n =
      strlen_lem fuel (behind 8 (with_behind 8 digits conv_buf)) n
        (behind-with_behind 8 digits conv_buf n p.length) (omega (arith, p.short)) in
    (
      eight n digits conv_buf p.short,
      rw (run, length) refl,
      eight-HasLength n digits conv_buf p.short p.length p.nonempty p.visible,
      spelled-padded 16 8 (8 - n) n (eight n digits conv_buf p.short) digits
            (omega (arith, p.short)) (λ i lt. eight_at n digits conv_buf p.short i ∙ ground arith)
            (λ i lt. eight_at n digits conv_buf p.short (8 - n + i) ∙ ground arith)
          ∙ p.reads,
    )

-- The integer that a string of `n` characters spells in base 10, with a sign in front or not.
abbrev pub spelled_signed : Str → (n : ℕ) → ℤ
spelled_signed s n =
    if s 0 == b'-' then negsuc (spelled 10 (behind 1 s) (n - 1) - 1) else pos (spelled 10 s n)

signed_negative :
    (word n : ℕ) (digits conv_buf : Str)
    → Prints 10 10 (2 ^ 32 - word) n (behind 1 (store conv_buf 0 b'-')) digits
    → HasLength (with_behind 1 digits (store conv_buf 0 b'-')) (n + 1)
      × (spelled_signed (with_behind 1 digits (store conv_buf 0 b'-')) (n + 1)
          ≡ negsuc (2 ^ 32 - word - 1))
signed_negative word n digits conv_buf p =
    let one_less : n + 1 - 1 ≡ n = omega arith in
    let reads =
      spelled-ext 10 (behind 1 (with_behind 1 digits (store conv_buf 0 b'-'))) digits n
        (λ i lt. ground arith)
      ∙ p.reads in
    (
      record {
        nul = ground (arith, p.length.nul);
        before = λ i lt. ground (arith, p.visible (i - 1));
      },
      rw (one_less, reads) refl,
    )

-- For a machine word and fuel above ten, `%d` hands on a string of at most 11 characters that
-- spells the value of the word as a signed number, the least one included.
pub signed_text_lem :
    (fuel word : ℕ) (conv_buf : Str)
    → word < 2 ^ 32
    → 10 < fuel
    → (n : ℕ) × (out : Str) × (signed_text fuel word conv_buf ≡ some out)
      × HasLength out n
      × (n ≤ 11)
      × (spelled_signed out n ≡ signed32 word)
unfolding signed_text filled_in
signed_text_lem fuel word conv_buf h f = elim (Bool-cases (ltb word (2 ^ 31))) [
  | inl e ↦
      let (n, out, run, p) =
        itoa_lem 10 fuel word 10 conv_buf (omega arith) (omega arith) (omega arith) (omega arith)
          f in
      let unsigned : (out 0 == b'-') ≡ false = ground (arith, p.visible 0, p.nonempty) in
      (n, out, rw e run, p.length, omega (arith, p.short), rw (unsigned, e, p.reads) refl)
  | inr e ↦
      let (n, digits, run, p) =
        itoa_lem 10 fuel (2 ^ 32 - word) 10 (behind 1 (store conv_buf 0 b'-')) (omega arith)
          (omega arith) (ground arith) (omega arith) f in
      let (length, reads) = signed_negative word n digits conv_buf p in
      (
        n + 1,
        with_behind 1 digits (store conv_buf 0 b'-'),
        rw (e, run) refl,
        length,
        omega (arith, p.short),
        reads ∙ rw e refl,
      )
]
