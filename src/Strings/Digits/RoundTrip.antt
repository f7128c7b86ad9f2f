-- ===== src/Strings/Digits/RoundTrip.antt =====
-- `itoa`: the digits that it prints, read again, give the value.
use native.Mathlib.Nat.{div-add-mod, mod-lt, div-lt_iff_lt-mul, pow-suc, pow-zero}
use linux_based_os.Prelude.{
  ℕ, zero, suc, ◌+◌, ◌-◌, ◌*◌, ◌/◌, ◌%◌, ◌^◌, ◌≤◌, ◌<◌, ◌≡◌, ◌≢◌, refl, arith, some, store, ltb,
  ◌==◌, if◌then◌else◌, Option, Bool-cases, inl, inr, ==_iff, ◌∙◌, ap, ap₂,
}
use linux_based_os.Strings.{Str}
use linux_based_os.Strings.Length.{HasLength}
use linux_based_os.Strings.Digits.{itoa, finish, put_digits, lookup}
use linux_based_os.Strings.Digits.Reverse.{strrev_lem}

-- The value of a digit's character.
abbrev pub digit_value : ℕ → ℕ
digit_value c = if ltb c b'A' then c - b'0' else c - b'A' + 10

-- The number that the first `n` characters spell, the highest digit first.
abbrev pub spelled : (radix : ℕ) → Str → (n : ℕ) → ℕ
spelled radix s zero = 0
spelled radix s (suc n) = spelled radix s n * radix + digit_value (s n)

-- The number that `n` characters from offset `at` on spell, the lowest digit first.
abbrev spelled_up : (radix : ℕ) → Str → (at n : ℕ) → ℕ
spelled_up radix s at zero = 0
spelled_up radix s at (suc n) = spelled_up radix s (at + 1) n * radix + digit_value (s at)

spelled-spelled_up :
    (radix : ℕ) (r s : Str) (at n : ℕ)
    → ((i : ℕ) → i < n → r i ≡ s (at + (n - 1 - i)))
    → spelled radix r n ≡ spelled_up radix s at n
spelled-spelled_up radix r s at zero h = refl
spelled-spelled_up radix r s at (suc n) h =
    ap₂ (λ (a c : ℕ). a * radix + digit_value c)
      (spelled-spelled_up radix r s (at + 1) n
        (λ i lt. h i (omega arith) ∙ ap s (omega (arith, lt))))
      (h n (omega arith) ∙ ap s (omega arith))

digit_value-lookup : (d : ℕ) → d < 36 → digit_value (lookup d) ≡ d
digit_value-lookup d h = ground arith

lookup-visible : (d : ℕ) → d < 36 → b'0' ≤ lookup d
lookup-visible d h = ground arith

-- The quotient by the radix has a digit less.
quotient_small :
    (k newval radix : ℕ) → 2 ≤ radix → newval < radix ^ suc k → newval / radix < radix ^ k
quotient_small k newval radix r h =
    (div-lt_iff_lt-mul {k = radix} {x = newval} {y = radix ^ k} (omega arith)).1
      (omega (arith, pow-suc radix k))

-- What `n` rounds from offset `at` on leave for the value `newval`.
record Written (radix newval at n : ℕ) (buf out : Str) : Type 0 where
  before : (j : ℕ) → j < at → out j ≡ buf j
  behind : (j : ℕ) → at + n ≤ j → out j ≡ buf j
  visible : (j : ℕ) → at ≤ j → j < at + n → b'0' ≤ out j
  reads : spelled_up radix out at n ≡ newval

abbrev Writes : (k radix newval at : ℕ) → Str → Option (ℕ × Str) → Type 0
Writes k radix newval at buf r =
    (n : ℕ) × (out : Str) × (r ≡ some (at + n, out))
    × (n ≤ k)
    × (newval ≢ 0 → n ≢ 0)
    × Written radix newval at n buf out

digit_here :
    (radix newval at n : ℕ) (buf out : Str)
    → radix ≤ 36
    → 2 ≤ radix
    → Written radix (newval / radix) (at + 1) n (store buf at (lookup (newval % radix))) out
    → (out at ≡ lookup (newval % radix)) × (newval % radix < 36)
digit_here radix newval at n buf out u l w = (
  w.before at (omega arith) ∙ ground arith,
  omega (arith, mod-lt newval {m = radix} (omega arith)),
)

Written-step :
    (radix newval at n : ℕ) (buf out : Str)
    → radix ≤ 36
    → 2 ≤ radix
    → Written radix (newval / radix) (at + 1) n (store buf at (lookup (newval % radix))) out
    → Written radix newval at (suc n) buf out
Written-step radix newval at n buf out u l w =
    let (here, small) = digit_here radix newval at n buf out u l w in
    record {
      before = λ j lt. w.before j (omega arith) ∙ ground arith;
      behind = λ j le. w.behind j (omega arith) ∙ ground arith;
      visible = λ j le lt. elim (Bool-cases (j == at)) [
        | inl e ↦ rw ((==_iff j at).0 e, here) (lookup-visible (newval % radix) small)
        | inr e ↦ w.visible j (ground arith) (omega arith)
      ];
      reads =
          rw (w.reads, here, digit_value-lookup (newval % radix) small)
            (omega (arith, div-add-mod newval radix));
    }

abbrev done : ℕ → Str → Option (ℕ × Str)
done newbuf s = some (newbuf, s)

done_at : (a b : ℕ) (s : Str) → a ≡ b → done a s ≡ done b s
done_at a b s e = ap (λ (c : ℕ). done c s) e

-- Zero is written with no digit.
Writes-zero : (k radix at : ℕ) (buf : Str) → Writes k radix 0 at buf (some (at, buf))
Writes-zero k radix at buf = (
  zero,
  buf,
  done_at at (at + 0) buf (omega arith),
  omega arith,
  λ ne. absurd (ne refl),
  record {
    before = λ j lt. refl;
    behind = λ j le. refl;
    visible = λ j le lt. absurd (omega arith);
    reads = refl;
  },
)

put_digits_lem :
    (k fuel radix newval at : ℕ) (buf : Str)
    → 2 ≤ radix
    → radix ≤ 36
    → newval < radix ^ k
    → k < fuel
    → Writes k radix newval at buf (put_digits fuel newval radix at buf)
unfolding put_digits
put_digits_lem k zero radix newval at buf l u h f = absurd (omega arith)
put_digits_lem zero (suc fuel) radix newval at buf l u h f =
    let z : newval ≡ 0 = omega (arith, pow-zero radix) in rw z (Writes-zero zero radix at buf)
put_digits_lem (suc k) (suc fuel) radix newval at buf l u h f = elim (Bool-cases (newval == 0)) [
  | inl e ↦ let z : newval ≡ 0 = (==_iff newval 0).0 e in rw z (Writes-zero (suc k) radix at buf)
  | inr e ↦
      let (n, out, run, short, some_digit, w) =
        put_digits_lem k fuel radix (newval / radix) (at + 1)
          (store buf at (lookup (newval % radix))) l u (quotient_small k newval radix l h)
          (omega arith) in
      (
        suc n,
        out,
        rw e (run ∙ done_at (at + 1 + n) (at + suc n) out (omega arith)),
        omega arith,
        λ ne. ground arith,
        Written-step radix newval at n buf out u l w,
      )
]

-- What `itoa` leaves: a string of `n` digits that spells the value.
pub record Prints (k radix value n : ℕ) (buf out : Str) : Type 0 where
  pub length : HasLength out n
  pub reads : spelled radix out n ≡ value
  pub nonempty : 1 ≤ n
  pub visible : (j : ℕ) → j < n → b'0' ≤ out j
  pub short : n ≤ k
  pub kept : (j : ℕ) → n < j → out j ≡ buf j

Prints-zero :
    (k radix : ℕ) (buf : Str) → 1 ≤ k → Prints k radix 0 1 buf (store (store buf 0 b'0') 1 0)
Prints-zero k radix buf one = record {
  length = record { nul = refl; before = λ i lt. ground arith };
  reads = omega arith;
  nonempty = omega arith;
  visible = λ j lt. ground arith;
  short = one;
  kept = λ j lt. ground arith;
}

Written-HasLength :
    (radix value n : ℕ) (buf mid : Str)
    → Written radix value 0 n buf mid
    → HasLength (store mid n 0) n
Written-HasLength radix value n buf mid w = record {
  nul = ground arith;
  before = λ i lt. ground (arith, w.visible i);
}

reversed_Prints :
    (k radix value n : ℕ) (buf mid out : Str)
    → Written radix value 0 n buf mid
    → 1 ≤ n
    → n ≤ k
    → ((j : ℕ) → out j ≡ (if ltb j n then store mid n 0 (n - 1 - j) else store mid n 0 j))
    → Prints k radix value n buf out
reversed_Prints k radix value n buf mid out w p q at = record {
  length = record {
    nul = at n ∙ ground arith;
    before = λ i lt. rw (at i) (ground (arith, w.visible (n - 1 - i)));
  };
  reads = spelled-spelled_up radix out mid 0 n (λ i lt. at i ∙ ground arith) ∙ w.reads;
  nonempty = p;
  visible = λ j lt. rw (at j) (ground (arith, w.visible (n - 1 - j)));
  short = q;
  kept = λ j lt. at j ∙ ground (arith, w.behind j);
}

-- For a radix from 2 to 36 and a value below its `k`-th power, `k` at least 1, with fuel above `k`:
-- `itoa` returns a string of 1 to `k` characters that spells the value in that radix, and writes
-- nothing behind its NUL.
pub itoa_lem :
    (k fuel value radix : ℕ) (buf : Str)
    → 2 ≤ radix
    → radix ≤ 36
    → value < radix ^ k
    → 1 ≤ k
    → k < fuel
    → (n : ℕ) × (out : Str) × (itoa fuel value buf radix ≡ some out)
      × Prints k radix value n buf out
unfolding itoa finish
itoa_lem k fuel value radix buf l u h one f = elim (Bool-cases (value == 0)) [
  | inl e ↦
      let z : value ≡ 0 = (==_iff value 0).0 e in
      (1, store (store buf 0 b'0') 1 0, rw e refl, rw z (Prints-zero k radix buf one))
  | inr e ↦
      let (n, mid, run, short, some_digit, w) = put_digits_lem k fuel radix value 0 buf l u h f in
      let nul : HasLength (store mid n 0) n = Written-HasLength radix value n buf mid w in
      let (out, turn, at) = strrev_lem fuel n (store mid n 0) nul (omega arith) in
      let p : 1 ≤ n = ground (arith, some_digit) in
      (
        n,
        out,
        rw e (rw (run ∙ done_at (0 + n) n mid (omega arith)) turn),
        reversed_Prints k radix value n buf mid out w p short at,
      )
]
