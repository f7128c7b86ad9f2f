-- ===== src/User/Support.antt =====
-- syscalls/ece391support.c: the string functions of the programs against the kernel's and against what
-- they are for.
use Prim.Native.Char.{Char}
use Prim.Native.String.{String}
use linux_based_os.Prelude.{
  ℕ, zero, suc, ◌+◌, ◌≤◌, ◌<◌, ◌≡◌, ◌≢◌, ◌↔◌, refl, arith, ◌==◌, Option, some, ℤ, pos, ◌-ℤ◌, store,
  Bool-cases, inl, inr, ==_iff, ==_false, ◌∙◌, ap, false, true,
}
use linux_based_os.Strings.{Str, strlen, strlen_from, strcpy, strcpy_from}
use linux_based_os.Strings.Length.{HasLength}
use linux_based_os.Strings.Compare.{SamePrefix}
use linux_based_os.User.{
  text, from, ece391_strlen, ece391_strlen_from, ece391_strcpy, ece391_strcpy_from, ece391_strcmp,
  ece391_strncmp, ece391_strncmp_loop,
}

ece391_strlen_from-strlen_from :
    (fuel k : ℕ) (t s : Str)
    → ((i : ℕ) → t i ≡ s (i + k))
    → ece391_strlen_from fuel t k ≡ strlen_from fuel s k
unfolding ece391_strlen_from strlen_from
ece391_strlen_from-strlen_from zero k t s h = refl
ece391_strlen_from-strlen_from (suc fuel) k t s h =
    let next =
      ece391_strlen_from-strlen_from fuel (k + 1) (from 1 t) s
        (λ i. h (i + 1) ∙ ap s (omega arith)) in
    let here : t 0 ≡ s k = h 0 ∙ ap s (omega arith) in rw (next, here) (ground arith)

ece391_strcpy_from-strcpy_from :
    (fuel i : ℕ) (dst src : Str) → ece391_strcpy_from fuel i dst src ≡ strcpy_from fuel i dst src
unfolding ece391_strcpy_from strcpy_from
ece391_strcpy_from-strcpy_from zero i dst src = refl
ece391_strcpy_from-strcpy_from (suc fuel) i dst src =
    rw (ece391_strcpy_from-strcpy_from fuel (i + 1) (store dst i (src i)) src)
      (elim (Bool-cases (src i == 0)) [
        | inl e ↦ let z : src i ≡ 0 = (==_iff (src i) 0).0 e in rw z refl
        | inr e ↦ let z : (0 == src i) ≡ false = ground arith in rw (e, z) refl
      ])

-- On the same fuel, `ece391_strlen` and `ece391_strcpy` return what the kernel's `strlen` and `strcpy` do.
pub ece391_strlen-strlen :
    (fuel : ℕ) (dst s : Str)
    → (ece391_strlen fuel s ≡ strlen fuel s) × (ece391_strcpy fuel dst s ≡ strcpy fuel dst s)
unfolding ece391_strlen strlen ece391_strcpy strcpy
ece391_strlen-strlen fuel dst s = (
  ece391_strlen_from-strlen_from fuel 0 s s (λ i. ap s (omega arith)),
  ece391_strcpy_from-strcpy_from fuel 0 dst s,
)

difference_zero : (a b : ℕ) → (pos a -ℤ pos b ≡ pos 0) ↔ (a ≡ b)
unfolding ◌-ℤ◌
difference_zero a b = ground arith

SamePrefix-none : (n i : ℕ) (s1 s2 : Str) → n ≡ 0 → SamePrefix n i s1 s2
SamePrefix-none zero i s1 s2 e = tt
SamePrefix-none (suc n) i s1 s2 e = absurd (omega arith)

SamePrefix-shift :
    (n i : ℕ) (s1 s2 t1 t2 : Str)
    → ((j : ℕ) → t1 j ≡ s1 (j + i))
    → ((j : ℕ) → t2 j ≡ s2 (j + i))
    → (ece391_strncmp_loop t1 t2 n ≡ pos 0) ↔ SamePrefix n i s1 s2
unfolding ece391_strncmp_loop
SamePrefix-shift zero i s1 s2 t1 t2 h k = (λ e. tt, λ e. refl)
SamePrefix-shift (suc n) i s1 s2 t1 t2 h k =
    let first : t1 0 ≡ s1 i = h 0 ∙ ap s1 (omega arith) in
    let second : t2 0 ≡ s2 i = k 0 ∙ ap s2 (omega arith) in
    let rest =
      SamePrefix-shift n (i + 1) s1 s2 (from 1 t1) (from 1 t2)
        (λ j. h (j + 1) ∙ ap s1 (omega arith)) (λ j. k (j + 1) ∙ ap s2 (omega arith)) in
    rw (first, second)
      (ground (arith, difference_zero (s1 i) (s2 i), rest, SamePrefix-none n (i + 1) s1 s2))

-- `ece391_strncmp` returns 0 exactly when the first `n` characters agree, up to a common NUL.
pub ece391_strncmp_iff :
    (s1 s2 : Str) (n : ℕ) → (ece391_strncmp s1 s2 n ≡ pos 0) ↔ SamePrefix n 0 s1 s2
unfolding ece391_strncmp
ece391_strncmp_iff s1 s2 n = ground (
  arith,
  SamePrefix-none n 0 s1 s2,
  SamePrefix-shift n 0 s1 s2 s1 s2 (λ j. ap s1 (omega arith)) (λ j. ap s2 (omega arith)),
)

-- `s1` and `s2` are the same string from offset `i` to the end `n` of `s1`.
abbrev pub Same : (i n : ℕ) → (s1 s2 : Str) → Type 0
Same i n s1 s2 = (j : ℕ) → i ≤ j → j ≤ n → s1 j ≡ s2 j

Same-cons : (i n : ℕ) (s1 s2 : Str) → s1 i ≡ s2 i → Same (i + 1) n s1 s2 → Same i n s1 s2
Same-cons i n s1 s2 e rest j h k = elim (Bool-cases (j == i)) [
  | inl f ↦ let f' : j ≡ i = (==_iff j i).0 f in rw f' e
  | inr f ↦ rest j (ground arith) k
]

-- The outcome of a comparison from offset `i` on.
abbrev Compares : (i n : ℕ) → (s1 s2 : Str) → Option ℤ → Type 0
Compares i n s1 s2 o = (r : ℤ) × (o ≡ some r) × ((r ≡ pos 0) ↔ Same i n s1 s2)

Compares-differ :
    (i n : ℕ) (s1 s2 : Str)
    → i ≤ n
    → (s1 i == s2 i) ≡ false
    → Compares i n s1 s2 (some (pos (s1 i) -ℤ pos (s2 i)))
Compares-differ i n s1 s2 h g =
    let apart : s1 i ≢ s2 i = ground arith in
    (
      pos (s1 i) -ℤ pos (s2 i),
      refl,
      (
        λ r. absurd (apart ((difference_zero (s1 i) (s2 i)).0 r)),
        λ all. absurd (apart (all i (omega arith) h)),
      ),
    )

Compares-next :
    (i n : ℕ) (s1 s2 : Str) (o : Option ℤ)
    → i ≤ n
    → s1 i ≡ s2 i
    → Compares (i + 1) n s1 s2 o
    → Compares i n s1 s2 o
Compares-next i n s1 s2 o h e (r, run, both) = (
  r,
  run,
  (λ z. Same-cons i n s1 s2 e (both.0 z), λ all. both.1 (λ j a b. all j (omega (arith, a)) b)),
)

ece391_strcmp_at :
    (left i fuel n : ℕ) (s1 s2 t1 t2 : Str)
    → ((j : ℕ) → t1 j ≡ s1 (j + i))
    → ((j : ℕ) → t2 j ≡ s2 (j + i))
    → HasLength s1 n
    → i + left ≡ n
    → left < fuel
    → Compares i n s1 s2 (ece391_strcmp fuel t1 t2)
unfolding ece391_strcmp
ece391_strcmp_at left i zero n s1 s2 t1 t2 h k l e f = absurd (omega arith)
ece391_strcmp_at zero i (suc fuel) n s1 s2 t1 t2 h k l e f =
    let first : t1 0 ≡ s1 i = h 0 ∙ ap s1 (omega arith) in
    let second : t2 0 ≡ s2 i = k 0 ∙ ap s2 (omega arith) in
    let here : n ≡ i = omega arith in
    let nul : s1 i ≡ 0 = rw here at l.nul in
    rw (first, second)
      (elim (Bool-cases (s1 i == s2 i)) [
        | inl g ↦
            let g' : s1 i ≡ s2 i = (==_iff (s1 i) (s2 i)).0 g in
            let z : (s1 i == 0) ≡ true = ground arith in
            (
              pos 0,
              rw (g, z) refl,
              (λ _ j a b. let at : j ≡ i = omega arith in rw at g', λ _. refl),
            )
        | inr g ↦ rw g (Compares-differ i n s1 s2 (omega arith) g)
      ])
ece391_strcmp_at (suc left) i (suc fuel) n s1 s2 t1 t2 h k l e f =
    let first : t1 0 ≡ s1 i = h 0 ∙ ap s1 (omega arith) in
    let second : t2 0 ≡ s2 i = k 0 ∙ ap s2 (omega arith) in
    let visible = ==_false (s1 i) 0 (l.before i (omega arith)) in
    let rest =
      ece391_strcmp_at left (i + 1) fuel n s1 s2 (from 1 t1) (from 1 t2)
        (λ j. h (j + 1) ∙ ap s1 (omega arith)) (λ j. k (j + 1) ∙ ap s2 (omega arith)) l
        (omega arith) (omega arith) in
    rw (first, second)
      (elim (Bool-cases (s1 i == s2 i)) [
        | inl g ↦
            rw (g, visible)
              (Compares-next i n s1 s2 _ (omega arith) ((==_iff (s1 i) (s2 i)).0 g) rest)
        | inr g ↦ rw g (Compares-differ i n s1 s2 (omega arith) g)
      ])

-- With fuel for the first string and its NUL, `ece391_strcmp` returns, and its result is 0 exactly
-- when the second string has the same characters up to that NUL.
pub ece391_strcmp_lem :
    (fuel n : ℕ) (s1 s2 : Str)
    → HasLength s1 n
    → n < fuel
    → (r : ℤ) × (ece391_strcmp fuel s1 s2 ≡ some r)
      × ((r ≡ pos 0) ↔ ((j : ℕ) → 0 ≤ j → j ≤ n → s1 j ≡ s2 j))
ece391_strcmp_lem fuel n s1 s2 l f =
    ece391_strcmp_at n 0 fuel n s1 s2 s1 s2 (λ j. ap s1 (omega arith)) (λ j. ap s2 (omega arith)) l
      (omega arith) f

-- The number of characters of a constant.
abbrev pub chars : String → ℕ
chars String.[] = 0
chars (String.◌∷◌ c s) = suc (chars s)

text_next : (c : Char) (s : String) (i j : ℕ) → j ≡ suc i → text (String.◌∷◌ c s) j ≡ text s i
text_next c s i j e = ap (text (String.◌∷◌ c s)) e

text_ends_from :
    (s : String) (t : Str) (fuel len : ℕ)
    → ((i : ℕ) → t i ≡ text s i)
    → chars s < fuel
    → (n : ℕ) × (ece391_strlen_from fuel t len ≡ some n)
unfolding ece391_strlen_from
text_ends_from s t zero len h f = absurd (omega arith)
text_ends_from String.[] t (suc fuel) len h f = (len, rw (h 0) refl)
text_ends_from (String.◌∷◌ c s) t (suc fuel) len h f = elim (Bool-cases (0 == t 0)) [
  | inl e ↦ (len, rw e refl)
  | inr e ↦
      let (n, run) =
        text_ends_from s (from 1 t) fuel (len + 1)
          (λ i. h (i + 1) ∙ text_next c s i (i + 1) (omega arith)) (omega arith) in
      (n, rw e run)
]

-- With fuel for the characters of a constant and its NUL, its length is found.
pub text_ends :
    (s : String) (fuel : ℕ) → chars s < fuel → (n : ℕ) × (ece391_strlen fuel (text s) ≡ some n)
unfolding ece391_strlen
text_ends s fuel f = text_ends_from s (text s) fuel 0 (λ i. refl) f
