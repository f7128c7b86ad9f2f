-- ===== src/Strings/Copy.antt =====
-- `strncpy` and `strcpy`: what stands in the destination afterwards.
use linux_based_os.Prelude.{
  ℕ, zero, suc, ◌+◌, ◌≤◌, ◌<◌, ◌≡◌, arith, some, store, for_range, ltb, leb, Option, if◌then◌else◌,
  Bool, true, false, ◌||◌, ◌==◌, inl, inr, Bool-cases, ==_iff, ==_false,
}
use linux_based_os.Strings.{Str, strncpy, strncpy_from, pad_from, strcpy, strcpy_from}
use linux_based_os.Strings.Length.{HasLength}

pad_from_lem :
    (left i : ℕ) (d : Str) (j : ℕ)
    → pad_from left i d j ≡ (if ltb j i then d j else if ltb j (i + left) then 0 else d j)
unfolding pad_from for_range
pad_from_lem zero i d j = ground arith
pad_from_lem (suc left) i d j = ground (arith, pad_from_lem left (i + 1) (store d i 0) j)

-- A NUL stands before offset `j`.
abbrev pub nul_before : ℕ → Str → Bool
nul_before zero s = false
nul_before (suc j) s = nul_before j s || (s j == 0)

-- What a copy of `n` cells puts at `j`: the string up to its NUL, then zeros; the rest is kept.
abbrev pub copied : ℕ → Str → Str → ℕ → ℕ
copied n d src j = if ltb j n then (if nul_before j src then 0 else src j) else d j

nul_before_mono : (i j : ℕ) (s : Str) → s i ≡ 0 → i < j → nul_before j s ≡ true
nul_before_mono i zero s z h = absurd (omega arith)
nul_before_mono i (suc j) s z h = elim (Bool-cases (i == j)) [
  | inl e ↦ let z' : s j ≡ 0 = rw ((==_iff i j).0 e) at z in rw z' (ground arith)
  | inr e ↦ ground (arith, nul_before_mono i j s z)
]

strncpy_from_lem :
    (left i : ℕ) (d src : Str) (j : ℕ)
    → nul_before i src ≡ false
    → strncpy_from left i d src j ≡ (if ltb j i then d j else copied (i + left) d src j)
unfolding strncpy_from
strncpy_from_lem zero i d src j h = ground arith
strncpy_from_lem (suc left) i d src j h = elim (Bool-cases (src i == 0)) [
  | inl z ↦ rw (z, pad_from_lem (suc left) i d j) (ground (arith, nul_before_mono i j src))
  | inr z ↦ rw z (ground (arith, strncpy_from_lem left (i + 1) (store d i (src i)) src j))
]

-- `strncpy` copies the string up to its NUL and pads with zeros up to `n`; a string of `n` or more
-- characters is cut off with no NUL; nothing from offset `n` on is written.
pub strncpy_lem : (d src : Str) (n j : ℕ) → strncpy d src n j ≡ copied n d src j
unfolding strncpy
strncpy_lem d src n j = ground (arith, strncpy_from_lem n 0 d src j)

-- `r` is the copy of the characters from `i` to `n`, into `d`.
abbrev Copies : ℕ → ℕ → Str → Str → Option Str → Type 0
Copies i n d src r =
    (out : Str) × (r ≡ some out)
    × ((j : ℕ) → out j ≡ (if ltb j i then d j else if leb j n then src j else d j))

Copies-store :
    (i n : ℕ) (d src : Str) (r : Option Str)
    → i ≤ n
    → Copies (i + 1) n (store d i (src i)) src r
    → Copies i n d src r
Copies-store i n d src r h (out, run, at) = (
  out,
  run,
  λ j. elim (Bool-cases (j == i)) [
    | inl e ↦ let e' : j ≡ i = (==_iff j i).0 e in rw (at j, e') (ground arith)
    | inr e ↦ ground (arith, at j)
  ],
)

strcpy_from_lem :
    (left i fuel n : ℕ) (d src : Str)
    → HasLength src n
    → i + left ≡ n
    → left < fuel
    → Copies i n d src (strcpy_from fuel i d src)
unfolding strcpy_from
strcpy_from_lem left i zero n d src h e f = absurd (omega arith)
strcpy_from_lem zero i (suc fuel) n d src h e f =
    let here : n ≡ i = omega arith in
    let z : src i ≡ 0 = rw here at h.nul in
    (
      store d i 0,
      ground (arith, z),
      λ j. elim (Bool-cases (j == i)) [
        | inl k ↦ let k' : j ≡ i = (==_iff j i).0 k in rw k' (ground (arith, z))
        | inr k ↦ ground arith
      ],
    )
strcpy_from_lem (suc left) i (suc fuel) n d src h e f =
    rw (==_false (src i) 0 (h.before i (omega arith))) (
      Copies-store i n d src _ (omega arith)
        (strcpy_from_lem left (i + 1) fuel n (store d i (src i)) src h (omega arith) (omega arith)))

-- With fuel for the string and its NUL, `strcpy` returns the destination with the string and its
-- NUL at its front and no other cell changed.
pub strcpy_lem :
    (fuel n : ℕ) (d src : Str)
    → HasLength src n
    → n < fuel
    → (out : Str) × (strcpy fuel d src ≡ some out)
      × ((j : ℕ) → out j ≡ (if leb j n then src j else d j))
unfolding strcpy
strcpy_lem fuel n d src h f =
    let (out, run, at) = strcpy_from_lem n 0 fuel n d src h (omega arith) f in
    (out, run, λ j. ground (arith, at j))
