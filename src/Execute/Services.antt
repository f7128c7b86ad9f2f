-- ===== src/Execute/Services.antt =====
-- `getargs` and `vidmap`, and the two calls that are refused.
use linux_based_os.Prelude.{
  ℕ, ◌+◌, ◌-◌, ◌<◌, ◌≡◌, ◌==◌, ltb, leb, ◌&&◌, ◌||◌, if◌then◌else◌, Option, none, some, ℤ, pos,
  negsuc, minus_one, store, for_range, for_range_inv, bit_or, arith, ==_false, refl, ap, Bool-cases,
  inl, inr,
}
use linux_based_os.Memory.{Memory}
use linux_based_os.Process.{Pcb}
use linux_based_os.Screen.{Screen, clear}

-- The number of rounds of the copy: `scan != '\0'` compares the pointer, so only `nbytes` ends it.
unfoldable pub args_rounds : ℤ → ℕ
args_rounds (pos n) = n
args_rounds (negsuc n) = 0

-- A null buffer is `none`.
unfoldable pub getargs : Pcb → Option ℕ → ℤ → Memory → ℤ × Memory
getargs current none nbytes m = (minus_one, m)
getargs current (some buf) nbytes m =
    if current.args 0 == 0
    then (minus_one, m)
    else (pos 0, for_range (args_rounds nbytes) 0 (λ i w. store w (buf + i) (current.args i)) m)

-- The page of video memory for user programs, and the pointer that is written to `screen_start`.
pub record VideoMap : Type 0 where
  pub page : ℕ
  pub screen : Screen
  pub start : Option ℕ

-- `screen_start` must point into the program's page of four megabytes, or just behind it.
unfoldable pub vidmap : (active_terminal pcb_terminal screen_start : ℕ) → VideoMap → ℤ × VideoMap
vidmap active_terminal pcb_terminal screen_start v =
    if screen_start == 0
    then (minus_one, v)
    else if ltb screen_start 0x8000000 || ltb 0x8400000 screen_start
    then (minus_one, v)
    else (
      pos 0,
      record {
        page = bit_or 0xB8000 0x07;
        screen = clear active_terminal pcb_terminal v.screen;
        start = some 0x20000000;
      },
    )

abbrev pub set_handler : ℤ → ℤ
set_handler signum = minus_one

abbrev pub sigreturn : ℤ
sigreturn = minus_one

-- The copy after `k` rounds.
abbrev copy_of : (ℕ → ℕ) → ℕ → ℕ → Memory → ℕ → ℕ
copy_of args buf k m a = if leb buf a && ltb a (buf + k) then args (a - buf) else m a

copy_round :
    (args : ℕ → ℕ) (buf k : ℕ) (m w : Memory) (a : ℕ)
    → w a ≡ copy_of args buf k m a
    → store w (buf + k) (args k) a ≡ copy_of args buf (k + 1) m a
copy_round args buf k m w a h = elim (Bool-cases (a == buf + k)) [
  | inl e ↦
      let at : a - buf ≡ k = ground arith in
      let same : args (a - buf) ≡ args k = ap args at in ground (arith, same)
  | inr e ↦ ground (arith, h)
]

-- With arguments, `getargs` of `n` bytes returns 0, puts the first `n` bytes of the argument
-- buffer, whatever their length as a string, into memory at `buf` and changes nothing else.
pub getargs_lem :
    (p : Pcb) (buf n : ℕ) (m : Memory)
    → 0 < p.args 0
    → (out : Memory) × (getargs p (some buf) (pos n) m ≡ (pos 0, out))
      × ((a : ℕ) → out a ≡ (if leb buf a && ltb a (buf + n) then p.args (a - buf) else m a))
unfolding getargs args_rounds
getargs_lem p buf n m h = (
  for_range n 0 (λ i w. store w (buf + i) (p.args i)) m,
  rw (==_false (p.args 0) 0 (omega arith)) refl,
  copied,
)
  where
    copied :
        (a : ℕ)
        → for_range n 0 (λ i w. store w (buf + i) (p.args i)) m a
          ≡ (if leb buf a && ltb a (buf + n) then p.args (a - buf) else m a)
    copied =
        for_range_inv
          (λ k w. (a : ℕ) → w a ≡ (if leb buf a && ltb a (buf + k) then p.args (a - buf) else m a))
          (λ i w. store w (buf + i) (p.args i)) (λ k w g a. copy_round p.args buf k m w a (g a)) n 0
          n m (omega arith) (λ a. ground arith)
