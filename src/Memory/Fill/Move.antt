-- ===== src/Memory/Fill/Move.antt =====
-- `memmove`: the direction it chooses is right for regions that overlap.
use linux_based_os.Prelude.{
  ℕ, zero, suc, ◌+◌, ◌-◌, ◌<◌, ◌≤◌, ◌≡◌, arith, ltb, store, Bool-cases, inl, inr, ltb→lt,
}
use linux_based_os.Memory.{Memory}
use linux_based_os.Memory.Transfer.{transferred}
use linux_based_os.Memory.Fill.{move_up, move_down, memmove}

move_up_lem :
    (n esi edi : ℕ) (m : Memory) (a : ℕ)
    → edi ≤ esi
    → move_up n esi edi m a ≡ transferred m edi m esi n a
unfolding move_up
move_up_lem zero esi edi m a h = ground arith
move_up_lem (suc n) esi edi m a h =
    ground (arith, move_up_lem n (esi + 1) (edi + 1) (store m edi (m esi)) a (omega arith))

move_down_lem :
    (n src dest : ℕ) (m : Memory) (a : ℕ)
    → src < dest
    → move_down n (src + n - 1) (dest + n - 1) m a ≡ transferred m dest m src n a
unfolding move_down
move_down_lem zero src dest m a h = ground arith
move_down_lem (suc n) src dest m a h =
    let from : src + suc n - 1 ≡ src + n = omega arith in
    let to : dest + suc n - 1 ≡ dest + n = omega arith in
    rw (from, to) (ground (arith, move_down_lem n src dest (store m (dest + n) (m (src + n))) a h))

-- Within one memory, wherever the two regions lie, `memmove` leaves in the `n` bytes from `dest` on
-- what stood before in the `n` bytes from `src` on, and changes nothing else.
pub memmove_lem :
    (m : Memory) (dest src n a : ℕ) → memmove m dest src n a ≡ transferred m dest m src n a
unfolding memmove
memmove_lem m dest src n a = elim (Bool-cases (ltb src dest)) [
  | inl e ↦ rw e (move_down_lem n src dest m a (ltb→lt _ _ e))
  | inr e ↦ rw e (move_up_lem n src dest m a (ground arith))
]
