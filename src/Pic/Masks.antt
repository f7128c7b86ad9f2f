-- ===== src/Pic/Masks.antt =====
-- Which interrupt requests the masks let through.
use linux_based_os.Prelude.{
  ℕ, ◌+◌, ◌-◌, ◌/◌, ◌%◌, ◌<◌, ◌≡◌, ◌==◌, if◌then◌else◌, ltb, arith, u8, ◌<<<◌, bit, bit_and, bit_or,
  bit-bit_and, bit-bit_or, Bool-cases, inl, inr, all_below, all_below_sound, refl, ltb→lt, ==_false,
  false, ◌≤◌, Bool, true, ==_iff, ◌*◌, subst,
}
use linux_based_os.Pic.{Pic, enable_irq, disable_irq, complement}

-- The mask bit of a request: 1 when it is held back.
abbrev pub masked : Pic → ℕ → ℕ
masked p irq = if ltb irq 8 then bit p.master_mask irq else bit p.slave_mask (irq - 8)

-- The masks after the call: the bit of `irq` is `v` and every other bit is what it was.
abbrev pub Only : Pic → Pic → ℕ → ℕ → Type 0
Only p r irq v = (j : ℕ) → j < 16 → masked r j ≡ (if j == irq then v else masked p j)

abbrev pair_test : (ℕ → ℕ → ℕ) → ℕ → ℕ → ℕ → Bool
pair_test f u v n = f (n / 8) (n % 8) == (if n % 8 == n / 8 then u else v)

-- A table of 64 entries.
by_table :
    (f : ℕ → ℕ → ℕ) (u v k j : ℕ)
    → all_below 64 (pair_test f u v) ≡ true
    → k < 8
    → j < 8
    → f k j ≡ (if j == k then u else v)
by_table f u v k j t a b =
    let n = k * 8 + j in
    let row : n / 8 ≡ k = omega arith in
    let column : n % 8 ≡ j = omega arith in
    subst (λ r. f r j ≡ (if j == r then u else v)) row
      (subst (λ c. f (n / 8) c ≡ (if c == n / 8 then u else v)) column
        ((==_iff (f (n / 8) (n % 8)) (if n % 8 == n / 8 then u else v)).0
          (all_below_sound 64 (pair_test f u v) n t (omega arith))))

complement_bits :
    (k j : ℕ) → k < 8 → j < 8 → bit (complement (1 <<< k)) j ≡ (if j == k then 0 else 1)
unfolding all_below
complement_bits k j a b = by_table (λ r c. bit (complement (1 <<< r)) c) 0 1 k j refl a b

one_bits : (k j : ℕ) → k < 8 → j < 8 → bit (u8 (1 <<< k)) j ≡ (if j == k then 1 else 0)
unfolding all_below
one_bits k j a b = by_table (λ r c. bit (u8 (1 <<< r)) c) 1 0 k j refl a b

slave_test : (irq : ℕ) → irq < 16 → bit_and irq 8 ≡ (if ltb irq 8 then 0 else 8)
unfolding all_below
slave_test irq h =
    (==_iff (bit_and irq 8) (if ltb irq 8 then 0 else 8)).0
      (all_below_sound 16 (λ n. bit_and n 8 == (if ltb n 8 then 0 else 8)) irq refl h)

clear_bit :
    (m k j : ℕ)
    → k < 8
    → j < 8
    → bit (bit_and m (complement (1 <<< k))) j ≡ (if j == k then 0 else bit m j)
clear_bit m k j a b =
    ground (arith, bit-bit_and j m (complement (1 <<< k)), complement_bits k j a b)

set_bit :
    (m k j : ℕ) → k < 8 → j < 8 → bit (bit_or m (u8 (1 <<< k))) j ≡ (if j == k then 1 else bit m j)
set_bit m k j a b = ground (arith, bit-bit_or j m (u8 (1 <<< k)), one_bits k j a b)

-- A new mask of one controller that differs in one bit.
master-Only :
    (p : Pic) (m irq v : ℕ)
    → irq < 8
    → ((j : ℕ) → j < 8 → bit m j ≡ (if j == irq then v else bit p.master_mask j))
    → Only p (record p { master_mask = m }) irq v
master-Only p m irq v h g j l = elim (Bool-cases (ltb j 8)) [
  | inl e ↦ rw e (g j (ltb→lt j 8 e))
  | inr e ↦ rw (e, ==_false j irq (ground arith)) refl
]

slave-Only :
    (p : Pic) (m irq v : ℕ)
    → 8 ≤ irq
    → ((j : ℕ) → j < 8 → bit m j ≡ (if j == irq - 8 then v else bit p.slave_mask j))
    → Only p (record p { slave_mask = m }) irq v
slave-Only p m irq v h g j l = elim (Bool-cases (ltb j 8)) [
  | inl e ↦ rw (e, ==_false j irq (ground arith)) refl
  | inr e ↦ rw (e, shifted j irq h (ltb-le j 8 e)) (g (j - 8) (ground arith))
]
  where
    ltb-le : (a b : ℕ) → ltb a b ≡ false → b ≤ a
    ltb-le a b t = ground arith

    shifted : (a b : ℕ) → 8 ≤ b → 8 ≤ a → (a == b) ≡ (a - 8 == b - 8)
    shifted a b x y = ground arith

-- `enable_irq` of one of the 16 requests lets it through, on the controller it belongs to, and
-- leaves the 15 other mask bits of the two controllers as they are.
pub enable_irq_lem : (irq : ℕ) (p : Pic) → irq < 16 → Only p (enable_irq irq p) irq 0
unfolding enable_irq
enable_irq_lem irq p h = elim (Bool-cases (ltb irq 8)) [
  | inl e ↦
      rw (slave_test irq h, e)
        (master-Only p (bit_and p.master_mask (complement (1 <<< irq))) irq 0 (ltb→lt irq 8 e)
          (λ j l. clear_bit p.master_mask irq j (ltb→lt irq 8 e) l))
  | inr e ↦
      rw (slave_test irq h, e)
        (slave-Only p (bit_and p.slave_mask (complement (1 <<< (irq - 8)))) irq 0 (ground arith)
          (λ j l. clear_bit p.slave_mask (irq - 8) j (omega arith) l))
]

-- `disable_irq` of one of the 16 requests holds it back and leaves the 15 other mask bits as they
-- are.
pub disable_irq_lem : (irq : ℕ) (p : Pic) → irq < 16 → Only p (disable_irq irq p) irq 1
unfolding disable_irq
disable_irq_lem irq p h = elim (Bool-cases (ltb irq 8)) [
  | inl e ↦
      rw (slave_test irq h, e)
        (master-Only p (bit_or p.master_mask (u8 (1 <<< irq))) irq 1 (ltb→lt irq 8 e)
          (λ j l. set_bit p.master_mask irq j (ltb→lt irq 8 e) l))
  | inr e ↦
      rw (slave_test irq h, e)
        (slave-Only p (bit_or p.slave_mask (u8 (1 <<< (irq - 8)))) irq 1 (ground arith)
          (λ j l. set_bit p.slave_mask (irq - 8) j (omega arith) l))
]
