-- ===== src/Execute/Slots.antt =====
-- The slot of a process in the run queue.
use linux_based_os.Prelude.{
  ℕ, zero, suc, ◌+◌, ◌<◌, ◌≤◌, ◌≡◌, ◌≢◌, refl, arith, sym, ◌==◌, ==_iff, ==_false, ==_refl,
  Bool-cases, inl, inr, ℤ, pos, word32, List, set, length, get_or-set_self, get_or-set_ne,
  minus_one,
}
use linux_based_os.Schedule.{slot}
use linux_based_os.Execute.{find_parent}

-- Slot `i` holds process `p`, and no other slot does.
pub record Holds (l : List ℤ) (i p : ℕ) : Type 0 where
  pub at : slot l i ≡ pos p
  pub only : (m : ℕ) → m ≢ i → word32 (slot l m) ≢ p

-- No slot holds process `p`.
abbrev pub Absent : List ℤ → ℕ → Type 0
Absent l p = (m : ℕ) → word32 (slot l m) ≢ p

find_parent_from :
    (left j i p : ℕ) (l : List ℤ) → Holds l i p → j ≤ i → i < j + left → find_parent left j p l ≡ i
unfolding find_parent
find_parent_from zero j i p l h a b = absurd (omega arith)
find_parent_from (suc left) j i p l h a b = elim (Bool-cases (j == i)) [
  | inl e ↦ let e' : j ≡ i = (==_iff j i).0 e in rw (e', h.at, ==_refl p) refl
  | inr e ↦
      rw (==_false (word32 (slot l j)) p (h.only j (ground arith)))
        (find_parent_from left (j + 1) i p l h (ground arith) (omega arith))
]

pub find_parent_lem : (i p : ℕ) (l : List ℤ) → Holds l i p → i < 7 → find_parent 7 0 p l ≡ i
find_parent_lem i p l h b = find_parent_from 7 0 i p l h (omega arith) (omega arith)

-- A process that is in no slot takes slot `i`.
pub set-Holds : (i p : ℕ) (l : List ℤ) → Absent l p → i < length l → Holds (set l i (pos p)) i p
set-Holds i p l h b = record {
  at = get_or-set_self l i (pos p) minus_one b;
  only = λ m n. rw (get_or-set_ne l i m (pos p) minus_one (λ e. n (sym e))) (h m);
}
