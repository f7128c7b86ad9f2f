-- ===== src/Filesystem/Lookup.antt =====
-- `read_dentry_by_name` and `read_dentry_by_index`: which entry is found.
pub mod RoundTrip
use linux_based_os.Prelude.{
  ℕ, zero, suc, ◌+◌, ◌≤◌, ◌<◌, ◌≡◌, inl, inr, refl, arith, true, false, pos, minus_one, is_zero,
  is_zero_iff, Bool-cases,
}
use linux_based_os.Strings.{Str, strncmp}
use linux_based_os.Strings.Compare.{IsBytes, SamePrefix, strncmp_iff}
use linux_based_os.Filesystem.Defs.{Image, Dentry, fill_dentry, find_dentry, read_dentry_by_name}

-- The two names agree in the 31 characters that are compared.
abbrev pub SameName : Str → Str → Type 0
SameName a b = SamePrefix 31 0 a b

-- The characters in an image are bytes.
pub record HasBytes (im : Image) : Type 0 where
  pub bytes : (i : ℕ) → IsBytes (im.dentry i).filename

same_test : (a b : Str) → IsBytes a → IsBytes b → SameName a b → is_zero (strncmp a b 31) ≡ true
same_test a b ha hb s = (is_zero_iff (strncmp a b 31)).1 ((strncmp_iff a b 31 ha hb).1 s)

differ_test :
    (a b : Str) → IsBytes a → IsBytes b → ¬ SameName a b → is_zero (strncmp a b 31) ≡ false
differ_test a b ha hb d = elim (Bool-cases (is_zero (strncmp a b 31))) [
  | inl e ↦ absurd (d ((strncmp_iff a b 31 ha hb).0 ((is_zero_iff (strncmp a b 31)).0 e)))
  | inr e ↦ e
]

module _ (im : Image) (hb : HasBytes im) (fname : Str) (hf : IsBytes fname) (out : Dentry) where
  find_dentry_first :
      (k left i : ℕ)
      → k < left
      → SameName fname (im.dentry (i + k)).filename
      → ((j : ℕ) → i ≤ j → j < i + k → ¬ SameName fname (im.dentry j).filename)
      → find_dentry im left i fname out ≡ (pos 0, fill_dentry out (im.dentry (i + k)))
  unfolding find_dentry
  find_dentry_first k zero i h same before = absurd (omega arith)
  find_dentry_first zero (suc left) i h same before =
      let here : i + 0 ≡ i = omega arith in
      rw here (rw (same_test fname (im.dentry i).filename hf (hb.bytes i) (rw here at same)))
  find_dentry_first (suc k) (suc left) i h same before =
      let next : i + suc k ≡ i + 1 + k = omega arith in
      rw
        (differ_test fname (im.dentry i).filename hf (hb.bytes i)
          (before i (omega arith) (omega arith)))
        (rw next (
          find_dentry_first k left (i + 1) (omega arith) (rw next at same)
            (λ j p q. before j (omega arith) (omega arith))))

  find_dentry_none :
      (left i : ℕ)
      → ((j : ℕ) → i ≤ j → j < i + left → ¬ SameName fname (im.dentry j).filename)
      → find_dentry im left i fname out ≡ (minus_one, out)
  unfolding find_dentry
  find_dentry_none zero i before = refl
  find_dentry_none (suc left) i before =
      rw
        (differ_test fname (im.dentry i).filename hf (hb.bytes i)
          (before i (omega arith) (omega arith)))
        (find_dentry_none left (i + 1) (λ j p q. before j (omega arith) (omega arith)))

  -- `read_dentry_by_name` returns 0 and fills in entry `k`, if `k` is the first entry with the
  -- name's 31 characters; `k` may be one behind the directory's last entry.
  pub read_dentry_by_name_found :
      (k : ℕ)
      → k ≤ im.num_dir
      → SameName fname (im.dentry k).filename
      → ((j : ℕ) → j < k → ¬ SameName fname (im.dentry j).filename)
      → read_dentry_by_name im fname out ≡ (pos 0, fill_dentry out (im.dentry k))
  unfolding read_dentry_by_name
  read_dentry_by_name_found k h same before =
      let start : 0 + k ≡ k = omega arith in
      rw (← start) (
        find_dentry_first k (suc im.num_dir) 0 (omega arith) (rw (← start) at same)
          (λ j p q. before j (omega arith)))

  -- With no such entry it returns -1 and leaves its argument alone.
  pub read_dentry_by_name_missing :
      ((j : ℕ) → j ≤ im.num_dir → ¬ SameName fname (im.dentry j).filename)
      → read_dentry_by_name im fname out ≡ (minus_one, out)
  unfolding read_dentry_by_name
  read_dentry_by_name_missing none_such =
      find_dentry_none (suc im.num_dir) 0 (λ j p q. none_such j (omega arith))
