-- ===== src/Screen/Text.antt =====
-- What a text that is printed on one terminal leaves on the screen.
use linux_based_os.Prelude.{
  ℕ, ◌+◌, ◌<◌, ◌≤◌, ◌≡◌, ◌≢◌, ◌⊎◌, inl, inr, arith, refl, ◌∙◌, sym, subst, for_range, for_range_inv,
  if◌then◌else◌, ◌==◌, ==_false,
}
use linux_based_os.Screen.{Screen, cell, putc}
use linux_based_os.Screen.Bounds.{InBounds, putc-InBounds}
use linux_based_os.Screen.Cursor.{at_cell, Printable, Printed, putc_lem}

-- `r` is `s` after the first `k` characters of `buf` on terminal `t`, from its cursor on.
pub record Shown (t : ℕ) (buf : ℕ → ℕ) (s : Screen) (k : ℕ) (r : Screen) : Type 0 where
  pub cursor : at_cell t r ≡ at_cell t s + k
  pub char : (i : ℕ) → i < k → r.video (cell t (at_cell t s + i)) ≡ buf i
  pub attribute : (i : ℕ) → i < k → r.video (cell t (at_cell t s + i) + 1) ≡ 7
  pub kept :
      (a : ℕ) → (a < cell t (at_cell t s)) ⊎ (cell t (at_cell t s + k) ≤ a) → r.video a ≡ s.video a
  pub others : (u : ℕ) → u ≢ t → at_cell u r ≡ at_cell u s
  pub inside : InBounds r

-- One round of the loop of `terminal_write`.
abbrev pub put_char : (t : ℕ) → (ℕ → ℕ) → ℕ → Screen → Screen
put_char t buf i s = if buf i == 0 then s else putc (buf i) t s

split_last : (i k : ℕ) → i < k + 1 → (i ≡ k) ⊎ (i < k)
split_last i k h = ground arith

module _ (t : ℕ) (buf : ℕ → ℕ) (s : Screen) where
  module _ (k : ℕ) (r : Screen) (h : Shown t buf s k r)
      (p : Printed (buf k) t r (putc (buf k) t r)) where
    last_cell : cell t (at_cell t r) ≡ cell t (at_cell t s + k)
    last_cell = omega (arith, h.cursor)

    char_step :
        (i : ℕ) → (i ≡ k) ⊎ (i < k) → (putc (buf k) t r).video (cell t (at_cell t s + i)) ≡ buf i
    char_step i (inl e) =
        subst (λ j. (putc (buf k) t r).video (cell t (at_cell t s + j)) ≡ buf j) (sym e)
          (subst (λ c. (putc (buf k) t r).video c ≡ buf k) last_cell p.char)
    char_step i (inr l) =
        p.kept (cell t (at_cell t s + i)) (omega (arith, h.cursor)) (omega (arith, h.cursor))
        ∙ h.char i l

    attribute_step :
        (i : ℕ) → (i ≡ k) ⊎ (i < k) → (putc (buf k) t r).video (cell t (at_cell t s + i) + 1) ≡ 7
    attribute_step i (inl e) =
        subst (λ j. (putc (buf k) t r).video (cell t (at_cell t s + j) + 1) ≡ 7) (sym e)
          (subst (λ c. (putc (buf k) t r).video (c + 1) ≡ 7) last_cell p.attribute)
    attribute_step i (inr l) =
        p.kept (cell t (at_cell t s + i) + 1) (omega (arith, h.cursor)) (omega (arith, h.cursor))
        ∙ h.attribute i l

    Shown-step : Shown t buf s (k + 1) (putc (buf k) t r)
    Shown-step = record {
      cursor = omega (arith, h.cursor, p.cursor);
      char = λ i l. char_step i (split_last i k l);
      attribute = λ i l. attribute_step i (split_last i k l);
      kept = λ a o.
          p.kept a (ground (arith, h.cursor)) (ground (arith, h.cursor))
          ∙ h.kept a (ground (arith, o));
      others = λ u d. p.others u d ∙ h.others u d;
      inside = putc-InBounds (buf k) t r h.inside;
    }

  -- A text of `n` printable characters that ends before the last cell of the screen.
  pub show_text :
      (n : ℕ)
      → InBounds s
      → ((i : ℕ) → i < n → (buf i ≢ 0) × Printable (buf i))
      → at_cell t s + n ≤ 1999
      → Shown t buf s n (for_range n 0 (put_char t buf) s)
  show_text n h visible room =
      let start : Shown t buf s 0 s = record {
        cursor = omega arith;
        char = λ i l. absurd (omega arith);
        attribute = λ i l. absurd (omega arith);
        kept = λ a o. refl;
        others = λ u d. refl;
        inside = h;
      } in
      for_range_inv (λ k r. k ≤ n → Shown t buf s k r) (put_char t buf)
        (λ k r before l.
          let shown = before (omega arith) in
          let (c, q) = visible k (omega arith) in
          rw (==_false (buf k) 0 c) (
            Shown-step k r shown
              (putc_lem (buf k) t r shown.inside q (omega (arith, shown.cursor)))))
        n 0 n s (omega arith) (λ l. start) (omega arith)
