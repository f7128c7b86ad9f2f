-- ===== src/Idt/Entries.antt =====
-- The table that `idt_init` leaves: each vector's handler, and who may call it.
use linux_based_os.Prelude.{
  ℕ, ◌+◌, ◌<◌, ◌^◌, ◌≡◌, refl, arith, ltb, ◌==◌, ◌&&◌, not, if◌then◌else◌, for_range, for_range_inv,
  get_or, Option, none, some, Bool-cases, inl, inr, ==_iff, ==_refl, ltb-false, ◌||◌, true, false,
  Bool,
}
use linux_based_os.Segment.{IdtDesc, set_idt_entry, kernel_cs}
use linux_based_os.Segment.Fields.{handler_of, set_idt_entry_lem}
use linux_based_os.Idt.{
  Handler, ex_reserved, page_handler, handle_rtc_interrupt, handle_pit_interrupt,
  handle_keyboard_interrupt, system_calls_linkage, pit_vector, kb_vector, rtc_vector,
  systemcall_vector, exception_ptr_table, exception_vector, int_vector, syscall_vector, Idt,
  pointer, exception_entry, idt_init,
}

-- The handler of an exception: its own, or the one of the reserved vectors.
abbrev pub exception_handler : ℕ → Option Handler
exception_handler v =
    if v == 14
    then some page_handler
    else if ltb v 20 && not (v == 15)
    then get_or exception_ptr_table v none
    else some ex_reserved

-- The handler of a vector, none where `idt_init` sets no entry.
abbrev pub handler_at : ℕ → Option Handler
handler_at v =
    if v == systemcall_vector
    then some system_calls_linkage
    else if v == kb_vector
    then some handle_keyboard_interrupt
    else if v == pit_vector
    then some handle_pit_interrupt
    else if v == rtc_vector
    then some handle_rtc_interrupt
    else if ltb v 32
    then exception_handler v
    else none

-- The entry `d` is present, in the kernel's code segment, a trap gate or an interrupt gate, for the
-- handler at `addr`; `dpl` is the least privilege that may call it.
pub record Gate (d : IdtDesc) (addr trap dpl : ℕ) : Type 0 where
  pub handler : handler_of d ≡ addr
  pub selector : d.seg_selector ≡ kernel_cs
  pub is_present : d.present ≡ 1
  pub is_trap : d.reserved3 ≡ trap
  pub level : d.dpl ≡ dpl
  pub wide : d.size ≡ 1

abbrev pub is_set : ℕ → Bool
is_set v =
    (v == systemcall_vector)
    || (v == kb_vector)
    || (v == pit_vector)
    || (v == rtc_vector)
    || ltb v 32

module _ (address : Handler → ℕ) (stack : IdtDesc) (idt : Idt) where
  abbrev gate_entry : (template : IdtDesc) → Option Handler → IdtDesc
  gate_entry template h = set_idt_entry template (pointer address stack h)

  -- The table after the exceptions below `k` are set.
  abbrev with_exceptions : ℕ → Idt
  with_exceptions k v =
      if ltb v k then gate_entry (exception_vector stack) (exception_handler v) else idt v

  Exceptions : ℕ → Idt → Type 0
  Exceptions k t = (v : ℕ) → t v ≡ with_exceptions k v

  exception_entry_self :
      (k : ℕ) (t : Idt)
      → exception_entry address stack k t k
        ≡ gate_entry (exception_vector stack) (exception_handler k)
  unfolding exception_entry pointer
  exception_entry_self k t = elim (Bool-cases (k == 14)) [
    | inl e ↦ let e' : k ≡ 14 = (==_iff k 14).0 e in rw e' refl
    | inr e ↦ elim (Bool-cases (ltb k 20)) [
      | inl f ↦ elim (Bool-cases (k == 15)) [
        | inl g ↦ rw (e, f, g, ==_refl k) refl
        | inr g ↦ rw (e, f, g, ==_refl k) refl
      ]
      | inr f ↦ rw (e, f, ==_refl k) refl
    ]
  ]

  exception_entry_ne :
      (k v : ℕ) (t : Idt) → (v == k) ≡ false → exception_entry address stack k t v ≡ t v
  unfolding exception_entry
  exception_entry_ne k v t h = ground arith

  Exceptions-step :
      (k : ℕ) (t : Idt) → Exceptions k t → Exceptions (k + 1) (exception_entry address stack k t)
  unfolding Exceptions
  Exceptions-step k t at v = elim (Bool-cases (v == k)) [
    | inl e ↦
        let e' : v ≡ k = (==_iff v k).0 e in
        let lower : ltb k (k + 1) ≡ true = ground arith in
        rw (e', exception_entry_self k t, lower) refl
    | inr e ↦
        let same : ltb v (k + 1) ≡ ltb v k = ground arith in
        rw (exception_entry_ne k v t e, at v, same) refl
  ]

  exceptions_set :
      (v : ℕ) → for_range 0x20 0 (exception_entry address stack) idt v ≡ with_exceptions 32 v
  unfolding Exceptions
  exceptions_set v =
      for_range_inv Exceptions (exception_entry address stack) Exceptions-step 0x20 0 32 idt
        (omega arith) (λ v. rw (ltb-false v 0 (omega arith)) refl) v

  -- The template of a vector's entry.
  abbrev template : ℕ → IdtDesc
  template v =
      if v == systemcall_vector
      then syscall_vector stack
      else if ltb v 32
      then exception_vector stack
      else int_vector stack

  idt_init_at :
      (v : ℕ)
      → idt_init address stack idt v
        ≡ (if is_set v then gate_entry (template v) (handler_at v) else idt v)
  unfolding idt_init pointer
  idt_init_at v = elim (Bool-cases (v == systemcall_vector)) [
    | inl e ↦ rw ((==_iff v systemcall_vector).0 e) refl
    | inr e ↦ elim (Bool-cases (v == kb_vector)) [
      | inl f ↦ rw ((==_iff v kb_vector).0 f) refl
      | inr f ↦ elim (Bool-cases (v == pit_vector)) [
        | inl g ↦ rw ((==_iff v pit_vector).0 g) refl
        | inr g ↦ elim (Bool-cases (v == rtc_vector)) [
          | inl h ↦ rw ((==_iff v rtc_vector).0 h) refl
          | inr h ↦ elim (Bool-cases (ltb v 32)) [
            | inl k ↦ rw (e, f, g, h, exceptions_set v, k) refl
            | inr k ↦ rw (e, f, g, h, exceptions_set v, k) refl
          ]
        ]
      ]
    ]
  ]

template-Gate :
    (address : Handler → ℕ) (stack : IdtDesc) (v : ℕ) (h : Handler)
    → address h < 2 ^ 32
    → Gate
        (gate_entry address stack (λ v. stack) (template address stack (λ v. stack) v) (some h))
        (address h)
        (if ltb v 32 then 1 else 0)
        (if v == systemcall_vector then 3 else 0)
unfolding set_idt_entry pointer
template-Gate address stack v h small = record {
  handler = set_idt_entry_lem (template address stack (λ v. stack) v) (address h) small;
  selector = ground arith;
  is_present = ground arith;
  is_trap = ground arith;
  level = ground arith;
  wide = ground arith;
}

handler_at-is_set : (v : ℕ) (h : Handler) → handler_at v ≡ some h → is_set v ≡ true
handler_at-is_set v h e = ground (arith, e)

-- `idt_init` leaves at each vector that has a handler, if this is at a 32-bit address, a gate for
-- that handler: a trap gate for the 32 exceptions and an interrupt gate otherwise, which the user
-- may call at the system call's vector only.
pub idt_init_lem :
    (address : Handler → ℕ) (stack : IdtDesc) (idt : Idt) (v : ℕ) (h : Handler)
    → address h < 2 ^ 32
    → handler_at v ≡ some h
    → Gate
        (idt_init address stack idt v)
        (address h)
        (if ltb v 32 then 1 else 0)
        (if v == systemcall_vector then 3 else 0)
idt_init_lem address stack idt v h small e =
    rw (idt_init_at address stack idt v, handler_at-is_set v h e, e)
      (template-Gate address stack v h small)

-- `idt_init` leaves the entries of all other vectors alone.
pub idt_init_kept :
    (address : Handler → ℕ) (stack : IdtDesc) (idt : Idt) (v : ℕ)
    → is_set v ≡ false
    → idt_init address stack idt v ≡ idt v
idt_init_kept address stack idt v e = rw (idt_init_at address stack idt v, e) refl
