-- ===== src/Prelude/Loop.antt =====
-- Counted loops, and memory as a function from an offset to a cell.
use Prim.Native.Nat.{ℕ, zero, suc, ◌+◌}
use mathlib.Core.Path.{◌≡◌, subst}
use native.Mathlib.Omega.{arith}
use linux_based_os.Prelude.Tests.{◌==◌, if◌then◌else◌}

-- The C loop that counts up from `first`, for the given number of rounds.
unfoldable pub for_range {ℓ} :
    {State : Type ℓ} → (rounds first : ℕ) → (body : ℕ → State → State) → State → State
for_range zero first body start = start
for_range (suc rounds) first body start = for_range rounds (first + 1) body (body first start)

-- What the body keeps from each round to the next holds behind the last round.
pub for_range_inv {ℓ κ} :
    {State : Type ℓ} (Holds : ℕ → State → Type κ) (body : ℕ → State → State)
    → (keep : (k : ℕ) (now : State) → Holds k now → Holds (k + 1) (body k now))
    → (rounds first last : ℕ) (start : State)
    → (sum : first + rounds ≡ last) (before : Holds first start)
    → Holds last (for_range rounds first body start)
unfolding for_range
for_range_inv Holds body keep zero first last start sum before =
    subst (λ k. Holds k start) (omega arith) before
for_range_inv Holds body keep (suc rounds) first last start sum before =
    let next = keep first start before in
    for_range_inv Holds body keep rounds (first + 1) last (body first start) (omega arith) next

-- Memory behind a pointer: what stands at each offset. Storing changes one cell.
abbrev pub store {ℓ} : {A : Type ℓ} → (ℕ → A) → ℕ → A → ℕ → A
store m i v j = if j == i then v else m j
