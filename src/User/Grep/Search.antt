-- ===== src/User/Grep/Search.antt =====
-- `grep`: where a line ends, and which lines match.
use linux_based_os.Prelude.{store, ℕ, ◌+◌, ◌≤◌, ◌<◌, ◌≡◌, ◌≢◌, ◌⊎◌}
use linux_based_os.Strings.{Str}
use linux_based_os.Strings.Length.{HasLength}
use linux_based_os.Strings.Compare.{SamePrefix}
use linux_based_os.User.{from}

-- The line from `line_start` on ends at `line_end`: at its line break, or where the buffer ends.
pub record IsLineEnd (bytes : Str) (line_start last line_end : ℕ) : Type 0 where
  pub above : line_start ≤ line_end
  pub within : line_end ≤ last
  pub stops : (line_end ≡ last) ⊎ (bytes line_end ≡ 10)
  pub no_break : (i : ℕ) → line_start ≤ i → i < line_end → bytes i ≢ 10

-- The search string stands in `bytes` at `check`.
abbrev pub StandsAt : (s : Str) (s_len : ℕ) (bytes : Str) (check : ℕ) → Type 0
StandsAt s s_len bytes check = (s 0 ≡ bytes check) × SamePrefix s_len 0 (from check bytes) s

-- Somewhere among `left` places from `check` on.
abbrev pub Somewhere : (s : Str) (s_len : ℕ) (bytes : Str) (check left : ℕ) → Type 0
Somewhere s s_len bytes check left =
    (at : ℕ) × (check ≤ at) × (at < check + left) × StandsAt s s_len bytes at

-- The string `s` of `s_len` characters stands in the line from `line_start` to below `line_end`.
abbrev pub Contains : (s : Str) (s_len : ℕ) (bytes : Str) (line_start line_end : ℕ) → Type 0
Contains s s_len bytes line_start line_end =
    (at : ℕ) × (line_start ≤ at)
    × (at + s_len ≤ line_end)
    × ((j : ℕ) → j < s_len → bytes (at + j) ≡ s j)

module _ (s bytes : Str) (s_len line_start line_end : ℕ) (string : HasLength s s_len)
    (filled : 1 ≤ s_len) (order : line_start ≤ line_end) where
  abbrev cut : Str
  cut = store bytes line_end 0
