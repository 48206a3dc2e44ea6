-- ===== src/Persistence/SeqNo.antt =====
-- tellus/src/persistence/seq_no.rs: a position in an event stream, a `u64` that saturates.
use tellus.Prelude.{ℕ, ◌+◌, ◌≤◌, ◌≡◌, u64_max, saturating_add, arith}

abbrev pub SeqNo : Type 0
SeqNo = ℕ

-- `SeqNo::ZERO`
abbrev pub zero_seq_no : SeqNo
zero_seq_no = 0

unfoldable pub succ : SeqNo → SeqNo
succ n = saturating_add n 1

unfoldable pub advanced_by : SeqNo → ℕ → SeqNo
advanced_by n count = saturating_add n count

-- `count` successors.
pub steps : ℕ → SeqNo → SeqNo
steps ℕ.zero n = n
steps (ℕ.suc k) n = steps k (succ n)

-- Advancing by a count lands where as many successors do, also where the range ends.
pub advanced_by-eq-steps : (k n : ℕ) → n ≤ u64_max → advanced_by n k ≡ steps k n
unfolding advanced_by steps succ
advanced_by-eq-steps ℕ.zero n h = omega arith
advanced_by-eq-steps (ℕ.suc k) n h =
    omega (arith, advanced_by-eq-steps k (saturating_add n 1) (omega arith))

pub succ_exact : (n : ℕ) → n + 1 ≤ u64_max → succ n ≡ n + 1
unfolding succ
succ_exact n h = omega arith

pub advanced_by_exact : (n k : ℕ) → n + k ≤ u64_max → advanced_by n k ≡ n + k
unfolding advanced_by
advanced_by_exact n k h = omega arith
