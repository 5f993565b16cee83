-- ===== src/State/Sizes.antt =====
-- The sizes that state.go computes in int64, where nothing wraps around.
use native.Mathlib.Nat.{div-le_self}
use oget.Prelude.{ℕ, ◌+◌, ◌-◌, ◌/◌, ◌^◌, ◌<◌, ◌≤◌, ◌≡◌, some, arith}
use oget.Prelude.Int.{pos, add64_pos, sub64_pos, div64_pos}
use oget.State.{num_chunks, num_bytes}

-- the number of chunks of a file of n bytes
abbrev pub chunks : ℕ → ℕ → ℕ
chunks n c = (n + c - 1) / c

-- the number of bytes of its bitset
abbrev pub bytes : ℕ → ℕ → ℕ
bytes n c = (chunks n c + 7) / 8

pub num_chunks_pos :
    (n c : ℕ) → 0 < c → n + c + 8 < 2 ^ 63 → num_chunks (pos n) (pos c) ≡ some (pos (chunks n c))
unfolding num_chunks
num_chunks_pos n c h lt =
    rw (add64_pos n c (omega arith), sub64_pos (n + c) 1 (omega arith) (omega arith))
      (div64_pos (n + c - 1) c h (omega arith))

pub chunks-le : (n c : ℕ) → chunks n c ≤ n + c - 1
chunks-le n c = div-le_self (n + c - 1) c

pub num_bytes_pos :
    (n c : ℕ) → 0 < c → n + c + 8 < 2 ^ 63 → num_bytes (pos (chunks n c)) ≡ some (pos (bytes n c))
unfolding num_bytes
num_bytes_pos n c h lt =
    rw (add64_pos (chunks n c) 7 (omega (arith, chunks-le n c)))
      (div64_pos (chunks n c + 7) 8 (omega arith) (omega (arith, chunks-le n c)))

pub bytes-lt : (n c : ℕ) → 0 < c → n + c + 8 < 2 ^ 63 → 16384 + bytes n c < 2 ^ 63
bytes-lt n c h lt = omega (arith, chunks-le n c)
