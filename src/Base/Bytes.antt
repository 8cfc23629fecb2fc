-- ===== src/Base/Bytes.antt =====
-- Comparison of byte strings, and texts of several parts.
use Prim.Native.Nat.{ℕ}
use mathlib.Core.Path.{◌≡◌, refl}
use mathlib.Core.Bool.{Bool, true, false, ◌&&◌}
use mathlib.Core.List.{List, [], ◌∷◌}
use native.Mathlib.Omega.{arith}
use nu_maker_mbed_aliyun_io.Base.Tests.{◌==◌}

-- Byte for byte and of equal length, as memcmp behind a test of the lengths, or strcmp.
abbrev pub same_bytes : List ℕ → List ℕ → Bool
same_bytes [] [] = true
same_bytes (a ∷ as') (b ∷ bs) = a == b && same_bytes as' bs
same_bytes _ _ = false

pub same_bytes_refl : (bs : List ℕ) → same_bytes bs bs ≡ true
same_bytes_refl [] = refl
same_bytes_refl (b ∷ bs) = ground (arith, same_bytes_refl bs)

pub eq_of_same_bytes : (as' bs : List ℕ) → same_bytes as' bs ≡ true → as' ≡ bs
eq_of_same_bytes [] [] e = refl
eq_of_same_bytes [] (b ∷ bs) e = absurd (ground (arith, e))
eq_of_same_bytes (a ∷ as') [] e = absurd (ground (arith, e))
eq_of_same_bytes (a ∷ as') (b ∷ bs) e = ground (arith, e, eq_of_same_bytes as' bs)
