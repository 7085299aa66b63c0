-- ===== src/Bytes.antt =====
-- Byte strings (`Vec<u8>`, `[u8; N]`) as lists of numbers below 256, and the conversions
-- `from_be_bytes` and `u32::to_be_bytes` of the Rust standard library.
use tap_tunnel.Prelude.{
  ℕ, suc, ◌+◌, ◌*◌, ◌/◌, ◌%◌, ◌^◌, ◌<◌, ◌≡◌, refl, List, [], ◌∷◌, ◌++◌, arith, All, length,
}

abbrev pub Bytes : Type 0
Bytes = List ℕ

abbrev pub IsBytes : Bytes → Type 0
IsBytes = All (λ b. b < 256)

-- `uN::from_be_bytes`, started from the value of the bytes before.
unfoldable pub from_be_after : ℕ → Bytes → ℕ
from_be_after v [] = v
from_be_after v (b ∷ bs) = from_be_after (v * 256 + b) bs

abbrev pub from_be : Bytes → ℕ
from_be = from_be_after 0

-- `u32::to_be_bytes`
unfoldable pub u32_to_be : ℕ → Bytes
u32_to_be v = (v / 2 ^ 24 % 256) ∷ (v / 2 ^ 16 % 256) ∷ (v / 2 ^ 8 % 256) ∷ (v % 256) ∷ []

pub from_be_after-append :
    (v : ℕ) (xs ys : Bytes) → from_be_after v (xs ++ ys) ≡ from_be_after (from_be_after v xs) ys
unfolding from_be_after
from_be_after-append v [] ys = refl
from_be_after-append v (x ∷ xs) ys = from_be_after-append (v * 256 + x) xs ys

pub from_be-u32_to_be : (v : ℕ) → from_be (u32_to_be v) ≡ v % 2 ^ 32
unfolding from_be_after u32_to_be
from_be-u32_to_be v = omega arith

pub u32_to_be-IsBytes : (v : ℕ) → IsBytes (u32_to_be v)
unfolding u32_to_be
u32_to_be-IsBytes v = omega arith

pub length-u32_to_be : (v : ℕ) → length (u32_to_be v) ≡ 4
unfolding u32_to_be
length-u32_to_be v = refl

pub u32_to_be-from_be :
    (a b c d : ℕ)
    → IsBytes (a ∷ b ∷ c ∷ d ∷ [])
    → u32_to_be (from_be (a ∷ b ∷ c ∷ d ∷ [])) ≡ a ∷ b ∷ c ∷ d ∷ []
unfolding from_be_after u32_to_be
u32_to_be-from_be a b c d h = ground arith

-- `n` bytes have a value below `256 ^ n`.
pub from_be_after-lt :
    (bs : Bytes) (v m k : ℕ)
    → m + length bs ≡ k
    → IsBytes bs
    → v < 256 ^ m
    → from_be_after v bs < 256 ^ k
unfolding from_be_after
from_be_after-lt [] v m k e h lt = let e' : k ≡ m = omega arith in rw e' lt
from_be_after-lt (b ∷ bs) v m k e h lt =
    from_be_after-lt bs (v * 256 + b) (suc m) k (omega arith) h.1 (omega arith)
