-- ===== src/Protocol/Subnet.antt =====
-- `validate_ip_in_subnet` of src/protocol.rs compares the first `prefix_len` bits.
use Prim.Native.Nat.{bit_and}
use native.Mathlib.Nat.{one-le-pow, mod-eq_of_lt, eq_of_mul-eq-mul_right}
use native.Mathlib.Decide.{dec_lt}
use tap_tunnel.Prelude.{
  ℕ, zero, suc, ◌-◌, ◌*◌, ◌/◌, ◌%◌, ◌^◌, ◌≤◌, ◌<◌, ◌≡◌, refl, ap, none, some, arith, length, Bool,
  true, ◌==◌, ==_iff, false, ◌&&◌, if◌then◌else◌,
}
use tap_tunnel.Bytes.{Bytes, IsBytes, from_be, from_be_after-lt}
use tap_tunnel.Bits.{bit_and-mask}
use tap_tunnel.Net.{IpAddr, v4, v6, IsIp}
use tap_tunnel.Protocol.Address.{
  Profile, debug, release, shl_max, prefix_mask, validate_ip_in_subnet,
}

-- `uW::MAX << s` is as expected for every shift below `n`.
shifts_hold : (w n : ℕ) → Bool
shifts_hold w zero = true
shifts_hold w (suc n) = shifts_hold w n && (2 ^ w - 1) * 2 ^ n % 2 ^ w == 2 ^ w - 2 ^ n

-- A width at which the shifts are as expected.
abbrev Shifts : ℕ → Type 0
Shifts w = (s : ℕ) → s < w → (2 ^ w - 1) * 2 ^ s % 2 ^ w ≡ 2 ^ w - 2 ^ s

shifts_hold-below :
    (w n s : ℕ)
    → shifts_hold w n ≡ true
    → s < n
    → ((2 ^ w - 1) * 2 ^ s % 2 ^ w == 2 ^ w - 2 ^ s) ≡ true
unfolding shifts_hold
shifts_hold-below w (suc n) s h less = ground (arith, shifts_hold-below w n s)
shifts_hold-below w zero s h less = absurd (omega arith)

Shifts-32 : Shifts 32
unfolding shifts_hold
Shifts-32 s h = (==_iff _ _).0 (shifts_hold-below 32 32 s refl h)

Shifts-128 : Shifts 128
unfolding shifts_hold
Shifts-128 s h = (==_iff _ _).0 (shifts_hold-below 128 128 s refl h)

shl_max-below : (p : Profile) (w s : ℕ) → Shifts w → s < w → shl_max p w s ≡ some (2 ^ w - 2 ^ s)
unfolding shl_max
shl_max-below debug w s good h = ground (arith, good s h)
shl_max-below release w s good h = rw (mod-eq_of_lt h, good s h)

-- The mask of a prefix of `n` bits, for any `n` but 0; from the width on it is all ones.
prefix_mask_lem :
    (p : Profile) (w n : ℕ)
    → Shifts w
    → 0 < n
    → 0 < w
    → prefix_mask p w n ≡ some (2 ^ w - 2 ^ (w - n))
unfolding prefix_mask
prefix_mask_lem p w n good pos wide = elim (dec_lt n w) [
  | yes lt ↦ ground (arith, shl_max-below p w (w - n) good)
  | no ge ↦ let k : w - n ≡ 0 = omega arith in rw k (ground arith)
]

-- Masking and comparing is comparing the quotients.
masked_eq :
    (w k a b : ℕ)
    → k ≤ w
    → a < 2 ^ w
    → b < 2 ^ w
    → (bit_and a (2 ^ w - 2 ^ k) == bit_and b (2 ^ w - 2 ^ k)) ≡ (a / 2 ^ k == b / 2 ^ k)
masked_eq w k a b h ha hb =
    rw (bit_and-mask k w a h ha, bit_and-mask k w b h hb)
      (ground (
        arith,
        eq_of_mul-eq-mul_right (2 ^ k) (one-le-pow k 2 (omega arith)) (a / 2 ^ k) (b / 2 ^ k),
      ))

-- The first `n` of `w` bits agree.
abbrev same_prefix : ℕ → ℕ → ℕ → ℕ → Bool
same_prefix w n a b = a / 2 ^ (w - n) == b / 2 ^ (w - n)

-- What the function is to compute: both addresses of one family, with the same first bits.
abbrev pub in_subnet : IpAddr → IpAddr → ℕ → Bool
in_subnet (v4 a) (v4 b) n = same_prefix 32 n (from_be a) (from_be b)
in_subnet (v6 a) (v6 b) n = same_prefix 128 n (from_be a) (from_be b)
in_subnet (v4 a) (v6 b) n = false
in_subnet (v6 a) (v4 b) n = false

octets-lt : (m : ℕ) (bs : Bytes) → length bs ≡ m → IsBytes bs → from_be bs < 256 ^ m
octets-lt m bs e h = from_be_after-lt bs 0 0 m (omega arith) h (omega arith)

-- For every prefix length but 0, in every build, `validate_ip_in_subnet` answers whether the two
-- addresses are of one family and agree on the first `prefix_len` bits (on all bits, when the
-- prefix is longer than the address).
pub validate_ip_in_subnet-in_subnet :
    (p : Profile) (ip tap : IpAddr) (n : ℕ)
    → IsIp ip
    → IsIp tap
    → 0 < n
    → validate_ip_in_subnet p ip tap n ≡ some (in_subnet ip tap n)
unfolding validate_ip_in_subnet
validate_ip_in_subnet-in_subnet p (v4 a) (v4 b) n (la, ba) (lb, bb) h =
    rw (prefix_mask_lem p 32 n Shifts-32 h (omega arith)) (
      ap some (
        masked_eq 32 (32 - n) (from_be a) (from_be b) (omega arith) (octets-lt 4 a la ba)
          (octets-lt 4 b lb bb)))
validate_ip_in_subnet-in_subnet p (v6 a) (v6 b) n (la, ba) (lb, bb) h =
    rw (prefix_mask_lem p 128 n Shifts-128 h (omega arith)) (
      ap some (
        masked_eq 128 (128 - n) (from_be a) (from_be b) (omega arith) (octets-lt 16 a la ba)
          (octets-lt 16 b lb bb)))
validate_ip_in_subnet-in_subnet p (v4 a) (v6 b) n ha hb h = refl
validate_ip_in_subnet-in_subnet p (v6 a) (v4 b) n ha hb h = refl

abbrev pub same_family : IpAddr → IpAddr → Bool
same_family (v4 a) (v4 b) = true
same_family (v6 a) (v6 b) = true
same_family (v4 a) (v6 b) = false
same_family (v6 a) (v4 b) = false

-- A prefix of 0 bits, which every address of the family shares, is not served, for IPv4 and for
-- IPv6: a debug build panics on two addresses of one family, and a release build compares all of
-- their bits. Addresses of two families are refused.
pub validate_ip_in_subnet-zero :
    (ip tap : IpAddr)
    → IsIp ip
    → IsIp tap
    → (validate_ip_in_subnet debug ip tap 0 ≡ (if same_family ip tap then none else some false))
      × (validate_ip_in_subnet release ip tap 0 ≡ some (in_subnet ip tap 128))
unfolding validate_ip_in_subnet prefix_mask shl_max
validate_ip_in_subnet-zero (v4 a) (v4 b) (la, ba) (lb, bb) = (
  refl,
  ap some (
      masked_eq 32 0 (from_be a) (from_be b) (omega arith) (octets-lt 4 a la ba)
        (octets-lt 4 b lb bb)),
)
validate_ip_in_subnet-zero (v6 a) (v6 b) (la, ba) (lb, bb) = (
  refl,
  ap some (
      masked_eq 128 0 (from_be a) (from_be b) (omega arith) (octets-lt 16 a la ba)
        (octets-lt 16 b lb bb)),
)
validate_ip_in_subnet-zero (v4 a) (v6 b) ha hb = (refl, refl)
validate_ip_in_subnet-zero (v6 a) (v4 b) ha hb = (refl, refl)
