-- ===== src/Protocol/Address.antt =====
-- `default_client_ip` and `validate_ip_in_subnet` of src/protocol.rs. Plain `+` and `<<` of Rust
-- panic on overflow in a debug build; in a release build `+` wraps and `<<` takes its shift modulo
-- the width. `none` is the panic.
use Prim.Native.Nat.{bit_and}
use tap_tunnel.Prelude.{
  ℕ, zero, suc, ◌+◌, ◌-◌, ◌*◌, ◌%◌, ◌^◌, Bool, true, false, Option, none, some, [], ◌∷◌, ltb, leb,
  ◌==◌, if◌then◌else◌,
}
use tap_tunnel.Bytes.{Bytes, from_be, u32_to_be}
use tap_tunnel.Net.{IpAddr, v4, v6}

pub data Profile : Type 0 where
  debug release : Profile

infixl 5 ◌>>=◌
abbrev ◌>>=◌ {ℓ κ} : {A : Type ℓ} {B : Type κ} → Option A → (A → Option B) → Option B
none >>= f = none
some a >>= f = f a

-- `a + b` at `u32`
unfoldable pub add_u32 : Profile → ℕ → ℕ → Option ℕ
add_u32 debug a b = if ltb (a + b) (2 ^ 32) then some (a + b) else none
add_u32 release a b = some ((a + b) % 2 ^ 32)

-- `uW::MAX << s`, for a width `w`
unfoldable pub shl_max : Profile → ℕ → ℕ → Option ℕ
shl_max debug w s = if ltb s w then some ((2 ^ w - 1) * 2 ^ s % 2 ^ w) else none
shl_max release w s = some ((2 ^ w - 1) * 2 ^ (s % w) % 2 ^ w)

-- `octets[i]` and `octets[i] = v`
abbrev pub octet : Bytes → ℕ → ℕ
octet [] i = 0
octet (b ∷ bs) zero = b
octet (b ∷ bs) (suc i) = octet bs i

abbrev pub set_octet : Bytes → ℕ → ℕ → Bytes
set_octet [] i v = []
set_octet (b ∷ bs) zero v = v ∷ bs
set_octet (b ∷ bs) (suc i) v = b ∷ set_octet bs i v

-- `for i in (0..n).rev()`: add 1 with the carry, from the last octet.
unfoldable pub increment : ℕ → Bytes → Bytes
increment zero octets = octets
increment (suc i) octets = elim (leb 256 (octet octets i + 1)) [
  | true ↦ increment i (set_octet octets i ((octet octets i + 1) % 256))
  | false ↦ set_octet octets i ((octet octets i + 1) % 256)
]

unfoldable pub default_client_ip : Profile → IpAddr → Option IpAddr
unfolding add_u32
default_client_ip p (v4 octets) = do next ← add_u32 p (from_be octets) 1; some (v4 (u32_to_be next))
default_client_ip p (v6 octets) = some (v6 (increment 16 octets))

-- The mask of one address family.
unfoldable pub prefix_mask : Profile → ℕ → ℕ → Option ℕ
unfolding shl_max
prefix_mask p w prefix_len =
    if leb w prefix_len then some (2 ^ w - 1) else shl_max p w (w - prefix_len)

unfoldable pub validate_ip_in_subnet : Profile → IpAddr → IpAddr → ℕ → Option Bool
validate_ip_in_subnet p (v4 ip) (v4 tap) prefix_len = do
  mask ← prefix_mask p 32 prefix_len
  some (bit_and (from_be ip) mask == bit_and (from_be tap) mask)
validate_ip_in_subnet p (v6 ip) (v6 tap) prefix_len = do
  mask ← prefix_mask p 128 prefix_len
  some (bit_and (from_be ip) mask == bit_and (from_be tap) mask)
validate_ip_in_subnet p (v4 ip) (v6 tap) prefix_len = some false
validate_ip_in_subnet p (v6 ip) (v4 tap) prefix_len = some false
