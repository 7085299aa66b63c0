-- ===== src/Protocol/ClientIp.antt =====
-- `default_client_ip` of src/protocol.rs is the address after the TAP address, as a number: the
-- octet loop of the IPv6 case is addition with carry.
use native.Mathlib.Decide.{dec_lt}
use tap_tunnel.Prelude.{
  ℕ, zero, suc, ◌+◌, ◌*◌, ◌%◌, ◌^◌, ◌<◌, ◌≡◌, refl, sym, ap, ◌∙◌, none, some, [], ◌∷◌, ◌++◌,
  append-nil, append_assoc, arith, length, ◌↔◌,
}
use tap_tunnel.Bytes.{
  Bytes, IsBytes, from_be, from_be_after, from_be_after-append, from_be_after-lt, u32_to_be,
  from_be-u32_to_be,
}
use tap_tunnel.Net.{v4, v6, IsIp}
use tap_tunnel.Protocol.Address.{
  Profile, debug, release, octet, set_octet, increment, add_u32, default_client_ip,
}

split_last :
    (n : ℕ) (ys : Bytes)
    → length ys ≡ suc n
    → (init : Bytes) × (b : ℕ) × (ys ≡ init ++ b ∷ []) × (length init ≡ n)
split_last n [] e = absurd (omega arith)
split_last zero (y ∷ []) e = ([], y, refl, refl)
split_last zero (y ∷ z ∷ ys) e = absurd (omega arith)
split_last (suc n) (y ∷ ys) e =
    let (init, b, split, len) = split_last n ys (omega arith) in
    (y ∷ init, b, ap (λ t. y ∷ t) split, ap suc len)

octet-append :
    (n : ℕ) (init : Bytes) (b : ℕ) (zs : Bytes) → length init ≡ n → octet (init ++ b ∷ zs) n ≡ b
octet-append zero [] b zs e = refl
octet-append (suc n) [] b zs e = absurd (omega arith)
octet-append zero (x ∷ init) b zs e = absurd (omega arith)
octet-append (suc n) (x ∷ init) b zs e = octet-append n init b zs (omega arith)

set_octet-append :
    (n : ℕ) (init : Bytes) (b v : ℕ) (zs : Bytes)
    → length init ≡ n
    → set_octet (init ++ b ∷ zs) n v ≡ init ++ v ∷ zs
set_octet-append zero [] b v zs e = refl
set_octet-append (suc n) [] b v zs e = absurd (omega arith)
set_octet-append zero (x ∷ init) b v zs e = absurd (omega arith)
set_octet-append (suc n) (x ∷ init) b v zs e =
    ap (λ t. x ∷ t) (set_octet-append n init b v zs (omega arith))

IsBytes-last : (init : Bytes) (b : ℕ) → IsBytes (init ++ b ∷ []) → IsBytes init × (b < 256)
IsBytes-last [] b h = (tt, h.0)
IsBytes-last (x ∷ init) b h = let (rest, last) = IsBytes-last init b h.1 in ((h.0, rest), last)

-- One round: a last octet below 255 ends the loop, 255 becomes 0 and carries.
increment-stop :
    (n : ℕ) (init : Bytes) (b : ℕ) (zs : Bytes)
    → length init ≡ n
    → b < 255
    → increment (suc n) (init ++ b ∷ zs) ≡ init ++ (b + 1) ∷ zs
unfolding increment
increment-stop n init b zs e h =
    ground (arith, octet-append n init b zs e, set_octet-append n init b (b + 1) zs e)

increment-carry :
    (n : ℕ) (init : Bytes) (zs : Bytes)
    → length init ≡ n
    → increment (suc n) (init ++ 255 ∷ zs) ≡ increment n (init ++ 0 ∷ zs)
unfolding increment
increment-carry n init zs e =
    ground (arith, octet-append n init 255 zs e, set_octet-append n init 255 0 zs e)

-- The value of octets with one more at the end.
from_be-last : (init : Bytes) (b : ℕ) → from_be (init ++ b ∷ []) ≡ from_be init * 256 + b
unfolding from_be_after
from_be-last init b = from_be_after-append 0 init (b ∷ [])

-- The two rounds again, in values.
stop-value :
    (n : ℕ) (init : Bytes) (b : ℕ) (zs : Bytes)
    → length init ≡ n
    → b < 255
    → from_be (increment (suc n) ((init ++ b ∷ []) ++ zs))
      ≡ from_be_after (from_be (init ++ b ∷ []) + 1) zs
unfolding from_be_after
stop-value n init b zs e h =
    rw (append_assoc, increment-stop n init b zs e h)
      (from_be_after-append 0 init ((b + 1) ∷ zs)
        ∙ ap (λ v. from_be_after v zs) (omega (arith, from_be-last init b)))

carry-value :
    (n : ℕ) (init : Bytes) (b v : ℕ) (zs : Bytes)
    → length init ≡ n
    → b ≡ 255
    → from_be (increment n (init ++ 0 ∷ zs)) ≡ from_be_after v (0 ∷ zs)
    → from_be (increment (suc n) ((init ++ b ∷ []) ++ zs)) ≡ from_be_after (v * 256) zs
unfolding from_be_after
carry-value n init b v zs e full deeper =
    rw (append_assoc, full, increment-carry n init zs e)
      (deeper ∙ ap (λ w. from_be_after w zs) (omega arith))

-- With room for the carry, the octets up to `n` grow by 1 and the rest stay.
increment-value :
    (n : ℕ) (ys zs : Bytes)
    → length ys ≡ n
    → IsBytes ys
    → from_be ys + 1 < 256 ^ n
    → from_be (increment n (ys ++ zs)) ≡ from_be_after (from_be ys + 1) zs
unfolding from_be_after
increment-value zero [] zs e h room = absurd (omega arith)
increment-value zero (y ∷ ys) zs e h room = absurd (omega arith)
increment-value (suc n) ys zs e h room =
    let (init, b, split, len) = split_last n ys e in
    let (bytes, last) = IsBytes-last init b (rw split at h) in
    let value : from_be ys ≡ from_be init * 256 + b = rw split (from_be-last init b) in
    elim (dec_lt b 255) [
      | yes below ↦ rw split (stop-value n init b zs len below)
      | no above ↦
          ap (λ t. from_be (increment (suc n) (t ++ zs))) split
          ∙ carry-value n init b (from_be init + 1) zs len (omega arith)
              (increment-value n init (0 ∷ zs) len bytes (omega arith))
          ∙ ap (λ v. from_be_after v zs) (omega arith)
    ]

increment-zero : (zs : Bytes) → increment 0 zs ≡ zs
unfolding increment
increment-zero zs = refl

-- With no room, they become zero.
increment-wraps :
    (n : ℕ) (ys zs : Bytes)
    → length ys ≡ n
    → IsBytes ys
    → from_be ys + 1 ≡ 256 ^ n
    → from_be (increment n (ys ++ zs)) ≡ from_be_after 0 zs
unfolding from_be_after
increment-wraps zero [] zs e h full = ap from_be (increment-zero zs)
increment-wraps zero (y ∷ ys) zs e h full = absurd (omega arith)
increment-wraps (suc n) ys zs e h full =
    let (init, b, split, len) = split_last n ys e in
    let (bytes, last) = IsBytes-last init b (rw split at h) in
    let value : from_be ys ≡ from_be init * 256 + b = rw split (from_be-last init b) in
    ap (λ t. from_be (increment (suc n) (t ++ zs))) split
    ∙ carry-value n init b 0 zs len (omega arith)
        (increment-wraps n init (0 ∷ zs) len bytes (omega arith))

room_or_full :
    (octets : Bytes)
    → IsIp (v6 octets)
    → from_be (increment 16 octets) ≡ (from_be octets + 1) % 2 ^ 128
unfolding from_be_after
room_or_full octets (len, bytes) = elim (dec_lt (from_be octets + 1) (2 ^ 128)) [
  | yes room ↦
      ap (λ t. from_be (increment 16 t)) (sym (append-nil octets))
      ∙ increment-value 16 octets [] len bytes room
      ∙ omega arith
  | no full ↦
      let below : from_be octets < 256 ^ 16 =
        from_be_after-lt octets 0 0 16 (omega arith) bytes (omega arith) in
      ap (λ t. from_be (increment 16 t)) (sym (append-nil octets))
      ∙ increment-wraps 16 octets [] len bytes (omega arith)
      ∙ omega arith
]

add_u32-fits : (p : Profile) (a b : ℕ) → a + b < 2 ^ 32 → add_u32 p a b ≡ some (a + b)
unfolding add_u32
add_u32-fits debug a b h = ground arith
add_u32-fits release a b h = ground arith

-- The default client address of an IPv6 TAP address is the next address as a number, modulo 2^128.
pub default_client_ip-v6 :
    (p : Profile) (octets : Bytes)
    → IsIp (v6 octets)
    → (next : Bytes) × (default_client_ip p (v6 octets) ≡ some (v6 next))
      × (from_be next ≡ (from_be octets + 1) % 2 ^ 128)
unfolding default_client_ip
default_client_ip-v6 p octets h = (increment 16 octets, refl, room_or_full octets h)

-- The default client address of an IPv4 TAP address below 255.255.255.255 is the next address, in
-- every build.
pub default_client_ip-v4 :
    (p : Profile) (octets : Bytes)
    → from_be octets + 1 < 2 ^ 32
    → (next : Bytes) × (default_client_ip p (v4 octets) ≡ some (v4 next))
      × (from_be next ≡ from_be octets + 1)
unfolding default_client_ip
default_client_ip-v4 p octets h = (
  u32_to_be (from_be octets + 1),
  rw (add_u32-fits p (from_be octets) 1 h),
  omega (arith, from_be-u32_to_be (from_be octets + 1)),
)

-- For every IPv4 TAP address the default client address in a release build is the next address as
-- a number, modulo 2^32, so that 0.0.0.0 follows 255.255.255.255; a debug build panics exactly on
-- 255.255.255.255.
pub default_client_ip-v4_builds :
    (octets : Bytes)
    → IsIp (v4 octets)
    → ((next : Bytes) × (default_client_ip release (v4 octets) ≡ some (v4 next))
        × (from_be next ≡ (from_be octets + 1) % 2 ^ 32))
      × (default_client_ip debug (v4 octets) ≡ none ↔ from_be octets + 1 ≡ 2 ^ 32)
unfolding default_client_ip add_u32
default_client_ip-v4_builds octets (len, bytes) =
    let below : from_be octets < 256 ^ 4 =
      from_be_after-lt octets 0 0 4 (omega arith) bytes (omega arith) in
    (
      (
        u32_to_be ((from_be octets + 1) % 2 ^ 32),
        refl,
        omega (arith, from_be-u32_to_be ((from_be octets + 1) % 2 ^ 32)),
      ),
      (λ panics. ground arith, λ last. ground arith),
    )
