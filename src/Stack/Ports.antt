-- ===== src/Stack/Ports.antt =====
-- The ports of src/stack/mod.rs: those that `allocate_ephemeral_port` gives out, and those on which
-- `handle_tcp_listen` listens.
use tap_tunnel.Prelude.{
  ℕ, zero, suc, ◌+◌, ◌%◌, ◌^◌, ◌≤◌, ◌<◌, ◌≡◌, refl, ap, ◌↔◌, false, some, [], ◌∷◌, ◌==◌, arith,
  Bool-cases, inl, inr,
}
use tap_tunnel.Net.{port}
use tap_tunnel.Map
use tap_tunnel.Map.{Map}
use tap_tunnel.Stack.State.{
  World, Stack, ListenerState, allocate_ephemeral_port, ephemeral_port_start,
}
use tap_tunnel.Stack.Listeners.{port_in_use}

module _ (w : World) where
  -- The stack after `n` ephemeral ports.
  unfoldable pub after_ports : ℕ → Stack w → Stack w
  after_ports zero s = s
  after_ports (suc n) s = after_ports n (allocate_ephemeral_port w s).1

  nth_port :
      (n : ℕ) (s : Stack w)
      → (after_ports n s).ephemeral_port % 2 ^ 16 ≡ (s.ephemeral_port + n) % 2 ^ 16
  unfolding after_ports allocate_ephemeral_port
  nth_port zero s = omega arith
  nth_port (suc n) s = omega (arith, nth_port n (allocate_ephemeral_port w s).1)

  after_ports-lt :
      (n : ℕ) (s : Stack w) → s.ephemeral_port < 2 ^ 16 → (after_ports n s).ephemeral_port < 2 ^ 16
  unfolding after_ports allocate_ephemeral_port
  after_ports-lt zero s h = h
  after_ports-lt (suc n) s h = after_ports-lt n (allocate_ephemeral_port w s).1 (omega arith)

  -- On a stack that starts at port 49152, the port that `allocate_ephemeral_port` gives out after
  -- `n` others is 49152 + n modulo 2^16. It is in the ephemeral range, 49152 and above, exactly
  -- when `n` modulo 2^16 is below 16384: the counter wraps to 0 and goes through the other ports.
  pub allocate_ephemeral_port-nth :
      (n : ℕ) (s : Stack w)
      → s.ephemeral_port ≡ ephemeral_port_start
      → ((allocate_ephemeral_port w (after_ports n s)).0 ≡ (ephemeral_port_start + n) % 2 ^ 16)
        × ((ephemeral_port_start ≤ (allocate_ephemeral_port w (after_ports n s)).0)
            ↔ (n % 2 ^ 16 < 16384))
  unfolding allocate_ephemeral_port
  allocate_ephemeral_port-nth n s start =
      let here = nth_port n s in
      let small = after_ports-lt n s (omega arith) in
      (omega arith, (λ h. omega arith, λ h. omega arith))

-- No two listeners are on one port.
abbrev pub IsDistinct : Map ListenerState → Type 0
IsDistinct [] = Unit
IsDistinct ((h, state) ∷ rest) = (port_in_use (port state.addr) rest ≡ false) × IsDistinct rest

pub port_in_use-remove :
    (p h : ℕ) (m : Map ListenerState)
    → port_in_use p m ≡ false
    → port_in_use p (Map.remove h m) ≡ false
unfolding port_in_use Map.remove
port_in_use-remove p h [] e = refl
port_in_use-remove p h ((k, state) ∷ m) e = ground (arith, port_in_use-remove p h m)

pub IsDistinct-remove : (h : ℕ) (m : Map ListenerState) → IsDistinct m → IsDistinct (Map.remove h m)
unfolding Map.remove
IsDistinct-remove h [] d = tt
IsDistinct-remove h ((k, state) ∷ m) (free, d) = elim (Bool-cases (k == h)) [
  | inl same ↦ rw same (IsDistinct-remove h m d)
  | inr apart ↦ rw apart (port_in_use-remove (port state.addr) h m free, IsDistinct-remove h m d)
]

port_in_use-get :
    (p h : ℕ) (state : ListenerState) (m : Map ListenerState)
    → Map.get h m ≡ some state
    → port_in_use p m ≡ false
    → (port state.addr == p) ≡ false
unfolding port_in_use Map.get
port_in_use-get p h state [] got free = absurd cc
port_in_use-get p h state ((k, first) ∷ m) got free = elim (Bool-cases (k == h)) [
  | inl same ↦
      let here : first ≡ state = ground arith in ground (arith, ap (λ t. port t.addr == p) here)
  | inr apart ↦ port_in_use-get p h state m (ground arith) (ground arith)
]

-- A listener is the only one on its port.
removed-free :
    (h : ℕ) (state : ListenerState) (m : Map ListenerState)
    → Map.get h m ≡ some state
    → IsDistinct m
    → port_in_use (port state.addr) (Map.remove h m) ≡ false
unfolding port_in_use Map.get Map.remove
removed-free h state [] got d = absurd cc
removed-free h state ((k, first) ∷ m) got (free, d) = elim (Bool-cases (k == h)) [
  | inl same ↦
      let here : first ≡ state = ground arith in
      rw same (port_in_use-remove (port state.addr) h m (rw here at free))
  | inr apart ↦ ground (arith, removed-free h state m, port_in_use-get (port first.addr) h state m)
]

pub IsDistinct-update :
    (h : ℕ) (old new : ListenerState) (m : Map ListenerState)
    → Map.get h m ≡ some old
    → new.addr ≡ old.addr
    → IsDistinct m
    → IsDistinct (Map.insert h new m)
unfolding Map.insert
IsDistinct-update h old new m got same d =
    (rw same (removed-free h old m got d), IsDistinct-remove h m d)
