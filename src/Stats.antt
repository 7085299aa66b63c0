-- ===== src/Stats.antt =====
-- `TunnelStats` of src/lib.rs: counters of 64 bits that wrap, and the snapshot of them.
use tap_tunnel.Prelude.{ℕ, suc, ◌+◌, ◌%◌, ◌^◌, ◌<◌, ◌≡◌, refl, arith}

pub record TunnelStats : Type 0 where
  pub ipc_rx_frames : ℕ
  pub ipc_rx_dropped : ℕ
  pub ipc_tx_frames : ℕ
  pub ipc_tx_errors : ℕ
  pub device_rx_frames : ℕ
  pub device_tx_frames : ℕ
  pub device_tx_dropped : ℕ
  pub udp_tx_packets : ℕ
  pub udp_tx_failed : ℕ
  pub udp_rx_packets : ℕ
  pub udp_rx_dropped : ℕ

-- `TunnelStats::new_shared`
abbrev pub new_shared : TunnelStats
new_shared = record {
  ipc_rx_frames = 0;
  ipc_rx_dropped = 0;
  ipc_tx_frames = 0;
  ipc_tx_errors = 0;
  device_rx_frames = 0;
  device_tx_frames = 0;
  device_tx_dropped = 0;
  udp_tx_packets = 0;
  udp_tx_failed = 0;
  udp_rx_packets = 0;
  udp_rx_dropped = 0;
}

-- `fetch_add(1, Relaxed)` on an `AtomicU64`: the value that it leaves.
unfoldable pub fetch_add_one : ℕ → ℕ
fetch_add_one n = (n + 1) % 2 ^ 64

-- `k` calls of `fetch_add_one`.
pub fetch_add : ℕ → ℕ → ℕ
fetch_add k n = (n + k) % 2 ^ 64

pub fetch_add-suc : (k n : ℕ) → fetch_add k (fetch_add_one n) ≡ fetch_add (suc k) n
unfolding fetch_add fetch_add_one
fetch_add-suc k n = omega arith

pub fetch_add-zero : (n : ℕ) → n < 2 ^ 64 → fetch_add 0 n ≡ n
unfolding fetch_add
fetch_add-zero n h = omega arith

pub fetch_add-one : (n : ℕ) → fetch_add_one n ≡ fetch_add 1 n
unfolding fetch_add fetch_add_one
fetch_add-one n = refl

pub fetch_add-fetch_add : (k l n : ℕ) → fetch_add l (fetch_add k n) ≡ fetch_add (k + l) n
unfolding fetch_add
fetch_add-fetch_add k l n = omega arith
