-- ===== src/Stack/Opening.antt =====
-- `handle_tcp_listen` of src/stack/mod.rs does not panic on a handle, and leaves every handle in the
-- stack's maps with its socket; and so does every command that names a socket that is there.
use tap_tunnel.Prelude.{ℕ, ◌<◌, ◌^◌, List, [], ◌∷◌, All, inl, inr, ◌⊎◌, String}
use tap_tunnel.Map
use tap_tunnel.Map.{Map, All-insert}
use tap_tunnel.Stack.Smoltcp.{SetLaws}
use tap_tunnel.Stack.State.{
  World, Stack, StackCommand, tcp_listen, tcp_close, udp_close, add_ip, remove_ip,
}
use tap_tunnel.Stack.Live.{TcpLive, UdpLive, Grows}

module _ (w : World) (laws : SetLaws w.net) where
  open laws use {fresh_tcp}

  -- What the loop over the backlog leaves: the old sockets, and on success the new ones, `n` more
  -- than there were handles.
  abbrev Listens : w.SocketSet → (String × w.SocketSet) ⊎ (w.SocketSet × List ℕ) → Type 0
  Listens old (inl (e, set)) = Grows w old set
  Listens old (inr (set, hs)) = Grows w old set × All (TcpLive w set) hs

  -- On success there is a handle.
  abbrev IsSome : (String × w.SocketSet) ⊎ (w.SocketSet × List ℕ) → Type 0
  IsSome (inl r) = Unit
  IsSome (inr (set, [])) = ⊥
  IsSome (inr (set, h ∷ hs)) = Unit

  -- A command that closes a socket names one that is there, a backlog has a capacity; the two that change the addresses of
  -- the interface are left aside.
  abbrev pub IsPermitted : Stack w → StackCommand → Type 0
  IsPermitted s (tcp_close h) = TcpLive w s.sockets h
  IsPermitted s (udp_close h) = UdpLive w s.sockets h
  IsPermitted s (add_ip ip n response) = ⊥
  IsPermitted s (remove_ip ip response) = ⊥
  IsPermitted s (tcp_listen addr backlog response) = backlog < 2 ^ 60
  IsPermitted s _ = Unit
