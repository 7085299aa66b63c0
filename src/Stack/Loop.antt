-- ===== src/Stack/Loop.antt =====
-- The whole body of the loop of `run_stack` in src/stack/mod.rs: what the `select` gave, and what
-- follows it.
use tap_tunnel.Prelude.{ℕ, ◌≡◌, Bool, Option, none, some}
use tap_tunnel.Channel.{ReceiverLaws, SenderLaws}
use tap_tunnel.Stack.Smoltcp.{SetLaws}
use tap_tunnel.Stack.State.{World, Stack}
use tap_tunnel.Stack.Commands.{handle_command}
use tap_tunnel.Stack.Run.{Event, command, write_notified, timeout, Pass, returns}
use tap_tunnel.Stack.Opening.{IsPermitted}
use tap_tunnel.Stack.Returning.{IsFuelled, EndsWell}

module _ (w : World) (laws : SetLaws w.net) (tcp_in : ReceiverLaws w.tcp)
    (tcp_out : SenderLaws w.tcp) (udp_in : ReceiverLaws w.udp) (udp_out : SenderLaws w.udp) where
  -- The command that the `select` gave may be handled.
  abbrev pub IsServed : Event → Stack w → Type 0
  IsServed (command (some c)) s = IsPermitted w laws s c
  IsServed _ s = Unit

  -- A state, if there is one, whose channels hold fewer messages and have less room than the fuel.
  abbrev pub IsFuelledAfter : ℕ → Option (Stack w) → Type 0
  IsFuelledAfter fuel none = Unit
  IsFuelledAfter fuel (some s) = IsFuelled w laws tcp_in tcp_out udp_in udp_out fuel s

  -- The state in which the `select` leaves the loop, when it goes on.
  abbrev pub after_select : Event → Stack w → Option (Stack w)
  after_select (command (some c)) s = handle_command w c s
  after_select (command none) s = none
  after_select write_notified s = some s
  after_select timeout s = some s

  -- How the body ends: it returns when the command channel is disconnected, and as `EndsWell` says
  -- after every other event.
  abbrev pub PassEnds : Event → (ipc_dead : Bool) → Stack w → Pass w → Type 0
  PassEnds (command none) ipc_dead s result = result ≡ returns s
  PassEnds (command (some c)) ipc_dead s result =
      EndsWell w laws tcp_in tcp_out udp_in udp_out ipc_dead result
  PassEnds write_notified ipc_dead s result =
      EndsWell w laws tcp_in tcp_out udp_in udp_out ipc_dead result
  PassEnds timeout ipc_dead s result = EndsWell w laws tcp_in tcp_out udp_in udp_out ipc_dead result
