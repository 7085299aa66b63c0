-- ===== src/Tunnel/Requests/Correlation.antt =====
-- The ids of the commands of src/lib.rs: no two callers that wait have the same one.
use tap_tunnel.Prelude.{
  ℕ, ◌+◌, ◌<◌, ◌^◌, ◌≡◌, refl, ap, ◌∙◌, ◌%◌, none, some, false, arith, [], ◌∷◌, All, ◌==◌,
  if◌then◌else◌, inl, inr,
}
use tap_tunnel.Io.{IoResult-cases}
use tap_tunnel.Bytes.{Bytes}
use tap_tunnel.Map
use tap_tunnel.Map.{Map, All-insert, get-insert, All-mono}
use tap_tunnel.Channel.{Outbox}
use tap_tunnel.Stats.{fetch_add_one}
use tap_tunnel.Protocol.{ProxyCommand, Json, encode_control}
use tap_tunnel.Tunnel.Requests.{Requests, with_id, register, send_control, start_command}

module _ {C : Type 0} (control_channel : Outbox Bytes C) (serde : Json ProxyCommand) where
  -- Every id that is waited for has been handed out.
  abbrev pub IsIssued : Requests control_channel serde → Type 0
  IsIssued s = All (λ (id, tx). id < s.next_request_id) s.pending_proxy_responses

  pub start_command-register :
      (cmd : ProxyCommand) (tx : ℕ) (s : Requests control_channel serde)
      → ((start_command control_channel serde cmd tx s).1.next_request_id
          ≡ fetch_add_one s.next_request_id)
        × ((start_command control_channel serde cmd tx s).1.pending_proxy_responses
            ≡ Map.insert s.next_request_id tx s.pending_proxy_responses)
  unfolding start_command send_control register
  start_command-register cmd tx s =
      elim (IoResult-cases (encode_control serde (with_id s.next_request_id cmd))) [
        | inl (msg, e) ↦ (ground (arith, e), ground (arith, e))
        | inr (e', e) ↦ (ground (arith, e), ground (arith, e))
      ]

  IsIssued-next :
      (cmd : ProxyCommand) (tx : ℕ) (s : Requests control_channel serde)
      → IsIssued s
      → s.next_request_id + 1 < 2 ^ 64
      → IsIssued (start_command control_channel serde cmd tx s).1
  unfolding fetch_add_one
  IsIssued-next cmd tx s issued few =
      let (next, pending) = start_command-register cmd tx s in
      rw (pending, next)
        (All-insert (λ (id, tx'). id < (s.next_request_id + 1) % 2 ^ 64) s.next_request_id tx
          s.pending_proxy_responses (omega arith)
          (All-mono (λ (id, tx'). id < s.next_request_id)
            (λ (id, tx'). id < (s.next_request_id + 1) % 2 ^ 64) s.pending_proxy_responses
            (λ (id, tx') h. omega arith) issued))

  get-unissued : (n : ℕ) (m : Map ℕ) → All (λ (id, tx). id < n) m → Map.get n m ≡ none
  unfolding Map.get
  get-unissued n [] h = refl
  get-unissued n ((id, tx) ∷ m) (less, h) =
      let other : (id == n) ≡ false = ground arith in rw other (get-unissued n m h)

  -- Before the counter wraps around, a new command registers its caller under an id that nobody
  -- waits for, the callers that wait keep their entries, and every id that is waited for has been
  -- handed out, before and after; the command may then fail to be sent or not.
  pub start_command-IsIssued :
      (cmd : ProxyCommand) (tx j : ℕ) (s : Requests control_channel serde)
      → IsIssued s
      → s.next_request_id + 1 < 2 ^ 64
      → (Map.get s.next_request_id s.pending_proxy_responses ≡ none)
        × (Map.get j (start_command control_channel serde cmd tx s).1.pending_proxy_responses
            ≡ (if s.next_request_id == j then some tx else Map.get j s.pending_proxy_responses))
        × IsIssued (start_command control_channel serde cmd tx s).1
  start_command-IsIssued cmd tx j s issued few = (
    get-unissued s.next_request_id s.pending_proxy_responses issued,
    ap (Map.get j) (start_command-register cmd tx s).1
        ∙ get-insert s.next_request_id j tx s.pending_proxy_responses,
    IsIssued-next cmd tx s issued few,
  )
