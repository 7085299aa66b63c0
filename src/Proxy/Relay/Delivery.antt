-- ===== src/Proxy/Relay/Delivery.antt =====
-- What the relay of proxy/src/main.rs writes to the TAP device.
use mathlib.Core.Path.{subst}
use tap_tunnel.Prelude.{
  ℕ, ◌≡◌, refl, sym, ap, ◌∙◌, List, [], ◌∷◌, ◌++◌, append-nil, append_assoc, arith, inl, inr,
  String,
}
use tap_tunnel.Io.{IoError, ok, err, IoResult-cases}
use tap_tunnel.Bytes.{Bytes}
use tap_tunnel.Channel.{Outbox}
use tap_tunnel.Protocol.{
  Message, control, frame, Json, ProxyCommand, ProxyResponse, decode_control, encode_control,
}
use tap_tunnel.Protocol.Framing.{Write, read_bytes}
use tap_tunnel.Proxy.{Strings, Routes, handle_proxy_command}
use tap_tunnel.Proxy.Relay.{
  Task, goes_on, returned, failed_with, panicked, Relay, respond, command_received, relay_message,
}
use tap_tunnel.Proxy.Relay.Messages.{relay_all}

-- What a write to the device leaves.
pub record TapLaws {T : Type 0} (tap : Write T) : Type 0 where
  pub written : T → List Bytes
  pub write_all-written :
      (t t' : T) (f : Bytes) → tap.write_all t f ≡ ok t' → written t' ≡ written t ++ f ∷ []

abbrev pub frames_in : List Message → List Bytes
frames_in [] = []
frames_in (frame f ∷ ms) = f ∷ frames_in ms
frames_in (control p ∷ ms) = frames_in ms

module _ (std : Strings) {K T C : Type 0} (kernel : Routes K) (tap : Write T) (laws : TapLaws tap)
    (responses : Outbox Bytes C) (commands : Json ProxyCommand) (answers : Json ProxyResponse)
    (iface_name : String) (max_frame_size : ℕ) where
  open laws use {written, write_all-written}

  abbrev Proxied : Type 0
  Proxied = Relay std kernel tap responses commands answers iface_name max_frame_size

  -- The device has refused a frame.
  abbrev pub DeviceFailed : IoError → Type 0
  DeviceFailed e = (t : T) × (f : Bytes) × (tap.write_all t f ≡ err e)

  -- A response has no JSON form.
  abbrev pub Unencodable : Type 0
  Unencodable = (resp : ProxyResponse) × (e : IoError) × (encode_control answers resp ≡ err e)

  -- The task ended because the stream did, with the frames written; or the device refused a frame,
  -- or a response has no JSON form.
  abbrev pub Delivers : List Bytes → Proxied → Task Proxied → Type 0
  Delivers fs s (goes_on s') = ⊥
  Delivers fs s (returned s') = written s'.tap_writer ≡ written s.tap_writer ++ fs
  Delivers fs s (failed_with e s') = DeviceFailed e
  Delivers fs s (panicked s') = Unencodable

  -- One message.
  abbrev Handles : List Bytes → Proxied → Task Proxied → Type 0
  Handles fs s (goes_on s') = written s'.tap_writer ≡ written s.tap_writer ++ fs
  Handles fs s (returned s') = ⊥
  Handles fs s (failed_with e s') = DeviceFailed e
  Handles fs s (panicked s') = Unencodable

  abbrev response_for : ProxyCommand → Proxied → ProxyResponse × K
  response_for cmd s = handle_proxy_command std kernel cmd iface_name s.routes

  pub respond-ok :
      (cmd : ProxyCommand) (s : Proxied) (msg : Bytes)
      → encode_control answers (response_for cmd s).0 ≡ ok msg
      → respond std kernel tap responses commands answers iface_name max_frame_size cmd s
        ≡ goes_on (record s {
          routes = (response_for cmd s).1;
          response_tx = (responses.send s.response_tx msg).1;
        })
  unfolding respond
  respond-ok cmd s msg e = ground (arith, e)

  respond-err :
      (cmd : ProxyCommand) (s : Proxied) (error : IoError)
      → encode_control answers (response_for cmd s).0 ≡ err error
      → respond std kernel tap responses commands answers iface_name max_frame_size cmd s
        ≡ panicked (record s { routes = (response_for cmd s).1 })
  unfolding respond
  respond-err cmd s error e = ground (arith, e)

  abbrev handle_one : Message → Proxied → Task Proxied
  handle_one m =
      relay_message std kernel tap responses commands answers iface_name max_frame_size (ok m)

  frame-ok :
      (f : Bytes) (s : Proxied) (t : T)
      → tap.write_all s.tap_writer f ≡ ok t
      → handle_one (frame f) s ≡ goes_on (record s { tap_writer = t })
  unfolding relay_message
  frame-ok f s t e = ground (arith, e)

  frame-err :
      (f : Bytes) (s : Proxied) (error : IoError)
      → tap.write_all s.tap_writer f ≡ err error
      → handle_one (frame f) s ≡ failed_with error s
  unfolding relay_message
  frame-err f s error e = ground (arith, e)

  pub control-ok :
      (p : Bytes) (s : Proxied) (cmd : ProxyCommand)
      → decode_control commands p ≡ ok cmd
      → handle_one (control p) s
        ≡ respond std kernel tap responses commands answers iface_name max_frame_size cmd s
  unfolding relay_message command_received
  control-ok p s cmd e = ground (arith, e)

  control-err :
      (p : Bytes) (s : Proxied) (error : IoError)
      → decode_control commands p ≡ err error
      → handle_one (control p) s ≡ goes_on s
  unfolding relay_message command_received
  control-err p s error e = ground (arith, e)

  respond-Handles :
      (cmd : ProxyCommand) (s : Proxied)
      → Handles [] s
          (respond std kernel tap responses commands answers iface_name max_frame_size cmd s)
  respond-Handles cmd s =
      elim (IoResult-cases
        (encode_control answers (handle_proxy_command std kernel cmd iface_name s.routes).0)) [
          | inl (msg, e) ↦ subst (Handles [] s) (sym (respond-ok cmd s msg e)) (sym (append-nil _))
          | inr (error, e) ↦
              subst (Handles [] s) (sym (respond-err cmd s error e))
                ((handle_proxy_command std kernel cmd iface_name s.routes).0, error, e)
        ]

  handle-Handles :
      (m : Message) (s : Proxied)
      → Handles (frames_in (m ∷ [])) s (
          relay_message std kernel tap responses commands answers iface_name max_frame_size
            (ok m)
            s)
  handle-Handles (frame f) s = elim (IoResult-cases (tap.write_all s.tap_writer f)) [
    | inl (t, e) ↦
        subst (Handles (f ∷ []) s) (sym (frame-ok f s t e)) (write_all-written s.tap_writer t f e)
    | inr (error, e) ↦ subst (Handles (f ∷ []) s) (sym (frame-err f s error e)) (s.tap_writer, f, e)
  ]
  handle-Handles (control p) s = elim (IoResult-cases (decode_control commands p)) [
    | inl (cmd, e) ↦ subst (Handles [] s) (sym (control-ok p s cmd e)) (respond-Handles cmd s)
    | inr (error, e) ↦ subst (Handles [] s) (sym (control-err p s error e)) (sym (append-nil _))
  ]

  Delivers-more :
      (fs gs : List Bytes) (s s' : Proxied) (t : Task Proxied)
      → written s'.tap_writer ≡ written s.tap_writer ++ fs
      → Delivers gs s' t
      → Delivers (fs ++ gs) s t
  Delivers-more fs gs s s' (goes_on s1) e d = d
  Delivers-more fs gs s s' (returned s1) e d =
      d ∙ ap (λ ws. ws ++ gs) e ∙ append_assoc (written s.tap_writer) fs gs
  Delivers-more fs gs s s' (failed_with error s1) e d = d
  Delivers-more fs gs s s' (panicked s1) e d = d

  frames_in-cons :
      (m : Message) (ms : List Message) → frames_in (m ∷ []) ++ frames_in ms ≡ frames_in (m ∷ ms)
  frames_in-cons (frame f) ms = refl
  frames_in-cons (control p) ms = refl

  abbrev run_all : List Message → Proxied → Task Proxied
  run_all = relay_all std kernel tap responses commands answers iface_name max_frame_size

  abbrev after_one : List Message → Task Proxied → Task Proxied
  after_one ms t = elim t [
    | goes_on s' ↦ run_all ms s'
    | returned s' ↦ returned s'
    | failed_with e s' ↦ failed_with e s'
    | panicked s' ↦ panicked s'
  ]

  Handles-Delivers :
      (m : Message) (ms : List Message) (s : Proxied) (t : Task Proxied)
      → Handles (frames_in (m ∷ [])) s t
      → ((s' : Proxied) → Delivers (frames_in ms) s' (run_all ms s'))
      → Delivers (frames_in (m ∷ ms)) s (after_one ms t)
  Handles-Delivers m ms s (goes_on s') d ih =
      subst (λ fs. Delivers fs s (run_all ms s')) (frames_in-cons m ms)
        (Delivers-more (frames_in (m ∷ [])) (frames_in ms) s s' (run_all ms s') d (ih s'))
  Handles-Delivers m ms s (returned s') d ih = absurd d
  Handles-Delivers m ms s (failed_with e s') d ih = d
  Handles-Delivers m ms s (panicked s') d ih = d

  -- The frames among the messages are written to the device in order, each in one write, and the
  -- task ends when the stream does; or it ends before that, and then the device has refused
  -- a frame or a response has no JSON form.
  pub relay_all-Delivers :
      (ms : List Message) (s : Proxied) → Delivers (frames_in ms) s (run_all ms s)
  unfolding relay_all
  relay_all-Delivers [] s = sym (append-nil _)
  relay_all-Delivers (m ∷ ms) s =
      Handles-Delivers m ms s (handle_one m s) (handle-Handles m s) (λ s'. relay_all-Delivers ms s')
