-- ===== src/Proxy/Answers.antt =====
-- What proxy/src/main.rs makes of its arguments and its commands.
use tap_tunnel.Prelude.{
  ℕ, ◌≤◌, ◌≡◌, refl, sym, ap, ◌∙◌, ◌↔◌, Option, none, some, List, [], ◌∷◌, ◌++◌, append-nil,
  append_assoc, String, ltb, arith, Bool-cases, Option-cases, inl, inr,
}
use tap_tunnel.Io.{IoResult-cases}
use tap_tunnel.Net.{IpAddr}
use tap_tunnel.Protocol.{ProxyCommand, add_route, remove_route, get_iface_stats, response_id}
use tap_tunnel.Tunnel.{TapConfig, with_peer_route}
use tap_tunnel.Proxy.{
  Strings, Args, max_prefix, checked_prefix, parse_parts, parse_ip_prefix, add_routes, add_addr,
  build_tap_config, Routes, command_id, response_to, handle_proxy_command, read_proc_net_dev,
}

response_id-response_to : (id : ℕ) (r : Option String) → response_id (response_to id r) ≡ id
unfolding response_id response_to
response_id-response_to id none = refl
response_id-response_to id (some e) = refl

-- The response to a command carries the id of the command, whatever the kernel answers.
pub response_id-handle_proxy_command :
    (std : Strings) {K : Type 0} (kernel : Routes K) (cmd : ProxyCommand) (iface_name : String)
    (k : K)
    → response_id (handle_proxy_command std kernel cmd iface_name k).0 ≡ command_id cmd
unfolding handle_proxy_command
response_id-handle_proxy_command std kernel (add_route id d p) iface_name k =
    response_id-response_to id (kernel.add_route k iface_name d p).0
response_id-handle_proxy_command std kernel (remove_route id d p) iface_name k =
    response_id-response_to id (kernel.remove_route k iface_name d p).0
response_id-handle_proxy_command std kernel (get_iface_stats id) iface_name k =
    elim (IoResult-cases (read_proc_net_dev std (kernel.proc_net_dev k))) [
      | inl (interfaces, e) ↦ unfold response_id in ground arith
      | inr (error, e) ↦ unfold response_id in ground arith
    ]

module _ (std : Strings) where
  checked_prefix-eq-some :
      (a : Option IpAddr) (b : Option ℕ) (ip : IpAddr) (n : ℕ)
      → checked_prefix std a b ≡ some (ip, n)
      → (a ≡ some ip) × (b ≡ some n) × (n ≤ max_prefix ip)
  unfolding checked_prefix
  checked_prefix-eq-some (some a) (some b) ip n e = elim (Bool-cases (ltb (max_prefix a) b)) [
    | inl long ↦ absurd (ground arith)
    | inr short ↦
        let same : ◌≡◌ {A = Option (IpAddr × ℕ)} (some (a, b)) (some (ip, n)) = rw short at e in
        let there : a ≡ ip = cc in
        let here : b ≡ n = cc in (ap some there, ap some here, ground (arith, ap max_prefix there))
  ]
  checked_prefix-eq-some none b ip n e = absurd cc
  checked_prefix-eq-some (some a) none ip n e = absurd cc

  -- What `parse_ip_prefix` accepts.
  abbrev pub IsPrefix : String → IpAddr → ℕ → Type 0
  IsPrefix s ip n =
      (left right : String) × (std.split_slash s ≡ left ∷ right ∷ [])
      × (std.parse_ip left ≡ some ip)
      × (std.parse_u8 right ≡ some n)
      × (n ≤ max_prefix ip)

  parse_parts-IsPrefix :
      (s : String) (l : List String) (ip : IpAddr) (n : ℕ)
      → std.split_slash s ≡ l
      → parse_parts std l ≡ some (ip, n)
      → IsPrefix s ip n
  unfolding parse_parts
  parse_parts-IsPrefix s (left ∷ right ∷ []) ip n split e =
      let (a, b, c) = checked_prefix-eq-some (std.parse_ip left) (std.parse_u8 right) ip n e in
      (left, right, split, a, b, c)
  parse_parts-IsPrefix s [] ip n split e = absurd cc
  parse_parts-IsPrefix s (left ∷ []) ip n split e = absurd cc
  parse_parts-IsPrefix s (left ∷ right ∷ more ∷ rest) ip n split e = absurd cc

  -- `parse_ip_prefix` accepts exactly an address and a number with one `/` between them, the number
  -- at most 32 for an IPv4 address and 128 for an IPv6 one.
  pub parse_ip_prefix-eq-some_iff :
      (s : String) (ip : IpAddr) (n : ℕ) → (parse_ip_prefix std s ≡ some (ip, n)) ↔ IsPrefix s ip n
  unfolding parse_ip_prefix parse_parts checked_prefix
  parse_ip_prefix-eq-some_iff s ip n = (
    λ e. parse_parts-IsPrefix s (std.split_slash s) ip n refl e,
    λ (left, right, split, got_ip, got_n, short). rw (split, got_ip, got_n) (ground arith),
  )

  -- The routes that parse, in the order of the arguments.
  pub parsed : List String → List (IpAddr × ℕ)
  parsed [] = []
  parsed (s ∷ rest) = elim (parse_ip_prefix std s) [ some r ↦ r ∷ parsed rest | none ↦ parsed rest ]

  add_routes-parsed :
      (routes : List String) (c : TapConfig)
      → add_routes std routes c ≡ record c { peer_routes = c.peer_routes ++ parsed routes }
  unfolding add_routes parsed
  add_routes-parsed [] c = ap (λ t. record c { peer_routes = t }) (sym (append-nil c.peer_routes))
  add_routes-parsed (s ∷ rest) c = elim (Option-cases (parse_ip_prefix std s)) [
    | inl bad ↦ ground (arith, add_routes-parsed rest c)
    | inr ((ip, n), good) ↦ ground (
      arith,
      add_routes-parsed rest (with_peer_route ip n c),
      append_assoc c.peer_routes ((ip, n) ∷ []) (parsed rest),
    )
  ]

  add_addr-parsed :
      (a : Option String) (c : TapConfig)
      → c.peer_addr ≡ none
      → add_addr std a c
        ≡ record c { peer_addr = elim a [ some s ↦ parse_ip_prefix std s | none ↦ none ] }
  unfolding add_addr
  add_addr-parsed none c e = ap (λ t. record c { peer_addr = t }) e
  add_addr-parsed (some s) c e = elim (Option-cases (parse_ip_prefix std s)) [
    | inl bad ↦ ground arith
    | inr (r, good) ↦ ground arith
  ]

  -- The configuration that the arguments give: the routes are those that parse, in order, the
  -- address is the argument's if it parses, and the other fields are the arguments' own.
  pub build_tap_config-parsed :
      (args : Args)
      → build_tap_config std args ≡ record {
        interface_name = args.tap_name;
        peer_addr = elim args.tap_addr [ some s ↦ parse_ip_prefix std s | none ↦ none ];
        local_addr = none;
        mac = none;
        packet_loss_percent = args.packet_loss;
        peer_routes = parsed args.tap_route;
        mtu = args.mtu;
      }
  unfolding build_tap_config
  build_tap_config-parsed args =
      add_routes-parsed args.tap_route _
      ∙ ap {A = TapConfig} (λ t. record t { peer_routes = t.peer_routes ++ parsed args.tap_route })
          (add_addr-parsed args.tap_addr _ refl)
