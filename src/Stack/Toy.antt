-- ===== src/Stack/Toy.antt =====
-- Concrete stand-ins for the crates behind src/stack/mod.rs, to run the model of the stack task on:
-- an association list for the socket set, sockets that are byte queues.
use tap_tunnel.Prelude.{
  ℕ, zero, suc, ◌+◌, ◌≤◌, ◌≡◌, refl, sym, ap, ◌∙◌, Bool, true, false, Option, none, some, List, [],
  ◌∷◌, ◌++◌, ◌==◌, if◌then◌else◌, String, inl, inr, ◌⊎◌, length, take, drop, length-take,
  take-append-drop, arith, Bool-cases,
}
use tap_tunnel.Bytes.{Bytes}
use tap_tunnel.Net.{IpEndpoint}
use tap_tunnel.Map
use tap_tunnel.Map.{Map, get-insert, get-remove}
use tap_tunnel.Stack.Smoltcp.{Smoltcp, SetLaws, StreamLaws, TcpState, IpCidr, idle}
use tap_tunnel.Stack.State.{World, Datagram}
use tap_tunnel.Stack.UdpRead.{PacketLaws}
use tap_tunnel.Stack.Fifo.{fifo}

-- A TCP socket with its two byte queues; `send_slice` takes four bytes at a time.
pub record ToyTcp : Type 0 where
  pub status : TcpState
  pub writable : Bool
  pub out : Bytes
  pub inc : Bytes
  pub local : Option IpEndpoint
  pub remote : Option IpEndpoint

abbrev pub ToyUdp : Type 0
ToyUdp = List (Bytes × IpEndpoint)

abbrev pub ToySet : Type 0
ToySet = Map (ToyTcp ⊎ ToyUdp)

abbrev free_handle : ToySet → ℕ
free_handle [] = 0
free_handle ((k, v) ∷ m) = suc (k + free_handle m)

abbrev tcp_of : Option (ToyTcp ⊎ ToyUdp) → Option ToyTcp
tcp_of (some (inl x)) = some x
tcp_of _ = none

abbrev udp_of : Option (ToyTcp ⊎ ToyUdp) → Option ToyUdp
udp_of (some (inr x)) = some x
udp_of _ = none

abbrev toy_send : ToyTcp → Bytes → (String ⊎ ℕ) × ToyTcp
toy_send s bs =
    if s.writable
    then (inr (length (take 4 bs)), record s { out = s.out ++ take 4 bs })
    else (inl "closed", s)

abbrev toy_udp_recv : ToyUdp → ℕ → Option (Bytes × IpEndpoint) × ToyUdp
toy_udp_recv [] n = (none, [])
toy_udp_recv (p ∷ rest) n = (some p, rest)

abbrev nonempty : {A : Type 0} → List A → Bool
nonempty [] = false
nonempty (a ∷ rest) = true

abbrev pub toy_net : Smoltcp
toy_net = record {
  TcpSocket = ToyTcp;
  UdpSocket = ToyUdp;
  SocketSet = ToySet;
  Interface = List IpCidr;
  Device = Unit;
  tcp_new = λ r t. record {
    status = TcpState.closed;
    writable = false;
    out = [];
    inc = [];
    local = none;
    remote = none;
  };
  connect = λ s iface remote local.
      (none, record s { status = TcpState.syn_sent; remote = some remote }, iface);
  listen_on = λ s endpoint. (none, record s { status = TcpState.listen });
  tcp_close = λ s. record s { status = TcpState.closed; writable = false };
  state = λ s. s.status;
  remote_endpoint = λ s. s.remote;
  local_endpoint = λ s. s.local;
  may_send = λ s. s.writable;
  tcp_can_send = λ s. s.writable;
  tcp_can_recv = λ s. nonempty s.inc;
  tcp_send_slice = toy_send;
  tcp_recv_slice = λ s n. (inr (take n s.inc), record s { inc = drop n s.inc });
  udp_new = λ slots size. [];
  bind = λ s endpoint. (none, s);
  udp_close = λ s. [];
  udp_can_send = λ s. true;
  udp_can_recv = λ s. nonempty s;
  udp_send_slice = λ s bs to. (nonempty bs, s);
  udp_recv_slice = toy_udp_recv;
  no_sockets = [];
  add_tcp = λ set x. (free_handle set, Map.insert (free_handle set) (inl x) set);
  add_udp = λ set x. (free_handle set, Map.insert (free_handle set) (inr x) set);
  get_tcp = λ set h. tcp_of (Map.get h set);
  get_udp = λ set h. udp_of (Map.get h set);
  put_tcp = λ set h x. Map.insert h (inl x) set;
  put_udp = λ set h x. Map.insert h (inr x) set;
  remove_socket = λ set h. Map.remove h set;
  cidr_new = λ a n. some (record { address = a; prefix_len = n });
  ip_addrs = λ iface. iface;
  push_addr = λ addrs c. some (addrs ++ c ∷ []);
  update_ip_addrs = λ iface addrs. some addrs;
  poll_ingress_single = λ iface d set. (idle, iface, d, set);
  poll_egress = λ iface d set. (false, iface, d, set);
}

abbrev pub toy : World
toy = record { net = toy_net; tcp = fifo Bytes; udp = fifo Datagram }

take-length-take : (n : ℕ) (bs : Bytes) → take (length (take n bs)) bs ≡ take n bs
take-length-take zero bs = refl
take-length-take (suc n) [] = refl
take-length-take (suc n) (b ∷ bs) = ap (λ t. b ∷ t) (take-length-take n bs)

pub send-ok :
    (s : ToyTcp) (bs : Bytes) (n : ℕ)
    → (toy_send s bs).0 ≡ inr n
    → (n ≤ length bs) × ((toy_send s bs).1.out ≡ s.out ++ take n bs)
send-ok s bs n e = elim (Bool-cases s.writable) [
  | inl may ↦
      let here : length (take 4 bs) ≡ n = ground arith in
      (
        omega (arith, length-take 4 bs),
        rw may (ap (λ t. s.out ++ t) (sym (take-length-take 4 bs) ∙ ap (λ k. take k bs) here)),
      )
  | inr not_open ↦ absurd (ground arith)
]

pub send-err :
    (s : ToyTcp) (bs : Bytes) (e : String) → (toy_send s bs).0 ≡ inl e → s.writable ≡ false
send-err s bs e h = ground arith

pub recv-ok :
    (inc : Bytes) (n : ℕ) (bs : Bytes)
    → ◌≡◌ {A = String ⊎ Bytes} (inr (take n inc)) (inr bs)
    → (length bs ≤ n) × (inc ≡ bs ++ drop n inc)
recv-ok inc n bs e =
    let here : take n inc ≡ bs = cc in
    (
      omega (arith, length-take n inc, ap length here),
      sym (take-append-drop n inc) ∙ ap (λ t. t ++ drop n inc) here,
    )

pub recv-err :
    (inc : Bytes) (n : ℕ) (e : String)
    → ◌≡◌ {A = String ⊎ Bytes} (inr (take n inc)) (inl e)
    → drop n inc ≡ inc
recv-err inc n e h = absurd cc

abbrev pub toy_streams : StreamLaws toy_net
toy_streams = record {
  outgoing = λ s. s.out;
  incoming = λ s. s.inc;
  send-ok = send-ok;
  send-err = send-err;
  can_send-may_send = λ s e. e;
  outgoing-close = λ s. refl;
  recv-ok = λ s n bs e. recv-ok s.inc n bs e;
  recv-err = λ s n e h. recv-err s.inc n e h;
}

pub recv :
    (s : ToyUdp) (n : ℕ) (p : Bytes × IpEndpoint)
    → (toy_udp_recv s n).0 ≡ some p
    → s ≡ p ∷ (toy_udp_recv s n).1
recv [] n p e = absurd cc
recv (q ∷ s) n p e = cc

pub refused :
    (s : ToyUdp) (n : ℕ)
    → (toy_udp_recv s n).0 ≡ none
    → (dropped : ToyUdp) × (s ≡ dropped ++ (toy_udp_recv s n).1) × (length dropped ≤ 1)
refused [] n e = ([], refl, omega arith)
refused (q ∷ s) n e = absurd cc

abbrev pub toy_packets : PacketLaws toy
toy_packets = record { waiting_packets = λ s. s; recv-packet = recv; recv-refused = refused }

get-free : (m : ToySet) (j : ℕ) → free_handle m ≤ j → Map.get j m ≡ none
unfolding Map.get
get-free [] j h = refl
get-free ((k, v) ∷ m) j h = ground (arith, get-free m j (omega arith))

pub free-none :
    (m : ToySet)
    → (tcp_of (Map.get (free_handle m) m) ≡ none) × (udp_of (Map.get (free_handle m) m) ≡ none)
free-none m = rw (get-free m (free_handle m) (omega arith)) (refl, refl)

pub insert_tcp :
    (m : ToySet) (h j : ℕ) (x : ToyTcp)
    → tcp_of (Map.get j (Map.insert h (inl x) m))
      ≡ (if h == j then some x else tcp_of (Map.get j m))
insert_tcp m h j x = ground (arith, get-insert h j (inl x) m)

pub insert_udp :
    (m : ToySet) (h j : ℕ) (x : ToyUdp)
    → udp_of (Map.get j (Map.insert h (inr x) m))
      ≡ (if h == j then some x else udp_of (Map.get j m))
insert_udp m h j x = ground (arith, get-insert h j (inr x) m)

pub insert_other_udp :
    (m : ToySet) (h j : ℕ) (x : ToyTcp)
    → udp_of (Map.get h m) ≡ none
    → udp_of (Map.get j (Map.insert h (inl x) m)) ≡ udp_of (Map.get j m)
insert_other_udp m h j x free = elim (Bool-cases (h == j)) [
  | inl same ↦ let q : h ≡ j = ground arith in ground (arith, get-insert h j (inl x) m, q, free)
  | inr apart ↦ ground (arith, get-insert h j (inl x) m)
]

pub insert_other_tcp :
    (m : ToySet) (h j : ℕ) (x : ToyUdp)
    → tcp_of (Map.get h m) ≡ none
    → tcp_of (Map.get j (Map.insert h (inr x) m)) ≡ tcp_of (Map.get j m)
insert_other_tcp m h j x free = elim (Bool-cases (h == j)) [
  | inl same ↦ let q : h ≡ j = ground arith in ground (arith, get-insert h j (inr x) m, q, free)
  | inr apart ↦ ground (arith, get-insert h j (inr x) m)
]

pub remove_tcp :
    (m : ToySet) (h j : ℕ)
    → tcp_of (Map.get j (Map.remove h m)) ≡ (if h == j then none else tcp_of (Map.get j m))
remove_tcp m h j = ground (arith, get-remove h j m)

pub remove_udp :
    (m : ToySet) (h j : ℕ)
    → udp_of (Map.get j (Map.remove h m)) ≡ (if h == j then none else udp_of (Map.get j m))
remove_udp m h j = ground (arith, get-remove h j m)

pub one_kind : (o : Option (ToyTcp ⊎ ToyUdp)) (x : ToyTcp) → tcp_of o ≡ some x → udp_of o ≡ none
one_kind none x e = refl
one_kind (some (inl y)) x e = refl
one_kind (some (inr y)) x e = absurd cc

abbrev pub toy_laws : SetLaws toy_net
toy_laws = record {
  fresh_tcp = λ s x. free-none s;
  fresh_udp = λ s x. free-none s;
  get_tcp-add_tcp = λ s x j. insert_tcp s (free_handle s) j x;
  get_udp-add_tcp = λ s x j. insert_other_udp s (free_handle s) j x (free-none s).1;
  get_udp-add_udp = λ s x j. insert_udp s (free_handle s) j x;
  get_tcp-add_udp = λ s x j. insert_other_tcp s (free_handle s) j x (free-none s).0;
  get_tcp-put_tcp = λ s h x j. insert_tcp s h j x;
  get_udp-put_tcp = λ s h x j free. insert_other_udp s h j x free;
  get_udp-put_udp = λ s h x j. insert_udp s h j x;
  get_tcp-put_udp = λ s h x j free. insert_other_tcp s h j x free;
  get_tcp-remove = remove_tcp;
  get_udp-remove = remove_udp;
  one_kind = λ s h x e. one_kind (Map.get h s) x e;
  ingress_keeps = λ i d s j. (λ x e. (x, e), λ x e. (x, e));
  egress_keeps = λ i d s j. (λ x e. (x, e), λ x e. (x, e));
}
