-- ===== src/Protocol/Toy.antt =====
-- Two formats that stand in for JSON, to run the models on: a success is its id, an IPv4
-- route to add its id, its prefix length and its address, and nothing else has a form.
use tap_tunnel.Prelude.{◌≡◌, sym, ap, [], ◌∷◌, String, inl, inr, ◌⊎◌}
use tap_tunnel.Bytes.{Bytes}
use tap_tunnel.Net.{v4, v6}
use tap_tunnel.Protocol.{
  Json, ProxyCommand, add_route, remove_route, get_iface_stats, ProxyResponse, ok_response,
  error_response, iface_stats,
}

abbrev response_to_vec : ProxyResponse → String ⊎ Bytes
response_to_vec (ok_response id) = inr (id ∷ [])
response_to_vec (error_response id error) = inl "no form"
response_to_vec (iface_stats id interfaces) = inl "no form"

abbrev response_from_slice : Bytes → String ⊎ ProxyResponse
response_from_slice (id ∷ []) = inr (ok_response id)
response_from_slice _ = inl "not an id"

pub response_from_slice-to_vec :
    (x : ProxyResponse) (json : Bytes)
    → response_to_vec x ≡ inr json
    → response_from_slice json ≡ inr x
response_from_slice-to_vec (ok_response id) json e =
    let same : id ∷ [] ≡ json = cc in ap response_from_slice (sym same)
response_from_slice-to_vec (error_response id error) json e = absurd cc
response_from_slice-to_vec (iface_stats id interfaces) json e = absurd cc

abbrev pub toy_responses : Json ProxyResponse
toy_responses = record {
  to_vec = response_to_vec;
  from_slice = response_from_slice;
  from_slice-to_vec = response_from_slice-to_vec;
}

abbrev command_to_vec : ProxyCommand → String ⊎ Bytes
command_to_vec (add_route id (v4 octets) prefix_len) = inr (id ∷ prefix_len ∷ octets)
command_to_vec (add_route id (v6 octets) prefix_len) = inl "no form"
command_to_vec (remove_route id destination prefix_len) = inl "no form"
command_to_vec (get_iface_stats id) = inl "no form"

abbrev command_from_slice : Bytes → String ⊎ ProxyCommand
command_from_slice (id ∷ prefix_len ∷ octets) = inr (add_route id (v4 octets) prefix_len)
command_from_slice _ = inl "not a route"

pub command_from_slice-to_vec :
    (x : ProxyCommand) (json : Bytes)
    → command_to_vec x ≡ inr json
    → command_from_slice json ≡ inr x
command_from_slice-to_vec (add_route id (v4 octets) prefix_len) json e =
    let same : id ∷ prefix_len ∷ octets ≡ json = cc in ap command_from_slice (sym same)
command_from_slice-to_vec (add_route id (v6 octets) prefix_len) json e = absurd cc
command_from_slice-to_vec (remove_route id destination prefix_len) json e = absurd cc
command_from_slice-to_vec (get_iface_stats id) json e = absurd cc

abbrev pub toy_commands : Json ProxyCommand
toy_commands = record {
  to_vec = command_to_vec;
  from_slice = command_from_slice;
  from_slice-to_vec = command_from_slice-to_vec;
}
