-- ===== src/Bridge/PortCalls.antt =====
-- src/wow64/audio_unix.c: the unix calls about ports.
use pipeasio.Prelude.{
  ℕ, suc, Bool, Option, none, some, List, [], ◌∷◌, ◌++◌, ◌==◌, ltb, if◌then◌else◌, length,
}
use pipeasio.Audio.{Client, Port, port_is_input, port_is_output, grow}
use pipeasio.Audio.Ports.{
  flag_set, new_port, port_unregister, lookup_port, latency_range, port_of_handle, get_ports,
  get_device_ports,
}
use pipeasio.Bridge.Calls.{
  Unix, Reply, success, invalid_parameter, invalid_handle, undefined, answer, on_client, cc_get,
  put_context, put_client,
}
use pipeasio.Bridge.PortList.{pack_ports, blob_of}
use pipeasio.Bridge.Rt.{Context}
use pipeasio.Bridge.Tokens.{Pointer, context, port, tok_add, tok_get, tok_clear}
use pipeasio.Bridge.{abi_version, portname_max, rt_max_ports}
use pipeasio.Config.Text.{copy_str}
use pipeasio.Config.{Bytes}

-- pa_port_register_params, pa_port_params, pa_ports_params
pub record RegisterParams : Type 0 where
  pub version : ℕ
  pub client : ℕ
  pub name : Bytes
  pub type_name : Bytes
  pub flags : ℕ
  pub channel : ℕ
  pub port : ℕ

pub record PortParams : Type 0 where
  pub version : ℕ
  pub client : ℕ
  pub port : ℕ
  pub mode : ℕ
  pub lat_min : ℕ
  pub lat_max : ℕ
  pub name : Bytes

pub record PortsParams : Type 0 where
  pub version : ℕ
  pub client : ℕ
  pub flags : ℕ
  pub pattern : Bytes
  pub type_name : Bytes
  pub node : Bytes
  pub count : ℕ
  pub names : Bytes

-- audio_port_register with the type that came over the wire.
unfoldable pub register_typed : Bool → Bytes → Bytes → ℕ → Client → Option ℕ × Client
unfolding new_port
register_typed alloc name type_name flags c =
    if alloc
    then (
      some c.next_handle,
      record c {
        ports = c.ports ++ record (new_port name flags c) { type_name = type_name } ∷ [];
        cap_ports = grow 16 (length c.ports) c.cap_ports;
        next_handle = suc c.next_handle;
      },
    )
    else (none, c)

abbrev at_channel : (ℕ → Option ℕ) → ℕ → Option ℕ → ℕ → Option ℕ
at_channel f i h j = if j == i then h else f j

-- The channel's entry in the arrays of the process callback.
abbrev map_channel : ℕ → ℕ → ℕ → Context → Context
map_channel channel flags h cc =
    if ltb channel rt_max_ports
    then if flag_set flags port_is_input
      then record cc { in_port = at_channel cc.in_port channel (some h) }
      else if flag_set flags port_is_output
      then record cc { out_port = at_channel cc.out_port channel (some h) }
      else cc
    else cc

abbrev registered : RegisterParams → Unix → ℕ → Context → Option ℕ × Client → Reply RegisterParams
registered p u a cc (none, c) = answer success (record p { port = 0 }) (put_client u a cc c)
registered p u a cc (some h, c) =
    let r = tok_add (port a h) u.tokens in
    answer success (record p { port = r.0 })
      (record (put_context u a (map_channel p.channel p.flags h (record cc { client = c }))) {
        tokens = r.1;
      })

unfoldable pub port_register_call : Bool → RegisterParams → Unix → Reply RegisterParams
unfolding cc_get
port_register_call alloc p u =
    on_client p.version p.client p u
      λ a cc. registered p u a cc (register_typed alloc p.name p.type_name p.flags cc.client)

pub data FoundPort : Type 0 where
  no_port : FoundPort
  port_found : (owner : ℕ) (h : ℕ) → FoundPort
  other_thing : FoundPort

abbrev as_port : Option Pointer → FoundPort
as_port none = no_port
as_port (some (context a)) = other_thing
as_port (some (port a h)) = port_found a h

unfoldable pub port_get : Unix → ℕ → FoundPort
unfolding tok_get
port_get u h = as_port (tok_get u.tokens h)

-- The port behind a pointer, if it is alive.
abbrev live_in : Option Context → ℕ → Option Port
live_in none h = none
live_in (some cc) h = elim (port_of_handle cc.client.ports h) [
  | some p ↦ some p
  | none ↦ port_of_handle cc.client.discovered h
]

abbrev with_live : {P : Type 0} → Option Port → P → Unix → (Port → Reply P) → Reply P
with_live none p u k = answer undefined p u
with_live (some q) p u k = k q

abbrev with_found : {P : Type 0} → FoundPort → P → Unix → (Port → Reply P) → Reply P
with_found no_port p u k = answer invalid_handle p u
with_found other_thing p u k = answer undefined p u
with_found (port_found a h) p u k = with_live (live_in (u.contexts a) h) p u k

abbrev on_port : PortParams → Unix → (Port → Reply PortParams) → Reply PortParams
on_port p u k =
    if p.version == abi_version
    then with_found (port_get u p.port) p u k
    else answer invalid_parameter p u

-- The loop that takes the port out of both arrays.
abbrev forget : ℕ → (ℕ → Option ℕ) → ℕ → Option ℕ
forget h f i = elim (f i) [
  | none ↦ none
  | some k ↦ if ltb i rt_max_ports then (if k == h then none else some k) else some k
]

abbrev unregistered : PortParams → Unix → ℕ → Context → ℕ → Reply PortParams
unregistered p u a cc h =
    answer success p
      (record (put_context u a (record cc {
        client = (port_unregister (some h) cc.client).1;
        in_port = forget h cc.in_port;
        out_port = forget h cc.out_port;
      })) { tokens = tok_clear p.port u.tokens })

abbrev unregister_found : PortParams → Unix → ℕ → Context → FoundPort → Reply PortParams
unregister_found p u a cc no_port = answer invalid_handle p u
unregister_found p u a cc other_thing = answer undefined p u
unregister_found p u a cc (port_found owner h) =
    if owner == a
    then elim (port_of_handle cc.client.ports h) [
      | none ↦ answer undefined p u
      | some q ↦ unregistered p u a cc h
    ]
    else answer undefined p u

unfoldable pub port_unregister_call : PortParams → Unix → Reply PortParams
unfolding cc_get port_get
port_unregister_call p u =
    on_client p.version p.client p u λ a cc. unregister_found p u a cc (port_get u p.port)

unfoldable pub port_name : PortParams → Unix → Reply PortParams
unfolding port_get
port_name p u = on_port p u λ q. answer success (record p { name = copy_str portname_max q.name }) u

unfoldable pub port_type : PortParams → Unix → Reply PortParams
unfolding port_get
port_type p u =
    on_port p u λ q. answer success (record p { name = copy_str portname_max q.type_name }) u

unfoldable pub port_latency_range : PortParams → Unix → Reply PortParams
unfolding port_get
port_latency_range p u = on_port p u λ q.
    let r = latency_range (some q) (p.mode == 1) in
    answer success (record p { lat_min = r.low; lat_max = r.high }) u

abbrev named : PortParams → Unix → ℕ → Option (Port × ℕ) → Reply PortParams
named p u a none = answer success (record p { port = 0 }) u
named p u a (some (q, node)) =
    let r = tok_add (port a q.handle) u.tokens in
    answer success (record p { port = r.0 }) (record u { tokens = r.1 })

unfoldable pub port_by_name : PortParams → Unix → Reply PortParams
unfolding cc_get
port_by_name p u =
    on_client p.version p.client p u λ a cc. named p u a (lookup_port cc.client p.name)

abbrev packed : PortsParams → Unix → Option (List Bytes) → Reply PortsParams
packed p u names =
    let r = pack_ports names in answer success (record p { count = r.0; names = blob_of r.1 }) u

-- The client takes no notice of the patterns for names and types.
unfoldable pub get_ports_call : Bool → PortsParams → Unix → Reply PortsParams
unfolding cc_get
get_ports_call alloc p u =
    on_client p.version p.client p u λ a cc. packed p u (get_ports alloc p.flags cc.client)

-- An empty node name is passed as null, which the client treats alike.
unfoldable pub get_device_ports_call : Bool → PortsParams → Unix → Reply PortsParams
unfolding cc_get
get_device_ports_call alloc p u =
    on_client p.version p.client p u
      λ a cc. packed p u (get_device_ports alloc p.node p.flags cc.client)
