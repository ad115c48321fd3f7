-- ===== src/Audio/Ports.antt =====
-- src/audio.c, the ports: registering the driver's own ones, choosing and naming the graph's, and
-- resolving the two ends of a link.
use pipeasio.Prelude.{
  ℕ, zero, suc, ◌+◌, Bool, true, false, not, ◌&&◌, ◌||◌, Option, none, some, List, [], ◌∷◌, ◌++◌,
  ◌==◌, if◌then◌else◌, length, is_some, bit_and,
}
use pipeasio.Audio.{
  Node, input, output, LatencyRange, Port, Client, grow, id_invalid, port_is_input, port_is_output,
}
use pipeasio.Config.Text.{codes, str_eq, split_at}
use pipeasio.Config.{Bytes}

abbrev pub flag_set : ℕ → ℕ → Bool
flag_set flags bit = not (bit_and flags bit == 0)

-- (p->flags & flags) == flags
unfoldable pub has_flags : ℕ → Port → Bool
has_flags flags p = bit_and p.flags flags == flags

-- `type` is AUDIO_DEFAULT_TYPE where the caller passes none.
unfoldable pub new_port : Bytes → ℕ → Client → Port
new_port name flags c = record {
  handle = c.next_handle;
  name = name;
  type_name = codes "32 bit float mono audio";
  flags = flags;
  capture_latency = record { low = 0; high = 0 };
  playback_latency = record { low = 0; high = 0 };
  direction = if flag_set flags port_is_input then input else output;
  filter_port = false;
  cycle_buffer = none;
  node_id = 0;
  port_id = 0;
}

-- The new port's handle, or none where an allocation failed.
unfoldable pub port_register : Bool → Bytes → ℕ → Client → Option ℕ × Client
unfolding new_port
port_register alloc name flags c =
    if alloc
    then (
      some c.next_handle,
      record c {
        ports = c.ports ++ new_port name flags c ∷ [];
        cap_ports = grow 16 (length c.ports) c.cap_ports;
        next_handle = suc c.next_handle;
      },
    )
    else (none, c)

unfoldable pub remove_handle : List Port → ℕ → List Port
remove_handle [] h = []
remove_handle (p ∷ ps) h = if p.handle == h then ps else p ∷ remove_handle ps h

unfoldable pub port_unregister : Option ℕ → Client → Bool × Client
unfolding remove_handle
port_unregister none c = (false, c)
port_unregister (some h) c = (true, record c { ports = remove_handle c.ports h })

unfoldable pub node_named : List Node → Bytes → ℕ
node_named [] name = id_invalid
node_named (n ∷ ns) name = if str_eq n.node_name name then n.id else node_named ns name

unfoldable pub has_matching_port : List Port → ℕ → ℕ → Bool
unfolding has_flags
has_matching_port [] node flags = false
has_matching_port (p ∷ ps) node flags =
    (p.node_id == node && has_flags flags p) || has_matching_port ps node flags

-- `want`: the cached default of the wanted direction, or none.
abbrev wanted_default : Client → ℕ → Option Bytes
wanted_default c flags =
    if flag_set flags port_is_input
    then (if str_eq c.default_sink_name [] then none else some c.default_sink_name)
    else if flag_set flags port_is_output
    then (if str_eq c.default_source_name [] then none else some c.default_source_name)
    else none

unfoldable pub preferred_default_node : Client → ℕ → ℕ
unfolding node_named has_matching_port
preferred_default_node c flags = elim (wanted_default c flags) [
  | none ↦ id_invalid
  | some want ↦
      let id = node_named c.nodes want in
      if id == id_invalid
      then id_invalid
      else if has_matching_port c.discovered id flags
      then id
      else id_invalid
]

-- The node that a pass holds on to, once it has met a port.
abbrev pub settle : ℕ → Port → ℕ
settle target p = if target == id_invalid then p.node_id else target

-- Whether a pass that holds on to `target` takes the port.
abbrev pub taken : ℕ → ℕ → Port → Bool
taken flags target p = has_flags flags p && (target == id_invalid || p.node_id == target)

-- The first pass: how many ports match, and the bytes that their names need.
unfoldable pub count_pass : ℕ → ℕ → List Port → ℕ × ℕ
unfolding has_flags
count_pass flags target [] = (0, 0)
count_pass flags target (p ∷ ps) =
    let rest = count_pass flags (if taken flags target p then settle target p else target) ps in
    if taken flags target p then (suc rest.0, length p.name + 1 + rest.1) else rest

-- The second pass, which stops when `room` names are written.
unfoldable pub fill_pass : ℕ → ℕ → ℕ → List Port → List Bytes
unfolding has_flags
fill_pass flags target room [] = []
fill_pass flags target zero (p ∷ ps) = []
fill_pass flags target (suc room) (p ∷ ps) =
    let t = if taken flags target p then settle target p else target in
    let rest = fill_pass flags t (if taken flags target p then room else suc room) ps in
    if taken flags target p then p.name ∷ rest else rest

-- The two passes over the discovered ports. `alloc` is what malloc answers.
abbrev pub two_passes : Bool → ℕ → ℕ → List Port → Option (List Bytes)
two_passes alloc flags target ps =
    if alloc then some (fill_pass flags target (count_pass flags target ps).0 ps) else none

unfoldable pub get_ports : Bool → ℕ → Client → Option (List Bytes)
unfolding preferred_default_node count_pass fill_pass
get_ports alloc flags c = two_passes alloc flags (preferred_default_node c flags) c.discovered

-- The passes of audio_get_device_ports hold on to a target from the start.
unfoldable pub get_device_ports : Bool → Bytes → ℕ → Client → Option (List Bytes)
unfolding node_named get_ports
get_device_ports alloc name flags c =
    if str_eq name []
    then get_ports alloc flags c
    else let target = node_named c.nodes name in
      if target == id_invalid
      then get_ports alloc flags c
      else two_passes alloc flags target c.discovered

unfoldable pub find_port : List Port → Bytes → Option Port
find_port [] name = none
find_port (p ∷ ps) name = if str_eq p.name name then some p else find_port ps name

-- The port and the node that it is on: the discovered ones first, then our own.
unfoldable pub lookup_port : Client → Bytes → Option (Port × ℕ)
unfolding find_port
lookup_port c name = elim (find_port c.discovered name) [
  | some p ↦ some (p, p.node_id)
  | none ↦ elim (find_port c.ports name) [ some p ↦ some (p, c.our_node_id) | none ↦ none ]
]

-- The four ids of a link that is asked for.
pub record Link : Type 0 where
  pub output_node : ℕ
  pub output_port : ℕ
  pub input_node : ℕ
  pub input_port : ℕ

abbrev link_of : Port × ℕ → Port × ℕ → Option Link
link_of (sp, src_node) (dp, dst_node) =
    if sp.port_id == 0 || dp.port_id == 0 || src_node == id_invalid || dst_node == id_invalid
    then none
    else some (record {
      output_node = src_node;
      output_port = sp.port_id;
      input_node = dst_node;
      input_port = dp.port_id;
    })

-- The link that audio_connect asks the link factory for; none where it gives up before. `src` and
-- `dst` are null where the caller's lookup of a name has failed.
unfoldable pub connect : Client → Option Bytes → Option Bytes → Option Link
unfolding lookup_port
connect c none dst = none
connect c (some src) none = none
connect c (some src) (some dst) = elim (lookup_port c src) [
  | none ↦ none
  | some s ↦ elim (lookup_port c dst) [ none ↦ none | some d ↦ link_of s d ]
]

-- The part of a full name behind its last colon; strrchr.
unfoldable pub short_name : Bytes → Bytes
unfolding split_at
short_name [] = []
short_name (x ∷ xs) =
    if is_some (split_at b':' xs) then short_name xs else if x == b':' then xs else x ∷ xs

unfoldable pub latency_range : Option Port → Bool → LatencyRange
latency_range none playback = record { low = 0; high = 0 }
latency_range (some p) playback = if playback then p.playback_latency else p.capture_latency

unfoldable pub port_of_handle : List Port → ℕ → Option Port
port_of_handle [] h = none
port_of_handle (p ∷ ps) h = if p.handle == h then some p else port_of_handle ps h
