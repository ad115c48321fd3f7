-- ===== src/Audio/Registry.antt =====
-- src/audio.c, the registry walker: the caches of the graph's nodes and ports, the one-entry memo in
-- front of the node cache, and the default devices. An event's properties are a function from
-- PipeWire's keys; what a memory allocation answers is given.
use pipeasio.Prelude.{
  ℕ, suc, ◌-◌, ◌%◌, ◌^◌, Bool, true, false, not, ◌&&◌, ◌||◌, Option, none, some, List, [], ◌∷◌,
  ◌++◌, ◌==◌, if◌then◌else◌, length, is_some, ltb,
}
use pipeasio.Audio.{Node, Direction, input, output, LatencyRange, Port, Client, grow, id_invalid}
use pipeasio.Config.Number.{read_digits}
use pipeasio.Config.Text.{codes, str_eq, skip_space}
use pipeasio.Config.{Bytes}

pub data Key : Type 0 where
  node_name media_class node_description node_nick : Key
  node_id port_name port_direction port_monitor metadata_name : Key

abbrev pub Props : Type 0
Props = Key → Option Bytes

abbrev starts_with : Bytes → Bytes → Bool
starts_with [] s = true
starts_with (p ∷ ps) [] = false
starts_with (p ∷ ps) (c ∷ cs) = p == c && starts_with ps cs

-- strstr(s, part) != NULL
unfoldable pub contains : Bytes → Bytes → Bool
contains part [] = starts_with part []
contains part (c ∷ cs) = starts_with part (c ∷ cs) || contains part cs

-- The class is there and contains the text.
abbrev pub class_contains : Option Bytes → Bytes → Bool
class_contains none part = false
class_contains (some s) part = contains part s

abbrev clamp_ulong : ℕ → ℕ
clamp_ulong v = if ltb v (2 ^ 64) then v else 2 ^ 64 - 1

-- (uint32_t)strtoul(s, NULL, 10): a minus negates the value in 64 bits.
abbrev unsigned_digits : Bytes → ℕ
unsigned_digits [] = 0
unsigned_digits (c ∷ cs) =
    if c == b'-'
    then (2 ^ 64 - clamp_ulong (read_digits 0 cs)) % 2 ^ 32
    else if c == b'+'
    then clamp_ulong (read_digits 0 cs) % 2 ^ 32
    else clamp_ulong (read_digits 0 (c ∷ cs)) % 2 ^ 32

unfoldable pub to_id : Bytes → ℕ
unfolding skip_space read_digits
to_id s = unsigned_digits (skip_space s)

unfoldable pub find_node : List Node → ℕ → Option Node
find_node [] id = none
find_node (n ∷ ns) id = if n.id == id then some n else find_node ns id

abbrev pub or_else : Option Bytes → Bytes → Bytes
or_else none d = d
or_else (some s) d = s

-- `is_ours` of audio_cache_node
abbrev pub own_node : Client → ℕ → Bytes → Bool
own_node c id name =
    (not (c.our_node_id == id_invalid) && id == c.our_node_id) || str_eq name c.name

abbrev pub cacheable : Bool → Option Bytes → Bool
cacheable ours class =
    ours || (class_contains class (codes "Audio") && not (class_contains class (codes "Internal")))

unfoldable pub add_node : Bool → Node → Client → Client
add_node alloc n c =
    if alloc
    then record c { nodes = c.nodes ++ n ∷ []; cap_nodes = grow 16 (length c.nodes) c.cap_nodes }
    else c

-- The new entry for a node of that name.
unfoldable pub new_node : ℕ → Bytes → Props → Node
new_node id name props = record {
  id = id;
  node_name = name;
  display_name = or_else (props node_description) (or_else (props node_nick) name);
  media_class = props media_class;
}

unfoldable pub cache_named : Bool → ℕ → Bytes → Props → Client → Client
unfolding find_node add_node new_node
cache_named alloc id name props c =
    if not (cacheable (own_node c id name) (props media_class))
    then c
    else if is_some (find_node c.nodes id)
    then c
    else add_node alloc (new_node id name props) c

unfoldable pub cache_node : Bool → ℕ → Props → Client → Client
unfolding cache_named
cache_node alloc id props c = elim (props node_name) [
  | none ↦ c
  | some name ↦ cache_named alloc id name props c
]

-- The first port of that name gets the ids.
unfoldable pub backfill : List Port → Bytes → ℕ → ℕ → List Port
backfill [] name node port = []
backfill (p ∷ ps) name node port =
    if str_eq p.name name
    then record p { node_id = node; port_id = port } ∷ ps
    else p ∷ backfill ps name node port

-- The node's lookup through the memo, and the client with the memo renewed.
unfoldable pub memo_lookup : ℕ → Client → Option Node × Client
unfolding find_node
memo_lookup id c =
    if is_some c.memo_node && c.memo_node_id == id
    then (c.memo_node, c)
    else let n = find_node c.nodes id in
      (n, record c { memo_node = n; memo_node_id = if is_some n then id else id_invalid })

abbrev port_flags : Direction → ℕ
port_flags input = 5
port_flags output = 6

abbrev port_direction_of : Bytes → Direction
port_direction_of d = if str_eq d (codes "in") then input else output

abbrev no_latency : LatencyRange
no_latency = record { low = 0; high = 0 }

unfoldable pub discovered_port : ℕ → ℕ → ℕ → Node → Bytes → Bytes → Port
discovered_port handle id node n short direction = record {
  handle = handle;
  name = n.display_name ++ b':' ∷ short;
  type_name = codes "32 bit float mono audio";
  flags = port_flags (port_direction_of direction);
  capture_latency = no_latency;
  playback_latency = no_latency;
  direction = port_direction_of direction;
  filter_port = false;
  cycle_buffer = none;
  node_id = node;
  port_id = id;
}

abbrev pub is_monitor : Option Bytes → Bool
is_monitor none = false
is_monitor (some s) = str_eq s (codes "true")

-- The node has been looked up: the monitor filter, the orphan test and the new entry.
unfoldable pub add_port :
    Bool → ℕ → ℕ → Option Bytes → Bytes → Bytes → Option Node → Client → Client
unfolding discovered_port
add_port alloc id node monitor name direction none c = c
add_port alloc id node monitor name direction (some n) c =
    if is_monitor monitor && class_contains n.media_class (codes "Sink")
    then c
    else if alloc
    then record c {
      discovered = c.discovered ++ discovered_port c.next_handle id node n name direction ∷ [];
      cap_discovered = grow 32 (length c.discovered) c.cap_discovered;
      next_handle = suc c.next_handle;
    }
    else c

-- An event for a port with its node, name and direction.
unfoldable pub cache_port_of : Bool → ℕ → ℕ → Option Bytes → Bytes → Bytes → Client → Client
unfolding backfill memo_lookup add_port
cache_port_of alloc id node monitor name direction c =
    if not (c.our_node_id == id_invalid) && node == c.our_node_id
    then record c { ports = backfill c.ports name node id }
    else let r = memo_lookup node c in add_port alloc id node monitor name direction r.0 r.1

unfoldable pub cache_port : Bool → ℕ → Props → Client → Client
unfolding to_id cache_port_of
cache_port alloc id props c = elim (props node_id) [
  | none ↦ c
  | some node ↦ elim (props port_name) [
    | none ↦ c
    | some name ↦ elim (props port_direction) [
      | none ↦ c
      | some direction ↦ cache_port_of alloc id (to_id node) (props port_monitor) name direction c
    ]
  ]
]

-- `bound` is what pw_registry_bind answers.
unfoldable pub cache_metadata : Bool → Props → Client → Client
cache_metadata bound props c = elim (props metadata_name) [
  | none ↦ c
  | some name ↦
      if not (str_eq name (codes "default"))
      then c
      else if c.default_metadata
      then c
      else record c { default_metadata = bound }
]

-- The name that spa_json_str_object_find has read from the value, empty if there is none.
unfoldable pub on_metadata_property : Option Bytes → Option Bytes → Client → Client
on_metadata_property none name c = c
on_metadata_property (some key) none c = c
on_metadata_property (some key) (some name) c =
    if str_eq key (codes "default.audio.sink")
    then (if str_eq c.default_sink_name name then c else record c {
      default_changed = not (str_eq c.default_sink_name []) || c.default_changed;
      default_sink_name = name;
    })
    else if str_eq key (codes "default.audio.source")
    then (if str_eq c.default_source_name name then c else record c {
      default_changed = not (str_eq c.default_source_name []) || c.default_changed;
      default_source_name = name;
    })
    else c

pub data Interface : Type 0 where
  node_type port_type metadata_type other_type : Interface

-- An event of the registry: a new object with its interface, or a removed one.
pub data GlobalEvent : Type 0 where
  global : (alloc : Bool) (id : ℕ) (type_of : Interface) (props : Props) → GlobalEvent
  global_remove : (id : ℕ) → GlobalEvent

unfoldable pub on_registry_global : Bool → ℕ → Interface → Props → Client → Client
unfolding cache_node cache_port cache_metadata
on_registry_global alloc id node_type props c = cache_node alloc id props c
on_registry_global alloc id port_type props c = cache_port alloc id props c
on_registry_global alloc id metadata_type props c = cache_metadata alloc props c
on_registry_global alloc id other_type props c = c

unfoldable pub has_port_id : List Port → ℕ → Bool
has_port_id [] id = false
has_port_id (p ∷ ps) id = p.port_id == id || has_port_id ps id

unfoldable pub remove_port : List Port → ℕ → List Port
remove_port [] id = []
remove_port (p ∷ ps) id = if p.port_id == id then ps else p ∷ remove_port ps id

unfoldable pub remove_node : List Node → ℕ → List Node
remove_node [] id = []
remove_node (n ∷ ns) id = if n.id == id then ns else n ∷ remove_node ns id

-- `c->memo_node == n`, with the nodes compared by their ids.
abbrev memo_is : Option Node → ℕ → Bool
memo_is none id = false
memo_is (some n) id = n.id == id

unfoldable pub on_registry_global_remove : ℕ → Client → Client
unfolding has_port_id remove_port remove_node find_node
on_registry_global_remove id c =
    if has_port_id c.discovered id
    then record c { discovered = remove_port c.discovered id }
    else if is_some (find_node c.nodes id)
    then record c {
      nodes = remove_node c.nodes id;
      memo_node = if memo_is c.memo_node id then none else c.memo_node;
      memo_node_id = if memo_is c.memo_node id then id_invalid else c.memo_node_id;
    }
    else c

unfoldable pub on_event : GlobalEvent → Client → Client
unfolding on_registry_global on_registry_global_remove
on_event (global alloc id type_of props) c = on_registry_global alloc id type_of props c
on_event (global_remove id) c = on_registry_global_remove id c

unfoldable pub on_events : List GlobalEvent → Client → Client
unfolding on_event
on_events [] c = c
on_events (e ∷ es) c = on_events es (on_event e c)
