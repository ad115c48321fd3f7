-- ===== src/Driver/Buffers/Linking.antt =====
-- src/asio.c: the links to the hardware that CreateBuffers asks for.
use pipeasio.Prelude.{ℕ, Bool, false, Option, none, some, List, [], ◌∷◌, ◌++◌, if◌then◌else◌}
use pipeasio.Audio.Ports.{Link, lookup_port, connect, get_device_ports}
use pipeasio.Audio.Registry.{contains}
use pipeasio.Audio.{Client, port_is_input, port_is_output}
use pipeasio.Config.Text.{codes, str_eq}
use pipeasio.Config.{Bytes}
use pipeasio.Driver.Queries.{client_port}
use pipeasio.Driver.{Driver, IoChannel}

abbrev is_audio : Client → Bytes → Bool
is_audio c name = elim (lookup_port c name) [
  | none ↦ false
  | some (p, _) ↦ contains (codes "audio") p.type_name
]

abbrev own_name : Client → IoChannel → Option Bytes
own_name c ch = elim (client_port (some c) ch.port) [ none ↦ none | some p ↦ some p.name ]

-- The links of the inputs from the devices' ports, and of the outputs to them.
unfoldable pub links_in : Client → List Bytes → List IoChannel → List (Option Link)
unfolding lookup_port contains connect
links_in c [] chs = []
links_in c (s ∷ ss) [] = []
links_in c (s ∷ ss) (ch ∷ chs) =
    let rest = links_in c ss chs in
    if is_audio c s then connect c (some s) (own_name c ch) ∷ rest else rest

unfoldable pub links_out : Client → List Bytes → List IoChannel → List (Option Link)
unfolding lookup_port contains connect
links_out c [] chs = []
links_out c (s ∷ ss) [] = []
links_out c (s ∷ ss) (ch ∷ chs) =
    let rest = links_out c ss chs in
    if is_audio c s then connect c (own_name c ch) (some s) ∷ rest else rest

abbrev names_or : Option (List Bytes) → Option (List Bytes) → List Bytes
names_or (some ns) other = ns
names_or none none = []
names_or none (some ns) = ns

abbrev chosen_ports : Bool → Bytes → ℕ → Client → Option (List Bytes)
chosen_ports memory device flags c =
    if str_eq device [] then none else get_device_ports memory device flags c

unfoldable pub connect_hardware : Bool → Client → Driver → List (Option Link)
unfolding links_in links_out get_device_ports
connect_hardware memory c d =
    if d.connect_to_hardware
    then links_in c (names_or (chosen_ports memory d.input_device port_is_output c) d.phys_inputs)
        d.input_channels
      ++ links_out c (names_or (chosen_ports memory d.output_device port_is_input c) d.phys_outputs)
          d.output_channels
    else []
