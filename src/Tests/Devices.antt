-- ===== src/Tests/Devices.antt =====
-- The theorems about the audio client and the callback buffer at concrete inputs.
use pipeasio.Prelude.{
  ℕ, ◌+◌, ◌-◌, ◌*◌, ◌≤◌, ◌≡◌, refl, ◌⊎◌, inr, true, false, Option, none, some, List, [], ◌∷◌,
  length, arith, if◌then◌else◌, ◌==◌, ltb, pos, get_elem?,
}
use pipeasio.Audio.Activation.{IsIdle, Outcome, activate-Outcome}
use pipeasio.Audio.Capacity.{IsRoomy, Call, event, registers, calls, calls-IsRoomy}
use pipeasio.Audio.Cycle.{end_process-served, served}
use pipeasio.Audio.Filter.{Answers, bound, activate, begin_process, end_process}
use pipeasio.Audio.Memo.{memo_lookup-find_node}
use pipeasio.Audio.Ports.{count_pass, fill_pass, get_ports}
use pipeasio.Audio.Registry.{
  Props, global, global_remove, node_type, port_type, node_name, media_class, node_id, port_name,
  port_direction, memo_lookup, find_node,
}
use pipeasio.Audio.Rt.{
  RtState, Scheduler, set_eperm, rt_acquire, rt_acquire_result, set_ok, positive,
}
use pipeasio.Audio.Selection.{
  count_pass-fill_pass, get_ports-ports_of, ports_of, names_size, HaveNodes,
}
use pipeasio.Audio.{Client, Port, CycleBuffer, LatencyRange, input, output, opened, id_invalid}
use pipeasio.Buffer.Copy.{
  clamp_frames, gather, scatter_frames, source, get_elem?-gather, get_elem?-scatter_frames,
}
use pipeasio.Buffer.Offsets.{host_callback_size_bytes}
use pipeasio.Buffer.Slices.{slices-disjoint, slice-inside, slice_start, sample_size}
use pipeasio.Buffer.Slices
use pipeasio.Config.Text.{codes}

abbrev no_latency : LatencyRange
no_latency = record { low = 0; high = 0 }

-- A discovered input of the node 40, with the flags of a physical input.
abbrev speaker : Port
speaker = record {
  handle = 7;
  name = codes "Card:playback_1";
  type_name = codes "32 bit float mono audio";
  flags = 5;
  capture_latency = no_latency;
  playback_latency = no_latency;
  direction = input;
  filter_port = false;
  cycle_buffer = none;
  node_id = 40;
  port_id = 41;
}

-- An output of ours.
abbrev own_output : Port
own_output = record {
  handle = 1;
  name = codes "out_1";
  type_name = codes "32 bit float mono audio";
  flags = 2;
  capture_latency = no_latency;
  playback_latency = no_latency;
  direction = output;
  filter_port = false;
  cycle_buffer = none;
  node_id = 0;
  port_id = 0;
}

abbrev idle_client : Client
idle_client = record (opened (codes "Host")) {
  ports = own_output ∷ [];
  cap_ports = 16;
  discovered = speaker ∷ [];
  cap_discovered = 32;
}

idle_client-IsIdle : IsIdle idle_client
unfolding opened
idle_client-IsIdle = record {
  inactive = refl;
  no_filter = refl;
  stopped = refl;
  unlinked = (refl, tt);
}

abbrev willing : Answers
willing = record {
  props_ok = true;
  filter_ok = true;
  add_ok = λ (i : ℕ). true;
  connect_ok = true;
  start_ok = true;
  bind = bound 50;
  round = λ (k : ℕ). [];
}

activate-Outcome_example : Outcome idle_client.buffer_size (activate willing idle_client)
activate-Outcome_example = activate-Outcome willing idle_client idle_client-IsIdle

abbrev card_props : Props
card_props node_name = some (codes "card")
card_props media_class = some (codes "Audio/Sink")
card_props node_id = some (codes "40")
card_props port_name = some (codes "playback_1")
card_props port_direction = some (codes "in")
card_props _ = none

abbrev history : List Call
history =
    event (global true 40 node_type card_props)
    ∷ event (global true 41 port_type card_props)
    ∷ registers true (codes "in_1") 1
    ∷ event (global_remove 40)
    ∷ []

calls-IsRoomy_example : IsRoomy (calls history (opened (codes "Host")))
calls-IsRoomy_example = calls-IsRoomy (codes "Host") history (omega arith)

memo_lookup-find_node_example :
    (memo_lookup 40 (calls history (opened (codes "Host")))).0
    ≡ find_node (calls history (opened (codes "Host"))).nodes 40
memo_lookup-find_node_example = memo_lookup-find_node (codes "Host") history 40

count_pass-fill_pass_example : count_pass 5 id_invalid (speaker ∷ []) ≡ (
  length (fill_pass 5 id_invalid (count_pass 5 id_invalid (speaker ∷ [])).0 (speaker ∷ [])),
  names_size (fill_pass 5 id_invalid (count_pass 5 id_invalid (speaker ∷ [])).0 (speaker ∷ [])),
)
count_pass-fill_pass_example = count_pass-fill_pass 5 id_invalid (speaker ∷ [])

idle_client-HaveNodes : HaveNodes idle_client.discovered
idle_client-HaveNodes = (omega arith, tt)

get_ports-ports_of_example :
    (node : ℕ) × (get_ports true 5 idle_client ≡ some (ports_of 5 node idle_client.discovered))
get_ports-ports_of_example = get_ports-ports_of 5 idle_client idle_client-HaveNodes

abbrev page : CycleBuffer
page = record {
  maxsize = 4096;
  chunk_offset = 0;
  chunk_size = 0;
  chunk_stride = 0;
  chunk_flags = 0;
}

abbrev linked_client : Client
linked_client = record idle_client { ports = record own_output { filter_port = true } ∷ [] }

abbrev one_page : ℕ → Option CycleBuffer
one_page h = some page

end_process-served_example :
    (end_process (begin_process none one_page linked_client)).0
    ≡ served linked_client.buffer_size one_page linked_client.ports
end_process-served_example = end_process-served none one_page linked_client

abbrev pool : List ℕ
pool = 9 ∷ 9 ∷ 9 ∷ 9 ∷ []

abbrev mapped : List ℕ
mapped = 1 ∷ 2 ∷ []

abbrev bound_client : Client
bound_client = record idle_client { our_node_id = 40 }

get_elem?-gather_example : get_elem? (gather 0 pool 1 (some mapped) 2 3) 3 ≡ (
    if ltb 3 1
    then get_elem? pool 3
    else if ltb 3 (1 + clamp_frames (some mapped) 2 3)
    then get_elem? (source (some mapped)) (3 - 1)
    else if ltb 3 (1 + 3)
    then some 0
    else get_elem? pool 3)
get_elem?-gather_example = get_elem?-gather 0 pool 1 (some mapped) 2 3 3 (omega arith) (omega arith)

get_elem?-scatter_frames_example : get_elem? (scatter_frames mapped pool 1 2 3) 1 ≡ (
    if ltb 1 (clamp_frames (some mapped) 2 3) then get_elem? pool (1 + 1) else get_elem? mapped 1)
get_elem?-scatter_frames_example =
    get_elem?-scatter_frames mapped pool 1 2 3 1 (omega arith) (omega arith)

slice-inside_example :
    (slice_start 2 64 (Slices.output 1) 1 + 64) * sample_size
    ≤ host_callback_size_bytes 2 2 64 sample_size
slice-inside_example =
    slice-inside 2 2 64 (omega arith) (omega arith) (omega arith) (Slices.output 1) 1 (omega arith)
      (omega arith)

slices-disjoint_example :
    (slice_start 2 64 (Slices.input 1) 1 + 64 ≤ slice_start 2 64 (Slices.output 0) 0)
    ⊎ (slice_start 2 64 (Slices.output 0) 0 + 64 ≤ slice_start 2 64 (Slices.input 1) 1)
slices-disjoint_example =
    slices-disjoint 2 2 64 (omega arith) (omega arith) (omega arith) (Slices.input 1)
      (Slices.output 0) 1 0 (omega arith) (omega arith) (omega arith) (omega arith)
      (inr (omega arith))

-- Priorities above 10 are refused.
abbrev limited : Scheduler
limited = record {
  set_fifo = λ (p : ℕ). if ltb 10 p then set_eperm else set_ok;
  set_other_ok = true;
  limit = some 10;
}

abbrev fresh_rt : RtState
fresh_rt = record { rt_priority = 0; config_priority = pos 15 }

rt_acquire_result_example :
    let r = rt_acquire limited (pos 88) fresh_rt in
    ((r.0 ≡ true)
      × (1 ≤ r.1.rt_priority)
      × (r.1.rt_priority ≤ 80)
      × (limited.set_fifo r.1.rt_priority ≡ set_ok)
      × (r.1.rt_priority ≤ (
          if positive fresh_rt.config_priority == 0 then 80 else positive fresh_rt.config_priority))
      × (r.1.config_priority ≡ fresh_rt.config_priority))
    ⊎ ((r.0 ≡ false) × (r.1 ≡ fresh_rt))
rt_acquire_result_example = rt_acquire_result limited (pos 88) fresh_rt
