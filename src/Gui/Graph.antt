-- ===== src/Gui/Graph.antt =====
-- gui/GraphModel.cpp: the graph as the settings panel sees it. A QString is its UTF-8 text; the DSP load is the
-- exact fraction whose nearest double the code stores.
use pipeasio.Prelude.{
  ℕ, ◌-◌, ◌*◌, Bool, true, false, not, ◌&&◌, ◌||◌, Option, none, some, List, [], ◌∷◌, ◌++◌, map,
  ◌==◌, leb, ltb, ltb_ℤ, if◌then◌else◌, ℤ, pos, is_some, to_int32,
}
use pipeasio.Config.Number.{print_int}
use pipeasio.Config.Text.{codes, str_eq}
use pipeasio.Config.{Bytes}
use pipeasio.Gui.Dialog.{Device}
use pipeasio.Gui.Hash.{contains}
use pipeasio.Gui.Node.{
  NodeRec, LinkRec, ProfilerClock, ProfilerBlock, ProfilerStats, Connections, blank_node, no_clock,
  no_stats, no_id, is_blank, starts_with, join, Base, Props, state_letter, codec_names, named,
  apply_props,
}

module _ (b : Base) where
  pub record Graph : Type 0 where
    pub nodes : b.nodes.Table
    pub links : b.links.Table
    pub clock : ProfilerClock
    pub prof : ProfilerStats
    pub prof_id : ℕ
    pub prof_name : Bytes

  unfoldable pub pretty_bt_codec : Bytes → Bytes
  unfolding named codec_names
  pretty_bt_codec codec = named (b.to_lower codec) (b.to_upper codec) codec_names

  -- m_nodes[id] makes an unknown node.
  abbrev node_at : Graph → ℕ → NodeRec
  node_at g id = elim (b.nodes.find id g.nodes) [ none ↦ blank_node | some r ↦ r ]

  abbrev put_node : ℕ → NodeRec → Graph → Graph
  put_node id r g = record g { nodes = b.nodes.insert id r g.nodes }

  unfoldable pub add_node : ℕ → Props → Graph → Graph
  unfolding apply_props
  add_node id props g = put_node id (apply_props b.to_int blank_node props) g

  unfoldable pub update_node_props : ℕ → Props → Graph → Graph
  unfolding apply_props
  update_node_props id props g = put_node id (apply_props b.to_int (node_at g id) props) g

  unfoldable pub set_node_state : ℕ → Bytes → Graph → Graph
  set_node_state id s g = put_node id (record (node_at g id) { state = s }) g

  unfoldable pub set_node_format : ℕ → ℤ → ℤ → Bytes → Graph → Graph
  set_node_format id rate channels fmt g =
      put_node id (record (node_at g id) { rate = rate; channels = channels; sample_fmt = fmt }) g

  unfoldable pub remove_node : ℕ → Graph → Graph
  remove_node id g =
      let g' = record g { nodes = b.nodes.remove id g.nodes } in
      if id == g.prof_id then record g' { prof = no_stats; prof_id = no_id } else g'

  unfoldable pub add_link : ℕ → ℕ → ℕ → Graph → Graph
  add_link id out_node in_node g = record g {
    links = b.links.insert id (record { out_node = out_node; in_node = in_node }) g.links;
  }

  unfoldable pub remove_link : ℕ → Graph → Graph
  remove_link id g = record g { links = b.links.remove id g.links }

  -- A new model, and one that has been cleared.
  abbrev pub cleared : Graph
  cleared = record {
    nodes = b.nodes.empty;
    links = b.links.empty;
    clock = no_clock;
    prof = no_stats;
    prof_id = no_id;
    prof_name = [];
  }

  -- The kind of an audio device: true for a sink.
  abbrev pub device_kind : NodeRec → Option Bool
  device_kind r =
      if starts_with r.media_class (codes "Audio/Sink")
      then some true
      else if starts_with r.media_class (codes "Audio/Source")
      then some false
      else none

  unfoldable pub devices_of : List (ℕ × NodeRec) → List Device
  unfolding starts_with
  devices_of [] = []
  devices_of ((id, r) ∷ es) =
      let rest = devices_of es in
      elim (device_kind r) [
        | none ↦ rest
        | some sink ↦ record { name = r.name; description = r.description; is_sink = sink } ∷ rest
      ]

  unfoldable pub audio_devices : Graph → List Device
  unfolding devices_of
  audio_devices g = b.sort (devices_of (b.nodes.entries g.nodes))

  -- The first entry that passes a test.
  unfoldable pub first_node : (NodeRec → Bool) → List (ℕ × NodeRec) → Option (ℕ × NodeRec)
  first_node test [] = none
  first_node test ((id, r) ∷ es) = if test r then some (id, r) else first_node test es

  abbrev pub own_node : Graph → Option (ℕ × NodeRec)
  own_node g = first_node (λ (r : NodeRec). r.is_pipeasio) (b.nodes.entries g.nodes)

  unfoldable pub own_node_name : Graph → Bytes
  unfolding first_node
  own_node_name g = elim (own_node g) [ none ↦ [] | some e ↦ e.1.name ]

  -- The loop over the links, for one side: `near` and `far` are a link's two ends.
  unfoldable pub peers : (near far : LinkRec → ℕ) → ℕ → Graph → List ℕ → List (ℕ × LinkRec) → List ℕ
  peers near far own g ids [] = ids
  peers near far own g ids ((k, l) ∷ ls) =
      peers near far own g
        (if near l == own && is_some (b.nodes.find (far l) g.nodes) && not (contains (far l) ids)
          then ids ++ far l ∷ []
          else ids)
        ls

  unfoldable pub attributes : NodeRec → List Bytes
  unfolding pretty_bt_codec
  attributes r =
      let codec =
        if not (is_blank r.codec)
        then pretty_bt_codec r.codec ∷ []
        else if str_eq r.device_api (codes "bluez5")
        then codes "Bluetooth" ∷ []
        else [] in
      let rate = if ltb_ℤ (pos 0) r.rate then (print_int r.rate ++ codes " Hz") ∷ [] else [] in
      let fmt = if is_blank r.sample_fmt then [] else codes " " ++ r.sample_fmt in
      let count =
        if ltb_ℤ (pos 0) r.channels
        then (print_int r.channels ++ codes " ch" ++ fmt) ∷ []
        else [] in
      let state = if is_blank r.state then [] else r.state ∷ [] in codec ++ rate ++ count ++ state

  -- A space, the middle dot, and a space.
  abbrev dot : Bytes
  dot = 32 ∷ 194 ∷ 183 ∷ 32 ∷ []

  -- The name and the details of one side.
  unfoldable pub side : Graph → List ℕ → Bytes × Bytes
  unfolding attributes join
  side g [] = ([], [])
  side g (id ∷ []) = ((node_at g id).description, join dot (attributes (node_at g id)))
  side g ids = (join (codes ", ") (map (λ (id : ℕ). (node_at g id).description) ids), [])

  abbrev connected : Graph → ℕ → Connections
  connected g own =
      let ls = b.links.entries g.links in
      let outs = side g (peers (λ l. l.out_node) (λ l. l.in_node) own g [] ls) in
      let ins = side g (peers (λ l. l.in_node) (λ l. l.out_node) own g [] ls) in
      record { output = outs.0; output_detail = outs.1; input = ins.0; input_detail = ins.1 }

  abbrev pub unconnected : Connections
  unconnected = record { output = []; output_detail = []; input = []; input_detail = [] }

  unfoldable pub own_connections : Graph → Connections
  unfolding first_node peers side
  own_connections g = elim (own_node g) [
    | none ↦ unconnected
    | some e ↦ if e.0 == no_id then unconnected else connected g e.0
  ]

  unfoldable pub profiler_clock : ProfilerClock → Graph → Graph
  profiler_clock c g = record g { clock = c }

  abbrev pub load_of : ProfilerClock → ProfilerBlock → Option (ℕ × ℕ)
  load_of c p =
      let busy = if leb p.awake p.finish then p.finish - p.awake else 0 in
      let period = 1000000000 * c.duration * c.rate_num in
      if c.have_clock && ltb 0 (period * c.rate_denom)
      then some (busy * c.rate_denom, period)
      else none

  abbrev pub measured : ProfilerClock → ProfilerBlock → ProfilerStats → ProfilerStats
  measured c p old = record old {
    found = true;
    quantum = if c.have_clock then to_int32 (pos c.duration) else pos 0;
    rate = if c.have_clock then to_int32 (pos c.rate_denom) else pos 0;
    dsp_load = load_of c p;
    xruns = elim p.xruns [ none ↦ c.xrun_count | some n ↦ n ];
  }

  abbrev pub is_target : Graph → ProfilerBlock → Bool
  is_target g p =
      let r = node_at g p.id in
      r.is_pipeasio || not (is_blank g.prof_name) && str_eq r.name g.prof_name

  unfoldable pub profiler_block : ProfilerBlock → Graph → Graph
  profiler_block p g =
      if is_target g p then record g { prof_id = p.id; prof = measured g.clock p g.prof } else g

  abbrev pub matches : Bytes → NodeRec → Bool
  matches name r = if is_blank name then r.is_pipeasio else str_eq r.name name

  -- The node that the statistics are asked for.
  abbrev pub target_of : Bytes → Graph → ℕ
  target_of name g = elim (first_node (matches name) (b.nodes.entries g.nodes)) [
    | none ↦ no_id
    | some e ↦ e.0
  ]

  unfoldable pub profiler_stats : Bytes → Graph → Graph × ProfilerStats
  unfolding first_node state_letter
  profiler_stats name g =
      let target = target_of name g in
      let shown =
        if not (target == no_id) && target == g.prof_id && g.prof.found
        then record g.prof { state = state_letter (node_at g target).state }
        else no_stats in
      (record g { prof_name = name }, shown)
