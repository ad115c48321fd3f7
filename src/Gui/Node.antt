-- ===== src/Gui/Node.antt =====
-- gui/GraphModel.hpp, gui/GraphModel.cpp: the nodes, links and measurements of the graph. A QString is its UTF-8
-- text; the DSP load is the exact fraction whose nearest double the code stores.
use pipeasio.Prelude.{
  ℕ, Bool, true, false, ◌&&◌, Option, none, List, [], ◌∷◌, ◌++◌, ◌==◌, if◌then◌else◌, ℤ, pos,
}
use pipeasio.Config.Text.{codes, str_eq}
use pipeasio.Config.{Bytes}
use pipeasio.Gui.Dialog.{Device}
use pipeasio.Gui.Hash.{Hash}

pub record NodeRec : Type 0 where
  pub name : Bytes
  pub description : Bytes
  pub media_class : Bytes
  pub codec : Bytes
  pub device_api : Bytes
  pub state : Bytes
  pub sample_fmt : Bytes
  pub rate : ℤ
  pub channels : ℤ
  pub is_pipeasio : Bool

pub record LinkRec : Type 0 where
  pub out_node : ℕ
  pub in_node : ℕ

pub record ProfilerClock : Type 0 where
  pub have_clock : Bool
  pub duration : ℕ
  pub rate_num : ℕ
  pub rate_denom : ℕ
  pub xrun_count : ℕ

pub record ProfilerBlock : Type 0 where
  pub id : ℕ
  pub awake : ℕ
  pub finish : ℕ
  pub xruns : Option ℕ

-- The load is busy / period, none for 0.
pub record ProfilerStats : Type 0 where
  pub found : Bool
  pub quantum : ℤ
  pub rate : ℤ
  pub dsp_load : Option (ℕ × ℕ)
  pub xruns : ℕ
  pub state : Bytes

pub record Connections : Type 0 where
  pub output : Bytes
  pub output_detail : Bytes
  pub input : Bytes
  pub input_detail : Bytes

abbrev pub blank_node : NodeRec
blank_node = record {
  name = List.[];
  description = List.[];
  media_class = List.[];
  codec = List.[];
  device_api = List.[];
  state = List.[];
  sample_fmt = List.[];
  rate = pos 0;
  channels = pos 0;
  is_pipeasio = false;
}

abbrev pub no_clock : ProfilerClock
no_clock = record { have_clock = false; duration = 0; rate_num = 0; rate_denom = 1; xrun_count = 0 }

abbrev pub no_stats : ProfilerStats
no_stats = record {
  found = false;
  quantum = pos 0;
  rate = pos 0;
  dsp_load = none;
  xruns = 0;
  state = List.[];
}

-- ~0u
abbrev pub no_id : ℕ
no_id = 4294967295

abbrev pub is_blank : Bytes → Bool
is_blank [] = true
is_blank (x ∷ xs) = false

abbrev or_else : Bytes → Bytes → Bytes
or_else s other = if is_blank s then other else s

unfoldable pub starts_with : Bytes → Bytes → Bool
starts_with s [] = true
starts_with [] (c ∷ cs) = false
starts_with (x ∷ xs) (c ∷ cs) = x == c && starts_with xs cs

unfoldable pub join : Bytes → List Bytes → Bytes
join separator [] = []
join separator (s ∷ []) = s
join separator (s ∷ ss) = s ++ separator ++ join separator ss

-- The tables, the sort of the devices, and the text functions.
pub record Base : Type 1 where
  pub nodes : Hash NodeRec
  pub links : Hash LinkRec
  pub sort : List Device → List Device
  pub to_lower : Bytes → Bytes
  pub to_upper : Bytes → Bytes
  pub to_int : Bytes → ℤ

-- The properties of a node, with the empty text for an absent one.
abbrev pub Props : Type 0
Props = Bytes → Bytes

unfoldable pub state_letter : Bytes → Bytes
unfolding str_eq
state_letter s =
    if str_eq s (codes "running")
    then codes "R"
    else if str_eq s (codes "idle")
    then codes "I"
    else if str_eq s (codes "suspended")
    then codes "S"
    else if str_eq s (codes "error")
    then codes "E"
    else if str_eq s (codes "creating")
    then codes "C"
    else s

unfoldable pub codec_names : List (Bytes × Bytes)
codec_names =
    (codes "sbc", codes "SBC")
    ∷ (codes "sbc_xq", codes "SBC-XQ")
    ∷ (codes "aac", codes "AAC")
    ∷ (codes "aptx", codes "aptX")
    ∷ (codes "aptx_hd", codes "aptX HD")
    ∷ (codes "aptx_ll", codes "aptX LL")
    ∷ (codes "aptx_ll_duplex", codes "aptX LL")
    ∷ (codes "ldac", codes "LDAC")
    ∷ (codes "lc3", codes "LC3")
    ∷ (codes "faststream", codes "FastStream")
    ∷ (codes "opus_05", codes "Opus")
    ∷ []

unfoldable pub named : Bytes → Bytes → List (Bytes × Bytes) → Bytes
named key other [] = other
named key other ((k, v) ∷ rest) = if str_eq k key then v else named key other rest

unfoldable pub apply_props : (Bytes → ℤ) → NodeRec → Props → NodeRec
apply_props to_int rec props =
    let name = props (codes "node.name") in
    let count = props (codes "audio.channels") in
    record rec {
      name = name;
      description =
          or_else (or_else (props (codes "node.description")) (props (codes "node.nick"))) name;
      media_class = props (codes "media.class");
      codec = props (codes "api.bluez5.codec");
      device_api = props (codes "device.api");
      channels = if is_blank count then rec.channels else to_int count;
      is_pipeasio = str_eq (props (codes "pipeasio.node")) (codes "1");
    }
