-- ===== src/Gui/Dialog.antt =====
-- gui/SettingsDialog.cpp: the state of the settings panel, its slots and the user's edits. The layout,
-- the texts and the latency label are left out; `fp` is the fingerprint of the file, 0 where there is none.
use pipeasio.Prelude.{
  ℕ, Bool, true, false, not, ◌&&◌, ◌||◌, List, [], ◌∷◌, ◌++◌, map, ◌==◌, ltb_ℤ, if◌then◌else◌, drop,
  ℤ, pos,
}
use pipeasio.Config.{
  Bytes, Config, defaults, max_channels, min_rt_priority, max_rt_priority, name_max, mode_free,
  mode_fixed, mode_wireless,
}
use pipeasio.Config.Number.{print_int}
use pipeasio.Config.Parse.{World, config_load}
use pipeasio.Config.Save.{Outcome, Saved, config_save}
use pipeasio.Config.Text.{codes, str_eq}
use pipeasio.Gui.Choice.{select, select_or_add, reselect}
use pipeasio.Gui.Toolkit.{Toolkit}

pub record Device : Type 0 where
  pub name : Bytes
  pub description : Bytes
  pub is_sink : Bool

-- What the program finds outside: the settings file, a save's answers, and the file's fingerprint.
pub record Env : Type 0 where
  pub world : World
  pub outcome : Outcome
  pub fp_now : ℕ
  pub fp_after : ℕ

-- The rows of the three boxes of numbers, with their labels.
abbrev pub buffer_sizes : List ℤ
buffer_sizes =
    pos 16
    ∷ pos 32
    ∷ pos 64
    ∷ pos 128
    ∷ pos 256
    ∷ pos 512
    ∷ pos 1024
    ∷ pos 2048
    ∷ pos 4096
    ∷ pos 8192
    ∷ []

abbrev pub size_rows : List (Bytes × ℤ)
size_rows = map (λ (z : ℤ). (print_int z, z)) buffer_sizes

abbrev pub rate_rows : List (Bytes × ℤ)
rate_rows =
    (codes "Follow PipeWire", pos 0)
    ∷ (codes "44100", pos 44100)
    ∷ (codes "48000", pos 48000)
    ∷ (codes "88200", pos 88200)
    ∷ (codes "96000", pos 96000)
    ∷ (codes "192000", pos 192000)
    ∷ []

abbrev pub mode_rows : List (Bytes × ℤ)
mode_rows =
    (codes "Free (host chooses)", mode_free)
    ∷ (codes "Fixed (locked to buffer size)", mode_fixed)
    ∷ (codes "Wireless (follow device clock)", mode_wireless)
    ∷ []

-- "O:" for an output device and "I:" for an input device.
abbrev pub output_tag : Bytes → Bytes
output_tag name = codes "O:" ++ name

abbrev pub input_tag : Bytes → Bytes
input_tag name = codes "I:" ++ name

abbrev pub tagged : Device → Bytes
tagged v = if v.is_sink then output_tag v.name else input_tag v.name

unfoldable pub same_texts : List Bytes → List Bytes → Bool
same_texts [] [] = true
same_texts (s ∷ ss) (t ∷ ts) = str_eq s t && same_texts ss ts
same_texts _ _ = false

abbrev pub label_of : Device → Bytes
label_of v = elim v.description [ [] ↦ v.name | x ∷ xs ↦ v.description ]

abbrev unavailable : Bytes → Bytes
unavailable s = s ++ codes " (unavailable)"

abbrev pub is_text : Bytes → Bool
is_text [] = false
is_text (x ∷ xs) = true

module _ (t : Toolkit) where
  abbrev NumberBox : Type 0
  NumberBox = t.numbers.Box

  abbrev NameBox : Type 0
  NameBox = t.names.Box

  pub record Dialog : Type 0 where
    pub inputs : ℤ
    pub outputs : ℤ
    pub priority : ℤ
    pub size : t.numbers.Box
    pub rate : t.numbers.Box
    pub mode : t.numbers.Box
    pub output : t.names.Box
    pub input : t.names.Box
    pub auto_connect : Bool
    pub node_name : Bytes
    pub fp : ℕ
    pub dirty : Bool

  unfoldable pub with_rows : List (Bytes × ℤ) → t.numbers.Box → t.numbers.Box
  with_rows [] b = b
  with_rows ((label, z) ∷ zs) b = with_rows zs (t.numbers.add_item label z b)

  -- The widgets of the settings tab.
  unfoldable pub build_settings_tab : Dialog
  unfolding with_rows
  build_settings_tab = record {
    inputs = t.bound 0 max_channels (pos 0);
    outputs = t.bound 0 max_channels (pos 0);
    priority = t.bound min_rt_priority max_rt_priority (pos 0);
    size = with_rows size_rows t.numbers.new_box;
    rate = with_rows rate_rows t.numbers.new_box;
    mode = with_rows mode_rows t.numbers.new_box;
    output = t.names.new_box;
    input = t.names.new_box;
    auto_connect = false;
    node_name = [];
    fp = 0;
    dirty = false;
  }

  unfoldable pub add_devices : Bool → List Device → t.names.Box → t.names.Box
  add_devices sinks [] b = b
  add_devices sinks (v ∷ vs) b = add_devices sinks vs (
      if (if v.is_sink then sinks else not sinks)
      then t.names.add_item (label_of v) v.name b
      else b)

  -- A device box with its first row and the devices of its kind, at the data that was shown before.
  unfoldable pub refilled : Bool → List Device → t.names.Box → t.names.Box
  unfolding add_devices
  refilled sinks vs b =
      reselect t.names (t.names.current_data b)
        (add_devices sinks vs (t.names.add_item (codes "Follow default") [] (t.names.clear b)))

  abbrev shown_devices : Dialog → List Bytes
  shown_devices d =
      map output_tag (drop 1 (t.names.rows d.output))
      ++ map input_tag (drop 1 (t.names.rows d.input))

  unfoldable pub refresh_devices : List Device → Dialog → Dialog
  unfolding refilled same_texts
  refresh_devices vs d =
      if same_texts (map tagged vs) (shown_devices d)
      then d
      else record d { output = refilled true vs d.output; input = refilled false vs d.input }

  abbrev show_name : Bytes → t.names.Box → t.names.Box
  show_name s = select_or_add t.names (unavailable s) (is_text s) s

  -- Signals that this sends do not mark the panel as edited.
  unfoldable pub apply_config : Config → Dialog → Dialog
  unfolding select select_or_add
  apply_config c d = record d {
    inputs = t.bound 0 max_channels c.inputs;
    outputs = t.bound 0 max_channels c.outputs;
    size = select t.numbers 0 c.buffer_size d.size;
    rate =
        select_or_add t.numbers (unavailable (print_int c.sample_rate ++ codes " Hz"))
          (ltb_ℤ (pos 0) c.sample_rate) c.sample_rate d.rate;
    output = show_name (t.from_utf8 c.output_device) d.output;
    input = show_name (t.from_utf8 c.input_device) d.input;
    auto_connect = c.auto_connect;
    mode = select t.numbers 1 c.buffer_mode d.mode;
    node_name = t.from_utf8 c.node_name;
    priority = t.bound min_rt_priority max_rt_priority c.rt_priority;
  }

  unfoldable pub on_restore_defaults : Dialog → Dialog
  unfolding apply_config
  on_restore_defaults d = record (apply_config defaults d) { dirty = true }

  -- The settings that the panel's widgets stand for.
  unfoldable pub form_config : Dialog → Config
  form_config d = record defaults {
    inputs = d.inputs;
    outputs = d.outputs;
    buffer_size = t.numbers.current_data d.size;
    buffer_mode = t.numbers.current_data d.mode;
    sample_rate = t.numbers.current_data d.rate;
    auto_connect = d.auto_connect;
    rt_priority = d.priority;
    output_device = t.qstrncpy name_max (t.names.current_data d.output);
    input_device = t.qstrncpy name_max (t.names.current_data d.input);
    node_name = t.qstrncpy name_max (t.trimmed d.node_name);
  }

  -- The result of the save is not looked at.
  unfoldable pub on_apply : Env → Dialog → Dialog × Saved
  unfolding form_config
  on_apply e d =
      (record d { fp = e.fp_after; dirty = false }, config_save e.world e.outcome (form_config d))

  unfoldable pub on_cfg_watch : Env → Dialog → Dialog
  unfolding apply_config config_load
  on_cfg_watch e d =
      if e.fp_now == d.fp || d.dirty
      then d
      else record (apply_config (config_load e.world).1 d) { fp = e.fp_now }

  -- The constructor, with the graph's devices at its end of the first fill.
  unfoldable pub open_dialog : Env → List Device → Dialog
  unfolding apply_config refresh_devices build_settings_tab
  open_dialog e vs =
      record (apply_config (config_load e.world).1 (refresh_devices vs build_settings_tab)) {
        fp = e.fp_now;
      }

  -- What the user changes; a row is one of those that its box has.
  pub data Edit : Type 0 where
    inputs_edited outputs_edited priority_edited : (value : ℤ) → Edit
    size_picked rate_picked mode_picked output_picked input_picked : (index : ℕ) → Edit
    auto_toggled : Bool → Edit
    node_edited : (text : Bytes) → Edit

  -- Each edit comes with a call of markDirty.
  unfoldable pub edit : Edit → Dialog → Dialog
  edit (inputs_edited z) d = record d { inputs = t.bound 0 max_channels z; dirty = true }
  edit (outputs_edited z) d = record d { outputs = t.bound 0 max_channels z; dirty = true }
  edit (priority_edited z) d = record d {
    priority = t.bound min_rt_priority max_rt_priority z;
    dirty = true;
  }
  edit (size_picked i) d = record d { size = t.numbers.set_row i d.size; dirty = true }
  edit (rate_picked i) d = record d { rate = t.numbers.set_row i d.rate; dirty = true }
  edit (mode_picked i) d = record d { mode = t.numbers.set_row i d.mode; dirty = true }
  edit (output_picked i) d = record d { output = t.names.set_row i d.output; dirty = true }
  edit (input_picked i) d = record d { input = t.names.set_row i d.input; dirty = true }
  edit (auto_toggled b) d = record d { auto_connect = b; dirty = true }
  edit (node_edited s) d = record d { node_name = s; dirty = true }
