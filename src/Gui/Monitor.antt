-- ===== src/Gui/Monitor.antt =====
-- gui/PipeWireMonitor.cpp, and the slot of gui/SettingsDialog.cpp that shows what it finds.
use pipeasio.Prelude.{ℕ, Bool, Option, [], if◌then◌else◌, ℤ, not}
use pipeasio.Config.{Bytes}
use pipeasio.Gui.Hash.{Hash}
use pipeasio.Gui.Histogram.{Histogram, push_sample, set_waiting}
use pipeasio.Gui.Node.{Base, Connections, is_blank}
use pipeasio.Gui.Watcher.{Impl, own_name, connections, stats}

pub record NodeStats : Type 0 where
  pub found : Bool
  pub name : Bytes
  pub quantum : ℤ
  pub rate : ℤ
  pub dsp_load : Option (ℕ × ℕ)
  pub xruns : ℕ
  pub state : Bytes
  pub devices : Connections

pub record Monitor : Type 0 where
  pub target : Bytes
  pub auto_discover : Bool

unfoldable pub set_target : Bytes → Monitor
set_target name = record { target = name; auto_discover = is_blank name }

module _ (b : Base) (h : Hash ℕ) where
  abbrev shown_name : Monitor → Impl b h → Bytes
  shown_name m g =
      if not m.auto_discover
      then m.target
      else if is_blank (own_name b h g)
      then m.target
      else own_name b h g

  -- The graph keeps the name that its statistics are asked for.
  unfoldable pub refresh_from_graph : Monitor → Impl b h → Impl b h × NodeStats
  refresh_from_graph m g =
      let r = stats b h (if m.auto_discover then [] else m.target) g in
      (
        r.0,
        record {
          found = r.1.found;
          name = shown_name m g;
          quantum = r.1.quantum;
          rate = r.1.rate;
          dsp_load = r.1.dsp_load;
          xruns = r.1.xruns;
          state = r.1.state;
          devices = connections b h r.0;
        },
      )

-- The histogram's part of the slot; `as_float` is the load as it is handed over.
unfoldable pub on_monitor_updated :
    (F : Type 0) (clamp : F → F) (nought : F) (as_float : Option (ℕ × ℕ) → F)
    → NodeStats
    → Histogram F clamp nought
    → Histogram F clamp nought
on_monitor_updated F clamp nought as_float st g =
    if st.found
    then push_sample F clamp nought (as_float st.dsp_load) g
    else set_waiting F clamp nought g
