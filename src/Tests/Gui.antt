-- ===== src/Tests/Gui.antt =====
-- The theorems about the settings application at concrete inputs, with combo boxes as lists.
use pipeasio.Prelude.{
  ℕ, ◌<◌, ◌≤◌, ◌≡◌, ◌≢◌, refl, Bool, true, false, Option, none, some, List, [], ◌∷◌, ◌++◌, arith,
  if◌then◌else◌, ltb, leb, ◌&&◌, ◌-◌, length, ℤ, pos, negsuc, eqb_ℤ, pos_part, neg_part, take,
}
use pipeasio.Config.{Bytes, defaults}
use pipeasio.Config.Text.{codes, str_eq}
use pipeasio.Config.Parse.{apply_mode, config_load, config_path}
use pipeasio.Config.Save.{config_save, save_to, last_files}
use pipeasio.Gui.Applying.{on_apply-loaded}
use pipeasio.Gui.Dialog.{Dialog, Device, Env, open_dialog, refresh_devices, on_apply}
use pipeasio.Gui.Selection.{refresh_devices-kept, is_offered, device_box}
use pipeasio.Gui.Built.{names_of}
use pipeasio.Gui.Unsaved.{Run, IsRead, opened}
use pipeasio.Tests.Settings.{saved_home, all_works, saved_home_loads, defaults-IsStorable}
use pipeasio.Gui.Toolkit.{ComboBox, Toolkit, index_of, data_at}

-- The first item of an empty box becomes the current one.
abbrev row_after : {D : Type 0} → List D → Option ℕ → Option ℕ
row_after [] r = some 0
row_after (x ∷ xs) r = r

row_after_lem : {D : Type 0} (ds : List D) (r : Option ℕ) → ds ≢ [] → row_after ds r ≡ r
row_after_lem [] r h = absurd (h refl)
row_after_lem (x ∷ xs) r h = refl

row_after_first : {D : Type 0} (ds : List D) (r : Option ℕ) → ds ≡ [] → row_after ds r ≡ some 0
row_after_first [] r h = refl
row_after_first (x ∷ xs) r h = cc

abbrev set_to : ℕ → ℕ → Option ℕ
set_to i n = if ltb i n then some i else none

set_to_lem : (i n : ℕ) → i < n → set_to i n ≡ some i
set_to_lem i n h = ground arith

abbrev listed : (D : Type 0) (same : D → D → Bool) (blank : D) → ComboBox D same blank
listed D same blank = record {
  Box = List D × Option ℕ;
  rows = λ b. b.0;
  row = λ b. b.1;
  new_box = ([], none);
  add_item = λ l d b. (b.0 ++ d ∷ [], row_after b.0 b.1);
  clear = λ b. ([], none);
  set_row = λ i b. (b.0, set_to i (length b.0));
  find_data = λ d b. index_of same d b.0;
  current_data = λ b. data_at blank b.1 b.0;
  rows-new_box = refl;
  rows-add_item = λ l d b. refl;
  row-add_first = λ l d b h. row_after_first b.0 b.1 h;
  row-add_item = λ l d b h. row_after_lem b.0 b.1 h;
  rows-clear = λ b. refl;
  rows-set_row = λ i b. refl;
  row-set_row = λ i b h. set_to_lem i (length b.0) h;
  find_data_lem = λ d b. refl;
  current_data_lem = λ b. refl;
}

abbrev bounded : ℕ → ℕ → ℤ → ℤ
bounded lo hi (pos n) = if leb lo n && leb n hi then pos n else pos lo
bounded lo hi (negsuc n) = pos lo

bounded_lem :
    (lo hi : ℕ) (z : ℤ) → neg_part z ≡ 0 → lo ≤ pos_part z → pos_part z ≤ hi → bounded lo hi z ≡ z
bounded_lem lo hi (pos n) a b c = ground arith
bounded_lem lo hi (negsuc n) a b c = cc

abbrev cut : ℕ → Bytes → Bytes
cut n s = if ltb (length s) n then s else take (n - 1) s

cut_lem : (n : ℕ) (s : Bytes) → length s < n → cut n s ≡ s
cut_lem n s h = ground arith

abbrev qt : Toolkit
qt = record {
  numbers = listed ℤ eqb_ℤ (pos 0);
  names = listed Bytes str_eq [];
  bound = bounded;
  from_utf8 = λ s. s;
  trimmed = λ s. s;
  qstrncpy = cut;
  bound_inside = bounded_lem;
  qstrncpy_short = cut_lem;
}

-- A graph with one output, and then with another one in its place.
abbrev speaker : Device
speaker = record { name = codes "hw"; description = codes "Speaker"; is_sink = true }

abbrev headset : Device
headset = record { name = codes "bt"; description = []; is_sink = true }

abbrev panel_env : Env
panel_env = record { world = saved_home; outcome = all_works; fp_now = 1; fp_after = 2 }

abbrev opened_panel : Dialog qt
opened_panel = open_dialog qt panel_env (speaker ∷ [])

defaults-IsRead : IsRead qt panel_env defaults
defaults-IsRead = record {
  loaded = saved_home_loads;
  storable = defaults-IsStorable;
  text = record { output_text = refl; input_text = refl; node_text = refl; node_trimmed = refl };
}

opened_panel-Run : Run qt opened_panel defaults
opened_panel-Run = opened panel_env speaker [] defaults defaults-IsRead

-- The selected speaker stays, though the headset is new.
abbrev speaker_box : qt.names.Box
speaker_box = ([] ∷ codes "hw" ∷ [], some 1)

abbrev shown_speaker : Dialog qt
shown_speaker = record opened_panel { output = speaker_box }

speaker_offered :
    is_offered true
      (headset ∷ speaker ∷ [])
      (qt.names.current_data (device_box qt true shown_speaker))
    ≡ true
unfolding names_of index_of str_eq
speaker_offered = refl

refresh_devices-kept_example :
    qt.names.current_data (refresh_devices qt (headset ∷ speaker ∷ []) shown_speaker).output
    ≡ codes "hw"
refresh_devices-kept_example =
    refresh_devices-kept qt true (headset ∷ speaker ∷ []) shown_speaker speaker_offered

opened_panel-clean : opened_panel.dirty ≡ false
unfolding open_dialog
opened_panel-clean = refl

saves : (on_apply qt panel_env opened_panel).1.ok ≡ true
unfolding on_apply open_dialog config_save save_to config_path str_eq
saves = refl

on_apply-loaded_example :
    config_load (record saved_home {
      files = last_files saved_home.files (on_apply qt panel_env opened_panel).1.states;
    })
    ≡ (true, apply_mode defaults)
unfolding apply_mode
on_apply-loaded_example =
    on_apply-loaded qt opened_panel defaults panel_env opened_panel-Run opened_panel-clean
      defaults-IsStorable saves
