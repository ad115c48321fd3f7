-- ===== src/Tests/Settings.antt =====
-- The theorems about the configuration file at concrete inputs.
use pipeasio.Prelude.{◌≡◌, refl, true, false, none, some, [], arith, if◌then◌else◌, pos, All}
use pipeasio.Config.Atomic.{config_save-atomic, config_load-config_save, IsOldOrNew}
use pipeasio.Config.Lines.{IsValue}
use pipeasio.Config.Parse.{World, config_path, config_load, load_file, apply_mode, apply_kv}
use pipeasio.Panel.{
  Env, handle, open_dialog, size_picked, mode_picked, ok_pressed, save_from_controls, merged,
  fill_controls, combo_value, labels,
}
use pipeasio.Panel.Saving.{ok_pressed-chosen, chosen}
use pipeasio.Config.RoundTrip.{IsStorable, config_load_missing-mode_free}
use pipeasio.Config.Save.{Outcome, config_save, save_to, last_files, render}
use pipeasio.Config.Text.{codes, trim, until_nul, split_at, str_eq, skip_space, strip_end}
use pipeasio.Config.Validate.{IsValid, NamesFit, load_file-IsValid}
use pipeasio.Config.{Bytes, defaults, buffer_size_valid, mode_free}

-- A home directory, and no file.
abbrev pub home : World
home = record {
  getenv = λ (k : Bytes). if str_eq k (codes "HOME") then some (codes "/h") else none;
  files = λ (p : Bytes). none;
}

abbrev pub ini : Bytes
ini = codes "/h/.config/pipeasio/config.ini"

abbrev pub all_works : Outcome
all_works = record {
  mkdir_ok = true;
  open_ok = true;
  close_ok = true;
  rename_ok = true;
  partial = [];
}

abbrev disk_full : Outcome
disk_full = record {
  mkdir_ok = true;
  open_ok = true;
  close_ok = false;
  rename_ok = true;
  partial = codes "in";
}

home-path : config_path home ≡ some ini
unfolding config_path str_eq
home-path = refl

defaults-IsValid : IsValid defaults
unfolding buffer_size_valid
defaults-IsValid = record {
  inputs_ok = omega arith;
  outputs_ok = omega arith;
  size_ok = refl;
  rate_ok = refl;
  priority_ok = omega arith;
  mode_ok = refl;
  fixed_mirrors = refl;
  follow_mirrors = refl;
}

config_save-atomic_example :
    let r = config_save home disk_full defaults in
    All (IsOldOrNew ini (render (apply_mode defaults)) home.files) r.states
    × (last_files home.files r.states ini
        ≡ (if r.ok then some (render (apply_mode defaults)) else home.files ini))
config_save-atomic_example = config_save-atomic home disk_full defaults ini home-path

load_file-IsValid_example :
    IsValid (load_file (codes "[pipeasio]\nbuffer_size = 7\n"))
    × NamesFit (load_file (codes "[pipeasio]\nbuffer_size = 7\n"))
load_file-IsValid_example = load_file-IsValid (codes "[pipeasio]\nbuffer_size = 7\n")

abbrev empty_home : World
empty_home = home

empty_home-missing : (config_load empty_home).0 ≡ false
unfolding config_load config_path str_eq
empty_home-missing = refl

config_load_missing-mode_free_example :
    (load_file (
      render
        (apply_mode (record (config_load empty_home).1 { buffer_size = pos 256 })))).buffer_mode
    ≡ mode_free
config_load_missing-mode_free_example =
    config_load_missing-mode_free empty_home (pos 256) empty_home-missing (omega arith)

empty-IsValue : IsValue []
unfolding skip_space strip_end
empty-IsValue = record { inline = tt; no_space_front = refl; no_space_end = refl }

pub defaults-IsStorable : IsStorable defaults
defaults-IsStorable = record {
  valid = defaults-IsValid;
  printable = record {
    inputs_int = omega arith;
    outputs_int = omega arith;
    size_int = omega arith;
    rate_int = omega arith;
    mode_int = omega arith;
    priority_int = omega arith;
    fits = omega arith;
    output_value = empty-IsValue;
    input_value = empty-IsValue;
    node_value = empty-IsValue;
  };
}

saved_ok : (config_save home all_works defaults).ok ≡ true
unfolding config_save save_to config_path str_eq
saved_ok = refl

config_load-config_save_example :
    config_load
      (record home { files = last_files home.files (config_save home all_works defaults).states })
    ≡ (true, defaults)
config_load-config_save_example =
    config_load-config_save home all_works defaults defaults-IsStorable saved_ok

abbrev other_file : Bytes
other_file = codes "/h/.profile"

-- The file that holds the defaults, and what the system answers to the dialog.
abbrev pub saved_home : World
saved_home = record home {
  files = last_files home.files (config_save home all_works defaults).states;
}

pub saved_home_loads : config_load saved_home ≡ (true, defaults)
saved_home_loads = config_load-config_save home all_works defaults defaults-IsStorable saved_ok

abbrev dialog_env : Env
dialog_env = record { world = saved_home; outcome = all_works; fp_now = 1; fp_after = 2 }

dialog_closes :
    (handle dialog_env ok_pressed
      (handle dialog_env
        (mode_picked 2)
        (handle dialog_env (size_picked 3) (open_dialog dialog_env true)).0).0).0.shown
    ≡ false
unfolding handle open_dialog save_from_controls merged fill_controls combo_value config_load
    config_save save_to config_path str_eq buffer_size_valid labels load_file trim until_nul
    split_at apply_kv
dialog_closes = refl

ok_pressed-chosen_example :
    config_load (record saved_home {
      files =
          last_files saved_home.files
            (handle dialog_env ok_pressed
              (handle dialog_env
                (mode_picked 2)
                (handle dialog_env (size_picked 3) (open_dialog dialog_env true)).0).0).1;
    })
    ≡ (true, apply_mode (chosen defaults 3 2))
ok_pressed-chosen_example =
    ok_pressed-chosen dialog_env true defaults 3 2 saved_home_loads defaults-IsStorable
      (omega arith) (omega arith) dialog_closes
