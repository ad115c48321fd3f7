-- ===== src/Gui/Unsaved.antt =====
-- gui/SettingsDialog.cpp: a panel without unsaved edits shows the settings that it has loaded or written.
use pipeasio.Prelude.{
  ℕ, ◌≡◌, refl, Bool, true, false, ◌||◌, ◌==◌, List, ◌∷◌, ◌++◌, map, drop, if◌then◌else◌, arith,
  Bool-cases, inl, inr, ap, ◌∙◌,
}
use pipeasio.Config.Parse.{config_load}
use pipeasio.Config.RoundTrip.{IsStorable}
use pipeasio.Config.{Config, defaults}
use pipeasio.Gui.Built.{
  first_refresh-IsBuilt, refresh_devices-IsBuilt, apply_config-IsBuilt, edit-IsBuilt,
}
use pipeasio.Gui.Dialog.{
  Dialog, Device, Edit, Env, open_dialog, refresh_devices, apply_config, on_apply, on_cfg_watch,
  on_restore_defaults, same_texts, tagged, output_tag, input_tag, edit, form_config, inputs_edited,
}
use pipeasio.Gui.Selection.{is_offered, refresh_devices-selection}
use pipeasio.Gui.Showing.{IsBuilt, IsText, as_form, form_config-apply_config}
use pipeasio.Gui.Toolkit.{Toolkit}

-- Settings that are read from the file.
pub record IsRead (t : Toolkit) (e : Env) (c : Config) : Type 0 where
  pub loaded : config_load e.world ≡ (true, c)
  pub storable : IsStorable c
  pub text : IsText t c

-- The panel's runs, with the settings that it has read, or has tried to write, last. A graph that is refreshed
-- has the selected devices, and the first one has a device; a reload finds readable settings.
pub data Run (t : Toolkit) : Dialog t → Config → Type 0 where
  opened :
      (e : Env) (v : Device) (vs : List Device) (c : Config)
      → IsRead t e c
      → Run t (open_dialog t e (v ∷ vs)) c
  edited : {d : Dialog t} {c : Config} → Run t d c → (m : Edit t) → Run t (edit t m d) c
  refreshed :
      {d : Dialog t} {c : Config}
      → Run t d c
      → (vs : List Device) → is_offered true vs (t.names.current_data d.output) ≡ true
      → is_offered false vs (t.names.current_data d.input) ≡ true
      → Run t (refresh_devices t vs d) c
  restored : {d : Dialog t} {c : Config} → Run t d c → Run t (on_restore_defaults t d) c
  applied :
      {d : Dialog t} {c : Config}
      → Run t d c
      → (e : Env) → Run t (on_apply t e d).0 (form_config t d)
  watched :
      {d : Dialog t} {c : Config}
      → Run t d c
      → (e : Env) (now : Config) → IsRead t e now
      → Run t (on_cfg_watch t e d) (if e.fp_now == d.fp || d.dirty then c else now)

-- The marks are not among the rows.
IsBuilt-mark :
    (t : Toolkit) (d : Dialog t) (fp : ℕ) (dirty : Bool)
    → IsBuilt t d
    → IsBuilt t (record d { fp = fp; dirty = dirty })
IsBuilt-mark t d fp dirty b = record {
  size_rows = b.size_rows;
  mode_values = b.mode_values;
  rate_first = b.rate_first;
  output_first = b.output_first;
  input_first = b.input_first;
}

open_dialog-IsBuilt :
    (t : Toolkit) (e : Env) (v : Device) (vs : List Device) → IsBuilt t (open_dialog t e (v ∷ vs))
unfolding open_dialog
open_dialog-IsBuilt t e v vs =
    IsBuilt-mark t _ e.fp_now _
      (apply_config-IsBuilt t (config_load e.world).1 _ (first_refresh-IsBuilt t v vs))

on_restore_defaults-IsBuilt :
    (t : Toolkit) (d : Dialog t) → IsBuilt t d → IsBuilt t (on_restore_defaults t d)
unfolding on_restore_defaults
on_restore_defaults-IsBuilt t d b = IsBuilt-mark t _ _ true (apply_config-IsBuilt t defaults d b)

on_cfg_watch-IsBuilt :
    (t : Toolkit) (e : Env) (d : Dialog t) → IsBuilt t d → IsBuilt t (on_cfg_watch t e d)
unfolding on_cfg_watch
on_cfg_watch-IsBuilt t e d b = elim (Bool-cases (e.fp_now == d.fp || d.dirty)) [
  | inl h ↦ rw h b
  | inr h ↦ rw h (IsBuilt-mark t _ e.fp_now _ (apply_config-IsBuilt t (config_load e.world).1 d b))
]

on_apply-IsBuilt :
    (t : Toolkit) (e : Env) (d : Dialog t) → IsBuilt t d → IsBuilt t (on_apply t e d).0
unfolding on_apply
on_apply-IsBuilt t e d b = IsBuilt-mark t d e.fp_after false b

pub Run-IsBuilt : {t : Toolkit} {d : Dialog t} {c : Config} → Run t d c → IsBuilt t d
Run-IsBuilt {t} (opened e v vs c r) = open_dialog-IsBuilt t e v vs
Run-IsBuilt {t} (edited {d} r m) = edit-IsBuilt t m d (Run-IsBuilt r)
Run-IsBuilt {t} (refreshed {d} r vs p q) = refresh_devices-IsBuilt t vs d (Run-IsBuilt r)
Run-IsBuilt {t} (restored {d} r) = on_restore_defaults-IsBuilt t d (Run-IsBuilt r)
Run-IsBuilt {t} (applied {d} r e) = on_apply-IsBuilt t e d (Run-IsBuilt r)
Run-IsBuilt {t} (watched {d} r e now l) = on_cfg_watch-IsBuilt t e d (Run-IsBuilt r)

dirty-edit : (t : Toolkit) (m : Edit t) (d : Dialog t) → (edit t m d).dirty ≡ true
unfolding edit
dirty-edit t (inputs_edited z) d = refl
dirty-edit t m d = refl

dirty-on_restore_defaults : (t : Toolkit) (d : Dialog t) → (on_restore_defaults t d).dirty ≡ true
unfolding on_restore_defaults
dirty-on_restore_defaults t d = refl

dirty-refresh_devices :
    (t : Toolkit) (vs : List Device) (d : Dialog t) → (refresh_devices t vs d).dirty ≡ d.dirty
unfolding refresh_devices
dirty-refresh_devices t vs d = ground arith

-- Reads nothing of the device boxes but the selected devices.
form_config-refresh_devices :
    (t : Toolkit) (vs : List Device) (d : Dialog t)
    → t.names.current_data (refresh_devices t vs d).output ≡ t.names.current_data d.output
    → t.names.current_data (refresh_devices t vs d).input ≡ t.names.current_data d.input
    → form_config t (refresh_devices t vs d) ≡ form_config t d
unfolding form_config refresh_devices
form_config-refresh_devices t vs d p q =
    elim (Bool-cases (
      same_texts (map tagged vs) (
        map output_tag (drop 1 (t.names.rows d.output))
        ++ map input_tag (drop 1 (t.names.rows d.input))))) [
          | inl e ↦ rw e refl
          | inr e ↦ rw e (cc (rw e at p, rw e at q))
        ]

form_config-mark :
    (t : Toolkit) (d : Dialog t) (fp : ℕ) (dirty : Bool)
    → form_config t (record d { fp = fp; dirty = dirty }) ≡ form_config t d
unfolding form_config
form_config-mark t d fp dirty = refl

form_config-on_apply :
    (t : Toolkit) (e : Env) (d : Dialog t) → form_config t (on_apply t e d).0 ≡ form_config t d
unfolding on_apply
form_config-on_apply t e d = form_config-mark t d e.fp_after false

-- The panel after it has read the file.
form_config-reloaded :
    (t : Toolkit) (e : Env) (d : Dialog t) (c : Config)
    → IsBuilt t d
    → IsRead t e c
    → form_config t (record (apply_config t (config_load e.world).1 d) { fp = e.fp_now })
      ≡ as_form c
form_config-reloaded t e d c b r =
    form_config-mark t (apply_config t (config_load e.world).1 d) e.fp_now _
    ∙ ap (λ (k : Config). form_config t (apply_config t k d))
        (ap (λ (p : Bool × Config). p.1) r.loaded)
    ∙ form_config-apply_config t d c b r.storable r.text

form_config-open_dialog :
    (t : Toolkit) (e : Env) (v : Device) (vs : List Device) (c : Config)
    → IsRead t e c
    → form_config t (open_dialog t e (v ∷ vs)) ≡ as_form c
unfolding open_dialog
form_config-open_dialog t e v vs c r = form_config-reloaded t e _ c (first_refresh-IsBuilt t v vs) r

form_config-on_cfg_watch :
    (t : Toolkit) (e : Env) (d : Dialog t) (c now : Config)
    → IsBuilt t d
    → IsRead t e now
    → (d.dirty ≡ false → as_form (form_config t d) ≡ as_form c)
    → (on_cfg_watch t e d).dirty ≡ false
    → as_form (form_config t (on_cfg_watch t e d))
      ≡ as_form (if e.fp_now == d.fp || d.dirty then c else now)
unfolding on_cfg_watch
form_config-on_cfg_watch t e d c now b l ih clean =
    elim (Bool-cases (e.fp_now == d.fp || d.dirty)) [
      | inl h ↦ rw h (ih (rw h at clean))
      | inr h ↦ rw h (ap as_form (form_config-reloaded t e d now b l))
    ]

-- In every state of such a run: where no edit is unsaved, the panel stands for the settings that it has
-- read, or has tried to write, last.
pub form_config-Run :
    (t : Toolkit) (d : Dialog t) (c : Config)
    → Run t d c
    → d.dirty ≡ false
    → as_form (form_config t d) ≡ as_form c
form_config-Run t _ _ (opened e v vs c r) clean = ap as_form (form_config-open_dialog t e v vs c r)
form_config-Run t _ _ (edited {d} r m) clean = cc (dirty-edit t m d)
form_config-Run t _ _ (refreshed {d} {c} r vs p q) clean =
    let kept = refresh_devices-selection t vs d (Run-IsBuilt r) in
    ap as_form (form_config-refresh_devices t vs d (rw p at kept.0) (rw q at kept.1))
    ∙ form_config-Run t d c r (cc (dirty-refresh_devices t vs d))
form_config-Run t _ _ (restored {d} r) clean = cc (dirty-on_restore_defaults t d)
form_config-Run t _ _ (applied {d} r e) clean = ap as_form (form_config-on_apply t e d)
form_config-Run t _ _ (watched {d} {c} r e now l) clean =
    form_config-on_cfg_watch t e d c now (Run-IsBuilt r) l (form_config-Run t d c r) clean
