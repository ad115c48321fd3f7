-- ===== src/Gui/Applying.antt =====
-- gui/SettingsDialog.cpp: what Apply leaves in the file.
use pipeasio.Prelude.{◌≡◌, true, false, ap, ◌∙◌}
use pipeasio.Config.Parse.{apply_mode, config_load}
use pipeasio.Config.RoundTrip.{IsStorable}
use pipeasio.Config.Save.{last_files}
use pipeasio.Config.{Config}
use pipeasio.Gui.Dialog.{Dialog, Env, on_apply, form_config}
use pipeasio.Gui.Showing.{as_form}
use pipeasio.Gui.Toolkit.{Toolkit}
use pipeasio.Gui.Unsaved.{Run, form_config-Run}
use pipeasio.Panel.Saving.{load_saved}

apply_mode-as_form : (a b : Config) → as_form a ≡ as_form b → apply_mode a ≡ apply_mode b
unfolding apply_mode
apply_mode-as_form a b h = ap apply_mode h

-- The runs are those of a panel whose first graph has a device, whose graphs have the selected devices at
-- every refresh, and that finds settings which it can show and store whenever it reads the file. With
-- no unsaved edit there: where Apply's save succeeds, the file then holds the settings that the panel
-- has read, or has tried to write, last, with the booleans of the older format in accordance with the
-- mode; if these are storable.
pub on_apply-loaded :
    (t : Toolkit) (d : Dialog t) (c : Config) (e : Env)
    → Run t d c
    → d.dirty ≡ false
    → IsStorable (apply_mode c)
    → (on_apply t e d).1.ok ≡ true
    → config_load (record e.world { files = last_files e.world.files (on_apply t e d).1.states })
      ≡ (true, apply_mode c)
unfolding on_apply
on_apply-loaded t d c e r clean s ok =
    let same : apply_mode (form_config t d) ≡ apply_mode c =
      apply_mode-as_form _ _ (form_config-Run t d c r clean) in
    load_saved e.world e.outcome (form_config t d) (rw same s) ok
    ∙ ap (λ (k : Config). (true, k)) same
