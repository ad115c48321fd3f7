-- ===== src/Panel.antt =====
-- src/control_panel.c: the built-in dialog. A control is what the code reads of it: the entries and the
-- selected row of a combo box, none where no row is.
pub mod Saving
pub mod Launch
use pipeasio.Prelude.{
  ℕ, zero, suc, ◌+◌, ◌*◌, Bool, true, false, not, ◌&&◌, ◌||◌, Option, none, some, List, [], ◌∷◌,
  ◌++◌, ◌==◌, leb, ltb, if◌then◌else◌, length, get_elem?, ℤ, pos, negsuc, eqb_ℤ, map,
}
use pipeasio.Config.Number.{atoi, print_int}
use pipeasio.Config.Parse.{World, config_load}
use pipeasio.Config.Save.{Files, Outcome, Saved, config_save}
use pipeasio.Config.{
  Bytes, Config, mode_wireless, min_buffer_size, max_buffer_size, buffer_size_valid,
}

-- cp_state with its two combo boxes; `page` is the tab that is shown, `shown` says that the window exists.
pub record Panel : Type 0 where
  pub cfg : Config
  pub fp : ℕ
  pub items : List Bytes
  pub size_row : Option ℕ
  pub mode_row : Option ℕ
  pub dirty : Bool
  pub combo_dropped : Bool
  pub native_available : Bool
  pub page : ℕ
  pub shown : Bool

-- The loop over the sizes, which double; the ten from 16 to 8192 need ten rounds.
unfoldable pub sizes_from : ℕ → ℕ → List ℕ
sizes_from zero b = []
sizes_from (suc rounds) b =
    let rest = sizes_from rounds (b * 2) in if leb b max_buffer_size then b ∷ rest else []

abbrev pub size_rounds : ℕ
size_rounds = 10

unfoldable pub labels : List Bytes
unfolding sizes_from print_int
labels = map (λ (b : ℕ). print_int (pos b)) (sizes_from size_rounds min_buffer_size)

-- The row of a size.
unfoldable pub row_of : ℤ → ℕ → List ℕ → Option ℕ
row_of size n [] = none
row_of size n (b ∷ bs) = if eqb_ℤ (pos b) size then some n else row_of size (suc n) bs

-- CB_SETCURSEL on a box with `count` rows.
abbrev pub select_row : ℕ → ℤ → Option ℕ
select_row count (pos n) = if ltb n count then some n else none
select_row count (negsuc n) = none

-- The row of a mode: Wireless is the third, though its value is 3.
abbrev pub row_of_mode : ℤ → ℤ
row_of_mode mode = if eqb_ℤ mode mode_wireless then pos 2 else mode

unfoldable pub fill_controls : Panel → Panel
unfolding row_of
fill_controls st =
    let row = row_of st.cfg.buffer_size 0 (sizes_from size_rounds min_buffer_size) in
    record st {
      items = elim row [ none ↦ labels ++ print_int st.cfg.buffer_size ∷ [] | some n ↦ labels ];
      size_row = elim row [ none ↦ some (length labels) | some n ↦ some n ];
      mode_row = select_row 3 (row_of_mode st.cfg.buffer_mode);
    }

abbrev row_value : Option Bytes → ℤ
row_value none = pos 0
row_value (some s) = atoi s

unfoldable pub combo_value : List Bytes → Option ℕ → ℤ
unfolding atoi
combo_value items none = pos 0
combo_value items (some n) = row_value (get_elem? items n)

-- The mode of a row; CB_ERR is -1.
abbrev pub mode_of_row : Option ℕ → ℤ
mode_of_row none = negsuc 0
mode_of_row (some n) = if n == 2 then mode_wireless else pos n

-- What a save is given: the file as it is, the system's answers, and the file's fingerprint afterwards.
pub record Env : Type 0 where
  pub world : World
  pub outcome : Outcome
  pub fp_now : ℕ
  pub fp_after : ℕ

-- The settings that the dialog writes: those of the file, with its two values.
unfoldable pub merged : World → Panel → Config
unfolding config_load combo_value
merged w st = record (config_load w).1 {
  buffer_size = combo_value st.items st.size_row;
  buffer_mode = mode_of_row st.mode_row;
}

abbrev saved_panel : Env → Panel → Config → Saved → Bool × Panel × List Files
saved_panel e st c r =
    (r.ok, if r.ok then record st { cfg = c; fp = e.fp_after; dirty = false } else st, r.states)

unfoldable pub save_from_controls : Env → Panel → Bool × Panel × List Files
unfolding merged
save_from_controls e st =
    let c = merged e.world st in
    if buffer_size_valid c.buffer_size
    then saved_panel e st c (config_save e.world e.outcome c)
    else (false, st, [])

-- The messages of cp_wndproc; a row is the one that the user has selected.
pub data Message : Type 0 where
  tab_changed : ℕ → Message
  drop_down close_up : Message
  size_picked mode_picked : (row : ℕ) → Message
  open_panel copy_path : Message
  ok_pressed apply_pressed cancel_pressed : Message
  timer : Message
  close_window : Message

abbrev refreshed : Env → Panel → Panel
refreshed e st = fill_controls (record st { fp = e.fp_now; cfg = (config_load e.world).1 })

-- The panel behind the message, and the states of the file system on the way.
unfoldable pub handle : Env → Message → Panel → Panel × List Files
unfolding save_from_controls fill_controls config_load
handle e (tab_changed n) st = (record st { page = n }, [])
handle e drop_down st = (record st { combo_dropped = true }, [])
handle e close_up st = (record st { combo_dropped = false }, [])
handle e (size_picked row) st = (record st { size_row = some row; dirty = true }, [])
handle e (mode_picked row) st = (record st { mode_row = some row; dirty = true }, [])
handle e open_panel st = (st, [])
handle e copy_path st = (st, [])
handle e ok_pressed st =
    let r = save_from_controls e st in (if r.0 then record r.1 { shown = false } else r.1, r.2)
handle e apply_pressed st = let r = save_from_controls e st in (r.1, r.2)
handle e cancel_pressed st = (record st { shown = false }, [])
handle e timer st =
    if not st.dirty && not st.combo_dropped && not (e.fp_now == 0) && not (e.fp_now == st.fp)
    then (refreshed e st, [])
    else (st, [])
handle e close_window st = (record st { shown = false }, [])

-- cp_run_dialog's state before the controls are filled.
abbrev pub unfilled : Env → Bool → Panel
unfilled e available = record {
  cfg = (config_load e.world).1;
  fp = e.fp_now;
  items = [];
  size_row = none;
  mode_row = none;
  dirty = false;
  combo_dropped = false;
  native_available = available;
  page = 0;
  shown = true;
}

unfoldable pub open_dialog : Env → Bool → Panel
unfolding fill_controls
open_dialog e available = fill_controls (unfilled e available)
