-- ===== src/Panel/Saving.antt =====
-- src/control_panel.c: what a save from the dialog leaves in the file.
use pipeasio.Prelude.{
  eqb_ℤ_sound, ℕ, zero, suc, ◌*◌, ◌^◌, ◌<◌, ◌≡◌, refl, Bool, true, false, some, List, [], ◌∷◌, ◌++◌,
  get_elem?, length, pos, eqb_ℤ, IsInt32, arith, holds_to, holds_to-below, ltb, ltb→lt,
}
use pipeasio.Config.Atomic.{config_load-config_save}
use pipeasio.Config.Number.{print_int}
use pipeasio.Config.Parse.{World, apply_mode, config_load, mode_known}
use pipeasio.Config.RoundTrip.{IsStorable}
use pipeasio.Config.Save.{Outcome, config_save, last_files}
use pipeasio.Config.{Bytes, Config, buffer_size_valid}
use pipeasio.Panel.{
  Panel, Env, labels, combo_value, mode_of_row, fill_controls, merged, save_from_controls, handle,
  size_picked, mode_picked, ok_pressed, open_dialog, unfilled,
}

get_elem?-front :
    (xs ys : List Bytes) (k : ℕ) → k < length xs → get_elem? (xs ++ ys) k ≡ get_elem? xs k
get_elem?-front [] ys k h = absurd (omega arith)
get_elem?-front (x ∷ xs) ys zero h = refl
get_elem?-front (x ∷ xs) ys (suc k) h = get_elem?-front xs ys k (omega arith)

length-labels : length labels ≡ 10
unfolding labels
length-labels = refl

-- The rows show the powers of two from 16 to 8192.
row_size : (k : ℕ) → k < 10 → combo_value labels (some k) ≡ pos (16 * 2 ^ k)
unfolding combo_value labels holds_to
row_size k h = eqb_ℤ_sound _ _ (
    holds_to-below (λ (n : ℕ). eqb_ℤ (combo_value labels (some n)) (pos (16 * 2 ^ n))) 10 k h table)
  where
    table : holds_to (λ (n : ℕ). eqb_ℤ (combo_value labels (some n)) (pos (16 * 2 ^ n))) 10 ≡ true
    table = refl

row_size_valid : (k : ℕ) → k < 10 → buffer_size_valid (pos (16 * 2 ^ k)) ≡ true
unfolding buffer_size_valid holds_to
row_size_valid k h = holds_to-below (λ (n : ℕ). buffer_size_valid (pos (16 * 2 ^ n))) 10 k h refl

-- The filled box has the labels first.
filled_front :
    (st : Panel) (k : ℕ) → k < 10 → get_elem? (fill_controls st).items k ≡ get_elem? labels k
unfolding fill_controls
filled_front st k h =
    ground (arith, get_elem?-front labels (print_int st.cfg.buffer_size ∷ []) k, length-labels)

filled_value :
    (st : Panel) (k : ℕ) → k < 10 → combo_value (fill_controls st).items (some k) ≡ pos (16 * 2 ^ k)
unfolding combo_value
filled_value st k h = rw (filled_front st k h) (row_size k h)

-- The settings with a row of each box chosen.
abbrev pub chosen : Config → ℕ → ℕ → Config
chosen c k m = record c { buffer_size = pos (16 * 2 ^ k); buffer_mode = mode_of_row (some m) }

row_mode_known : (m : ℕ) → m < 3 → mode_known (mode_of_row (some m)) ≡ true
row_mode_known m h = ground arith

row_mode_int : (m : ℕ) → m < 3 → IsInt32 (mode_of_row (some m))
row_mode_int m h = ground arith

row_size_int : (k : ℕ) → k < 10 → 16 * 2 ^ k < 2 ^ 31
unfolding holds_to
row_size_int k h = ltb→lt _ _ (holds_to-below (λ (n : ℕ). ltb (16 * 2 ^ n) (2 ^ 31)) 10 k h refl)

chosen-IsStorable :
    (c : Config) (k m : ℕ) → k < 10 → m < 3 → IsStorable c → IsStorable (apply_mode (chosen c k m))
unfolding apply_mode
chosen-IsStorable c k m h l s = record {
  valid = record {
    inputs_ok = s.valid.inputs_ok;
    outputs_ok = s.valid.outputs_ok;
    size_ok = row_size_valid k h;
    rate_ok = s.valid.rate_ok;
    priority_ok = s.valid.priority_ok;
    mode_ok = row_mode_known m l;
    fixed_mirrors = refl;
    follow_mirrors = refl;
  };
  printable = record {
    inputs_int = s.printable.inputs_int;
    outputs_int = s.printable.outputs_int;
    size_int = row_size_int k h;
    rate_int = s.printable.rate_int;
    mode_int = row_mode_int m l;
    priority_int = s.printable.priority_int;
    fits = record {
      output_fits = s.printable.fits.output_fits;
      input_fits = s.printable.fits.input_fits;
      node_fits = s.printable.fits.node_fits;
    };
    output_value = s.printable.output_value;
    input_value = s.printable.input_value;
    node_value = s.printable.node_value;
  };
}

config_save-apply_mode :
    (w : World) (o : Outcome) (c : Config) → config_save w o (apply_mode c) ≡ config_save w o c
unfolding config_save apply_mode
config_save-apply_mode w o c = refl

-- A save of valid settings is the writer's.
save_lem :
    (e : Env) (st : Panel) (c : Config)
    → merged e.world st ≡ c
    → buffer_size_valid c.buffer_size ≡ true
    → let r = save_from_controls e st in
      let w = config_save e.world e.outcome c in
      (r.0 ≡ w.ok) × (r.1.shown ≡ st.shown) × (r.2 ≡ w.states)
unfolding save_from_controls
save_lem e st c f v = ground (arith, f, v)

pub load_saved :
    (w : World) (o : Outcome) (c : Config)
    → IsStorable (apply_mode c)
    → (config_save w o c).ok ≡ true
    → config_load (record w { files = last_files w.files (config_save w o c).states })
      ≡ (true, apply_mode c)
load_saved w o c s ok =
    rw (config_save-apply_mode w o c) at
      (config_load-config_save w o (apply_mode c) s (rw (config_save-apply_mode w o c) ok))

merged-chosen :
    (w : World) (st : Panel) (c : Config) (k m : ℕ)
    → config_load w ≡ (true, c)
    → combo_value st.items (some k) ≡ pos (16 * 2 ^ k)
    → merged w (record st { size_row = some k; mode_row = some m; dirty = true }) ≡ chosen c k m
unfolding merged
merged-chosen w st c k m loaded v = simp (loaded, v) refl

-- In a dialog that was opened on storable settings, and in which the user has then picked row k of the ten
-- sizes and row m of the three modes: OK closes the dialog only if the file then holds those
-- settings with the size 16 * 2 ^ k and the mode of the row, the booleans of the older format in
-- accordance with it, and everything else as it was.
pub ok_pressed-chosen :
    (e : Env) (available : Bool) (c : Config) (k m : ℕ)
    → config_load e.world ≡ (true, c)
    → IsStorable c
    → k < 10
    → m < 3
    → let sized = (handle e (size_picked k) (open_dialog e available)).0 in
      let q = handle e ok_pressed (handle e (mode_picked m) sized).0 in
      q.0.shown ≡ false
      → config_load (record e.world { files = last_files e.world.files q.1 })
        ≡ (true, apply_mode (chosen c k m))
unfolding handle open_dialog
ok_pressed-chosen e available c k m loaded s h l closed =
    let st = open_dialog e available in
    let picked = record st { size_row = some k; mode_row = some m; dirty = true } in
    let value : combo_value st.items (some k) ≡ pos (16 * 2 ^ k) =
      filled_value (unfilled e available) k h in
    let saved =
      save_lem e picked (chosen c k m) (merged-chosen e.world st c k m loaded value)
        (row_size_valid k h) in
    let ok : (config_save e.world e.outcome (chosen c k m)).ok ≡ true =
      ground (arith, saved.0, saved.1) in
    let after = load_saved e.world e.outcome (chosen c k m) (chosen-IsStorable c k m h l s) ok in
    rw saved.2 after
