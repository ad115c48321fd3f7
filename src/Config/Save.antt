-- ===== src/Config/Save.antt =====
-- src/config.c: the writer. The file system is a function from paths to contents; what the calls
-- mkdir, fopen, fclose and rename answer is given.
use pipeasio.Prelude.{
  Bool, true, false, ◌&&◌, Option, none, some, List, [], ◌∷◌, ◌++◌, if◌then◌else◌, take,
}
use pipeasio.Config.{Bytes, Config}
use pipeasio.Config.Number.{print_int}
use pipeasio.Config.Parse.{World, apply_mode, config_path}
use pipeasio.Config.Text.{codes, str_eq}

abbrev pub Files : Type 0
Files = Bytes → Option Bytes

-- What the system answers during one save. The whole text fits stdio's buffer, so that it reaches
-- the file in `fclose`; `partial` is what a failed `fclose` has left there.
pub record Outcome : Type 0 where
  pub mkdir_ok : Bool  -- 0, or EEXIST
  pub open_ok : Bool
  pub close_ok : Bool
  pub rename_ok : Bool
  pub partial : Bytes

abbrev pub print_bool : Bool → Bytes
print_bool true = codes "1"
print_bool false = codes "0"

-- fprintf(f, KEY " = %…\n", value), with the text that follows.
abbrev pub key_value : Bytes → Bytes → Bytes → Bytes
key_value key value rest = (key ++ (codes " = " ++ value)) ++ b'\n' ∷ rest

abbrev pub comment_text : Bytes
comment_text = codes "# PipeASIO settings - written by pipeasio-settings"

unfoldable pub render : Config → Bytes
render c =
    comment_text
    ++ (b'\n'
        ∷ (codes "[pipeasio]"
            ++ (b'\n'
                ∷ key_value (codes "inputs") (print_int c.inputs) (
                    key_value (codes "outputs") (print_int c.outputs) (
                      key_value (codes "buffer_size") (print_int c.buffer_size) (
                        key_value (codes "fixed_buffer_size") (print_bool c.fixed_buffer_size) (
                          key_value (codes "sample_rate") (print_int c.sample_rate) (
                            key_value (codes "auto_connect") (print_bool c.auto_connect) (
                              key_value (codes "follow_device_clock")
                                (print_bool c.follow_device_clock)
                                (key_value (codes "buffer_mode") (print_int c.buffer_mode) (
                                  key_value (codes "rt_priority") (print_int c.rt_priority) (
                                    key_value (codes "output_device") c.output_device (
                                      key_value (codes "input_device") c.input_device
                                        (key_value (codes "node_name") c.node_name []))))))))))))))

abbrev pub put : Bytes → Option Bytes → Files → Files
put p v fs q = if str_eq p q then v else fs q

-- snprintf(tmp, 1100, "%s.tmp", path)
abbrev pub tmp_path : Bytes → Bytes
tmp_path path = take 1099 (path ++ codes ".tmp")

-- The states of the file system after fopen(tmp, "w"), after fclose, and after rename or unlink.
abbrev pub write_states : Bytes → Bytes → Outcome → Files → List Files
write_states path text o fs =
    let tmp = tmp_path path in
    let opened = put tmp (some []) fs in
    let closed = put tmp (some (if o.close_ok then text else o.partial)) opened in
    opened
    ∷ closed
    ∷ (if o.close_ok && o.rename_ok
        then put tmp none (put path (closed tmp) closed)
        else put tmp none closed)
    ∷ []

pub record Saved : Type 0 where
  pub ok : Bool
  pub states : List Files

unfoldable pub save_to : Bytes → Outcome → Files → Config → Saved
unfolding render apply_mode
save_to path o fs c =
    if o.mkdir_ok && o.open_ok
    then record {
      ok = o.close_ok && o.rename_ok;
      states = write_states path (render (apply_mode c)) o fs;
    }
    else record { ok = false; states = [] }

unfoldable pub config_save : World → Outcome → Config → Saved
unfolding config_path save_to
config_save w o c = elim (config_path w) [
  | none ↦ record { ok = false; states = [] }
  | some path ↦ save_to path o w.files c
]

-- The file system when `config_save` returns.
abbrev pub last_files : Files → List Files → Files
last_files fs [] = fs
last_files fs (x ∷ xs) = last_files x xs
