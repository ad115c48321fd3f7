-- ===== src/Panel/Launch.antt =====
-- src/panel_launch.c: where the settings panel is looked for, and when a start counts.
use pipeasio.Prelude.{
  ℕ, Bool, true, false, ◌&&◌, Option, none, some, List, [], ◌∷◌, ◌++◌, ◌==◌, if◌then◌else◌, take,
  is_some,
}
use pipeasio.Config.Text.{codes, split_at}
use pipeasio.Config.{Bytes}

-- The bytes up to the last slash; none without one.
unfoldable pub parent_of : Bytes → Option Bytes
unfolding split_at
parent_of [] = none
parent_of (c ∷ cs) = elim (parent_of cs) [
  | some dir ↦ some (c ∷ dir)
  | none ↦ if c == b'/' then some [] else none
]

abbrev up : Option Bytes → Option Bytes
up none = none
up (some path) = parent_of path

-- What the system answers: the driver's own file, the environment's HOME, what can be executed.
pub record Host : Type 0 where
  pub driver_file : Option Bytes
  pub home : Option Bytes
  pub executable : Bytes → Bool

-- snprintf into a buffer of PATH_MAX bytes.
abbrev pub path_max : ℕ
path_max = 4096

abbrev fitted : Bytes → Bytes
fitted s = take 4095 s

abbrev if_executable : Host → Bytes → Option Bytes
if_executable h path = if h.executable path then some path else none

abbrev in_dir : Host → Option Bytes → Bytes → Option Bytes
in_dir h none tail = none
in_dir h (some dir) tail = if_executable h (fitted (dir ++ tail))

abbrev fitted_file : Option Bytes → Option Bytes
fitted_file none = none
fitted_file (some s) = some (fitted s)

unfoldable pub panel_next_to_driver : Host → Option Bytes
unfolding parent_of
panel_next_to_driver h =
    in_dir h (up (up (up (fitted_file h.driver_file)))) (codes "/bin/pipeasio-settings")

abbrev or_else : Option Bytes → Option Bytes → Option Bytes
or_else none b = b
or_else (some a) b = some a

-- The candidates in order.
unfoldable pub find_panel_path : Host → Option Bytes
unfolding panel_next_to_driver
find_panel_path h = or_else (panel_next_to_driver h) (
    or_else (if_executable h (codes "/usr/local/bin/pipeasio-settings")) (
      or_else (if_executable h (codes "/usr/bin/pipeasio-settings"))
        (in_dir h h.home (codes "/.local/bin/pipeasio-settings"))))

-- waitpid's answer in one of the eight looks: still running, no such child, an exit with a code, or an
-- end by a signal.
pub data Look : Type 0 where
  still_running reaped killed : Look
  exited : (code : ℕ) → Look

unfoldable pub watch_child : List Look → Bool
watch_child [] = true
watch_child (still_running ∷ ls) = watch_child ls
watch_child (reaped ∷ ls) = true
watch_child (killed ∷ ls) = false
watch_child (exited code ∷ ls) = code == 0

-- `spawned` says that posix_spawn succeeds; the looks are the first eight.
unfoldable pub spawn_and_check : Bool → List Look → Bool
unfolding watch_child
spawn_and_check spawned looks = spawned && watch_child (take 8 looks)

unfoldable pub panel_launch_available : Host → Bool
unfolding find_panel_path
panel_launch_available h = is_some (find_panel_path h)

unfoldable pub panel_launch_try : Host → (Bytes → Bool × List Look) → Bool
unfolding find_panel_path spawn_and_check
panel_launch_try h run = elim (find_panel_path h) [
  | none ↦ false
  | some path ↦ let r = run path in spawn_and_check r.0 r.1
]
