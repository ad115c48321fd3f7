-- ===== src/Driver/Identity.antt =====
-- src/asio.c: the methods that answer with constants, and the only interface.
use pipeasio.Prelude.{
  ℕ, Bool, not, ◌||◌, List, [], ◌∷◌, Option, none, some, if◌then◌else◌, ℤ, pos, negsuc,
}
use pipeasio.Config.Text.{codes, str_eq}
use pipeasio.Config.{Bytes}
use pipeasio.Driver.Init.{add_ref}
use pipeasio.Driver.{Driver, ok, missing_io, bad_argument}

pub data InterfaceResult : Type 0 where
  found_interface no_interface invalid_argument : InterfaceResult

-- `out` says that the caller's pointer is not null; an identifier is its 16 bytes.
unfoldable pub query_interface : Bytes → Bool → Bytes → Driver → InterfaceResult × Driver
unfolding add_ref
query_interface class_id out riid d =
    if not out
    then (invalid_argument, d)
    else if str_eq class_id riid
    then (found_interface, add_ref d)
    else (no_interface, d)

unfoldable pub get_driver_name : Bytes
get_driver_name = codes "PipeASIO"

unfoldable pub get_driver_version : Driver → ℕ
get_driver_version d = d.version

unfoldable pub get_error_message : Bytes
get_error_message = codes "PipeASIO does not return error messages\n"

-- The four numbers and the name of a clock source.
pub record ClockSource : Type 0 where
  pub index : ℤ
  pub channel : ℤ
  pub group : ℤ
  pub is_current : ℤ
  pub name : Bytes

-- The flags say that the two pointers are not null.
unfoldable pub get_clock_sources : Bool → Bool → ℤ × Option (List ClockSource)
get_clock_sources clocks count = if not clocks || not count then (bad_argument, none) else (
  ok,
  some (
      record {
        index = pos 0;
        channel = negsuc 0;
        group = negsuc 0;
        is_current = pos 1;
        name = codes "Internal";
      }
      ∷ []),
)

unfoldable pub output_ready : ℤ
output_ready = missing_io
