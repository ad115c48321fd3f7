-- ===== src/Driver/Factory.antt =====
-- src/main.c: the class factory and the entry points of the module. An identifier is its 16 bytes, and the flags
-- say that a pointer is not null.
use pipeasio.Prelude.{ℕ, ◌+◌, ◌-◌, ◌%◌, ◌^◌, Bool, false, not, ◌&&◌, if◌then◌else◌}
use pipeasio.Config.Text.{str_eq}
use pipeasio.Config.{Bytes}
use pipeasio.Driver.{Driver, created}

-- CLSID_PipeASIO, IID_IClassFactory and IID_IUnknown.
pub record Ids : Type 0 where
  pub class_id : Bytes
  pub class_factory : Bytes
  pub unknown : Bytes

pub data ClassResult : Type 0 where
  class_found invalid_pointer no_class_interface class_not_available : ClassResult

pub data InstanceResult : Type 0 where
  new_instance : Driver → InstanceResult
  no_aggregation null_pointer out_of_memory : InstanceResult

-- CF_QueryInterface knows no interface.
unfoldable pub factory_query_interface : Bool → ClassResult
factory_query_interface out = if out then no_class_interface else invalid_pointer

unfoldable pub factory_add_ref : ℕ → ℕ
factory_add_ref ref = (ref + 1) % 2 ^ 32

unfoldable pub factory_release : ℕ → ℕ
factory_release ref = (ref + 2 ^ 32 - 1) % 2 ^ 32

-- PipeASIOCreateInstance; `memory` is HeapAlloc's answer.
unfoldable pub create_driver : Bool → InstanceResult
unfolding created
create_driver memory = if memory then new_instance created else out_of_memory

unfoldable pub factory_create_instance : (outer out memory : Bool) → InstanceResult
unfolding create_driver
factory_create_instance outer out memory =
    if outer then no_aggregation else if not out then null_pointer else create_driver memory

-- DllGetClassObject, with the factory's count.
unfoldable pub dll_get_class_object : Ids → (clsid riid : Bytes) → Bool → ℕ → ClassResult × ℕ
unfolding str_eq factory_add_ref
dll_get_class_object ids clsid riid out ref =
    if not out
    then (invalid_pointer, ref)
    else if not (str_eq riid ids.class_factory) && not (str_eq riid ids.unknown)
    then (no_class_interface, ref)
    else if str_eq clsid ids.class_id
    then (class_found, factory_add_ref ref)
    else (class_not_available, ref)

-- S_FALSE: the module stays.
unfoldable pub dll_can_unload_now : Bool
dll_can_unload_now = false
