-- ===== src/Regsvr.antt =====
-- src/regsvr.c: DllRegisterServer and DllUnregisterServer. A registry key is its path from a root; the registry
-- itself, StringFromGUID2 and the HRESULT of an error code are Windows's and answer through a record.
pub mod Handles
use pipeasio.Prelude.{
  ℕ, zero, suc, ◌+◌, ◌-◌, ◌≡◌, ◌≢◌, Bool, true, false, not, ◌&&◌, ◌||◌, Option, none, some, List,
  [], ◌∷◌, ◌++◌, ◌==◌, if◌then◌else◌, ℤ, pos, negsuc,
}
use pipeasio.Config.Number.{print_int}
use pipeasio.Config.Text.{codes, str_eq}
use pipeasio.Config.{Bytes}

abbrev pub Key : Type 0
Key = List Bytes

abbrev pub success : ℕ
success = 0

-- ERROR_FILE_NOT_FOUND
abbrev pub not_found : ℕ
not_found = 2

-- The calls of Windows that are used: an error code, 0 for success, and the registry behind the call. `Guid`
-- is an identifier.
pub record Api : Type 1 where
  pub Reg : Type 0
  pub Guid : Type 0
  pub create_key : Key → Reg → ℕ × Reg
  pub open_key : Key → Reg → ℕ
  pub set_value : Key → Bytes → Bytes → Reg → ℕ × Reg
  pub delete_tree : Key → Reg → ℕ × Reg
  pub guid_text : Guid → Bytes
  pub from_win32 : ℕ → ℕ
  pub succeeded : ℕ → Bool

-- The roots and the names of keys and values.
abbrev pub classes_root : Bytes
classes_root = codes "HKEY_CLASSES_ROOT"

abbrev pub local_machine : Bytes
local_machine = codes "HKEY_LOCAL_MACHINE"

abbrev pub default_value : Bytes
default_value = []

abbrev pub asio_key : Key
asio_key = local_machine ∷ codes "Software" ∷ codes "ASIO" ∷ codes "PipeASIO" ∷ []

abbrev pub wine_clsid : Bytes
wine_clsid = codes "{2D3CA9E2-1193-4C5D-B5FD-38798F3DC074}"

abbrev pub wine_desc : Bytes
wine_desc = codes "PipeASIO Driver"

module _ (api : Api) where
  pub record Coclass : Type 0 where
    pub clsid : api.Guid
    pub name : Option Bytes
    pub ips : Option Bytes
    pub ips32 : Option Bytes
    pub ips32_tmodel : Option Bytes
    pub progid : Option Bytes
    pub viprogid : Option Bytes
    pub progid_extra : Option Bytes

  -- A negative number of methods is left out.
  pub record Interface : Type 0 where
    pub iid : api.Guid
    pub name : Option Bytes
    pub base_iid : Option api.Guid
    pub num_methods : ℤ
    pub ps_clsid : Option api.Guid
    pub ps_clsid32 : Option api.Guid

  -- The registry and the number of keys that the process holds open.
  pub record Sys : Type 0 where
    pub reg : api.Reg
    pub handles : ℕ

  -- A step ends with an error code; the next one runs only after a success.
  abbrev pub Step : Type 0
  Step = Sys → ℕ × Sys

  infixl 5 ◌>>◌
  unfoldable pub ◌>>◌ : Step → Step → Step
  ◌>>◌ m k s = if (m s).0 == success then k (m s).1 else m s

  unfoldable pub nothing : Step
  nothing s = (success, s)

  -- if (p) res = ...
  unfoldable pub when : {A : Type 0} → Option A → (A → Step) → Step
  when none f = nothing
  when (some a) f = f a

  -- RegCreateKeyEx: one more key is open where it succeeds.
  unfoldable pub reg_create_key : Key → Step
  reg_create_key k s =
      let r = api.create_key k s.reg in
      (r.0, record s { reg = r.1; handles = if r.0 == success then s.handles + 1 else s.handles })

  -- RegOpenKeyEx.
  unfoldable pub reg_open_key : Key → Step
  reg_open_key k s =
      let e = api.open_key k s.reg in
      (e, record s { handles = if e == success then s.handles + 1 else s.handles })

  -- RegCloseKey behind a block: where the block's steps jump to when they fail.
  unfoldable pub reg_close_key : Step → Step
  reg_close_key m s = let r = m s in (r.0, record r.1 { handles = r.1.handles - 1 })

  unfoldable pub put_value : Key → Bytes → Bytes → Step
  put_value k n v s = let r = api.set_value k n v s.reg in (r.0, record s { reg = r.1 })

  unfoldable pub register_key_defvalue : Key → Bytes → Bytes → Step
  register_key_defvalue base name v =
      reg_create_key (base ++ name ∷ [])
      >> reg_close_key (put_value (base ++ name ∷ []) default_value v)

  unfoldable pub register_key_guid : Key → Bytes → api.Guid → Step
  register_key_guid base name g = register_key_defvalue base name (api.guid_text g)

  unfoldable pub register_progid :
      (clsid progid : Bytes) → (curver name extra : Option Bytes) → Step
  register_progid clsid progid curver name extra =
      let key = classes_root ∷ progid ∷ [] in
      reg_create_key key
      >> reg_close_key (
          when name (put_value key default_value)
          >> register_key_defvalue key (codes "CLSID") clsid
          >> when curver (register_key_defvalue key (codes "CurVer"))
          >> when extra (λ e. reg_create_key (key ++ e ∷ []) >> reg_close_key nothing))

  -- InProcServer32 with its threading model.
  unfoldable pub register_server : Key → Option Bytes → Bytes → Step
  register_server class tmodel ips32 =
      let key = class ++ codes "InProcServer32" ∷ [] in
      reg_create_key key
      >> reg_close_key (
          put_value key default_value ips32 >> when tmodel (put_value key (codes "ThreadingModel")))

  abbrev pub class_key : api.Guid → Key
  class_key g = classes_root ∷ codes "CLSID" ∷ api.guid_text g ∷ []

  unfoldable pub register_coclass : Coclass → Step
  register_coclass c =
      let key = class_key c.clsid in
      let clsid = api.guid_text c.clsid in
      reg_create_key key
      >> reg_close_key (
          when c.name (put_value key default_value)
          >> when c.ips (register_key_defvalue key (codes "InProcServer"))
          >> when c.ips32 (register_server key c.ips32_tmodel)
          >> when c.progid (λ p.
            register_key_defvalue key (codes "ProgID") p
            >> register_progid clsid p none c.name c.progid_extra)
          >> when c.viprogid (λ v.
            register_key_defvalue key (codes "VersionIndependentProgID") v
            >> register_progid clsid v c.progid c.name c.progid_extra))

  unfoldable pub each : {A : Type 0} → (A → Step) → List A → Step
  each f [] = nothing
  each f (x ∷ xs) = f x >> each f xs

  abbrev pub hresult : ℕ → ℕ
  hresult res = if res == success then 0 else api.from_win32 res

  -- return res != ERROR_SUCCESS ? HRESULT_FROM_WIN32(res) : S_OK
  unfoldable pub answer : Step → Step
  answer m s = (hresult (m s).0, (m s).1)

  unfoldable pub register_coclasses : List Coclass → Step
  register_coclasses list = answer (
      reg_create_key (classes_root ∷ codes "CLSID" ∷ [])
      >> reg_close_key (each register_coclass list))

  abbrev count_of : ℤ → Option ℕ
  count_of (pos n) = some n
  count_of (negsuc n) = none

  unfoldable pub register_interface : Interface → Step
  register_interface i =
      let key = classes_root ∷ codes "Interface" ∷ api.guid_text i.iid ∷ [] in
      reg_create_key key
      >> reg_close_key (
          when i.name (put_value key default_value)
          >> when i.base_iid (register_key_guid key (codes "BaseInterface"))
          >> when (count_of i.num_methods) (λ n.
            let sub = key ++ codes "NumMethods" ∷ [] in
            reg_create_key sub >> reg_close_key (put_value sub default_value (print_int (pos n))))
          >> when i.ps_clsid (register_key_guid key (codes "ProxyStubClsid"))
          >> when i.ps_clsid32 (register_key_guid key (codes "ProxyStubClsid32")))

  unfoldable pub register_interfaces : List Interface → Step
  register_interfaces list = answer (
      reg_create_key (classes_root ∷ codes "Interface" ∷ [])
      >> reg_close_key (each register_interface list))

  -- if (rc != ERROR_SUCCESS) rc = ...
  infixl 5 ◌or_else◌
  unfoldable pub ◌or_else◌ : Step → Step → Step
  ◌or_else◌ m k s = if (m s).0 == success then m s else k (m s).1

  unfoldable pub register_driver : Step
  register_driver = answer (
      (reg_open_key asio_key or_else reg_create_key asio_key)
      >> reg_close_key (
          put_value asio_key (codes "CLSID") wine_clsid
          >> put_value asio_key (codes "Description") wine_desc))

  -- RegDeleteTree, to which an absent key is a success.
  unfoldable pub recursive_delete_key : Key → Step
  recursive_delete_key k s =
      let r = api.delete_tree k s.reg in
      (if r.0 == not_found then success else r.0, record s { reg = r.1 })

  unfoldable pub unregister_coclass : Coclass → Step
  unregister_coclass c =
      recursive_delete_key (class_key c.clsid)
      >> when c.progid (λ p. recursive_delete_key (classes_root ∷ p ∷ []))
      >> when c.viprogid (λ v. recursive_delete_key (classes_root ∷ v ∷ []))

  unfoldable pub unregister_interface : Interface → Step
  unregister_interface i =
      recursive_delete_key (classes_root ∷ codes "Interface" ∷ api.guid_text i.iid ∷ [])

  -- Behind RegOpenKeyEx: an absent parent key has nothing to remove.
  unfoldable pub unless_absent : Step → Step → Step
  unless_absent m body s =
      if (m s).0 == not_found
      then (success, (m s).1)
      else if (m s).0 == success
      then body (m s).1
      else m s

  unfoldable pub unregister_coclasses : List Coclass → Step
  unregister_coclasses list = answer (
      unless_absent (reg_open_key (classes_root ∷ codes "CLSID" ∷ []))
        (reg_close_key (each unregister_coclass list)))

  unfoldable pub unregister_interfaces : List Interface → Step
  unregister_interfaces list = answer (
      unless_absent (reg_open_key (classes_root ∷ codes "Interface" ∷ []))
        (reg_close_key (each unregister_interface list)))

  unfoldable pub unregister_driver : Step
  unregister_driver = answer (recursive_delete_key asio_key)

  -- The next step runs where SUCCEEDED(hr) holds.
  infixl 5 ◌then_if◌
  unfoldable pub ◌then_if◌ : Step → Step → Step
  ◌then_if◌ m k s = if api.succeeded (m s).0 then k (m s).1 else m s

  -- coclass_list: the one class, in the build for 64 bits or for 32.
  abbrev pub pipeasio_class : api.Guid → Bool → Coclass
  pipeasio_class clsid win64 = record {
    clsid = clsid;
    name = some (codes "PipeASIO Object");
    ips = none;
    ips32 = some (if win64 then codes "pipeasio64.dll" else codes "pipeasio32.dll");
    ips32_tmodel = some (codes "Apartment");
    progid = none;
    viprogid = none;
    progid_extra = none;
  }

  unfoldable pub dll_register_server : api.Guid → Bool → Step
  dll_register_server clsid win64 =
      register_coclasses (pipeasio_class clsid win64 ∷ [])
      then_if register_interfaces []
      then_if register_driver

  unfoldable pub dll_unregister_server : api.Guid → Bool → Step
  dll_unregister_server clsid win64 =
      unregister_coclasses (pipeasio_class clsid win64 ∷ [])
      then_if unregister_interfaces []
      then_if unregister_driver
