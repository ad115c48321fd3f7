-- ===== src/Tests/Registration.antt =====
-- The theorems about the registration at concrete inputs, with a registry whose values are a list.
use pipeasio.Prelude.{ℕ, ◌≡◌, true, none, some, List, [], ◌∷◌, ◌==◌, pos}
use pipeasio.Config.Text.{codes}
use pipeasio.Config.{Bytes}
use pipeasio.Regsvr.{
  Api, Key, Sys, Interface, wine_clsid, not_found, register_coclasses, register_interfaces,
  register_driver, unregister_coclasses, unregister_interfaces, unregister_driver, pipeasio_class,
}
use pipeasio.Regsvr.Handles.{registration-handles}

abbrev Values : Type 0
Values = List (Key × Bytes × Bytes)

-- A registry of at most three values, in which no key can be opened that was not created.
abbrev set_listed : Key → Bytes → Bytes → Values → ℕ × Values
set_listed k n v (a ∷ b ∷ c ∷ vs) = (5, a ∷ b ∷ c ∷ vs)
set_listed k n v vs = (0, (k, n, v) ∷ vs)

abbrev listed : Api
listed = record {
  Reg = Values;
  Guid = Bytes;
  create_key = λ k r. (0, r);
  open_key = λ k r. not_found;
  set_value = set_listed;
  delete_tree = λ k r. (0, r);
  guid_text = λ g. g;
  from_win32 = λ e. e;
  succeeded = λ e. e == 0;
}

abbrev fresh : Sys listed
fresh = record { reg = []; handles = 3 }

-- Its registration fails at the value behind the name, with two keys open.
abbrev sample_interface : Interface listed
sample_interface = record {
  iid = wine_clsid;
  name = some (codes "IPipeASIO");
  base_iid = some wine_clsid;
  num_methods = pos 24;
  ps_clsid = some wine_clsid;
  ps_clsid32 = none;
}

registration-handles_example :
    ((register_coclasses listed (pipeasio_class listed wine_clsid true ∷ []) fresh).1.handles ≡ 3)
    × ((register_interfaces listed (sample_interface ∷ []) fresh).1.handles ≡ 3)
    × ((register_driver listed fresh).1.handles ≡ 3)
    × ((unregister_coclasses listed (pipeasio_class listed wine_clsid true ∷ []) fresh).1.handles
        ≡ 3)
    × ((unregister_interfaces listed (sample_interface ∷ []) fresh).1.handles ≡ 3)
    × ((unregister_driver listed fresh).1.handles ≡ 3)
registration-handles_example =
    registration-handles listed (pipeasio_class listed wine_clsid true ∷ []) (sample_interface ∷ [])
      fresh
