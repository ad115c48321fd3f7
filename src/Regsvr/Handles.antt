-- ===== src/Regsvr/Handles.antt =====
-- src/regsvr.c: every key that is opened is closed again, also where a step fails.
use pipeasio.Prelude.{◌+◌, ◌≡◌, refl, Option, none, some, List, [], ◌∷◌, arith}
use pipeasio.Config.{Bytes}
use pipeasio.Regsvr.{
  Api, Key, Step, Sys, Coclass, Interface, nothing, when, each, reg_create_key, reg_open_key,
  reg_close_key, put_value, register_key_defvalue, register_key_guid, register_progid,
  register_server, register_coclass, register_coclasses, register_interface, register_interfaces,
  register_driver, recursive_delete_key, unregister_coclass, unregister_interface, unless_absent,
  ◌or_else◌, unregister_coclasses, unregister_interfaces, unregister_driver, ◌>>◌, answer,
}

module _ (api : Api) where
  -- The number of open keys behind a step is the one in front of it.
  pub record Closes (m : Step api) : Type 0 where
    pub closes : (s : Sys api) → (m s).1.handles ≡ s.handles

  Closes-nothing : Closes (nothing api)
  unfolding nothing
  Closes-nothing = record { closes = λ s. refl }

  Closes->> : {m k : Step api} → Closes m → Closes k → Closes (◌>>◌ api m k)
  unfolding ◌>>◌
  Closes->> {m} p q = record { closes = λ s. ground (arith, p.closes s, q.closes (m s).1) }

  Closes-when :
      {A : Type 0} {f : A → Step api} (o : Option A)
      → ((a : A) → Closes (f a))
      → Closes (when api o f)
  unfolding when
  Closes-when none p = Closes-nothing
  Closes-when (some a) p = p a

  Closes-each :
      {A : Type 0} {f : A → Step api} (xs : List A)
      → ((a : A) → Closes (f a))
      → Closes (each api f xs)
  unfolding each
  Closes-each [] p = Closes-nothing
  Closes-each (x ∷ xs) p = Closes->> (p x) (Closes-each xs p)

  -- A key that is created for a block and closed behind it.
  Closes-create :
      {m : Step api} (k : Key)
      → Closes m
      → Closes (◌>>◌ api (reg_create_key api k) (reg_close_key api m))
  unfolding ◌>>◌ reg_create_key reg_close_key
  Closes-create k p = record {
    closes = λ s.
        ground (
          arith,
          p.closes (record s { reg = (api.create_key k s.reg).1; handles = s.handles + 1 }),
        );
  }

  Closes-open :
      {m : Step api} (k : Key)
      → Closes m
      → Closes (
          ◌>>◌ api
            (◌or_else◌ api (reg_open_key api k) (reg_create_key api k))
            (reg_close_key api m))
  unfolding ◌>>◌ ◌or_else◌ reg_open_key reg_create_key reg_close_key
  Closes-open k p = record {
    closes = λ s. ground (
      arith,
      p.closes (record s { handles = s.handles + 1 }),
      p.closes (record s { reg = (api.create_key k s.reg).1; handles = s.handles + 1 }),
    );
  }

  Closes-unless_absent :
      {m : Step api} (k : Key)
      → Closes m
      → Closes (unless_absent api (reg_open_key api k) (reg_close_key api m))
  unfolding unless_absent reg_open_key reg_close_key
  Closes-unless_absent k p = record {
    closes = λ s. ground (arith, p.closes (record s { handles = s.handles + 1 }));
  }

  Closes-answer : {m : Step api} → Closes m → Closes (answer api m)
  unfolding answer
  Closes-answer p = record { closes = p.closes }

  Closes-put_value : (k : Key) (n v : Bytes) → Closes (put_value api k n v)
  unfolding put_value
  Closes-put_value k n v = record { closes = λ s. refl }

  Closes-recursive_delete_key : (k : Key) → Closes (recursive_delete_key api k)
  unfolding recursive_delete_key
  Closes-recursive_delete_key k = record { closes = λ s. refl }

  Closes-register_key_defvalue : (k : Key) (n v : Bytes) → Closes (register_key_defvalue api k n v)
  unfolding register_key_defvalue
  Closes-register_key_defvalue k n v = Closes-create _ (Closes-put_value _ _ v)

  Closes-register_key_guid :
      (k : Key) (n : Bytes) (g : api.Guid) → Closes (register_key_guid api k n g)
  unfolding register_key_guid
  Closes-register_key_guid k n g = Closes-register_key_defvalue k n _

  Closes-register_progid :
      (clsid progid : Bytes) (curver name extra : Option Bytes)
      → Closes (register_progid api clsid progid curver name extra)
  unfolding register_progid
  Closes-register_progid clsid progid curver name extra = Closes-create _ (
      Closes->>
        (Closes->>
          (Closes->> (Closes-when name (Closes-put_value _ _))
            (Closes-register_key_defvalue _ _ clsid))
          (Closes-when curver (Closes-register_key_defvalue _ _)))
        (Closes-when extra (λ e. Closes-create _ Closes-nothing)))

  Closes-register_server :
      (k : Key) (tmodel : Option Bytes) (ips32 : Bytes)
      → Closes (register_server api k tmodel ips32)
  unfolding register_server
  Closes-register_server k tmodel ips32 =
      Closes-create _
        (Closes->> (Closes-put_value _ _ ips32) (Closes-when tmodel (Closes-put_value _ _)))

  Closes-register_coclass : (c : Coclass api) → Closes (register_coclass api c)
  unfolding register_coclass
  Closes-register_coclass c = Closes-create _ (
      Closes->>
        (Closes->>
          (Closes->>
            (Closes->> (Closes-when c.name (Closes-put_value _ _))
              (Closes-when c.ips (Closes-register_key_defvalue _ _)))
            (Closes-when c.ips32 (Closes-register_server _ _)))
          (Closes-when c.progid (λ p.
            Closes->> (Closes-register_key_defvalue _ _ p)
              (Closes-register_progid _ p none c.name c.progid_extra))))
        (Closes-when c.viprogid (λ v.
          Closes->> (Closes-register_key_defvalue _ _ v)
            (Closes-register_progid _ v c.progid c.name c.progid_extra))))

  Closes-register_interface : (i : Interface api) → Closes (register_interface api i)
  unfolding register_interface
  Closes-register_interface i = Closes-create _ (
      Closes->>
        (Closes->>
          (Closes->>
            (Closes->> (Closes-when i.name (Closes-put_value _ _))
              (Closes-when i.base_iid (Closes-register_key_guid _ _)))
            (Closes-when _ (λ n. Closes-create _ (Closes-put_value _ _ _))))
          (Closes-when i.ps_clsid (Closes-register_key_guid _ _)))
        (Closes-when i.ps_clsid32 (Closes-register_key_guid _ _)))

  Closes-unregister_coclass : (c : Coclass api) → Closes (unregister_coclass api c)
  unfolding unregister_coclass
  Closes-unregister_coclass c =
      Closes->>
        (Closes->> (Closes-recursive_delete_key _)
          (Closes-when c.progid (λ p. Closes-recursive_delete_key _)))
        (Closes-when c.viprogid (λ v. Closes-recursive_delete_key _))

  Closes-unregister_interface : (i : Interface api) → Closes (unregister_interface api i)
  unfolding unregister_interface
  Closes-unregister_interface i = Closes-recursive_delete_key _

  -- Whatever the lists hold and wherever a call fails, the exported functions' parts leave as many keys open
  -- as they have found.
  pub registration-handles :
      (cs : List (Coclass api)) (is : List (Interface api)) (s : Sys api)
      → ((register_coclasses api cs s).1.handles ≡ s.handles)
        × ((register_interfaces api is s).1.handles ≡ s.handles)
        × ((register_driver api s).1.handles ≡ s.handles)
        × ((unregister_coclasses api cs s).1.handles ≡ s.handles)
        × ((unregister_interfaces api is s).1.handles ≡ s.handles)
        × ((unregister_driver api s).1.handles ≡ s.handles)
  unfolding register_coclasses register_interfaces register_driver unregister_coclasses
      unregister_interfaces unregister_driver
  registration-handles cs is s = (
    (Closes-answer (Closes-create _ (Closes-each cs Closes-register_coclass))).closes s,
    (Closes-answer (Closes-create _ (Closes-each is Closes-register_interface))).closes s,
    (Closes-answer
          (Closes-open _ (Closes->> (Closes-put_value _ _ _) (Closes-put_value _ _ _)))).closes
        s,
    (Closes-answer (Closes-unless_absent _ (Closes-each cs Closes-unregister_coclass))).closes s,
    (Closes-answer (Closes-unless_absent _ (Closes-each is Closes-unregister_interface))).closes s,
    (Closes-answer (Closes-recursive_delete_key _)).closes s,
  )
