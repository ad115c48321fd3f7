-- ===== src/Audio/Capacity.antt =====
-- The client's three growing arrays never hold more than their room.
use pipeasio.Prelude.{
  ℕ, ◌≤◌, ◌<◌, ◌≡◌, refl, Bool, true, false, Option, none, some, List, [], ◌∷◌, arith, length,
  length-append, Bool-cases, inl, inr, ◌==◌, suc, ◌^◌, ◌+◌,
}
use pipeasio.Audio.Cases.{
  with_node, with_port, AddsPort, PortEffect, cache_node_cases, cache_port_cases,
}
use pipeasio.Audio.Registry.{
  Props, GlobalEvent, global, global_remove, node_type, port_type, metadata_type, other_type,
  cache_node, cache_metadata, backfill, memo_lookup, remove_port, remove_node,
  on_registry_global_remove, on_event, on_registry_global,
}
use pipeasio.Audio.Ports.{port_register, port_unregister, remove_handle, new_port}
use pipeasio.Audio.{Node, Port, Client, opened, grow}
use pipeasio.Config.{Bytes}

pub record IsRoomy (c : Client) : Type 0 where
  pub ports_fit : length c.ports ≤ c.cap_ports
  pub nodes_fit : length c.nodes ≤ c.cap_nodes
  pub discovered_fit : length c.discovered ≤ c.cap_discovered

-- Room for all entries, which are `n` at most in each array.
record IsRoomyTo (n : ℕ) (c : Client) : Type 0 where
  ports_fit : length c.ports ≤ c.cap_ports
  nodes_fit : length c.nodes ≤ c.cap_nodes
  discovered_fit : length c.discovered ≤ c.cap_discovered
  ports_few : length c.ports ≤ n
  nodes_few : length c.nodes ≤ n
  discovered_few : length c.discovered ≤ n

IsRoomyTo-mono : (m n : ℕ) (c : Client) → m ≤ n → IsRoomyTo m c → IsRoomyTo n c
IsRoomyTo-mono m n c h r = record {
  ports_fit = r.ports_fit;
  nodes_fit = r.nodes_fit;
  discovered_fit = r.discovered_fit;
  ports_few = omega (arith, r.ports_few);
  nodes_few = omega (arith, r.nodes_few);
  discovered_few = omega (arith, r.discovered_few);
}

-- One more entry fits the grown array, as long as the doubling does not wrap around.
grow_fits :
    (first used cap : ℕ) → 0 < first → used < 2 ^ 31 → used ≤ cap → used < grow first used cap
grow_fits first used cap h few k = elim (Bool-cases (used == cap)) [
  | inl e ↦ elim (Bool-cases (cap == 0)) [
    | inl z ↦ simp (e, z) (ground arith)
    | inr z ↦ simp (e, z) (ground arith)
  ]
  | inr e ↦ simp e (ground arith)
]

length-backfill :
    (ps : List Port) (name : Bytes) (n p : ℕ) → length (backfill ps name n p) ≡ length ps
unfolding backfill
length-backfill [] name n p = refl
length-backfill (q ∷ ps) name n p = ground (arith, length-backfill ps name n p)

length-remove_port : (ps : List Port) (id : ℕ) → length (remove_port ps id) ≤ length ps
unfolding remove_port
length-remove_port [] id = omega arith
length-remove_port (p ∷ ps) id = ground (arith, length-remove_port ps id)

length-remove_node : (ns : List Node) (id : ℕ) → length (remove_node ns id) ≤ length ns
unfolding remove_node
length-remove_node [] id = omega arith
length-remove_node (n ∷ ns) id = ground (arith, length-remove_node ns id)

length-remove_handle : (ps : List Port) (h : ℕ) → length (remove_handle ps h) ≤ length ps
unfolding remove_handle
length-remove_handle [] h = omega arith
length-remove_handle (p ∷ ps) h = ground (arith, length-remove_handle ps h)

module _ (n : ℕ) (few : n < 2 ^ 31) where
  with_node-IsRoomyTo : (x : Node) (c : Client) → IsRoomyTo n c → IsRoomyTo (suc n) (with_node x c)
  with_node-IsRoomyTo x c r = record {
    ports_fit = r.ports_fit;
    nodes_fit = omega (
      arith,
      length-append c.nodes (x ∷ []),
      grow_fits 16 (length c.nodes) c.cap_nodes (omega arith) (omega (arith, r.nodes_few))
          r.nodes_fit,
    );
    discovered_fit = r.discovered_fit;
    ports_few = omega (arith, r.ports_few);
    nodes_few = omega (arith, length-append c.nodes (x ∷ []), r.nodes_few);
    discovered_few = omega (arith, r.discovered_few);
  }

  with_port-IsRoomyTo : (p : Port) (c : Client) → IsRoomyTo n c → IsRoomyTo (suc n) (with_port p c)
  with_port-IsRoomyTo p c r = record {
    ports_fit = r.ports_fit;
    nodes_fit = r.nodes_fit;
    discovered_fit = omega (
      arith,
      length-append c.discovered (p ∷ []),
      grow_fits 32 (length c.discovered) c.cap_discovered (omega arith)
          (omega (arith, r.discovered_few)) r.discovered_fit,
    );
    ports_few = omega (arith, r.ports_few);
    nodes_few = omega (arith, r.nodes_few);
    discovered_few = omega (arith, length-append c.discovered (p ∷ []), r.discovered_few);
  }

  kept : (c : Client) → IsRoomyTo n c → IsRoomyTo (suc n) c
  kept c r = IsRoomyTo-mono n (suc n) c (omega arith) r

  memo_lookup-IsRoomyTo : (id : ℕ) (c : Client) → IsRoomyTo n c → IsRoomyTo n (memo_lookup id c).1
  unfolding memo_lookup
  memo_lookup-IsRoomyTo id c r = record {
    ports_fit = ground (arith, r.ports_fit);
    nodes_fit = ground (arith, r.nodes_fit);
    discovered_fit = ground (arith, r.discovered_fit);
    ports_few = ground (arith, r.ports_few);
    nodes_few = ground (arith, r.nodes_few);
    discovered_few = ground (arith, r.discovered_few);
  }

  cache_node-IsRoomyTo :
      (alloc : Bool) (id : ℕ) (props : Props) (c : Client)
      → IsRoomyTo n c
      → IsRoomyTo (suc n) (cache_node alloc id props c)
  cache_node-IsRoomyTo alloc id props c r = elim (cache_node_cases alloc id props c) [
    | inl e ↦ rw e (kept c r)
    | inr (x, _, _, e) ↦ rw e (with_node-IsRoomyTo x c r)
  ]

  AddsPort-IsRoomyTo : (c d : Client) → IsRoomyTo n c → AddsPort c d → IsRoomyTo (suc n) d
  AddsPort-IsRoomyTo c d r (inl e) = rw e (kept c r)
  AddsPort-IsRoomyTo c d r (inr (p, e)) = rw e (with_port-IsRoomyTo p c r)

  PortEffect-IsRoomyTo : (c d : Client) → IsRoomyTo n c → PortEffect c d → IsRoomyTo (suc n) d
  PortEffect-IsRoomyTo c d r (inl e) = rw e (kept c r)
  PortEffect-IsRoomyTo c d r (inr (inl (name, node, id, e))) = rw e (record {
    ports_fit = omega (arith, length-backfill c.ports name node id, r.ports_fit);
    nodes_fit = r.nodes_fit;
    discovered_fit = r.discovered_fit;
    ports_few = omega (arith, length-backfill c.ports name node id, r.ports_few);
    nodes_few = omega (arith, r.nodes_few);
    discovered_few = omega (arith, r.discovered_few);
  })
  PortEffect-IsRoomyTo c d r (inr (inr (node, a))) =
      AddsPort-IsRoomyTo (memo_lookup node c).1 d (memo_lookup-IsRoomyTo node c r) a

  cache_metadata-IsRoomyTo :
      (bound : Bool) (props : Props) (c : Client)
      → IsRoomyTo n c
      → IsRoomyTo n (cache_metadata bound props c)
  unfolding cache_metadata
  cache_metadata-IsRoomyTo bound props c r = record {
    ports_fit = ground (arith, r.ports_fit);
    nodes_fit = ground (arith, r.nodes_fit);
    discovered_fit = ground (arith, r.discovered_fit);
    ports_few = ground (arith, r.ports_few);
    nodes_few = ground (arith, r.nodes_few);
    discovered_few = ground (arith, r.discovered_few);
  }

  remove-IsRoomyTo :
      (id : ℕ) (c : Client) → IsRoomyTo n c → IsRoomyTo n (on_registry_global_remove id c)
  unfolding on_registry_global_remove
  remove-IsRoomyTo id c r = record {
    ports_fit =
        ground
          (arith, length-remove_node c.nodes id, length-remove_port c.discovered id, r.ports_fit);
    nodes_fit =
        ground
          (arith, length-remove_node c.nodes id, length-remove_port c.discovered id, r.nodes_fit);
    discovered_fit = ground (
      arith,
      length-remove_node c.nodes id,
      length-remove_port c.discovered id,
      r.discovered_fit,
    );
    ports_few =
        ground
          (arith, length-remove_node c.nodes id, length-remove_port c.discovered id, r.ports_few);
    nodes_few =
        ground
          (arith, length-remove_node c.nodes id, length-remove_port c.discovered id, r.nodes_few);
    discovered_few = ground (
      arith,
      length-remove_node c.nodes id,
      length-remove_port c.discovered id,
      r.discovered_few,
    );
  }

  on_event-IsRoomyTo :
      (e : GlobalEvent) (c : Client) → IsRoomyTo n c → IsRoomyTo (suc n) (on_event e c)
  unfolding on_event on_registry_global
  on_event-IsRoomyTo (global alloc id node_type props) c r = cache_node-IsRoomyTo alloc id props c r
  on_event-IsRoomyTo (global alloc id port_type props) c r =
      PortEffect-IsRoomyTo c _ r (cache_port_cases alloc id props c)
  on_event-IsRoomyTo (global alloc id metadata_type props) c r =
      kept _ (cache_metadata-IsRoomyTo alloc props c r)
  on_event-IsRoomyTo (global alloc id other_type props) c r = kept c r
  on_event-IsRoomyTo (global_remove id) c r = kept _ (remove-IsRoomyTo id c r)

  port_register-IsRoomyTo :
      (alloc : Bool) (name : Bytes) (flags : ℕ) (c : Client)
      → IsRoomyTo n c
      → IsRoomyTo (suc n) (port_register alloc name flags c).1
  unfolding port_register
  port_register-IsRoomyTo false name flags c r = kept c r
  port_register-IsRoomyTo true name flags c r = record {
    ports_fit = omega (
      arith,
      length-append c.ports ((new_port name flags c) ∷ []),
      grow_fits 16 (length c.ports) c.cap_ports (omega arith) (omega (arith, r.ports_few))
          r.ports_fit,
    );
    nodes_fit = r.nodes_fit;
    discovered_fit = r.discovered_fit;
    ports_few = omega (arith, length-append c.ports ((new_port name flags c) ∷ []), r.ports_few);
    nodes_few = omega (arith, r.nodes_few);
    discovered_few = omega (arith, r.discovered_few);
  }

  port_unregister-IsRoomyTo :
      (h : Option ℕ) (c : Client) → IsRoomyTo n c → IsRoomyTo n (port_unregister h c).1
  unfolding port_unregister
  port_unregister-IsRoomyTo none c r = r
  port_unregister-IsRoomyTo (some h) c r = record {
    ports_fit = omega (arith, length-remove_handle c.ports h, r.ports_fit);
    nodes_fit = r.nodes_fit;
    discovered_fit = r.discovered_fit;
    ports_few = omega (arith, length-remove_handle c.ports h, r.ports_few);
    nodes_few = r.nodes_few;
    discovered_few = r.discovered_few;
  }

-- What the driver and the registry do to a client: events, and ports of ours that come and go.
pub data Call : Type 0 where
  event : GlobalEvent → Call
  registers : (alloc : Bool) (name : Bytes) (flags : ℕ) → Call
  unregisters : Option ℕ → Call

unfoldable pub call : Call → Client → Client
call (event e) c = on_event e c
call (registers alloc name flags) c = (port_register alloc name flags c).1
call (unregisters h) c = (port_unregister h c).1

unfoldable pub calls : List Call → Client → Client
unfolding call
calls [] c = c
calls (x ∷ xs) c = calls xs (call x c)

call-IsRoomyTo :
    (n : ℕ) (x : Call) (c : Client) → n < 2 ^ 31 → IsRoomyTo n c → IsRoomyTo (suc n) (call x c)
unfolding call
call-IsRoomyTo n (event e) c few r = on_event-IsRoomyTo n few e c r
call-IsRoomyTo n (registers alloc name flags) c few r =
    port_register-IsRoomyTo n few alloc name flags c r
call-IsRoomyTo n (unregisters h) c few r = kept n few _ (port_unregister-IsRoomyTo n few h c r)

calls-IsRoomy_from :
    (n : ℕ) (xs : List Call) (c : Client)
    → n + length xs < suc (2 ^ 31)
    → IsRoomyTo n c
    → IsRoomy (calls xs c)
unfolding calls
calls-IsRoomy_from n [] c few r = record {
  ports_fit = r.ports_fit;
  nodes_fit = r.nodes_fit;
  discovered_fit = r.discovered_fit;
}
calls-IsRoomy_from n (x ∷ xs) c few r =
    calls-IsRoomy_from (suc n) xs (call x c) (omega (arith, few))
      (call-IsRoomyTo n x c (omega (arith, few)) r)

-- However the graph's objects and the driver's ports come and go, in at most 2 ^ 31 events and calls, and
-- whichever allocations fail, each of the three arrays has room for all its entries: the doubling of
-- their room in 32 bits does not wrap around before.
pub calls-IsRoomy :
    (name : Bytes) (xs : List Call) → length xs ≤ 2 ^ 31 → IsRoomy (calls xs (opened name))
unfolding opened
calls-IsRoomy name xs few = calls-IsRoomy_from 0 xs (opened name) (omega (arith, few)) (record {
  ports_fit = omega arith;
  nodes_fit = omega arith;
  discovered_fit = omega arith;
  ports_few = omega arith;
  nodes_few = omega arith;
  discovered_few = omega arith;
})
