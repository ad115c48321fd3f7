-- ===== src/Driver/Reachability.antt =====
-- src/asio.c: from the creation of the object on, every state that a host can reach keeps its promise.
use pipeasio.Prelude.{
  ℕ, zero, suc, ◌+◌, ◌-◌, ◌≡◌, refl, sym, ap, inl, inr, Bool, true, false, Option, none, some, List,
  [], ◌∷◌, ◌++◌, length, arith, ◌==◌, Bool-cases, All,
}
use pipeasio.Audio.Activation.{IsIdle, steady-IsIdle}
use pipeasio.Audio.Ports.{port_register, new_port}
use pipeasio.Audio.Registry.{on_events, on_metadata_property}
use pipeasio.Audio.Steady.{same, IsSteady, on_events-IsSteady}
use pipeasio.Audio.{
  Client, Port, opened, set_buffer_size_callback, set_latency_callback, set_process_callback,
  set_sample_rate_callback, port_is_input, port_is_output,
}
use pipeasio.Config.Text.{codes}
use pipeasio.Config.{Bytes}
use pipeasio.Driver.Buffers.{push_settings}
use pipeasio.Driver.Configure.{configure_driver}
use pipeasio.Driver.Creation.{create_buffers-IsSound, set_in}
use pipeasio.Driver.Init.{
  InitAnswers, init, add_ref, release, Released, kept, freed, on_metadata, register_channels,
  set_callbacks, register_ports, with_client, first_size,
}
use pipeasio.Driver.Lifecycle.{
  IsSound, Promise, IsOpen, Step, inits, creates, starts, stops, disposes, refers, releases, cycles,
  hears, rates, watches, Reach, begins, goes,
}
use pipeasio.Driver.Soundness.{
  start_in, stop_in, rate_in, dispose_in, cycle_in, client_in, watch_round-IsSound,
}
use pipeasio.Driver.{Driver, DriverState, loaded, initialized, prepared, running, created}

opened-IsIdle : (name : Bytes) → IsIdle (opened name)
unfolding opened
opened-IsIdle name = record { inactive = refl; no_filter = refl; stopped = refl; unlinked = tt }

on_metadata_property-IsSteady :
    (key value : Option Bytes) (c : Client) → IsSteady c (on_metadata_property key value c)
unfolding on_metadata_property
on_metadata_property-IsSteady none value c = same c
on_metadata_property-IsSteady (some key) none c = same c
on_metadata_property-IsSteady (some key) (some value) c = ground arith

on_metadata-IsIdle :
    (ps : List (Option Bytes × Option Bytes)) (c : Client) → IsIdle c → IsIdle (on_metadata ps c)
unfolding on_metadata
on_metadata-IsIdle [] c h = h
on_metadata-IsIdle ((key, value) ∷ ps) c h =
    on_metadata-IsIdle ps (on_metadata_property key value c)
      (steady-IsIdle c _ (on_metadata_property-IsSteady key value c) h)

All-snoc :
    {A : Type 0} (P : A → Type 0) (xs : List A) (x : A) → All P xs → P x → All P (xs ++ x ∷ [])
All-snoc P [] x h p = (p, tt)
All-snoc P (y ∷ xs) x h p = (h.0, All-snoc P xs x h.1 p)

port_register-IsIdle :
    (alloc : Bool) (name : Bytes) (flags : ℕ) (c : Client)
    → IsIdle c
    → IsIdle (port_register alloc name flags c).1
unfolding port_register new_port
port_register-IsIdle false name flags c h = h
port_register-IsIdle true name flags c h = record {
  inactive = h.inactive;
  no_filter = h.no_filter;
  stopped = h.stopped;
  unlinked =
      All-snoc (λ (p : Port). p.filter_port ≡ false) c.ports (new_port name flags c) h.unlinked
        refl;
}

-- As many channels as asked for, and a client that is as idle as before.
register_channels-IsIdle :
    (alloc : ℕ → Bool) (prefix : Bytes) (flags i count : ℕ) (c : Client)
    → IsIdle c
    → (length (register_channels alloc prefix flags i count c).0 ≡ count)
      × IsIdle (register_channels alloc prefix flags i count c).1
unfolding register_channels
register_channels-IsIdle alloc prefix flags i zero c h = (refl, h)
register_channels-IsIdle alloc prefix flags i (suc count) c h =
    let r =
      register_channels-IsIdle alloc prefix flags (i + 1) count _
        (port_register-IsIdle (alloc i) _ flags c h) in
    (ap suc r.0, r.1)

set_callbacks-IsIdle : (c : Client) → IsIdle c → IsIdle (set_callbacks c)
unfolding set_buffer_size_callback set_latency_callback set_process_callback
    set_sample_rate_callback
set_callbacks-IsIdle c h = record {
  inactive = h.inactive;
  no_filter = h.no_filter;
  stopped = h.stopped;
  unlinked = h.unlinked;
}

register_ports-IsSound :
    (a : InitAnswers) (d : Driver) (c : Client) → IsIdle c → IsSound (register_ports a d c)
register_ports-IsSound a d c h =
    let ins =
      register_channels-IsIdle a.port_memory (codes "in_") port_is_input 0 d.number_inputs c h in
    let outs =
      register_channels-IsIdle (λ i. a.port_memory (d.number_inputs + i)) (codes "out_")
        port_is_output 0 d.number_outputs _ ins.1 in
    ((ins.0, outs.0), set_callbacks-IsIdle _ outs.1)

with_client-IsSound :
    (a : InitAnswers) (d : Driver) (o : Option Client)
    → d.state ≡ loaded
    → IsOpen o
    → IsSound (with_client a d o).1
with_client-IsSound a d none e h = absurd h
with_client-IsSound a d (some c) e h = elim (Bool-cases a.channels_memory) [
  | inl f ↦ simp f (
      register_ports-IsSound a
        (record d { sample_rate = c.sample_rate; current_buffersize = first_size d }) c h)
  | inr f ↦ simp (f, e) tt
]

init-IsSound : (a : InitAnswers) (d : Driver) → IsSound (init a d).1
unfolding init configure_driver
init-IsSound a d =
    let d' = configure_driver a.config a.environment d in
    let c = on_metadata a.metadata (on_events a.events (opened d'.client_name)) in
    let idle : IsIdle c = on_metadata-IsIdle a.metadata _ (
      steady-IsIdle (opened d'.client_name) _ (on_events-IsSteady a.events (opened d'.client_name))
        (opened-IsIdle d'.client_name)) in
    let d'' = push_settings (record d' { client = some c }) in
    elim (Bool-cases a.pipewire) [
      | inl e ↦ simp e (with_client-IsSound a d'' d''.client refl (set_in (some c) _ _ _ idle))
      | inr e ↦ simp e tt
    ]

-- The promise does not depend on the count of references.
references_in :
    (s : DriverState) (n : ℕ) (d : Driver) → Promise s d → Promise s (record d { references = n })
references_in loaded n d h = h
references_in initialized n d h = h
references_in prepared n d h = h
references_in running n d h = h

kept_or : Driver → Released → Driver
kept_or d (kept n e) = e
kept_or d (freed o) = d

kept_or-IsSound : (d : Driver) → IsSound d → IsSound (kept_or d (release d))
unfolding release kept_or
kept_or-IsSound d h = elim (Bool-cases (d.references - 1 == 0)) [
  | inl f ↦ simp f h
  | inr f ↦ simp f (references_in d.state (d.references - 1) d h)
]

release-IsSound : (left : ℕ) (d e : Driver) → release d ≡ kept left e → IsSound d → IsSound e
unfolding kept_or
release-IsSound left d e r h =
    moved (kept_or d (release d)) (ap (kept_or d) r) (kept_or-IsSound d h)
  where
    moved : (k : Driver) → k ≡ e → IsSound k → IsSound e
    moved k p h = rw (sym p) h

Step-IsSound : {d e : Driver} → Step d e → IsSound d → IsSound e
unfolding add_ref
Step-IsSound (inits a d) h = init-IsSound a d
Step-IsSound (creates w given bs size d) h = create_buffers-IsSound w given bs size d h
Step-IsSound (starts host d) h = start_in d.state host d h
Step-IsSound (stops d) h = stop_in d.state d h
Step-IsSound (disposes d) h = dispose_in d.state d h
Step-IsSound (refers d) h = references_in d.state (d.references + 1) d h
Step-IsSound (releases left d e r) h = release-IsSound left d e r h
Step-IsSound (cycles host position dequeued v d) h =
    cycle_in d.state d.client host position dequeued v d h
Step-IsSound (hears es d) h = client_in d.state d.client (on_events es) d (on_events-IsSteady es) h
Step-IsSound (rates rate d) h = rate_in d.state rate d h
Step-IsSound (watches changed w d) h = watch_round-IsSound changed w d h

-- In every state that the host, the graph and the watcher can bring the driver into, in any order of
-- calls: before CreateBuffers an initialized driver's audio client is idle; from CreateBuffers to
-- DisposeBuffers the client's filter runs on exactly the driver's buffer size, with the host's
-- callbacks and the callback buffer in place; and the channel arrays have the configured lengths.
pub reachable-IsSound : {d : Driver} → Reach d → IsSound d
unfolding created
reachable-IsSound begins = tt
reachable-IsSound (goes r s) = Step-IsSound s (reachable-IsSound r)
