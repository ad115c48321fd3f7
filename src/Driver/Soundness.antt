-- ===== src/Driver/Soundness.antt =====
-- src/asio.c: every method and callback keeps the promise of the driver's state.
use pipeasio.Prelude.{
  ℕ, suc, ◌≡◌, refl, ap, ◌∙◌, ◌⊎◌, inl, inr, Bool, true, Option, none, some, List, [], ◌∷◌, map,
  length, Bool-cases, ℤ,
}
use pipeasio.Audio.Activation.{deactivate-IsIdle, steady-IsServing, steady-IsIdle}
use pipeasio.Audio.Cycle.{begin_process-IsSteady, end_process-IsSteady}
use pipeasio.Audio.Filter.{Position, begin_process, end_process}
use pipeasio.Audio.Steady.{IsSteady, chain}
use pipeasio.Audio.{Client, CycleBuffer, take_default_changed}
use pipeasio.Driver.Buffers.{dispose_buffers, map_client, drop_buffer}
use pipeasio.Driver.Lifecycle.{IsSound, Promise, IsPlaying, AreSized, graph_cycle}
use pipeasio.Driver.Transport.{
  HostCall, Device, start, stop, process_callback, sample_rate_callback,
}
use pipeasio.Driver.Watch.{
  Watcher, Round, watch_round, reload, live_changed, follow_default, follows_default,
  follow_quantum, sees_new_quantum, quantum,
}
use pipeasio.Driver.{Driver, DriverState, loaded, initialized, prepared, running, Sample, to_uint32}
use pipeasio.Config.{Config}

-- Each lemma is about a driver in a given state; by the equality of records, `record d { state = d.state }`
-- is `d`.
pub start_in :
    (s : DriverState) (host : HostCall → List Sample → List Sample) (d : Driver)
    → Promise s d
    → IsSound (start host (record d { state = s })).driver
unfolding start
start_in loaded host d h = h
start_in initialized host d h = h
start_in prepared host d h = (h.0, h.1, h.2, tt)
start_in running host d h = h

pub stop_in :
    (s : DriverState) (d : Driver) → Promise s d → IsSound (stop (record d { state = s })).1
unfolding stop
stop_in loaded d h = h
stop_in initialized d h = h
stop_in prepared d h = h
stop_in running d h = h

pub rate_in :
    (s : DriverState) (rate : ℕ) (d : Driver)
    → Promise s d
    → IsSound (sample_rate_callback rate (record d { state = s })).1
unfolding sample_rate_callback
rate_in loaded rate d h = h
rate_in initialized rate d h = h
rate_in prepared rate d h = h
rate_in running rate d h = h

length-map : {A : Type 0} (f : A → A) (xs : List A) → length (map f xs) ≡ length xs
length-map f [] = refl
length-map f (x ∷ xs) = ap suc (length-map f xs)

pub dropped-AreSized :
    (d : Driver)
    → AreSized d
    → (length (map drop_buffer d.input_channels) ≡ d.number_inputs)
      × (length (map drop_buffer d.output_channels) ≡ d.number_outputs)
dropped-AreSized d h =
    (length-map drop_buffer d.input_channels ∙ h.0, length-map drop_buffer d.output_channels ∙ h.1)

dispose_playing :
    (s : DriverState) (o : Option Client) (d : Driver)
    → (s ≡ prepared) ⊎ (s ≡ running)
    → AreSized d
    → IsPlaying d.current_buffersize o
    → IsSound (dispose_buffers (record d { state = s; client = o })).1
unfolding dispose_buffers
dispose_playing s none d e h k = absurd k
dispose_playing loaded (some c) d e h k = absurd (elim e [ inl f ↦ cc | inr f ↦ cc ])
dispose_playing initialized (some c) d e h k = absurd (elim e [ inl f ↦ cc | inr f ↦ cc ])
dispose_playing prepared (some c) d e h k =
    let r = deactivate-IsIdle (to_uint32 d.current_buffersize) c (inr k) in
    rw r.0 (dropped-AreSized d h, r.1)
dispose_playing running (some c) d e h k =
    let r = deactivate-IsIdle (to_uint32 d.current_buffersize) c (inr k) in
    rw r.0 (dropped-AreSized d h, r.1)

pub dispose_in :
    (s : DriverState) (d : Driver)
    → Promise s d
    → IsSound (dispose_buffers (record d { state = s })).1
unfolding dispose_buffers
dispose_in loaded d h = h
dispose_in initialized d h = h
dispose_in prepared d h = dispose_playing prepared d.client d (inl refl) h.0 h.1
dispose_in running d h = dispose_playing running d.client d (inr refl) h.0 h.1

process-IsSteady :
    (position : Option Position) (dequeued : ℕ → Option CycleBuffer) (c : Client)
    → IsSteady c (end_process (begin_process position dequeued c)).1
process-IsSteady position dequeued c =
    let c' = begin_process position dequeued c in
    chain c c' _ (begin_process-IsSteady position dequeued c) (end_process-IsSteady c')

pub cycle_in :
    (s : DriverState) (o : Option Client) (host : HostCall → List Sample → List Sample)
    (position : Option Position) (dequeued : ℕ → Option CycleBuffer) (v : Device) (d : Driver)
    → Promise s (record d { state = s; client = o })
    → IsSound (graph_cycle host position dequeued v (record d { state = s; client = o }))
unfolding graph_cycle process_callback
cycle_in s none host position dequeued v d h = h
cycle_in loaded (some c) host position dequeued v d h = tt
cycle_in initialized (some c) host position dequeued v d h =
    (h.0, steady-IsIdle c _ (process-IsSteady position dequeued c) h.1)
cycle_in prepared (some c) host position dequeued v d h = (
  h.0,
  steady-IsServing (to_uint32 d.current_buffersize) c _ (process-IsSteady position dequeued c) h.1,
  h.2,
  h.3,
)
cycle_in running (some c) host position dequeued v d h = (
  h.0,
  steady-IsServing (to_uint32 d.current_buffersize) c _ (process-IsSteady position dequeued c) h.1,
  h.2,
  tt,
)

-- A change of the client that the filter does not notice keeps the promise.
pub client_in :
    (s : DriverState) (o : Option Client) (f : Client → Client) (d : Driver)
    → ((c : Client) → IsSteady c (f c))
    → Promise s (record d { client = o })
    → Promise s (record d { client = map_client f o })
client_in loaded o f d e h = tt
client_in initialized none f d e h = h
client_in initialized (some c) f d e h = (h.0, steady-IsIdle c (f c) (e c) h.1)
client_in prepared none f d e h = h
client_in prepared (some c) f d e h =
    (h.0, steady-IsServing (to_uint32 d.current_buffersize) c (f c) (e c) h.1, h.2, h.3)
client_in running none f d e h = h
client_in running (some c) f d e h =
    (h.0, steady-IsServing (to_uint32 d.current_buffersize) c (f c) (e c) h.1, h.2, h.3)

-- What the watcher writes is not promised.
staged_in :
    (s : DriverState) (cfg : Config) (pending : Bool) (quantum : ℤ) (d : Driver)
    → Promise s d
    → Promise s
        (record d { staged_cfg = cfg; config_pending = pending; follower_quantum = quantum })
staged_in loaded cfg pending quantum d h = h
staged_in initialized cfg pending quantum d h = h
staged_in prepared cfg pending quantum d h = h
staged_in running cfg pending quantum d h = h

reload-IsSound :
    (changed : Option Config) (w : Watcher) (d : Driver)
    → IsSound d
    → IsSound (reload changed w d).driver
reload-IsSound none w d h = h
reload-IsSound (some new) w d h = elim (Bool-cases (live_changed new w.last_cfg)) [
  | inl e ↦ rw e (staged_in d.state new true d.follower_quantum d h)
  | inr e ↦ rw e h
]

take_default_changed-IsSteady : (c : Client) → IsSteady c (take_default_changed c).1
unfolding take_default_changed
take_default_changed-IsSteady c = record {
  switch = refl;
  filters = refl;
  running = refl;
  frames = refl;
  seen = refl;
}

follow_default-IsSound : (r : Round) → IsSound r.driver → IsSound (follow_default r).driver
follow_default-IsSound r h = elim (Bool-cases (follows_default r.driver)) [
  | inl e ↦ rw e (
      client_in r.driver.state r.driver.client (λ (c : Client). (take_default_changed c).1) r.driver
        take_default_changed-IsSteady h)
  | inr e ↦ rw e h
]

follow_quantum-IsSound : (r : Round) → IsSound r.driver → IsSound (follow_quantum r).driver
follow_quantum-IsSound r h = elim (Bool-cases (sees_new_quantum r)) [
  | inl e ↦ rw e (
      staged_in r.driver.state r.driver.staged_cfg r.driver.config_pending (quantum r.driver.client)
        r.driver h)
  | inr e ↦ rw e h
]

pub watch_round-IsSound :
    (changed : Option Config) (w : Watcher) (d : Driver)
    → IsSound d
    → IsSound (watch_round changed w d).driver
unfolding watch_round
watch_round-IsSound changed w d h =
    follow_quantum-IsSound (follow_default (reload changed w d))
      (follow_default-IsSound (reload changed w d) (reload-IsSound changed w d h))
