-- ===== src/Driver/Lifecycle.antt =====
-- src/asio.c: the states that a host can bring the driver into, and what holds in each.
use pipeasio.Prelude.{ℕ, ◌≡◌, Bool, true, Option, none, some, List, length, ℤ}
use pipeasio.Audio.Activation.{IsIdle, IsServing}
use pipeasio.Audio.Filter.{Position, begin_process, end_process}
use pipeasio.Audio.Registry.{GlobalEvent, on_events}
use pipeasio.Audio.{Client, CycleBuffer}
use pipeasio.Driver.Buffers.{BufferInfo, CreateAnswers, create_buffers, dispose_buffers, map_client}
use pipeasio.Driver.Init.{InitAnswers, init, add_ref, release, kept}
use pipeasio.Driver.Transport.{
  HostCall, Device, start, stop, process_callback, sample_rate_callback,
}
use pipeasio.Driver.Watch.{Watcher, watch_round}
use pipeasio.Driver.{
  Driver, DriverState, loaded, initialized, prepared, running, Sample, created, to_uint32,
}
use pipeasio.Config.{Config}

-- The channel arrays have the configured lengths.
abbrev pub AreSized : Driver → Type 0
AreSized d =
    (length d.input_channels ≡ d.number_inputs) × (length d.output_channels ≡ d.number_outputs)

abbrev pub IsOpen : Option Client → Type 0
IsOpen none = ⊥
IsOpen (some c) = IsIdle c

abbrev pub IsPlaying : ℤ → Option Client → Type 0
IsPlaying size none = ⊥
IsPlaying size (some c) = IsServing (to_uint32 size) c

abbrev pub HasMemory : Option (List Sample) → Type 0
HasMemory none = ⊥
HasMemory (some m) = Unit {0}

-- What each state promises: an initialized driver has an idle audio client; from Prepared on, the
-- client's filter runs on the driver's buffer size, and the host's callbacks and the block are there.
abbrev pub Promise : DriverState → Driver → Type 0
Promise loaded d = Unit {0}
Promise initialized d = AreSized d × IsOpen d.client
Promise prepared d =
    AreSized d
    × IsPlaying d.current_buffersize d.client
    × (d.callbacks ≡ true)
    × HasMemory d.callback_buffer
Promise running d =
    AreSized d
    × IsPlaying d.current_buffersize d.client
    × (d.callbacks ≡ true)
    × HasMemory d.callback_buffer

abbrev pub IsSound : Driver → Type 0
IsSound d = Promise d.state d

-- A cycle of the graph: audio_on_process with the driver's callback in it, on the frames that the
-- client has. The callback's own changes of the client are none.
unfoldable pub graph_cycle :
    (HostCall → List Sample → List Sample)
    → Option Position
    → (ℕ → Option CycleBuffer)
    → Device
    → Driver
    → Driver
unfolding begin_process end_process process_callback
graph_cycle host position dequeued v d = elim d.client [
  | none ↦ d
  | some c ↦
      let c' = begin_process position dequeued c in
      record (process_callback host c'.buffer_size v (record d { client = some c' })).driver {
        client = some (end_process c').1;
      }
]

-- What the host, the graph and the watcher can do.
pub data Step : Driver → Driver → Type 0 where
  inits : (a : InitAnswers) (d : Driver) → Step d (init a d).1
  creates :
      (w : CreateAnswers) (given : Bool) (bs : List BufferInfo) (size : ℤ) (d : Driver)
      → Step d (create_buffers w given bs size d).driver
  starts : (host : HostCall → List Sample → List Sample) (d : Driver) → Step d (start host d).driver
  stops : (d : Driver) → Step d (stop d).1
  disposes : (d : Driver) → Step d (dispose_buffers d).1
  refers : (d : Driver) → Step d (add_ref d)
  releases : (left : ℕ) (d e : Driver) → release d ≡ kept left e → Step d e
  cycles :
      (host : HostCall → List Sample → List Sample) (position : Option Position)
      (dequeued : ℕ → Option CycleBuffer) (v : Device) (d : Driver)
      → Step d (graph_cycle host position dequeued v d)
  hears :
      (es : List GlobalEvent) (d : Driver)
      → Step d (record d { client = map_client (on_events es) d.client })
  rates : (rate : ℕ) (d : Driver) → Step d (sample_rate_callback rate d).1
  watches :
      (changed : Option Config) (w : Watcher) (d : Driver) → Step d (watch_round changed w d).driver

pub data Reach : Driver → Type 0 where
  begins : Reach created
  goes : {d e : Driver} → Reach d → Step d e → Reach e
