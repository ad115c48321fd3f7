-- ===== src/Bridge/Refinement.antt =====
-- src/wow64 against src/asio.c: a bridge cycle that meets its deadline is the native cycle.
use pipeasio.Prelude.{
  ℕ, suc, ◌+◌, ◌*◌, ◌%◌, ◌^◌, ◌<◌, ◌≡◌, ◌≢◌, refl, ap, ◌∙◌, Bool, true, false, ◌&&◌, Option, none,
  some, List, [], ◌∷◌, if◌then◌else◌, length, is_some, pos, arith, Bool-cases, inl, inr,
}
use pipeasio.Bridge.Pump.{Callbacks, pump_serve, prompt_invoke, from_hi_lo}
use pipeasio.Bridge.Rt.{
  Context, RtCycle, half_index, input_place, gather_ports, scatter_ports, rt_process,
}
use pipeasio.Bridge.Sync.{invoke_post, invoke_finish, take_event, reply}
use pipeasio.Buffer.Copy.{gather}
use pipeasio.Buffer.Offsets.{
  host_input_offset_samples, host_output_offset_samples, host_half_offset_samples,
}
use pipeasio.Driver.Queries.{to_hi_lo}
use pipeasio.Driver.Transport.{
  HostCall, Device, client_time, pool, host_buffer_switch, gather_inputs, scatter_outputs,
  process_callback,
}
use pipeasio.Driver.{Driver, IoChannel, running, Sample}

-- An active channel has a port and its place in the callback buffer.
abbrev Placed : IoChannel → Option ℕ → Bool → ℕ → Type 0
Placed ch port active place =
    (active ≡ ch.active)
    × (port ≡ ch.port)
    × (ch.active ≡ true → is_some ch.port ≡ true)
    × (ch.active ≡ true → ch.audio_buffer ≡ some place)

-- The context's arrays hold the driver's channels, from `i` on.
abbrev InputsFrom : Context → ℕ → List IoChannel → Type 0
InputsFrom cc i [] = Unit {0}
InputsFrom cc i (ch ∷ chs) =
    Placed ch (cc.in_port i) (cc.in_active i) (host_input_offset_samples i cc.buffer_size)
    × InputsFrom cc (suc i) chs

abbrev OutputsFrom : Context → ℕ → List IoChannel → Type 0
OutputsFrom cc i [] = Unit {0}
OutputsFrom cc i (ch ∷ chs) =
    Placed ch (cc.out_port i) (cc.out_active i)
      (host_output_offset_samples i cc.n_in cc.buffer_size)
    × OutputsFrom cc (suc i) chs

-- What PAU_PORT_REGISTER, PAU_BIND_RT and PAU_INSTALL_CALLBACKS have set up for the driver's buffers of
-- `nframes` frames; both sides are at the same half and the same time.
pub record IsBound (cc : Context) (d : Driver) (nframes : ℕ) : Type 0 where
  pub based : cc.buffer_base ≢ 0
  pub frames : cc.buffer_size ≡ nframes
  pub small : nframes < 2 ^ 32
  pub ins : cc.n_in ≡ length d.input_channels
  pub outs : cc.n_out ≡ length d.output_channels
  pub inputs : InputsFrom cc 0 d.input_channels
  pub outputs : OutputsFrom cc 0 d.output_channels
  pub same_half : d.buffer_index ≡ half_index cc.half
  pub same_time : cc.client.last_clock_nsec ≡ client_time d.client
  pub up : cc.sync.sync_init ≡ true
  pub callbacks : cc.sync.installed ≡ true
  pub open_for_events : cc.sync.shutdown ≡ false

half_place :
    (b : Bool) (nframes : ℕ)
    → nframes < 2 ^ 32
    → host_half_offset_samples (half_index b) nframes ≡ (nframes * half_index b) % 2 ^ 32
unfolding host_half_offset_samples
half_place true nframes h = omega arith
half_place false nframes h = omega arith

gather_ports-gather_inputs :
    (cc : Context) (v : Device) (nframes : ℕ) (chs : List IoChannel) (i : ℕ) (m : List Sample)
    → cc.buffer_size ≡ nframes
    → nframes < 2 ^ 32
    → InputsFrom cc i chs
    → gather_ports (length chs) i nframes v cc m
      ≡ gather_inputs nframes (half_index cc.half) v chs m
unfolding gather_ports gather_inputs
gather_ports-gather_inputs cc v nframes [] i m f h b = refl
gather_ports-gather_inputs cc v nframes (ch ∷ chs) i m f h b =
    let native : List Sample =
      if ch.active
      then elim ch.audio_buffer [
        | none ↦ m
        | some off ↦
            gather 0 m (off + (nframes * half_index cc.half) % 2 ^ 32) (v.mapped ch.port)
              (v.avail ch.port) nframes
      ]
      else m in
    let here : (if cc.in_active i && is_some (cc.in_port i)
          then gather 0 m (input_place cc i) (v.mapped (cc.in_port i)) (v.avail (cc.in_port i))
              nframes
          else m)
        ≡ native =
      elim (Bool-cases ch.active) [
        | inl on ↦ ground (arith, b.0.0, b.0.1, b.0.2 on, b.0.3 on, half_place cc.half nframes h)
        | inr off ↦ ground (arith, b.0.0)
      ] in
    ap (gather_ports (length chs) (suc i) nframes v cc) here
    ∙ gather_ports-gather_inputs cc v nframes chs (suc i) native f h b.1

scatter_ports-scatter_outputs :
    (cc : Context) (v : Device) (nframes : ℕ) (m : List Sample) (chs : List IoChannel) (i : ℕ)
    → cc.buffer_size ≡ nframes
    → nframes < 2 ^ 32
    → OutputsFrom cc i chs
    → scatter_ports (length chs) i nframes v cc m
      ≡ scatter_outputs nframes (half_index cc.half) v m chs
unfolding scatter_ports scatter_outputs
scatter_ports-scatter_outputs cc v nframes m [] i f h b = refl
scatter_ports-scatter_outputs cc v nframes m (ch ∷ chs) i f h b =
    let ih = scatter_ports-scatter_outputs cc v nframes m chs (suc i) f h b.1 in
    elim (Bool-cases ch.active) [
      | inl on ↦ ground (arith, ih, b.0.0, b.0.1, b.0.2 on, b.0.3 on, half_place cc.half nframes h)
      | inr off ↦ ground (arith, ih, b.0.0)
    ]

pub from-to_hi_lo : (n : ℕ) → from_hi_lo (to_hi_lo n) ≡ n
unfolding from_hi_lo to_hi_lo
from-to_hi_lo n = omega arith

-- A prompt exchange for a running driver that is open for events is the host's switch of its buffers.
prompt_invoke-switch :
    (host : HostCall → List Sample → List Sample) (cbs : Callbacks) (h : ℕ) (cc : Context)
    (nframes time : ℕ) (m : List Sample) (d : Driver)
    → cc.sync.sync_init ≡ true
    → cc.sync.installed ≡ true
    → cc.sync.shutdown ≡ false
    → d.state ≡ running
    → let i =
        prompt_invoke host cbs h
          (record {
            kind = 0;
            index = half_index cc.half;
            nframes = nframes;
            time_nsec = time;
            value = pos 0;
          })
          cc.sync
          m
          d in
      let r = host_buffer_switch (half_index cc.half) nframes time d in
      (i.produced ≡ 1) × (i.memory ≡ host r.0 m) × (i.other ≡ r.1)
unfolding prompt_invoke invoke_post take_event pump_serve reply invoke_finish
prompt_invoke-switch host cbs h cc nframes time m d up inst op run =
    ground (arith, from-to_hi_lo time)

-- A cycle of the 64-bit side whose exchange is prompt.
abbrev pub bridged :
    (HostCall → List Sample → List Sample)
    → Callbacks
    → ℕ
    → ℕ
    → Device
    → Context
    → Driver
    → RtCycle Driver
bridged host cbs h nframes v cc d = rt_process (prompt_invoke host cbs h) nframes v cc (pool d) d

-- Where the context is bound to a running driver's buffers, a cycle of the bridge whose exchange meets its
-- deadline does what the native cycle does: the device's outputs get the same samples, the callback
-- buffer has the same content, both are at the same half afterwards, and the driver is the native
-- one but for that buffer and half, which the 64-bit side keeps.
pub rt_process-process_callback :
    (host : HostCall → List Sample → List Sample) (cbs : Callbacks) (h nframes : ℕ) (v : Device)
    (cc : Context) (d : Driver)
    → IsBound cc d nframes
    → d.state ≡ running
    → let native = process_callback host nframes v d in
      let r = bridged host cbs h nframes v cc d in
      (r.written ≡ native.written)
      × (some r.memory ≡ native.driver.callback_buffer)
      × (half_index r.context.half ≡ native.driver.buffer_index)
      × (record r.other {
        callback_buffer = native.driver.callback_buffer;
        buffer_index = native.driver.buffer_index;
      }
          ≡ native.driver)
unfolding rt_process process_callback
rt_process-process_callback host cbs h nframes v cc d b run =
    let time = client_time d.client in
    let g = gather_inputs nframes (half_index cc.half) v d.input_channels (pool d) in
    let gathered : gather_ports cc.n_in 0 nframes v cc (pool d) ≡ g =
      ap (λ (n : ℕ). gather_ports n 0 nframes v cc (pool d)) b.ins
      ∙ (gather_ports-gather_inputs cc v nframes d.input_channels 0 (pool d) b.frames b.small
          b.inputs) in
    let sw =
      prompt_invoke-switch host cbs h cc nframes time g d b.up b.callbacks b.open_for_events run in
    let m = host (host_buffer_switch (half_index cc.half) nframes time d).0 g in
    let scattered : scatter_ports cc.n_out 0 nframes v cc m
        ≡ scatter_outputs nframes (half_index cc.half) v m d.output_channels =
      ap (λ (n : ℕ). scatter_ports n 0 nframes v cc m) b.outs
      ∙ (scatter_ports-scatter_outputs cc v nframes m d.output_channels 0 b.frames b.small
          b.outputs) in
    ground (arith, gathered, sw.0, sw.1, sw.2, scattered, b.based, b.same_time, b.same_half)
