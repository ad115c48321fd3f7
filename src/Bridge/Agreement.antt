-- ===== src/Bridge/Agreement.antt =====
-- src/wow64 behind include/audio.h: a run of calls made through the bridge answers what the client answers.
use mathlib.Core.Path.{ap₂}
use pipeasio.Prelude.{
  ℕ, zero, suc, ◌^◌, ◌≤◌, ◌<◌, ◌≡◌, refl, ap, ◌∙◌, Bool, true, false, Option, none, some, List, [],
  ◌∷◌, length, take, arith, inl, inr,
}
use pipeasio.Audio.{
  Client, set_buffer_size, set_forced_rate, set_follow_device, take_default_changed,
}
use pipeasio.Audio.Ports.{Link, get_ports, get_device_ports}
use pipeasio.Bridge.Calls.{Unix, put_client}
use pipeasio.Bridge.Interface.{
  run_native, run_bridged, RunFits, AudioCall, get_sample_rate, get_buffer_size, set_buffer_size_to,
  set_forced_rate_to, set_follow_device_to, observed_quantum, default_changed, get_time_nsec,
  get_client_name, connect_ports, list_ports, list_device_ports, native_call, bridged_call,
  StandsFor, Agrees, CallFits, AnswerFits, FitsBlob, IsShort, listed, truth, number, text, names,
}
use pipeasio.Bridge.PortList.{
  pack_ports, build_port_array, blob_of, wire_size, build_port_array-pack_ports,
}
use pipeasio.Config.Reading.{copy_str-fits}
use pipeasio.Bridge.Refinement.{from-to_hi_lo}
use pipeasio.Bridge.Proxy.{Proxy}
use pipeasio.Config.{Bytes}

-- A call that writes the client back into its context.
StandsFor-put :
    (x : Proxy) (c c' : Client) (u : Unix) (s : StandsFor x c u)
    → StandsFor x c' (put_client u s.address s.ctx c')
StandsFor-put x c c' u s = record {
  address = s.address;
  ctx = record s.ctx { client = c' };
  token = s.token;
  alive = ground arith;
  client = refl;
}

take_all : (l : List Bytes) (k : ℕ) → length l ≤ k → take k l ≡ l
take_all [] zero h = refl
take_all [] (suc k) h = refl
take_all (x ∷ l) zero h = absurd (omega arith)
take_all (x ∷ l) (suc k) h = ap (λ (t : List Bytes). x ∷ t) (take_all l k (omega arith))

wire_size-take : (l : List Bytes) (k : ℕ) → wire_size (take k l) ≤ wire_size l
wire_size-take [] zero = omega arith
wire_size-take [] (suc k) = omega arith
wire_size-take (x ∷ l) zero = omega arith
wire_size-take (x ∷ l) (suc k) = omega (arith, wire_size-take l k)

-- A list that fits arrives whole.
listed_wire :
    (o : Option (List Bytes))
    → FitsBlob (listed o)
    → listed (build_port_array true (λ i. true) (pack_ports o).0 (blob_of (pack_ports o).1))
      ≡ listed o
unfolding build_port_array pack_ports
listed_wire none h = refl
listed_wire (some l) h =
    let r = build_port_array-pack_ports (λ i. true) l (λ i. refl) h.0 in
    let k = (pack_ports (some l)).0 in
    let whole : length l ≤ k = elim r.2 [
      | inl e ↦ omega (arith, e)
      | inr over ↦ absurd (omega (arith, over, h.1, wire_size-take l (suc k)))
    ] in
    ap listed r.0 ∙ take_all l k whole

module _ (ok : Link → Bool) (x : Proxy) (c : Client) (u : Unix) (s : StandsFor x c u) where
  ask_sample_rate :
      Agrees x u (bridged_call ok get_sample_rate x u) (native_call ok get_sample_rate c)
  unfolding bridged_call native_call
  ask_sample_rate = simp (s.token, s.alive, s.client) (record { same_answer = refl; stands = s })

  set_size :
      (n : ℕ)
      → Agrees x u
          (bridged_call ok (set_buffer_size_to n) x u)
          (native_call ok (set_buffer_size_to n) c)
  unfolding bridged_call native_call
  set_size n =
      simp (s.token, s.alive, s.client)
        (record {
          same_answer = ap truth (ground arith);
          stands = StandsFor-put x c (set_buffer_size n c).1 u s;
        })

  set_rate :
      (n : ℕ)
      → Agrees x u
          (bridged_call ok (set_forced_rate_to n) x u)
          (native_call ok (set_forced_rate_to n) c)
  unfolding bridged_call native_call
  set_rate n = record {
    same_answer = refl;
    stands = simp (s.token, s.alive, s.client) (StandsFor-put x c (set_forced_rate n c) u s);
  }

  follow :
      (b : Bool)
      → Agrees x u
          (bridged_call ok (set_follow_device_to b) x u)
          (native_call ok (set_follow_device_to b) c)
  unfolding bridged_call native_call
  follow true = record {
    same_answer = refl;
    stands = simp (s.token, s.alive, s.client) (StandsFor-put x c (set_follow_device true c) u s);
  }
  follow false = record {
    same_answer = refl;
    stands = simp (s.token, s.alive, s.client) (StandsFor-put x c (set_follow_device false c) u s);
  }

  take_change : Agrees x u (bridged_call ok default_changed x u) (native_call ok default_changed c)
  unfolding bridged_call native_call
  take_change =
      simp (s.token, s.alive, s.client)
        (record {
          same_answer = ap truth (ground arith);
          stands = StandsFor-put x c (take_default_changed c).1 u s;
        })

  ask_time : Agrees x u (bridged_call ok get_time_nsec x u) (native_call ok get_time_nsec c)
  unfolding bridged_call native_call
  ask_time =
      simp (s.token, s.alive, s.client)
        (record { same_answer = ap number (from-to_hi_lo c.last_clock_nsec); stands = s })

  ask_name :
      IsShort c.name
      → Agrees x u (bridged_call ok get_client_name x u) (native_call ok get_client_name c)
  unfolding bridged_call native_call
  ask_name h =
      simp (s.token, s.alive, s.client)
        (record { same_answer = ap text (simp (copy_str-fits c.name h) refl); stands = s })

  link :
      (src dst : Bytes)
      → IsShort src
      → IsShort dst
      → Agrees x u
          (bridged_call ok (connect_ports src dst) x u)
          (native_call ok (connect_ports src dst) c)
  unfolding bridged_call native_call
  link src dst h k =
      simp (s.token, s.alive)
        (record {
          same_answer =
              ap truth (ground (arith, copy_str-fits src h, copy_str-fits dst k, s.client));
          stands = s;
        })

  list :
      (flags : ℕ)
      → flags < 2 ^ 32
      → FitsBlob (listed (get_ports true flags c))
      → Agrees x u (bridged_call ok (list_ports flags) x u) (native_call ok (list_ports flags) c)
  unfolding bridged_call native_call
  list flags h k =
      simp (s.token, s.alive, s.client)
        (record {
          same_answer = ap names (ground (arith, listed_wire (get_ports true flags c) k));
          stands = s;
        })

  list_device :
      (node : Bytes) (flags : ℕ)
      → IsShort node
      → flags < 2 ^ 32
      → FitsBlob (listed (get_device_ports true node flags c))
      → Agrees x u
          (bridged_call ok (list_device_ports node flags) x u)
          (native_call ok (list_device_ports node flags) c)
  unfolding bridged_call native_call
  list_device node flags h l k =
      simp (s.token, s.alive, s.client)
        (record {
          same_answer = ap names (
              ground
                (arith, copy_str-fits node h, listed_wire (get_device_ports true node flags c) k));
          stands = s;
        })

  ask_size : Agrees x u (bridged_call ok get_buffer_size x u) (native_call ok get_buffer_size c)
  unfolding bridged_call native_call
  ask_size = simp (s.token, s.alive, s.client) (record { same_answer = refl; stands = s })

  ask_quantum :
      Agrees x u (bridged_call ok observed_quantum x u) (native_call ok observed_quantum c)
  unfolding bridged_call native_call
  ask_quantum = simp (s.token, s.alive, s.client) (record { same_answer = refl; stands = s })

  any_call :
      (k : AudioCall)
      → CallFits k
      → AnswerFits (native_call ok k c).0
      → Agrees x u (bridged_call ok k x u) (native_call ok k c)
  unfolding native_call
  any_call get_sample_rate f a = ask_sample_rate
  any_call get_buffer_size f a = ask_size
  any_call (set_buffer_size_to n) f a = set_size n
  any_call (set_forced_rate_to n) f a = set_rate n
  any_call (set_follow_device_to b) f a = follow b
  any_call observed_quantum f a = ask_quantum
  any_call default_changed f a = take_change
  any_call get_time_nsec f a = ask_time
  any_call get_client_name f a = ask_name a
  any_call (connect_ports src dst) f a = link src dst f.0 f.1
  any_call (list_ports flags) f a = list flags f a
  any_call (list_device_ports node flags) f a = list_device node flags f.0 f.1 a

-- About twelve calls of audio.h: the queries for the rate, the size, the quantum, a changed default, the
-- time and the client's name; the setters of the size, the forced rate and the followed device; the
-- connection of two ports, and the two lists of ports. Where a proxy's handle is a token of a live
-- context with the client, memory is there, the texts of the calls and of their answers are shorter
-- than the fields of the wire and the lists of ports fit the blob: a run of these calls through the
-- bridge gives the answers that the client itself gives, with a null list counted as an empty one,
-- and leaves the proxy with the client that the same calls leave, which has called its callback for
-- the size with the same values.
pub run_bridged-run_native :
    (ok : Link → Bool) (ks : List AudioCall) (x : Proxy) (c : Client) (u : Unix)
    → StandsFor x c u
    → RunFits ok ks c
    → ((run_bridged ok ks x u).0 ≡ (run_native ok ks c).0)
      × StandsFor x (run_native ok ks c).1 (run_bridged ok ks x u).1
unfolding run_bridged run_native
run_bridged-run_native ok [] x c u s f = (refl, s)
run_bridged-run_native ok (k ∷ ks) x c u s f =
    let h = any_call ok x c u s k f.0 f.1 in
    let rest =
      run_bridged-run_native ok ks x (native_call ok k c).1 (bridged_call ok k x u).1 h.stands
        f.2 in
    (ap₂ ◌∷◌ h.same_answer rest.0, rest.1)
