-- ===== src/Bridge/Interface.antt =====
-- include/audio.h as the driver sees it: the same calls, made of the client itself and made through the
-- bridge.
use pipeasio.Prelude.{
  ℕ, ◌^◌, ◌≤◌, ◌<◌, ◌≡◌, Bool, true, false, Option, none, some, List, [], ◌∷◌, length, All,
}
use pipeasio.Audio.{
  Client, set_buffer_size, set_forced_rate, set_follow_device, take_default_changed,
}
use pipeasio.Audio.Ports.{Link, connect, get_ports, get_device_ports}
use pipeasio.Bridge.Calls.{Unix}
use pipeasio.Bridge.PortList.{wire_size, IsName}
use pipeasio.Bridge.Proxy.{
  Proxy, Memory, audio_get_sample_rate, audio_get_buffer_size, audio_set_buffer_size,
  audio_set_forced_rate, audio_set_follow_device, audio_observed_quantum, audio_default_changed,
  audio_get_time_nsec, audio_get_client_name, audio_connect, audio_get_ports,
  audio_get_device_ports,
}
use pipeasio.Bridge.Rt.{Context}
use pipeasio.Bridge.Tokens.{context, tok_get}
use pipeasio.Bridge.{portname_max, ports_blob}
use pipeasio.Config.{Bytes}

-- The queries and setters of audio.h, and its calls on the ports of the graph. Those that make, change or
-- end a client and its own ports are not among them.
pub data AudioCall : Type 0 where
  get_sample_rate : AudioCall
  get_buffer_size : AudioCall
  set_buffer_size_to : ℕ → AudioCall
  set_forced_rate_to : ℕ → AudioCall
  set_follow_device_to : Bool → AudioCall
  observed_quantum : AudioCall
  default_changed : AudioCall
  get_time_nsec : AudioCall
  get_client_name : AudioCall
  connect_ports : (src dst : Bytes) → AudioCall
  list_ports : (flags : ℕ) → AudioCall
  list_device_ports : (node : Bytes) (flags : ℕ) → AudioCall

-- What a call returns. A null list of ports counts as an empty one.
pub data Answer : Type 0 where
  number : ℕ → Answer
  truth : Bool → Answer
  text : Bytes → Answer
  names : List Bytes → Answer
  nothing : Answer

abbrev pub listed : Option (List Bytes) → List Bytes
listed none = []
listed (some l) = l

abbrev pub linked : (Link → Bool) → Option Link → Bool
linked accepted none = false
linked accepted (some l) = accepted l

-- The call, made of the client; `accepted` is PipeWire's answer to a link, and memory is there.
unfoldable pub native_call : (Link → Bool) → AudioCall → Client → Answer × Client
native_call ok get_sample_rate c = (number c.sample_rate, c)
native_call ok get_buffer_size c = (number c.buffer_size, c)
native_call ok (set_buffer_size_to n) c = let r = set_buffer_size n c in (truth r.0, r.1)
native_call ok (set_forced_rate_to n) c = (nothing, set_forced_rate n c)
native_call ok (set_follow_device_to b) c = (nothing, set_follow_device b c)
native_call ok observed_quantum c = (number c.observed_quantum, c)
native_call ok default_changed c = let r = take_default_changed c in (truth r.0, r.1)
native_call ok get_time_nsec c = (number c.last_clock_nsec, c)
native_call ok get_client_name c = (text c.name, c)
native_call ok (connect_ports src dst) c = (truth (linked ok (connect c (some src) (some dst))), c)
native_call ok (list_ports flags) c = (names (listed (get_ports true flags c)), c)
native_call ok (list_device_ports node flags) c =
    (names (listed (get_device_ports true node flags c)), c)

abbrev pub enough : Memory
enough = record { block_ok = true; client_ok = true; array_ok = true; dup_ok = λ i. true }

abbrev tell : {A : Type 0} → (A → Answer) → A × Unix → Answer × Unix
tell f r = (f r.0, r.1)

-- The call, made of the proxy.
unfoldable pub bridged_call : (Link → Bool) → AudioCall → Proxy → Unix → Answer × Unix
unfolding audio_get_sample_rate audio_get_buffer_size audio_set_buffer_size audio_set_forced_rate
    audio_set_follow_device audio_observed_quantum audio_default_changed audio_get_time_nsec
    audio_get_client_name audio_connect audio_get_ports audio_get_device_ports
bridged_call ok get_sample_rate x u = tell number (audio_get_sample_rate (some x) u)
bridged_call ok get_buffer_size x u = tell number (audio_get_buffer_size (some x) u)
bridged_call ok (set_buffer_size_to n) x u = tell truth (audio_set_buffer_size n (some x) u)
bridged_call ok (set_forced_rate_to n) x u = (nothing, audio_set_forced_rate n (some x) u)
bridged_call ok (set_follow_device_to b) x u = (nothing, audio_set_follow_device b (some x) u)
bridged_call ok observed_quantum x u = tell number (audio_observed_quantum (some x) u)
bridged_call ok default_changed x u = tell truth (audio_default_changed (some x) u)
bridged_call ok get_time_nsec x u = tell number (audio_get_time_nsec (some x) u)
bridged_call ok get_client_name x u = tell text (audio_get_client_name (some x) u)
bridged_call ok (connect_ports src dst) x u =
    tell truth (audio_connect ok (some src) (some dst) (some x) u)
bridged_call ok (list_ports flags) x u =
    let r = audio_get_ports enough none none flags (some x) u in (names (listed r.0), r.1)
bridged_call ok (list_device_ports node flags) x u =
    let r = audio_get_device_ports enough (some node) flags (some x) u in (names (listed r.0), r.1)

-- The proxy stands for the client `c`: its handle is a token of a live context with that client.
pub record StandsFor (x : Proxy) (c : Client) (u : Unix) : Type 0 where
  pub address : ℕ
  pub ctx : Context
  pub token : tok_get u.tokens x.unix_client ≡ some (context address)
  pub alive : u.contexts address ≡ some ctx
  pub client : ctx.client ≡ c

-- What the fields of the wire can carry.
abbrev pub IsShort : Bytes → Type 0
IsShort s = length s < portname_max

abbrev pub FitsBlob : List Bytes → Type 0
FitsBlob l = All IsName l × (wire_size l ≤ ports_blob)

abbrev pub AnswerFits : Answer → Type 0
AnswerFits (number n) = Unit {0}
AnswerFits (truth b) = Unit {0}
AnswerFits (text s) = IsShort s
AnswerFits (names l) = FitsBlob l
AnswerFits nothing = Unit {0}

abbrev pub CallFits : AudioCall → Type 0
CallFits (connect_ports src dst) = IsShort src × IsShort dst
CallFits (list_ports flags) = flags < 2 ^ 32
CallFits (list_device_ports node flags) = IsShort node × (flags < 2 ^ 32)
CallFits _ = Unit {0}

-- A call that does on the bridge what it does of the client.
pub record Agrees (x : Proxy) (u : Unix) (bridged : Answer × Unix) (native : Answer × Client)
    : Type 0 where
  pub same_answer : bridged.0 ≡ native.0
  pub stands : StandsFor x native.1 bridged.1

-- A run of calls: the answers, and what is left.
unfoldable pub run_native : (Link → Bool) → List AudioCall → Client → List Answer × Client
unfolding native_call
run_native ok [] c = ([], c)
run_native ok (k ∷ ks) c =
    let r = native_call ok k c in let rest = run_native ok ks r.1 in (r.0 ∷ rest.0, rest.1)

unfoldable pub run_bridged : (Link → Bool) → List AudioCall → Proxy → Unix → List Answer × Unix
unfolding bridged_call
run_bridged ok [] x u = ([], u)
run_bridged ok (k ∷ ks) x u =
    let r = bridged_call ok k x u in let rest = run_bridged ok ks x r.1 in (r.0 ∷ rest.0, rest.1)

-- Each call of the run and its answer fit the wire.
abbrev pub RunFits : (Link → Bool) → List AudioCall → Client → Type 0
RunFits ok [] c = Unit {0}
RunFits ok (k ∷ ks) c =
    CallFits k × AnswerFits (native_call ok k c).0 × RunFits ok ks (native_call ok k c).1
