-- ===== src/Driver/Following.antt =====
-- src/asio.c: while following a device, the watcher and CreateBuffers agree on a size.
use pipeasio.Prelude.{
  eqb_ℤ_refl, ℕ, ◌≡◌, refl, sym, ◌∙◌, ap, Bool, true, false, not, ◌&&◌, ◌||◌, Option, none, some,
  List, [], ◌∷◌, arith, ℤ, pos, eqb_ℤ, ◌==◌, Bool-cases, inl, inr,
}
use pipeasio.Audio.Filter.{activate}
use pipeasio.Audio.{Client, set_buffer_size}
use pipeasio.Driver.Buffers.{
  BufferInfo, CreateAnswers, Sized, refused, sized, create_buffers, apply_pending_config, take_size,
  push_size, with_size, allocated, activate_client, activated, place_buffers, mark_requested, slots,
  check_channels, is_initialized, release_buffers,
}
use pipeasio.Driver.Configure.{apply_config_fields}
use pipeasio.Driver.Queries.{forced_size}
use pipeasio.Driver.Transport.{HostCall, is_running, start, prime}
use pipeasio.Driver.Watch.{Watcher, Round, sees_new_quantum, quantum}
use pipeasio.Driver.{Driver, Sample, ok, to_uint32}

last_false : (a b c d e : Bool) → d ≡ false → (a && b && c && d && e) ≡ false
last_false false b c d e h = refl
last_false true false c d e h = refl
last_false true true false d e h = refl
last_false true true true d e h = rw h refl

sees_new_quantum_settled :
    (r : Round) → r.driver.current_buffersize ≡ quantum r.driver.client → sees_new_quantum r ≡ false
unfolding sees_new_quantum
sees_new_quantum_settled r e =
    last_false r.driver.follow_device_clock (is_running r.driver.state)
      (not (eqb_ℤ (quantum r.driver.client) (pos 0)))
      (not (eqb_ℤ (quantum r.driver.client) r.driver.current_buffersize))
      (not (eqb_ℤ (quantum r.driver.client) r.watcher.last_reset_quantum))
      (ap (λ (z : ℤ). not (eqb_ℤ (quantum r.driver.client) z)) e
        ∙ ap not (eqb_ℤ_refl (quantum r.driver.client)))

forced_of : (q pref : ℤ) → eqb_ℤ q (pos 0) ≡ false → forced_size true q pref ≡ q
unfolding forced_size
forced_of q pref n = simp n refl

-- What apply_pending_config leaves in a driver that follows its device.
record Follows (z : ℤ) (d : Driver) : Type 0 where
  following : d.follow_device_clock ≡ true
  size : d.current_buffersize ≡ z

or_true : (a b : Bool) → b ≡ true → (a || b) ≡ true
or_true true b h = refl
or_true false b h = h

apply_pending_config-Follows :
    (d : Driver)
    → d.follow_device_clock ≡ true
    → d.config_pending ≡ false
    → eqb_ℤ d.follower_quantum (pos 0) ≡ false
    → Follows d.follower_quantum (apply_pending_config d)
unfolding apply_pending_config apply_config_fields
apply_pending_config-Follows d f p q =
    let either = or_true d.fixed_buffersize d.follow_device_clock f in
    simp (p, either)
      (record {
        following = f;
        size =
            ap (λ (b : Bool). forced_size b d.follower_quantum d.preferred_buffersize) f
            ∙ forced_of d.follower_quantum d.preferred_buffersize q;
      })

abbrev SizedSo : ℤ → Sized → Type 0
SizedSo z (refused code d) = d.current_buffersize ≡ z
SizedSo z (sized d) = d.current_buffersize ≡ z

push_size-SizedSo :
    (z size : ℤ) (d : Driver) (o : Option Client)
    → d.current_buffersize ≡ z
    → SizedSo z (push_size size d o)
unfolding set_buffer_size
push_size-SizedSo z size d none h = h
push_size-SizedSo z size d (some c) h = elim (Bool-cases (to_uint32 size == 0)) [
  | inl e ↦ simp e h
  | inr e ↦ simp e h
]

-- A driver that follows its device takes no other size than its own.
take_size-SizedSo : (z size : ℤ) (d : Driver) → Follows z d → SizedSo z (take_size size d)
unfolding take_size
take_size-SizedSo z size d h =
    let either = or_true d.fixed_buffersize d.follow_device_clock h.following in
    elim (Bool-cases (eqb_ℤ d.current_buffersize size)) [
      | inl f ↦ simp (either, f) (push_size-SizedSo z size d d.client h.size)
      | inr f ↦ simp (either, f) h.size
    ]

activated-size :
    (w : CreateAnswers) (given : List (Option (ℕ × ℕ))) (d : Driver) (r : Bool × Client)
    → (activated w given d r).driver.current_buffersize ≡ d.current_buffersize
unfolding release_buffers
activated-size w given d (true, c) = refl
activated-size w given d (false, c) = refl

activate_client-size :
    (w : CreateAnswers) (given : List (Option (ℕ × ℕ))) (d : Driver) (o : Option Client)
    → (activate_client w given d o).driver.current_buffersize ≡ d.current_buffersize
unfolding release_buffers
activate_client-size w given d none = refl
activate_client-size w given d (some c) = activated-size w given d (activate w.activation c)

mark_requested-size :
    (bs : List BufferInfo) (d : Driver)
    → (mark_requested bs d).current_buffersize ≡ d.current_buffersize
unfolding mark_requested
mark_requested-size [] d = refl
mark_requested-size (b ∷ bs) d = elim (Bool-cases b.is_input) [
  | inl e ↦ simp e (mark_requested-size bs _)
  | inr e ↦ simp e (mark_requested-size bs _)
]

place_buffers-size :
    (bs : List BufferInfo) (m : List Sample) (d : Driver)
    → (place_buffers bs m d).current_buffersize ≡ d.current_buffersize
unfolding place_buffers
place_buffers-size bs m d = mark_requested-size bs _

allocated-size :
    (w : CreateAnswers) (bs : List BufferInfo) (d : Driver) (o : Option (List Sample))
    → (allocated w bs d o).driver.current_buffersize ≡ d.current_buffersize
allocated-size w bs d none = refl
allocated-size w bs d (some m) =
    let d' = place_buffers bs m d in
    activate_client-size w (slots bs d') d' d'.client ∙ place_buffers-size bs m d

with_size-size :
    (w : CreateAnswers) (bs : List BufferInfo) (r : Sized) (z : ℤ)
    → SizedSo z r
    → (with_size w bs r).driver.current_buffersize ≡ z
with_size-size w bs (refused code d) z h = h
with_size-size w bs (sized d) z h =
    allocated-size w bs (record d { callbacks = true; time_info_mode = w.time_info }) w.memory ∙ h

create_buffers-size :
    (w : CreateAnswers) (given : Bool) (bs : List BufferInfo) (size z : ℤ) (d : Driver)
    → Follows z (apply_pending_config d)
    → eqb_ℤ (create_buffers w given bs size d).code ok ≡ true
    → (create_buffers w given bs size d).driver.current_buffersize ≡ z
unfolding create_buffers
create_buffers-size w given bs size z d h o =
    let d' = apply_pending_config d in
    elim (Bool-cases (is_initialized d.state)) [
      | inr f ↦ absurd (cc (simp f at o))
      | inl f ↦ elim (Bool-cases given) [
        | inr g ↦ absurd (cc (simp (f, g) at o))
        | inl g ↦ elim (Bool-cases (check_channels d'.number_inputs d'.number_outputs 0 0 bs)) [
          | inl k ↦
              simp (f, g, k)
                (with_size-size w bs (take_size size d') z (take_size-SizedSo z size d' h))
          | inr k ↦ absurd (cc (simp (f, g, k) at o))
        ]
      ]
    ]

start-size :
    (h : HostCall → List Sample → List Sample) (d : Driver)
    → (start h d).driver.current_buffersize ≡ d.current_buffersize
unfolding start prime
start-size h d = ground arith

-- A driver that follows its device, with no configuration pending, stores the device's quantum; CreateBuffers
-- succeeds and Start is called. Then the watcher asks for no new size in any later state with the same
-- size of the buffers, for as long as the device's quantum is the one that was stored.
pub create_buffers-sees_new_quantum :
    (w : CreateAnswers) (given : Bool) (bs : List BufferInfo) (size : ℤ) (d later : Driver)
    (h : HostCall → List Sample → List Sample) (watcher : Watcher)
    → d.follow_device_clock ≡ true
    → d.config_pending ≡ false
    → eqb_ℤ d.follower_quantum (pos 0) ≡ false
    → (create_buffers w given bs size d).code ≡ ok
    → later.current_buffersize
      ≡ (start h (create_buffers w given bs size d).driver).driver.current_buffersize
    → quantum later.client ≡ d.follower_quantum
    → sees_new_quantum (record { watcher = watcher; driver = later; reset = false }) ≡ false
create_buffers-sees_new_quantum w given bs size d later h watcher f p q o same held =
    sees_new_quantum_settled (record { watcher = watcher; driver = later; reset = false })
      (same
        ∙ start-size h (create_buffers w given bs size d).driver
        ∙ create_buffers-size w given bs size d.follower_quantum d
            (apply_pending_config-Follows d f p q) (ap (λ (z : ℤ). eqb_ℤ z ok) o)
        ∙ sym held)
