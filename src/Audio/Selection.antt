-- ===== src/Audio/Selection.antt =====
-- src/audio.c: the two passes of audio_get_ports and audio_get_device_ports agree, and what they
-- choose.
use pipeasio.Prelude.{
  ℕ, zero, suc, ◌+◌, ◌≡◌, refl, sym, ap, ◌∙◌, true, false, ◌&&◌, some, List, [], ◌∷◌, arith, ◌==◌,
  if◌then◌else◌, Bool-cases, inl, inr, length, All, ◌≢◌, ℕ_discrete,
}
use pipeasio.Audio.Ports.{
  has_flags, settle, taken, count_pass, fill_pass, two_passes, get_ports, get_device_ports,
  node_named,
}
use pipeasio.Audio.{Port, Client, id_invalid}
use pipeasio.Config.Text.{str_eq}
use pipeasio.Config.{Bytes}

-- The ports of one node that have the flags, in order.
unfoldable pub ports_of : ℕ → ℕ → List Port → List Bytes
ports_of flags node [] = []
ports_of flags node (p ∷ ps) =
    let rest = ports_of flags node ps in
    if has_flags flags p && p.node_id == node then p.name ∷ rest else rest

-- The node of the first port with the flags.
unfoldable pub first_node : ℕ → List Port → ℕ
first_node flags [] = id_invalid
first_node flags (p ∷ ps) = if has_flags flags p then p.node_id else first_node flags ps

-- The bytes of the names, each with its terminator.
unfoldable pub names_size : List Bytes → ℕ
names_size [] = 0
names_size (s ∷ ss) = length s + 1 + names_size ss

-- What the passes take when they stop at nothing.
unfoldable chosen : ℕ → ℕ → List Port → List Bytes
chosen flags target [] = []
chosen flags target (p ∷ ps) =
    let rest = chosen flags (if taken flags target p then settle target p else target) ps in
    if taken flags target p then p.name ∷ rest else rest

count_pass-chosen :
    (flags target : ℕ) (ps : List Port)
    → count_pass flags target ps
      ≡ (length (chosen flags target ps), names_size (chosen flags target ps))
unfolding count_pass chosen names_size
count_pass-chosen flags target [] = refl
count_pass-chosen flags target (p ∷ ps) = elim (Bool-cases (taken flags target p)) [
  | inl e ↦ rw (e, count_pass-chosen flags (settle target p) ps) refl
  | inr e ↦ rw (e, count_pass-chosen flags target ps) refl
]

fill_pass-skip :
    (flags target room : ℕ) (p : Port) (ps : List Port)
    → taken flags target p ≡ false
    → fill_pass flags target room (p ∷ ps) ≡ fill_pass flags target room ps
unfolding fill_pass
fill_pass-skip flags target zero p [] e = refl
fill_pass-skip flags target zero p (q ∷ ps) e = refl
fill_pass-skip flags target (suc room) p ps e = rw e refl

fill_pass-take :
    (flags target room : ℕ) (p : Port) (ps : List Port)
    → taken flags target p ≡ true
    → fill_pass flags target (suc room) (p ∷ ps)
      ≡ p.name ∷ fill_pass flags (settle target p) room ps
unfolding fill_pass
fill_pass-take flags target room p ps e = rw e refl

fill_pass-chosen :
    (flags target : ℕ) (ps : List Port)
    → fill_pass flags target (length (chosen flags target ps)) ps ≡ chosen flags target ps
unfolding chosen fill_pass
fill_pass-chosen flags target [] = refl
fill_pass-chosen flags target (p ∷ ps) = elim (Bool-cases (taken flags target p)) [
  | inl e ↦
      let t = settle target p in
      rw e (
        fill_pass-take flags target (length (chosen flags t ps)) p ps e
        ∙ ap (p.name ∷◌) (fill_pass-chosen flags t ps))
  | inr e ↦
      rw (e, fill_pass-skip flags target (length (chosen flags target ps)) p ps e)
        (fill_pass-chosen flags target ps)
]

two_passes-chosen :
    (flags target : ℕ) (ps : List Port)
    → fill_pass flags target (count_pass flags target ps).0 ps ≡ chosen flags target ps
two_passes-chosen flags target ps =
    ap (λ (r : ℕ × ℕ). fill_pass flags target r.0 ps) (count_pass-chosen flags target ps)
    ∙ fill_pass-chosen flags target ps

-- The second pass writes as many names as the first has counted, and they need exactly the bytes
-- that the first has summed, so the block that is allocated between the passes holds them.
pub count_pass-fill_pass :
    (flags target : ℕ) (ps : List Port)
    → count_pass flags target ps ≡ (
      length (fill_pass flags target (count_pass flags target ps).0 ps),
      names_size (fill_pass flags target (count_pass flags target ps).0 ps),
    )
count_pass-fill_pass flags target ps =
    count_pass-chosen flags target ps
    ∙ sym (
        ap (λ (names : List Bytes). (length names, names_size names))
          (two_passes-chosen flags target ps))

chosen-ports_of :
    (flags target : ℕ) (ps : List Port)
    → target ≢ id_invalid
    → chosen flags target ps ≡ ports_of flags target ps
unfolding chosen ports_of
chosen-ports_of flags target [] ne = refl
chosen-ports_of flags target (p ∷ ps) ne = ground (arith, chosen-ports_of flags target ps ne)

-- No discovered port is on the node id that stands for none.
abbrev pub HaveNodes : List Port → Type 0
HaveNodes ps = All (λ (p : Port). p.node_id ≢ id_invalid) ps

chosen-first_node :
    (flags : ℕ) (ps : List Port)
    → HaveNodes ps
    → chosen flags id_invalid ps ≡ ports_of flags (first_node flags ps) ps
unfolding chosen ports_of first_node
chosen-first_node flags [] h = refl
chosen-first_node flags (p ∷ ps) h = elim (Bool-cases (has_flags flags p)) [
  | inl e ↦
      let here : first_node flags (p ∷ ps) ≡ p.node_id = rw e refl in
      let own : (p.node_id == p.node_id) ≡ true = ground arith in
      let both : chosen flags id_invalid (p ∷ ps) ≡ ports_of flags p.node_id (p ∷ ps) =
        rw (e, own) (ap (p.name ∷◌) (chosen-ports_of flags p.node_id ps h.0)) in
      both ∙ sym (ap (λ (n : ℕ). ports_of flags n (p ∷ ps)) here)
  | inr e ↦
      let here : first_node flags (p ∷ ps) ≡ first_node flags ps = rw e refl in
      let node = first_node flags ps in
      let both : chosen flags id_invalid (p ∷ ps) ≡ ports_of flags node (p ∷ ps) =
        rw e (chosen-first_node flags ps h.1) in
      both ∙ sym (ap (λ (n : ℕ). ports_of flags n (p ∷ ps)) here)
]

two_passes-ports_of :
    (flags target : ℕ) (ps : List Port)
    → HaveNodes ps
    → (node : ℕ) × (two_passes true flags target ps ≡ some (ports_of flags node ps))
two_passes-ports_of flags target ps h = elim (ℕ_discrete target id_invalid) [
  | yes e ↦ (
    first_node flags ps,
    ap some (
        ap (λ (t : ℕ). fill_pass flags t (count_pass flags t ps).0 ps) e
        ∙ two_passes-chosen flags id_invalid ps
        ∙ chosen-first_node flags ps h),
  )
  | no e ↦ (target, ap some (two_passes-chosen flags target ps ∙ chosen-ports_of flags target ps e))
]

-- Where every discovered port is on a node, the ports that a search by direction returns are, for one
-- node, exactly the ports of that node with the flags, in the order of their discovery: never ports
-- of two devices.
pub get_ports-ports_of :
    (flags : ℕ) (c : Client)
    → HaveNodes c.discovered
    → (node : ℕ) × (get_ports true flags c ≡ some (ports_of flags node c.discovered))
unfolding get_ports
get_ports-ports_of flags c h = two_passes-ports_of flags _ c.discovered h

-- Where every discovered port is on a node, a search by a device's name, whether the name is known,
-- unknown or empty, also returns exactly the ports of one node with the flags, in their order.
pub get_device_ports-ports_of :
    (name : Bytes) (flags : ℕ) (c : Client)
    → HaveNodes c.discovered
    → (node : ℕ) × (get_device_ports true name flags c ≡ some (ports_of flags node c.discovered))
unfolding get_device_ports
get_device_ports-ports_of name flags c h = elim (Bool-cases (str_eq name [])) [
  | inl e ↦ rw e (get_ports-ports_of flags c h)
  | inr e ↦ elim (Bool-cases (node_named c.nodes name == id_invalid)) [
    | inl f ↦ rw (e, f) (get_ports-ports_of flags c h)
    | inr f ↦ rw (e, f) (two_passes-ports_of flags (node_named c.nodes name) c.discovered h)
  ]
]
