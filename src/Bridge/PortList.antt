-- ===== src/Bridge/PortList.antt =====
-- src/wow64: the list of port names on the wire; pack_ports of audio_unix.c writes it, build_port_array of
-- audio_proxy.c reads it.
use pipeasio.Prelude.{
  ℕ, zero, suc, ◌+◌, ◌-◌, ◌≤◌, ◌<◌, ◌≡◌, ◌≢◌, ◌⊎◌, inl, inr, refl, ap, Bool, true, Option, none,
  some, List, [], ◌∷◌, ◌++◌, ltb, if◌then◌else◌, length, take, drop, replicate, All, arith,
  Bool-cases,
}
use pipeasio.Bridge.{ports_blob}
use pipeasio.Config.Text.{until_nul}
use pipeasio.Config.{Bytes}

-- The loop of pack_ports with `room` bytes left: how many names it writes, and the bytes.
unfoldable pub pack_names : ℕ → List Bytes → ℕ × Bytes
pack_names room [] = (0, [])
pack_names room (n ∷ ns) =
    let rest = pack_names (room - (length n + 1)) ns in
    if ltb room (length n + 1) then (0, []) else (suc rest.0, n ++ 0 ∷ rest.1)

-- The list is null where the client had none to give.
unfoldable pub pack_ports : Option (List Bytes) → ℕ × Bytes
unfolding pack_names
pack_ports none = (0, [])
pack_ports (some names) = pack_names ports_blob names

-- The blob behind the call: the bytes, in the zeros that the caller has put there.
abbrev pub blob_of : Bytes → Bytes
blob_of packed = packed ++ replicate (ports_blob - length packed) 0

-- The loop of build_port_array; `dup_ok i` says that name i gets its memory.
unfoldable pub read_names : (ℕ → Bool) → ℕ → ℕ → Bytes → List Bytes
unfolding until_nul
read_names dup_ok i zero blob = []
read_names dup_ok i (suc left) blob =
    let name = until_nul blob in
    let rest = read_names dup_ok (suc i) left (drop (length name + 1) blob) in
    if dup_ok i then name ∷ rest else []

unfoldable pub build_port_array : Bool → (ℕ → Bool) → ℕ → Bytes → Option (List Bytes)
unfolding read_names
build_port_array arr_ok dup_ok count blob =
    if arr_ok then some (read_names dup_ok 0 count blob) else none

-- The bytes that the names take on the wire, each with its terminator.
abbrev pub wire_size : List Bytes → ℕ
wire_size [] = 0
wire_size (n ∷ ns) = length n + 1 + wire_size ns

abbrev pub IsName : Bytes → Type 0
IsName n = All (λ b. b ≢ 0) n

until_nul_lem : (n rest : Bytes) → IsName n → until_nul (n ++ 0 ∷ rest) ≡ n
unfolding until_nul
until_nul_lem [] rest h = refl
until_nul_lem (b ∷ bs) rest h = ground (arith, until_nul_lem bs rest h.1)

drop_lem : (n rest : Bytes) → drop (length n + 1) (n ++ 0 ∷ rest) ≡ rest
drop_lem [] rest = refl
drop_lem (b ∷ bs) rest =
    let e : suc (length bs) + 1 ≡ suc (length bs + 1) = omega arith in rw e (drop_lem bs rest)

append_assoc : (a b c : Bytes) → (a ++ b) ++ c ≡ a ++ (b ++ c)
append_assoc [] b c = refl
append_assoc (x ∷ a) b c = ap (λ (l : Bytes). x ∷ l) (append_assoc a b c)

-- What is written is the longest start of the list that fits.
pub pack_names_fit :
    (room : ℕ) (ns : List Bytes)
    → let k = (pack_names room ns).0 in
      (wire_size (take k ns) ≤ room) × ((k ≡ length ns) ⊎ (room < wire_size (take (suc k) ns)))
unfolding pack_names
pack_names_fit room [] = (omega arith, inl refl)
pack_names_fit room (n ∷ ns) =
    let ih = pack_names_fit (room - (length n + 1)) ns in ground (arith, ih.0, ih.1)

read-pack_names :
    (dup_ok : ℕ → Bool) (room : ℕ) (ns : List Bytes) (i : ℕ) (tail : Bytes)
    → ((j : ℕ) → dup_ok j ≡ true)
    → All IsName ns
    → read_names dup_ok i (pack_names room ns).0 ((pack_names room ns).1 ++ tail)
      ≡ take (pack_names room ns).0 ns
unfolding read_names pack_names
read-pack_names dup_ok room [] i tail ok h = refl
read-pack_names dup_ok room (n ∷ ns) i tail ok h = elim (Bool-cases (ltb room (length n + 1))) [
  | inl full ↦ rw full refl
  | inr fits ↦
      let packed = (pack_names (room - (length n + 1)) ns).1 in
      ground (
        arith,
        ok i,
        append_assoc n (0 ∷ packed) tail,
        until_nul_lem n (packed ++ tail) h.0,
        drop_lem n (packed ++ tail),
        read-pack_names dup_ok (room - (length n + 1)) ns (suc i) tail ok h.1,
      )
]

-- Names without a zero byte, packed on the 64-bit side and read on the 32-bit side with enough memory, are
-- the first ones of the list in order: as many as fit into the blob with their terminators, and no
-- fewer.
pub build_port_array-pack_ports :
    (dup_ok : ℕ → Bool) (names : List Bytes)
    → ((i : ℕ) → dup_ok i ≡ true)
    → All IsName names
    → let packed = pack_ports (some names) in
      let k = packed.0 in
      (build_port_array true dup_ok k (blob_of packed.1) ≡ some (take k names))
      × (wire_size (take k names) ≤ ports_blob)
      × ((k ≡ length names) ⊎ (ports_blob < wire_size (take (suc k) names)))
unfolding pack_ports build_port_array
build_port_array-pack_ports dup_ok names ok h =
    let packed = (pack_names ports_blob names).1 in
    let fit = pack_names_fit ports_blob names in
    (
      ap some (
          read-pack_names dup_ok ports_blob names 0 (replicate (ports_blob - length packed) 0) ok
            h),
      fit.0,
      fit.1,
    )
