-- ===== src/Radar/Energy.antt =====
-- Energy frames: what `try_parse_energy_frame` accepts and reads, and the frame as it is sent.
use esp_wave_rider.Base.{
  ℕ, zero, suc, ◌+◌, ◌*◌, ◌≤◌, ◌<◌, ◌≡◌, refl, ap, not, ◌&&◌, some, List, [], ◌∷◌, length,
  get_elem?, get_or, leb, ◌==◌, All, arith, tests, subst, some-injective, get_elem?-lt,
  All-get_elem?, >>=-eq_some, Bool-cases, inl, inr,
}
use esp_wave_rider.Text.{is_some}
use esp_wave_rider.Radar.{
  EnergyFrame, starts_with_energy_header, ends_with_energy_footer, read_le16, read_gates,
  read_energy_fields, try_parse_energy_frame,
}

abbrev pub IsByte : ℕ → Type 0
IsByte b = b < 256

abbrev pub IsU16 : ℕ → Type 0
IsU16 n = n < 65536

read_le16-some :
    (bytes : List ℕ) (i : ℕ) → i + 1 < length bytes → (n : ℕ) × (read_le16 bytes i ≡ some n)
unfolding read_le16
read_le16-some bytes i h =
    let (a, ea) = get_elem?-lt bytes i (omega arith) in
    let (b, eb) = get_elem?-lt bytes (i + 1) h in (a + b * 256, rw (ea, eb))

read_le16-IsU16 :
    (bytes : List ℕ) (i : ℕ) {n : ℕ} → All IsByte bytes → read_le16 bytes i ≡ some n → IsU16 n
unfolding read_le16
read_le16-IsU16 bytes i {n} h e =
    let (a, ea, e') = >>=-eq_some (get_elem? bytes i) _ e in
    let (b, eb, e'') = >>=-eq_some (get_elem? bytes (i + 1)) _ e' in
    ground (arith, All-get_elem? IsByte bytes i h ea, All-get_elem? IsByte bytes (i + 1) h eb)

read_gates-some :
    (bytes : List ℕ) (count i : ℕ)
    → 9 + (i + count) * 2 ≤ length bytes
    → (gs : List ℕ) × (read_gates bytes count i ≡ some gs) × (length gs ≡ count)
unfolding read_gates
read_gates-some bytes zero i h = ([], refl, refl)
read_gates-some bytes (suc count) i h =
    let (g, eg) = read_le16-some bytes (9 + i * 2) (omega arith) in
    let (gs, es, n) = read_gates-some bytes count (i + 1) (omega arith) in
    (g ∷ gs, rw (eg, es), ap suc n)

read_gates-IsU16 :
    (bytes : List ℕ) (count i : ℕ) (gs : List ℕ)
    → All IsByte bytes
    → read_gates bytes count i ≡ some gs
    → (length gs ≡ count) × All IsU16 gs
unfolding read_gates
read_gates-IsU16 bytes zero i gs h e =
    subst (λ l. (length l ≡ 0) × All IsU16 l) (some-injective _ _ e) (refl, tt)
read_gates-IsU16 bytes (suc count) i gs h e =
    let (g, eg, e') = >>=-eq_some (read_le16 bytes (9 + i * 2)) _ e in
    let (r, er, e'') = >>=-eq_some (read_gates bytes count (i + 1)) _ e' in
    let (n, all) = read_gates-IsU16 bytes count (i + 1) r h er in
    subst (λ l. (length l ≡ suc count) × All IsU16 l) (some-injective _ _ e'')
      (ap suc n, (read_le16-IsU16 bytes (9 + i * 2) h eg, all))

read_energy_fields-some :
    (bytes : List ℕ) → 41 ≤ length bytes → (f : EnergyFrame) × (read_energy_fields bytes ≡ some f)
unfolding read_energy_fields
read_energy_fields-some bytes h =
    let (p, ep) = read_le16-some bytes 4 (omega arith) in
    let (d, ed) = read_le16-some bytes 7 (omega arith) in
    let (gs, eg, n) = read_gates-some bytes 16 0 (omega arith) in
    let f : EnergyFrame = record {
      length = length bytes;
      payload_length = p;
      presence = not (get_or bytes 6 0 == 0);
      distance_cm = d;
      gates = gs;
    } in
    (f, rw (ep, ed, eg))

-- A frame is accepted exactly when it has the length, the header and the footer of an energy
-- frame: behind those tests no read fails.
pub try_parse_energy_frame_accepts :
    (bytes : List ℕ)
    → is_some (try_parse_energy_frame bytes)
      ≡ (leb 45 (length bytes) && starts_with_energy_header bytes && ends_with_energy_footer bytes)
unfolding try_parse_energy_frame
try_parse_energy_frame_accepts bytes = elim (Bool-cases (leb 45 (length bytes))) [
  | inl long ↦
      let (f, e) = read_energy_fields-some bytes (omega (tests, long)) in rw e (ground arith)
  | inr short ↦ ground arith
]

-- What an energy frame holds, of any bytes.
pub record IsEnergyFrame (f : EnergyFrame) : Type 0 where
  pub sixteen : length f.gates ≡ 16
  pub gates_fit : All IsU16 f.gates
  pub distance_fits : IsU16 f.distance_cm
  pub payload_fits : IsU16 f.payload_length

read_energy_fields-IsEnergyFrame :
    (bytes : List ℕ) {f : EnergyFrame}
    → All IsByte bytes
    → read_energy_fields bytes ≡ some f
    → IsEnergyFrame f × (f.length ≡ length bytes)
unfolding read_energy_fields
read_energy_fields-IsEnergyFrame bytes {f} h e =
    let (p, ep, e1) = >>=-eq_some (read_le16 bytes 4) _ e in
    let (d, ed, e2) = >>=-eq_some (read_le16 bytes 7) _ e1 in
    let (gs, eg, e3) = >>=-eq_some (read_gates bytes 16 0) _ e2 in
    let (n, all) = read_gates-IsU16 bytes 16 0 gs h eg in
    subst (λ g. IsEnergyFrame g × (g.length ≡ length bytes)) (some-injective _ _ e3)
      (
        record {
          sixteen = n;
          gates_fit = all;
          distance_fits = read_le16-IsU16 bytes 7 h ed;
          payload_fits = read_le16-IsU16 bytes 4 h ep;
        },
        refl,
      )

accepted :
    (bytes : List ℕ) {f : EnergyFrame}
    → try_parse_energy_frame bytes ≡ some f
    → (45 ≤ length bytes) × (read_energy_fields bytes ≡ some f)
unfolding try_parse_energy_frame
accepted bytes {f} e = ground arith

-- An energy frame parsed from bytes has sixteen gates, numbers that fit sixteen bits, and the
-- length of the bytes, which is 45 or more.
pub try_parse_energy_frame-IsEnergyFrame :
    (bytes : List ℕ) {f : EnergyFrame}
    → All IsByte bytes
    → try_parse_energy_frame bytes ≡ some f
    → IsEnergyFrame f × (f.length ≡ length bytes) × (45 ≤ length bytes)
unfolding try_parse_energy_frame
try_parse_energy_frame-IsEnergyFrame bytes {f} h e =
    let (long, read) = accepted bytes e in
    let (valid, n) = read_energy_fields-IsEnergyFrame bytes h read in (valid, n, long)
