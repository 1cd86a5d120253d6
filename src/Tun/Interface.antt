-- ===== src/Tun/Interface.antt =====
-- src/tun.rs: `open_tun`, and `run_one_exchange` as a whole. The device, its `ioctl` and the size
-- IFNAMSIZ of its names are those of the operating system, and parameters.
use meshlet.Common.{
  ℕ, zero, suc, ◌+◌, ◌-◌, ◌≤◌, ◌<◌, ◌≡◌, refl, sym, ap, ◌∙◌, Bool, true, not, ◌&&◌, ◌||◌, List, [],
  ◌∷◌, ◌++◌, arith, ltb, leb, eqb, Bytes, length, length-append, nat_eq, list_eq, pair_eq,
}
use meshlet.Common.Result.{Result, ok, err, ensure, ◌>>=◌, ◌>>◌, >>-eq-ok, >>=-eq-ok, ok-injective}
use meshlet.Tun.{PacketError, Ipv4Summary, Outbound, sent, outbound, inbound}
use meshlet.Tun.Transparent.{inbound-outbound}
use meshlet.Text.{codes}

abbrev pub tun_device_path : Bytes
tun_device_path = codes "/dev/net/tun"

abbrev pub tunsetiff : ℕ
tunsetiff = 0x400454ca

-- `IFF_TUN | IFF_NO_PI`
abbrev pub tun_flags : ℕ
tun_flags = 0x0001 + 0x1000

-- `libc::ifreq`
pub record Ifreq : Type 0 where
  pub ifr_name : Bytes
  pub ifru_flags : ℕ

-- The errors of the system are texts.
pub record Device (File : Type 0) : Type 0 where
  pub open_options : Bytes → Result Bytes File
  pub ioctl : File → ℕ → Ifreq → Result Bytes (Unit {0})

pub data OpenError : Type 0 where
  name_form : OpenError
  system : Bytes → OpenError

unfoldable pub is_ascii : Bytes → Bool
is_ascii [] = true
is_ascii (c ∷ s) = ltb c 128 && is_ascii s

-- `std::mem::zeroed()` for the field of the name.
abbrev pub zeros : ℕ → Bytes
zeros zero = []
zeros (suc n) = 0 ∷ zeros n

-- `iter_mut().zip(name.bytes())`: the shorter one ends the loop.
unfoldable pub copy_into : Bytes → Bytes → Bytes
copy_into [] name = []
copy_into (d ∷ destination) [] = d ∷ destination
copy_into (d ∷ destination) (c ∷ name) = c ∷ copy_into destination name

abbrev or_system {ℓ} : {A : Type ℓ} → Result Bytes A → Result OpenError A
or_system (ok a) = ok a
or_system (err text) = err (system text)

-- The test on the name.
unfoldable pub is_name : ℕ → Bytes → Bool
is_name ifnamsiz name =
    not (eqb (length name) 0 || leb ifnamsiz (length name) || not (is_ascii name))

unfoldable pub request : ℕ → Bytes → Ifreq
request ifnamsiz name = record {
  ifr_name = copy_into (zeros ifnamsiz) name;
  ifru_flags = tun_flags;
}

module _ {File : Type 0} (ifnamsiz : ℕ) (device : Device File) where
  unfoldable pub open_tun : Bytes → Result OpenError File
  unfolding is_name request
  open_tun name = do
    ensure (is_name ifnamsiz name) name_form
    file ← or_system (device.open_options tun_device_path)
    or_system (device.ioctl file tunsetiff (request ifnamsiz name))
    ok file

  -- What the interface gives to the one worker, and the socket to the other; how both end.
  unfoldable pub run_one_exchange :
      Bytes
      → List Bytes
      → Bytes
      → Result OpenError (Outbound × Result PacketError (Bytes × Ipv4Summary))
  unfolding open_tun
  run_one_exchange tun_name packets payload = do
    _ ← open_tun tun_name
    ok (outbound packets, inbound payload)

length-zeros : (n : ℕ) → length (zeros n) ≡ n
length-zeros zero = refl
length-zeros (suc n) = omega (arith, length-zeros n)

or_system-ok {ℓ} : {A : Type ℓ} (r : Result Bytes A) {a : A} → or_system r ≡ ok a → r ≡ ok a
or_system-ok (ok a) e = cc
or_system-ok (err text) e = cc

copied :
    (n : ℕ) (name : Bytes)
    → length name ≤ n
    → copy_into (zeros n) name ≡ name ++ zeros (n - length name)
unfolding copy_into
copied zero [] h = refl
copied zero (c ∷ name) h = absurd (omega arith)
copied (suc n) [] h = let all : suc n ≡ suc n - 0 = omega arith in ap zeros all
copied (suc n) (c ∷ name) h =
    rw (copied n name (omega arith)) (ap (λ m. c ∷ (name ++ zeros m)) (omega arith))

-- Where `open_tun` gives a file, the name has from 1 to `IFNAMSIZ - 1` bytes, and the request that the
-- system accepted for this file holds the whole name with at least one zero byte behind it, in
-- `IFNAMSIZ` bytes.
pub open_tun-ok :
    {File : Type 0} (ifnamsiz : ℕ) (device : Device File) (name : Bytes) (file : File)
    → open_tun ifnamsiz device name ≡ ok file
    → (1 ≤ length name)
      × (length name < ifnamsiz)
      × (device.open_options tun_device_path ≡ ok file)
      × (device.ioctl file tunsetiff (request ifnamsiz name) ≡ ok tt)
      × ((request ifnamsiz name).ifr_name ≡ name ++ zeros (ifnamsiz - length name))
      × (length (request ifnamsiz name).ifr_name ≡ ifnamsiz)
unfolding open_tun is_name request
open_tun-ok ifnamsiz device name file e =
    let (form, e₁) = >>-eq-ok (ensure (is_name ifnamsiz name) name_form) _ e in
    let (opened, at_path, e₂) = >>=-eq-ok (or_system (device.open_options tun_device_path)) _ e₁ in
    let (accepted, e₃) =
      >>-eq-ok (or_system (device.ioctl opened tunsetiff (request ifnamsiz name))) _ e₂ in
    let same : opened ≡ file = ok-injective e₃ in
    let bounds : (1 ≤ length name) × (length name < ifnamsiz) = ground (arith, form) in
    let whole = copied ifnamsiz name (omega (arith, bounds.1)) in
    (
      bounds.0,
      bounds.1,
      or_system-ok _ at_path ∙ ap ok same,
      ap (λ f. device.ioctl f tunsetiff (request ifnamsiz name)) (sym same)
          ∙ or_system-ok _ accepted,
      whole,
      rw whole (
          omega (
            arith,
            length-append name (zeros (ifnamsiz - length name)),
            length-zeros (ifnamsiz - length name),
            bounds.1,
          )),
    )

-- Two nodes whose interfaces open and whose workers each find a packet to send exchange the two
-- packets: each writes the other's packet unchanged, and both report the same of it.
pub run_one_exchange-both :
    {File : Type 0} (ifnamsiz : ℕ) (device device' : Device File) (name name' : Bytes)
    (file file' : File) (packets packets' : List Bytes) (packet packet' : Bytes)
    (summary summary' : Ipv4Summary)
    → open_tun ifnamsiz device name ≡ ok file
    → open_tun ifnamsiz device' name' ≡ ok file'
    → outbound packets ≡ sent packet summary
    → outbound packets' ≡ sent packet' summary'
    → (run_one_exchange ifnamsiz device name packets packet'
        ≡ ok (sent packet summary, ok (packet', summary')))
      × (run_one_exchange ifnamsiz device' name' packets' packet
          ≡ ok (sent packet' summary', ok (packet, summary)))
unfolding run_one_exchange
run_one_exchange-both ifnamsiz device device' name name' file file' packets packets' packet packet'
      summary summary' opens opens' sends sends' =
    (
      rw (opens, sends, inbound-outbound packets' packet' summary' sends') refl,
      rw (opens', sends', inbound-outbound packets packet summary sends) refl,
    )
