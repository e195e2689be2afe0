-- ===== src/Pci/Found.antt =====
-- What `enumerate` of src/drivers/pci/pci.cpp finds.
use Prim.Native.Nat.{bit_and}
use weng_shi_os.Base.{
  ℕ, zero, suc, ◌+◌, ◌≤◌, ◌<◌, ◌≡◌, true, false, ◌==◌, leb, List, [], ◌∷◌, ◌++◌, length, arith,
  refl, sym, subst, if_cases, Bool-cases, inl, inr, if◌then◌else◌, length-append,
}
use weng_shi_os.Pci.{
  PciDevice, get_address, device_exists, read_header, save_device, func_loop, visit_slot, slot_loop,
  bus_loop, enumerate, byte, config_read_dword,
}

-- The devices are at most 64; each is at a place of the bus where a function answers, and holds
-- the header read there.
pub record Found (data_port : ℕ → ℕ) (d : PciDevice) : Type 0 where
  pub bus : d.bus < 256
  pub slot : d.slot < 32
  pub func : d.func < 8
  pub exists : device_exists data_port (get_address d.bus d.slot d.func 0) ≡ true
  pub header : d.header ≡ read_header data_port d.bus d.slot d.func

abbrev pub AllFound : (ℕ → ℕ) → List PciDevice → Type 0
AllFound data_port [] = Unit {0}
AllFound data_port (d ∷ ds) = Found data_port d × AllFound data_port ds

abbrev pub Devices : (ℕ → ℕ) → List PciDevice → Type 0
Devices data_port ds = (length ds ≤ 64) × AllFound data_port ds

module _ (data_port : ℕ → ℕ) where
  AllFound-last :
      (ds : List PciDevice) (d : PciDevice)
      → AllFound data_port ds
      → Found data_port d
      → AllFound data_port (ds ++ d ∷ [])
  AllFound-last [] d a f = (f, tt)
  AllFound-last (e ∷ ds) d a f = (a.0, AllFound-last ds d a.1 f)

  save_device-Devices :
      (ds : List PciDevice) (bus slot func : ℕ)
      → bus < 256
      → slot < 32
      → func < 8
      → device_exists data_port (get_address bus slot func 0) ≡ true
      → Devices data_port ds
      → Devices data_port (save_device data_port ds bus slot func)
  unfolding save_device
  save_device-Devices ds bus slot func b s f e h =
      if_cases (Devices data_port) (leb 64 (length ds)) (λ t. h)
        (λ t. (
          ground (
            arith,
            t,
            length-append ds (
                record {
                  bus = bus;
                  slot = slot;
                  func = func;
                  header = read_header data_port bus slot func;
                }
                ∷ []),
          ),
          AllFound-last ds _ h.1
              (record { bus = b; slot = s; func = f; exists = e; header = refl }),
        ))

  func_loop-Devices :
      (n bus slot func : ℕ) (ds : List PciDevice)
      → bus < 256
      → slot < 32
      → func + n ≤ 8
      → Devices data_port ds
      → Devices data_port (func_loop data_port n bus slot func ds)
  unfolding func_loop
  func_loop-Devices zero bus slot func ds b s f h = h
  func_loop-Devices (suc n) bus slot func ds b s f h =
      func_loop-Devices n bus slot (func + 1) _ b s (omega (arith, f)) (
        if_cases (Devices data_port) (device_exists data_port (get_address bus slot func 0))
          (λ e. save_device-Devices ds bus slot func b s (omega (arith, f)) e h) (λ e. h))

  slot_empty :
      (bus slot : ℕ) (ds : List PciDevice)
      → device_exists data_port (get_address bus slot 0 0) ≡ false
      → visit_slot data_port bus slot ds ≡ ds
  unfolding visit_slot
  slot_empty bus slot ds e = rw (e, visit_slot) refl

  slot_full :
      (bus slot : ℕ) (ds : List PciDevice)
      → device_exists data_port (get_address bus slot 0 0) ≡ true
      → visit_slot data_port bus slot ds ≡ (
          if bit_and (byte 2 (config_read_dword data_port (get_address bus slot 0 0xC))) 0x80 == 0
          then save_device data_port ds bus slot 0
          else func_loop data_port 7 bus slot 1 (save_device data_port ds bus slot 0))
  unfolding visit_slot
  slot_full bus slot ds e = rw (e, visit_slot) refl

  visit_slot-Devices :
      (bus slot : ℕ) (ds : List PciDevice)
      → bus < 256
      → slot < 32
      → Devices data_port ds
      → Devices data_port (visit_slot data_port bus slot ds)
  visit_slot-Devices bus slot ds b s h =
      elim (Bool-cases (device_exists data_port (get_address bus slot 0 0))) [
        | inl e ↦
            let saved = save_device-Devices ds bus slot 0 b s (omega arith) e h in
            subst (Devices data_port) (sym (slot_full bus slot ds e)) (
              if_cases (Devices data_port)
                (bit_and (byte 2 (config_read_dword data_port (get_address bus slot 0 0xC))) 0x80
                  == 0)
                (λ z. saved) (λ z. func_loop-Devices 7 bus slot 1 _ b s (omega arith) saved))
        | inr e ↦ subst (Devices data_port) (sym (slot_empty bus slot ds e)) h
      ]

  slot_loop-Devices :
      (n bus slot : ℕ) (ds : List PciDevice)
      → bus < 256
      → slot + n ≤ 32
      → Devices data_port ds
      → Devices data_port (slot_loop data_port n bus slot ds)
  unfolding slot_loop
  slot_loop-Devices zero bus slot ds b s h = h
  slot_loop-Devices (suc n) bus slot ds b s h =
      slot_loop-Devices n bus (slot + 1) _ b (omega (arith, s))
        (visit_slot-Devices bus slot ds b (omega (arith, s)) h)

  bus_loop-Devices :
      (n bus : ℕ) (ds : List PciDevice)
      → bus + n ≤ 256
      → Devices data_port ds
      → Devices data_port (bus_loop data_port n bus ds)
  unfolding bus_loop
  bus_loop-Devices zero bus ds b h = h
  bus_loop-Devices (suc n) bus ds b h =
      bus_loop-Devices n (bus + 1) _ (omega (arith, b))
        (slot_loop-Devices 32 bus 0 ds (omega (arith, b)) (omega arith) h)

  -- Whatever the data port answers, `enumerate` saves at most 64 devices; each is a function of the
  -- bus that exists, and its header is what the registers of that function answer.
  pub enumerate-Devices : Devices data_port (enumerate data_port)
  unfolding enumerate
  enumerate-Devices = bus_loop-Devices 256 0 [] (omega arith) (omega arith, tt)
