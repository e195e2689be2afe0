-- ===== src/Pci.antt =====
-- src/drivers/pci/pci.cpp and pci.h: the functions on the PCI bus. `data_port` is the 32-bit word that the
-- data port answers while the address port holds an address.
pub mod Address
pub mod Found
mod Tests
use Prim.Native.Nat.{bit_and, bit_or}
use weng_shi_os.Base.{
  ℕ, zero, suc, ◌+◌, ◌*◌, ◌/◌, ◌%◌, ◌^◌, Bool, true, false, ◌==◌, ◌&&◌, not, ltb, leb, List, [],
  ◌∷◌, ◌++◌, length, get_elem?, Option, if◌then◌else◌,
}

abbrev pub max_pci_devices : ℕ
max_pci_devices = 64

abbrev pub busses : ℕ
busses = 256

abbrev pub slots : ℕ
slots = 32

abbrev pub funcs : ℕ
funcs = 8

pub record GeneralDeviceHeader : Type 0 where
  pub vendor_id : ℕ
  pub device_id : ℕ
  pub command_register : ℕ
  pub status_register : ℕ
  pub revision_id : ℕ
  pub prog_if : ℕ
  pub sub_class : ℕ
  pub base_class : ℕ
  pub cache_line_size : ℕ
  pub latency_timer : ℕ
  pub header_type : ℕ
  pub bist : ℕ
  pub bar0 : ℕ
  pub bar1 : ℕ
  pub bar2 : ℕ
  pub bar3 : ℕ
  pub bar4 : ℕ
  pub bar5 : ℕ
  pub cardbus_cis_pointer : ℕ
  pub subsystem_vendor_id : ℕ
  pub subsystem_device_id : ℕ
  pub ex_rba : ℕ
  pub capabilities_pointer : ℕ
  pub interrupt_line : ℕ
  pub interrupt_pin : ℕ
  pub min_grant : ℕ
  pub max_latency : ℕ

pub record PciDevice : Type 0 where
  pub bus : ℕ
  pub slot : ℕ
  pub func : ℕ
  pub header : GeneralDeviceHeader

-- The arguments are bytes, so that no shift leaves the 32 bits.
unfoldable pub get_address : ℕ → ℕ → ℕ → ℕ → ℕ
get_address bus slot func offset =
    bit_or
      (bit_or (bit_or (bit_or (bus * 2 ^ 16) (slot * 2 ^ 11)) (func * 2 ^ 8)) (bit_and offset 0xFC))
      0x80000000

-- The fields of a 32-bit word: its halves and its bytes.
abbrev pub half : ℕ → ℕ → ℕ
half i tmp = tmp / 2 ^ (16 * i) % 2 ^ 16

abbrev pub byte : ℕ → ℕ → ℕ
byte i tmp = tmp / 2 ^ (8 * i) % 2 ^ 8

-- The writes to the two ports, in order.
abbrev pub config_write_dword : ℕ → ℕ → List (ℕ × ℕ)
config_write_dword address value = (0xCF8, address) ∷ (0xCFC, value) ∷ []

module _ (data_port : ℕ → ℕ) where
  unfoldable pub config_read_dword : ℕ → ℕ
  config_read_dword address = data_port address % 2 ^ 32

  unfoldable pub config_read_word : ℕ → ℕ → ℕ
  config_read_word address offset = data_port address % 2 ^ 32 / 2 ^ (bit_and offset 2 * 8) % 2 ^ 16

  unfoldable pub device_exists : ℕ → Bool
  device_exists address = not (config_read_dword address % 2 ^ 16 == 0xFFFF)

  unfoldable pub read_header : ℕ → ℕ → ℕ → GeneralDeviceHeader
  read_header bus slot func =
      let at : ℕ → ℕ = λ offset. config_read_dword (get_address bus slot func offset) in
      record {
        vendor_id = half 0 (at 0x0);
        device_id = half 1 (at 0x0);
        command_register = half 0 (at 0x4);
        status_register = half 1 (at 0x4);
        revision_id = byte 0 (at 0x8);
        prog_if = byte 1 (at 0x8);
        sub_class = byte 2 (at 0x8);
        base_class = byte 3 (at 0x8);
        cache_line_size = byte 0 (at 0xC);
        latency_timer = byte 1 (at 0xC);
        header_type = byte 2 (at 0xC);
        bist = byte 3 (at 0xC);
        bar0 = at 0x10;
        bar1 = at 0x14;
        bar2 = at 0x18;
        bar3 = at 0x1C;
        bar4 = at 0x20;
        bar5 = at 0x24;
        cardbus_cis_pointer = at 0x28;
        subsystem_vendor_id = half 0 (at 0x2C);
        subsystem_device_id = half 1 (at 0x2C);
        ex_rba = at 0x30;
        capabilities_pointer = byte 0 (at 0x34);
        interrupt_line = byte 0 (at 0x3C);
        interrupt_pin = byte 1 (at 0x3C);
        min_grant = byte 2 (at 0x3C);
        max_latency = byte 3 (at 0x3C);
      }

  -- The array up to the index, which is the length of the list.
  unfoldable pub save_device : List PciDevice → ℕ → ℕ → ℕ → List PciDevice
  save_device devices bus slot func =
      if leb max_pci_devices (length devices)
      then devices
      else devices
        ++ record { bus = bus; slot = slot; func = func; header = read_header bus slot func } ∷ []

  -- The loops of `enumerate`, with the rounds left.
  unfoldable pub func_loop : ℕ → ℕ → ℕ → ℕ → List PciDevice → List PciDevice
  func_loop zero bus slot func devices = devices
  func_loop (suc n) bus slot func devices = func_loop n bus slot (func + 1) (
      if device_exists (get_address bus slot func 0)
      then save_device devices bus slot func
      else devices)

  -- The body for one slot.
  unfoldable pub visit_slot : ℕ → ℕ → List PciDevice → List PciDevice
  visit_slot bus slot devices = elim (device_exists (get_address bus slot 0 0)) [
    | true ↦
        let devices' = save_device devices bus slot 0 in
        let header_type = byte 2 (config_read_dword (get_address bus slot 0 0xC)) in
        if bit_and header_type 0x80 == 0 then devices' else func_loop 7 bus slot 1 devices'
    | false ↦ devices
  ]

  unfoldable pub slot_loop : ℕ → ℕ → ℕ → List PciDevice → List PciDevice
  slot_loop zero bus slot devices = devices
  slot_loop (suc n) bus slot devices = slot_loop n bus (slot + 1) (visit_slot bus slot devices)

  unfoldable pub bus_loop : ℕ → ℕ → List PciDevice → List PciDevice
  bus_loop zero bus devices = devices
  bus_loop (suc n) bus devices = bus_loop n (bus + 1) (slot_loop slots bus 0 devices)

  unfoldable pub enumerate : List PciDevice
  enumerate = bus_loop busses 0 []

abbrev pub get_index : List PciDevice → ℕ
get_index devices = length devices

-- `none` for a place that holds no device.
abbrev pub get_device : List PciDevice → ℕ → Option PciDevice
get_device devices index = get_elem? devices index
