-- ===== src/Pci/Tests.antt =====
-- Tests of the model of src/drivers/pci/pci.cpp.
use weng_shi_os.Base.{ℕ, ◌==◌, if◌then◌else◌}
use weng_shi_os.Pci.{enumerate}
use weng_shi_os.Pci.Found.{Devices, enumerate-Devices}

-- A bus with one function, 8086:2922 at bus 0, slot 31.
abbrev one_device : ℕ → ℕ
one_device address = if address == 0x8000F800 then 0x29228086 else 0xFFFFFFFF

enumerate-Devices_example : Devices one_device (enumerate one_device)
enumerate-Devices_example = enumerate-Devices one_device
