-- ===== src/Residency/Probe.antt =====
-- `StaticMemoryProbe` and `DeviceMemory` of image_processor/engine/residency.py.
use image_processor.Base.{ℕ, ◌+◌, ◌-◌, Bool, ◌||◌, Option, ltb, min}
use image_processor.Types.{Text}

pub record DeviceMemory : Type 0 where
  pub total_mib : ℕ
  pub free_mib : ℕ
  pub used_mib : ℕ
  pub device_class : Option Text

-- `known`
unfoldable pub known : DeviceMemory → Bool
known m = ltb 0 m.total_mib || ltb 0 m.free_mib

pub record StaticMemoryProbe : Type 0 where
  pub total_mib : ℕ
  pub free_mib : ℕ
  pub device_class : Option Text

-- `snapshot`
unfoldable pub snapshot : StaticMemoryProbe → DeviceMemory
snapshot p = record {
  total_mib = p.total_mib;
  free_mib = p.free_mib;
  used_mib = p.total_mib - p.free_mib;
  device_class = p.device_class;
}

-- `allocate`
unfoldable pub allocate : ℕ → StaticMemoryProbe → StaticMemoryProbe
allocate mib p = record p { free_mib = p.free_mib - mib }

-- `release`
unfoldable pub release : ℕ → StaticMemoryProbe → StaticMemoryProbe
release mib p = record p { free_mib = min (p.free_mib + mib) p.total_mib }
