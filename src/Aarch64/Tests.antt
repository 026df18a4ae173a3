-- ===== src/Aarch64/Tests.antt =====
-- The theorems on entries at a device page.
use sparreal_os.Prelude.{◌≡◌, refl, true, false}
use sparreal_os.Paging.Config.{PteConfig, device}
use sparreal_os.Aarch64.{from_config, to_config}
use sparreal_os.Aarch64.Laws.{read_back, to_config-from_config}

abbrev device_page : PteConfig
device_page = record {
  paddr = 0x900_0000;
  valid = true;
  read = true;
  writable = true;
  executable = false;
  lower = false;
  dirty = false;
  global = true;
  is_dir = false;
  huge = false;
  mem_attr = device;
}

to_config-from_config_example :
    to_config (from_config device_page) false ≡ read_back device_page false
to_config-from_config_example = to_config-from_config device_page false refl
