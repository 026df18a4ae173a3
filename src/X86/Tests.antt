-- ===== src/X86/Tests.antt =====
-- The theorem on entries of x86_64 at a block for devices.
use sparreal_os.Prelude.{◌≡◌, true, false}
use sparreal_os.Paging.Config.{PteConfig, uncached}
use sparreal_os.X86.{from_config, to_config}
use sparreal_os.X86.Laws.{read_back, x86_round_trip}

abbrev device_block : PteConfig
device_block = record {
  paddr = 0xfee0_0000;
  valid = true;
  read = true;
  writable = true;
  executable = false;
  lower = false;
  dirty = false;
  global = true;
  is_dir = true;
  huge = true;
  mem_attr = uncached;
}

x86_round_trip_example : to_config (from_config device_block) true ≡ read_back device_block true
x86_round_trip_example = x86_round_trip device_block true
