-- ===== src/Loongarch/Tests.antt =====
-- The theorem on entries for tables at a root with one such entry.
use sparreal_os.Prelude.{◌≡◌, refl, true, []}
use sparreal_os.Prelude.Outcome.{err}
use sparreal_os.Paging.Config.{PteConfig, invalid_config, not_mapped}
use sparreal_os.Paging.Meta.{Machine}
use sparreal_os.Paging.Samples.{used_frames}
use sparreal_os.Paging.Translate.{translate}
use sparreal_os.Loongarch.{from_config, to_config, Generic}
use sparreal_os.Loongarch.Laws.{read_back, loongarch_round_trip, translate-from_dir}

abbrev table_entry : PteConfig
table_entry = record invalid_config { paddr = 8192; valid = true; is_dir = true }

abbrev linked : Machine Generic used_frames
linked = record { table = λ p i. from_config table_entry; frames = λ p. true; flushed = [] }

loongarch_round_trip_example : to_config (from_config table_entry) true ≡ read_back table_entry
loongarch_round_trip_example = loongarch_round_trip table_entry

translate-from_dir_example :
    translate Generic used_frames 4096 0x20_0000 linked ≡ err not_mapped linked
translate-from_dir_example =
    translate-from_dir used_frames linked 4096 0x20_0000 table_entry refl refl refl
