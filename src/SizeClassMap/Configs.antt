-- ===== src/SizeClassMap/Configs.antt =====
-- The configurations of size_class_map.h, the Android one in the 64-bit build.
use scudo.Common.{ℕ, List, [], ◌∷◌}

-- `classes` is empty for a map without a table.
pub record Config : Type 0 where
  pub num_bits : ℕ
  pub min_size_log : ℕ
  pub mid_size_log : ℕ
  pub max_size_log : ℕ
  pub max_num_cached_hint : ℕ
  pub max_bytes_cached_log : ℕ
  pub size_delta : ℕ
  pub classes : List ℕ

abbrev pub default_config : Config
default_config = record {
  num_bits = 3;
  min_size_log = 5;
  mid_size_log = 8;
  max_size_log = 17;
  max_num_cached_hint = 14;
  max_bytes_cached_log = 10;
  size_delta = 0;
  classes = [];
}

-- `Chunk::getHeaderSize()` is 16.
abbrev pub fuchsia_config : Config
fuchsia_config = record {
  num_bits = 3;
  min_size_log = 5;
  mid_size_log = 8;
  max_size_log = 17;
  max_num_cached_hint = 12;
  max_bytes_cached_log = 10;
  size_delta = 16;
  classes = [];
}

abbrev android_classes : List ℕ
android_classes =
    0x00020 ∷ 0x00030 ∷ 0x00040 ∷ 0x00050 ∷ 0x00060 ∷ 0x00070 ∷ 0x00090 ∷ 0x000b0 ∷ 0x000c0
    ∷ 0x000e0 ∷ 0x00120 ∷ 0x00160 ∷ 0x001c0 ∷ 0x00250 ∷ 0x00320 ∷ 0x00450 ∷ 0x00670 ∷ 0x00830
    ∷ 0x00a10 ∷ 0x00c30 ∷ 0x01010 ∷ 0x01210 ∷ 0x01bd0 ∷ 0x02210 ∷ 0x02d90 ∷ 0x03790 ∷ 0x04010
    ∷ 0x04810 ∷ 0x05a10 ∷ 0x07310 ∷ 0x08210 ∷ 0x10010 ∷ []

abbrev pub android_config : Config
android_config = record {
  num_bits = 7;
  min_size_log = 4;
  mid_size_log = 6;
  max_size_log = 16;
  max_num_cached_hint = 13;
  max_bytes_cached_log = 13;
  size_delta = 16;
  classes = android_classes;
}

abbrev pub trusty_config : Config
trusty_config = record {
  num_bits = 1;
  min_size_log = 5;
  mid_size_log = 5;
  max_size_log = 15;
  max_num_cached_hint = 12;
  max_bytes_cached_log = 10;
  size_delta = 0;
  classes = [];
}
