-- ===== src/Chunk/Pack.antt =====
-- The packed header of chunk.h: six bit fields from the lowest bit up.
use scudo.Common.{ℕ, ◌+◌, ◌*◌, ◌/◌, ◌%◌, ◌^◌, ◌<◌, ◌≡◌, arith}

pub record UnpackedHeader : Type 0 where
  pub class_id : ℕ
  pub state : ℕ
  pub origin_or_was_zeroed : ℕ
  pub size_or_unused_bytes : ℕ
  pub offset : ℕ
  pub checksum : ℕ

unfoldable pub pack : UnpackedHeader → ℕ
pack h =
    h.class_id % 2 ^ 8
    + h.state % 2 ^ 2 * 2 ^ 8
    + h.origin_or_was_zeroed % 2 ^ 2 * 2 ^ 10
    + h.size_or_unused_bytes % 2 ^ 20 * 2 ^ 12
    + h.offset % 2 ^ 16 * 2 ^ 32
    + h.checksum % 2 ^ 16 * 2 ^ 48

unfoldable pub unpack : ℕ → UnpackedHeader
unpack w = record {
  class_id = w % 2 ^ 8;
  state = w / 2 ^ 8 % 2 ^ 2;
  origin_or_was_zeroed = w / 2 ^ 10 % 2 ^ 2;
  size_or_unused_bytes = w / 2 ^ 12 % 2 ^ 20;
  offset = w / 2 ^ 32 % 2 ^ 16;
  checksum = w / 2 ^ 48 % 2 ^ 16;
}

-- The values that the bit fields hold.
pub record FitsFields (h : UnpackedHeader) : Type 0 where
  pub class_id : h.class_id < 2 ^ 8
  pub state : h.state < 2 ^ 2
  pub origin_or_was_zeroed : h.origin_or_was_zeroed < 2 ^ 2
  pub size_or_unused_bytes : h.size_or_unused_bytes < 2 ^ 20
  pub offset : h.offset < 2 ^ 16
  pub checksum : h.checksum < 2 ^ 16

-- Unpacking the packed word of a header whose fields fit gives the header.
pub unpack-pack : (h : UnpackedHeader) → FitsFields h → unpack (pack h) ≡ h
unfolding unpack pack
unpack-pack h f = λ i. record {
  class_id = class_id_eq i;
  state = state_eq i;
  origin_or_was_zeroed = origin_eq i;
  size_or_unused_bytes = size_eq i;
  offset = offset_eq i;
  checksum = checksum_eq i;
}
  where
    class_id_eq : (unpack (pack h)).class_id ≡ h.class_id
    class_id_eq = omega (arith, f.class_id)

    state_eq : (unpack (pack h)).state ≡ h.state
    state_eq = omega (arith, f.state)

    origin_eq : (unpack (pack h)).origin_or_was_zeroed ≡ h.origin_or_was_zeroed
    origin_eq = omega (arith, f.origin_or_was_zeroed)

    size_eq : (unpack (pack h)).size_or_unused_bytes ≡ h.size_or_unused_bytes
    size_eq = omega (arith, f.size_or_unused_bytes)

    offset_eq : (unpack (pack h)).offset ≡ h.offset
    offset_eq = omega (arith, f.offset)

    checksum_eq : (unpack (pack h)).checksum ≡ h.checksum
    checksum_eq = omega (arith, f.checksum)
