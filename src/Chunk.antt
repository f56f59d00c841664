-- ===== src/Chunk.antt =====
-- chunk.h and the software checksum of checksum.h: the header in front of each chunk, packed into one
-- 64-bit word and checked by a checksum of the word, the address and the process's cookie.
pub mod Pack
pub mod Header
use Prim.Native.Nat.{bit_xor}
use scudo.Common.{
  ℕ, zero, suc, ◌+◌, ◌*◌, ◌/◌, ◌%◌, ◌^◌, Bool, Option, none, some, List, [], ◌∷◌, ◌==◌,
  if◌then◌else◌, sub_uptr, update,
}
use scudo.Chunk.Pack.{UnpackedHeader, pack, unpack}

-- How checksums are computed. The CRC instruction is the machine's.
pub data Checksum : Type 0 where
  bsd : Checksum
  hardware_crc32 : (ℕ → ℕ → ℕ) → Checksum

-- The bytes of the word from the lowest, `left` of them.
unfoldable pub bsd_steps : ℕ → ℕ → ℕ → ℕ
bsd_steps zero sum data_word = sum
bsd_steps (suc left) sum data_word =
    bsd_steps left ((sum / 2 + sum % 2 * 2 ^ 15 + data_word % 2 ^ 8) % 2 ^ 16) (data_word / 2 ^ 8)

unfoldable pub compute_bsd_checksum : ℕ → ℕ → ℕ
unfolding bsd_steps
compute_bsd_checksum sum data_word = bsd_steps 8 (sum % 2 ^ 16) data_word

-- The loop over the array.
unfoldable pub fold_words : (ℕ → ℕ → ℕ) → ℕ → List ℕ → ℕ
fold_words f sum [] = sum
fold_words f sum (w ∷ ws) = fold_words f (f sum w) ws

unfoldable pub compute_checksum : Checksum → ℕ → ℕ → List ℕ → ℕ
compute_checksum bsd seed value array =
    fold_words compute_bsd_checksum (compute_bsd_checksum (seed % 2 ^ 16) value) array
compute_checksum (hardware_crc32 crc32) seed value array = bit_xor crc (crc / 2 ^ 16) % 2 ^ 16
  where
    crc : ℕ
    crc = fold_words crc32 (crc32 seed value) array

-- `getHeaderSize`: 8 bytes rounded up to the minimal alignment.
abbrev pub header_size : ℕ
header_size = 16

abbrev pub header_addr : ℕ → ℕ
header_addr ptr = sub_uptr ptr header_size

unfoldable pub compute_header_checksum : Checksum → ℕ → ℕ → UnpackedHeader → ℕ
compute_header_checksum algorithm cookie ptr h =
    compute_checksum algorithm cookie ptr (pack (record h { checksum = 0 }) ∷ [])

-- The memory with the header stored, by the address of its word.
unfoldable pub store_header : Checksum → ℕ → (ℕ → ℕ) → ℕ → UnpackedHeader → ℕ → ℕ
store_header algorithm cookie memory ptr h =
    update memory (header_addr ptr)
      (pack (record h { checksum = compute_header_checksum algorithm cookie ptr h }))

unfoldable pub is_valid : Checksum → ℕ → (ℕ → ℕ) → ℕ → Bool
is_valid algorithm cookie memory ptr = h.checksum == compute_header_checksum algorithm cookie ptr h
  where
    h : UnpackedHeader
    h = unpack (memory (header_addr ptr))

-- `none` is the report of a corrupted header, which ends the process.
unfoldable pub load_header : Checksum → ℕ → (ℕ → ℕ) → ℕ → Option UnpackedHeader
load_header algorithm cookie memory ptr =
    if h.checksum == compute_header_checksum algorithm cookie ptr h then some h else none
  where
    h : UnpackedHeader
    h = unpack (memory (header_addr ptr))
