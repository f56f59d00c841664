-- ===== src/Chunk/Header.antt =====
-- A header that was stored is the one that is loaded.
use scudo.Common.{
  ℕ, zero, suc, ◌/◌, ◌%◌, ◌^◌, ◌<◌, true, some, List, [], ◌∷◌, eq→==, update_self, arith, ◌≡◌, refl,
  sym, ap, ◌∙◌,
}
use scudo.Chunk.{
  Checksum, bsd_steps, compute_bsd_checksum, fold_words, compute_checksum, header_addr,
  compute_header_checksum, store_header, is_valid, load_header,
}
use scudo.Chunk.Pack.{UnpackedHeader, pack, unpack, FitsFields, unpack-pack}

bsd_steps-lt : (left sum data_word : ℕ) → sum < 2 ^ 16 → bsd_steps left sum data_word < 2 ^ 16
unfolding bsd_steps
bsd_steps-lt zero sum data_word h = h
bsd_steps-lt (suc left) sum data_word h = bsd_steps-lt left _ (data_word / 2 ^ 8) (omega arith)

compute_bsd_checksum-lt : (sum w : ℕ) → compute_bsd_checksum sum w < 2 ^ 16
unfolding compute_bsd_checksum
compute_bsd_checksum-lt sum w = bsd_steps-lt 8 (sum % 2 ^ 16) w (omega arith)

fold_bsd-lt :
    (sum : ℕ) → (ws : List ℕ) → sum < 2 ^ 16 → fold_words compute_bsd_checksum sum ws < 2 ^ 16
unfolding fold_words
fold_bsd-lt sum [] h = h
fold_bsd-lt sum (w ∷ ws) h =
    fold_bsd-lt (compute_bsd_checksum sum w) ws (compute_bsd_checksum-lt sum w)

compute_checksum-lt :
    (algorithm : Checksum)
    → (seed value : ℕ) → (array : List ℕ) → compute_checksum algorithm seed value array < 2 ^ 16
unfolding compute_checksum
compute_checksum-lt Checksum.bsd seed value array =
    fold_bsd-lt (compute_bsd_checksum (seed % 2 ^ 16) value) array
      (compute_bsd_checksum-lt (seed % 2 ^ 16) value)
compute_checksum-lt (Checksum.hardware_crc32 crc32) seed value array = omega arith

-- The header as it stands in memory.
abbrev pub sealed : Checksum → ℕ → ℕ → UnpackedHeader → UnpackedHeader
sealed algorithm cookie ptr h = record h {
  checksum = compute_header_checksum algorithm cookie ptr h;
}

module _ (algorithm : Checksum) (cookie : ℕ) (memory : ℕ → ℕ) (ptr : ℕ) (h : UnpackedHeader)
    (fits : FitsFields h) where
  pub sealed-FitsFields : FitsFields (sealed algorithm cookie ptr h)
  unfolding compute_header_checksum
  sealed-FitsFields = record {
    class_id = fits.class_id;
    state = fits.state;
    origin_or_was_zeroed = fits.origin_or_was_zeroed;
    size_or_unused_bytes = fits.size_or_unused_bytes;
    offset = fits.offset;
    checksum = compute_checksum-lt algorithm cookie ptr _;
  }

  pub read_back :
      unpack (store_header algorithm cookie memory ptr h (header_addr ptr))
      ≡ sealed algorithm cookie ptr h
  unfolding store_header
  read_back =
      ap unpack (update_self memory (header_addr ptr) (pack (sealed algorithm cookie ptr h)))
      ∙ unpack-pack (sealed algorithm cookie ptr h) sealed-FitsFields

  -- The checksum field does not enter the checksum.
  same_checksum :
      compute_header_checksum algorithm cookie ptr (sealed algorithm cookie ptr h)
      ≡ compute_header_checksum algorithm cookie ptr h
  unfolding compute_header_checksum
  same_checksum = refl

  -- A header whose fields fit, once stored, is valid, and loading it gives the same fields and the
  -- checksum, whichever checksum is in use.
  pub load_header-store_header :
      (load_header algorithm cookie (store_header algorithm cookie memory ptr h) ptr
        ≡ some (sealed algorithm cookie ptr h))
      × (is_valid algorithm cookie (store_header algorithm cookie memory ptr h) ptr ≡ true)
  unfolding load_header is_valid
  load_header-store_header = (
    simp (read_back, same_checksum, eq→== (compute_header_checksum algorithm cookie ptr h) _ refl)
        refl,
    eq→== _ _ (
        ap (λ x. x.checksum) read_back
        ∙ sym (ap (compute_header_checksum algorithm cookie ptr) read_back ∙ same_checksum)),
  )
