-- ===== src/Header/Types.antt =====
-- src/header.rs: `LhaHeader`. A boxed slice is a list of bytes, and `MsDosAttrs` is its 16 bits.
use rust_delharc.Prelude.{ℕ, List, [], replicate}

pub record LhaHeader : Type 0 where
  pub level : ℕ
  pub compression : List ℕ
  pub compressed_size : ℕ
  pub original_size : ℕ
  pub filename : List ℕ
  pub msdos_attrs : ℕ
  pub last_modified : ℕ
  pub os_type : ℕ
  pub file_crc : ℕ
  pub extended_area : List ℕ
  pub first_header_len : ℕ
  pub extra_headers : List ℕ

-- `LhaHeader::default()`; `MsDosAttrs::ARCHIVE` is bit 5.
abbrev pub default_header : LhaHeader
default_header = record {
  level = 0;
  compression = replicate 5 0;
  compressed_size = 0;
  original_size = 0;
  filename = [];
  msdos_attrs = 0x20;
  last_modified = 0;
  os_type = 0;
  file_crc = 0;
  extended_area = [];
  first_header_len = 0;
  extra_headers = [];
}
