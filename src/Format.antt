-- ===== src/Format.antt =====
-- The constants of the file format, of src/qdb_internal.h and include/qdb.h, in one place.
use qdb.Base.{ℕ, ◌+◌, ◌*◌, ◌-◌, ◌^◌, List, [], ◌∷◌}

abbrev pub hdr_size : ℕ
hdr_size = 4096

abbrev pub page_size : ℕ
page_size = 4096

abbrev pub format_version : ℕ
format_version = 1

abbrev pub max_format_version : ℕ
max_format_version = 1

abbrev pub hdr_crc_cover : ℕ
hdr_crc_cover = 52

abbrev pub flag_wal_present : ℕ
flag_wal_present = 1

abbrev pub flag_dirty : ℕ
flag_dirty = 2

-- Record types.
abbrev pub rt_msg_push : ℕ
rt_msg_push = 0x01

abbrev pub rt_msg_lease : ℕ
rt_msg_lease = 0x02

abbrev pub rt_msg_ack : ℕ
rt_msg_ack = 0x03

abbrev pub rt_msg_nack : ℕ
rt_msg_nack = 0x04

abbrev pub rt_msg_expire : ℕ
rt_msg_expire = 0x05

abbrev pub rt_checkpoint : ℕ
rt_checkpoint = 0x10

abbrev pub rt_padding : ℕ
rt_padding = 0xff

-- A record is its type, the payload's length and checksum, the payload and the commit marker.
abbrev pub rec_hdr_size : ℕ
rec_hdr_size = 9

abbrev pub commit_marker : ℕ
commit_marker = 0xab

abbrev pub wal_hdr_size : ℕ
wal_hdr_size = 64

abbrev pub wal_hdr_crc_cover : ℕ
wal_hdr_crc_cover = 20

abbrev pub msg_max_len : ℕ
msg_max_len = 64 * 1024 * 1024

abbrev pub queue_name_max : ℕ
queue_name_max = 255

abbrev pub max_record_payload : ℕ
max_record_payload = msg_max_len + 512

abbrev pub default_lease_us : ℕ
default_lease_us = 30000000

abbrev pub push_hdr_size : ℕ
push_hdr_size = 9

abbrev pub push_min_plen : ℕ
push_min_plen = 10

abbrev pub payload_lease_size : ℕ
payload_lease_size = 24

abbrev pub payload_ack_size : ℕ
payload_ack_size = 16

abbrev pub payload_checkpoint_size : ℕ
payload_checkpoint_size = 24

abbrev pub invalid_fd : ℕ
invalid_fd = 2 ^ 64 - 1

-- "QDB\r\n\x1a\n\0"
abbrev pub file_magic : List ℕ
file_magic = 0x51 ∷ 0x44 ∷ 0x42 ∷ 0x0d ∷ 0x0a ∷ 0x1a ∷ 0x0a ∷ 0x00 ∷ []

-- "QDBWAL\0\0"
abbrev pub wal_magic : List ℕ
wal_magic = 0x51 ∷ 0x44 ∷ 0x42 ∷ 0x57 ∷ 0x41 ∷ 0x4c ∷ 0x00 ∷ 0x00 ∷ []
