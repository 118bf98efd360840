-- ===== src/Wire/Tags.antt =====
-- The message types and sizes of common/src/protocol.rs.
use chainlightning.Base.{ℕ}

abbrev pub msg_data : ℕ
msg_data = 0x01

abbrev pub msg_announce : ℕ
msg_announce = 0x02

abbrev pub msg_ack : ℕ
msg_ack = 0x03

abbrev pub msg_stats : ℕ
msg_stats = 0x04

abbrev pub msg_keepalive : ℕ
msg_keepalive = 0x05

abbrev pub msg_probe : ℕ
msg_probe = 0x06

abbrev pub chunk_header_size : ℕ
chunk_header_size = 20

abbrev pub announce_header_size : ℕ
announce_header_size = 22

abbrev pub ack_size : ℕ
ack_size = 26

abbrev pub keepalive_size : ℕ
keepalive_size = 10

abbrev pub probe_size : ℕ
probe_size = 51
