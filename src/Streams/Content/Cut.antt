-- ===== src/Streams/Content/Cut.antt =====
-- `decodeContent` on a character that is cut between two messages.
use data_plane_gateway.Prelude.{ℕ, ◌+◌, ◌/◌, ◌%◌}

-- The first and the second byte of a character of two bytes.
abbrev pub first_byte : ℕ → ℕ
first_byte c = 0xc0 + c / 64

abbrev pub second_byte : ℕ → ℕ
second_byte c = 0x80 + c % 64
