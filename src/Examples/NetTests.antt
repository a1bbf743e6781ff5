-- ===== src/Examples/NetTests.antt =====
-- os/src/net at concrete inputs.
use wasabi.Base.{ℕ, [], ◌∷◌, List}

-- An IPv4 header with its checksum field, bytes 10 and 11, cleared.
abbrev head : List ℕ
head = 0x00 ∷ 0x45 ∷ 0x73 ∷ 0x00 ∷ 0x00 ∷ 0x00 ∷ 0x00 ∷ 0x40 ∷ 0x11 ∷ 0x40 ∷ []

abbrev tail : List ℕ
tail = 0xa8 ∷ 0xc0 ∷ 0x01 ∷ 0x00 ∷ 0xa8 ∷ 0xc0 ∷ 0xc7 ∷ 0x00 ∷ []
