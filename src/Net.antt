-- ===== src/Net.antt =====
-- struct sockaddr_in as the program fills and reads it: an IPv4 address as inet_addr gives it, and
-- a port in network byte order, written by htons and read by ntohs.
use threaded_network_adder.Base.{ℕ, ◌+◌, ◌*◌, ◌/◌, ◌%◌, ◌<◌, ◌≡◌, arith, ℤ, pos, residue}

-- sin_family is AF_INET wherever an address is filled in.
pub record SockAddr : Type 0 where
  pub s_addr : ℕ  -- uint32_t
  pub sin_port : ℕ  -- uint16_t, network byte order

-- The two bytes of a uint16_t change places (the hosts are little endian).
abbrev swap_bytes : ℕ → ℕ
swap_bytes w = w % 256 * 256 + w / 256

-- The argument is an int, cut to uint16_t.
unfoldable pub htons : ℤ → ℕ
unfolding residue
htons port = swap_bytes (residue 0x1_0000 port)

unfoldable pub ntohs : ℕ → ℤ
ntohs w = pos (swap_bytes w)

-- inet_addr("127.0.0.1"): the bytes 127 0 0 1, the first one lowest.
abbrev pub loopback : ℕ
loopback = 0x0100_007f

-- A port number survives the two conversions.
pub ntohs-htons : (p : ℕ) → p < 0x1_0000 → ntohs (htons (pos p)) ≡ pos p
unfolding ntohs htons
ntohs-htons p h = ground arith

pub zero_addr : SockAddr
zero_addr = record { s_addr = 0; sin_port = 0 }
