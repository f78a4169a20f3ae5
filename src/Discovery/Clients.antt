-- ===== src/Discovery/Clients.antt =====
-- discovery.c: the table of clients.
use threaded_network_adder.Base.{
  ℕ, zero, suc, Bool, Option, none, some, List, [], ◌∷◌, ◌++◌, ℤ, pos, ◌-ℤ◌, ltb, ltb_ℤ, length,
  get_elem?, if◌then◌else◌,
}
use threaded_network_adder.Net.{SockAddr, htons, ntohs}

-- INTERNAL_CLIENT_INFO.
pub record InternalClientInfo : Type 0 where
  pub addr : SockAddr
  pub last_seen : ℤ  -- time_t

-- CLIENT_INFO; the text of the address is kept as the address, `none` for the empty text.
pub record ClientInfo : Type 0 where
  pub id : ℤ
  pub ip : Option ℕ
  pub port : ℤ

abbrev pub max_clients : ℕ
max_clients = 10

-- DISCOVERY_TIMEOUT_MS / 1000.
abbrev pub timeout : ℕ
timeout = 1

abbrev pub new_client : ℤ → ℕ → ℤ → InternalClientInfo
new_client now ip port = record {
  addr = record { s_addr = ip; sin_port = htons port };
  last_seen = now;
}

-- The slots in use are the list; `ip` is what inet_addr reads in the text of the address.
unfoldable pub add_new_client : List InternalClientInfo → ℤ → ℕ → ℤ → List InternalClientInfo
add_new_client clients now ip port =
    if ltb (length clients) max_clients then clients ++ new_client now ip port ∷ [] else clients

-- What inet_ntoa writes fits the buffer, so strncpy cuts nothing off.
abbrev new_client_struct : ℤ → Option ℕ → ℤ → ClientInfo
new_client_struct id ip port = record { id = id; ip = ip; port = port }

-- The first client, or zeros.
unfoldable pub get_clients_vector : List InternalClientInfo → ClientInfo
get_clients_vector [] = new_client_struct (pos 0) none (pos 0)
get_clients_vector (c ∷ clients) =
    new_client_struct (pos 1) (some c.addr.s_addr) (ntohs c.addr.sin_port)

abbrev pub is_stale : ℤ → InternalClientInfo → Bool
is_stale now c = ltb_ℤ (pos timeout) (now -ℤ c.last_seen)

module _ {ℓ} {A : Type ℓ} where
  -- memmove: what stands behind a slot moves one slot to the front.
  unfoldable pub remove_at : ℕ → List A → List A
  remove_at i [] = []
  remove_at zero (x ∷ xs) = xs
  remove_at (suc i) (x ∷ xs) = x ∷ remove_at i xs

-- The loop at slot `i`, for at most `rounds` rounds.
unfoldable pub cleanup_from : ℕ → ℤ → ℕ → List InternalClientInfo → List InternalClientInfo
unfolding remove_at
cleanup_from zero now i clients = clients
cleanup_from (suc rounds) now i clients = elim (get_elem? clients i) [
  | none ↦ clients
  | some c ↦
      let removed = cleanup_from rounds now i (remove_at i clients) in
      let kept = cleanup_from rounds now (suc i) clients in if is_stale now c then removed else kept
]

-- Each round removes an entry or goes on to the next.
unfoldable pub cleanup_clients : ℤ → List InternalClientInfo → List InternalClientInfo
unfolding cleanup_from
cleanup_clients now clients = cleanup_from (length clients) now 0 clients
