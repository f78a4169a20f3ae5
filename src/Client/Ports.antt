-- ===== src/Client/Ports.antt =====
-- client.c: what discover_server returns.
use threaded_network_adder.Base.{
  ℕ, zero, suc, ◌+◌, ◌*◌, ◌<◌, ◌≡◌, ◌⊎◌, refl, ap, inl, inr, Bool, true, false, Option, none, some,
  ℤ, negsuc, arith, length, if_cases, Option-cases,
}
use threaded_network_adder.Net.{SockAddr, htons}
use threaded_network_adder.Client.Search.{
  Probe, Search, hit, probe_ports, discover_server, base_port, max_servers, port_step,
  nothing_found,
}

-- The first `rounds` ports from `port` on do not answer.
abbrev pub Misses : ℕ → ℕ → (ℕ → Probe) → Type 0
Misses rounds port probe = (k : ℕ) → k < rounds → hit (probe (port + k * port_step)) ≡ none

-- The server on the `k`-th port is the first that answers.
pub record Finds (rounds port : ℕ) (probe : ℕ → Probe) (s : Search) : Type 0 where
  pub index : ℕ
  pub host : ℕ
  pub in_range : index < rounds
  pub none_before : Misses index port probe
  pub answers : hit (probe (port + index * port_step)) ≡ some (s.request_port, host)
  pub address : s.server_addr ≡ record { s_addr = host; sin_port = htons s.request_port }
  pub asks : length s.asked ≡ suc index

pub record FindsNone (rounds port : ℕ) (probe : ℕ → Probe) (addr : SockAddr) (s : Search)
    : Type 0 where
  pub all_miss : Misses rounds port probe
  pub failure : s.request_port ≡ negsuc 0
  pub same_address : s.server_addr ≡ addr
  pub asks : length s.asked ≡ rounds

shift_port :
    (port k : ℕ) (probe : ℕ → Probe) (o : Option (ℤ × ℕ))
    → hit (probe (port + port_step + k * port_step)) ≡ o
    → hit (probe (port + suc k * port_step)) ≡ o
shift_port port k probe o e =
    let same : port + suc k * port_step ≡ port + port_step + k * port_step = omega arith in
    rw same e

Misses-suc :
    (rounds port : ℕ) (probe : ℕ → Probe)
    → hit (probe port) ≡ none
    → Misses rounds (port + port_step) probe
    → Misses (suc rounds) port probe
Misses-suc rounds port probe e m zero h =
    let same : port + 0 * port_step ≡ port = omega arith in rw same e
Misses-suc rounds port probe e m (suc k) h = shift_port port k probe none (m k (omega arith))

probe_ports-cases :
    (rounds port : ℕ) (probe : ℕ → Probe) (addr : SockAddr)
    → let s = probe_ports rounds port probe addr in
      Finds rounds port probe s ⊎ FindsNone rounds port probe addr s
unfolding probe_ports
probe_ports-cases zero port probe addr = inr (record {
  all_miss = λ k h. absurd (omega arith);
  failure = refl;
  same_address = refl;
  asks = refl;
})
probe_ports-cases (suc rounds) port probe addr = elim (Option-cases (hit (probe port))) [
  | inr ((value, host), e) ↦
      rw (e, probe_ports)
        (inl (record {
          index = 0;
          host = host;
          in_range = omega arith;
          none_before = λ k h. absurd (omega arith);
          answers = let same : port + 0 * port_step ≡ port = omega arith in rw same e;
          address = refl;
          asks = refl;
        }))
  | inl e ↦
      rw (e, probe_ports)
        (elim (probe_ports-cases rounds (port + port_step) probe addr) [
          | inl f ↦ inl (record {
            index = suc f.index;
            host = f.host;
            in_range = omega (arith, f.in_range);
            none_before = Misses-suc f.index port probe e f.none_before;
            answers = shift_port port f.index probe _ f.answers;
            address = f.address;
            asks = ap suc f.asks;
          })
          | inr n ↦ inr (record {
            all_miss = Misses-suc rounds port probe e n.all_miss;
            failure = n.failure;
            same_address = n.same_address;
            asks = ap suc n.asks;
          })
        ])
]

-- What a search may come to.
pub data Searched (ready : Bool) (probe : ℕ → Probe) (addr : SockAddr) : Search → Type 0 where
  finds :
      {s : Search}
      → ready ≡ true
      → Finds max_servers base_port probe s
      → Searched ready probe addr s
  finds_none :
      {s : Search}
      → ready ≡ true
      → FindsNone max_servers base_port probe addr s
      → Searched ready probe addr s
  not_ready : ready ≡ false → Searched ready probe addr (nothing_found addr)

-- The search asks the ports 2000, 2004, ..., 2036 in order and stops at the first that answers
-- with DESC_ACK: it returns the port in that answer and the address of its sender. Where none of
-- the ten answers so it returns -1, having asked all of them, and leaves the address alone; so it
-- does, having asked none, where its socket cannot be set up.
pub discover_server-Searched :
    (ready : Bool) (probe : ℕ → Probe) (addr : SockAddr)
    → Searched ready probe addr (discover_server ready probe addr)
unfolding discover_server
discover_server-Searched ready probe addr =
    if_cases (Searched ready probe addr) ready _ _
      (λ up. elim (probe_ports-cases max_servers base_port probe addr) [
        | inl f ↦ finds up f
        | inr n ↦ finds_none up n
      ])
      (λ down. not_ready down)
