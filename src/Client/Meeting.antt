-- ===== src/Client/Meeting.antt =====
-- client.c and server_prot.c together: how a client finds a server.
use threaded_network_adder.Base.{
  ℕ, ◌+◌, ◌*◌, ◌<◌, ◌≡◌, refl, sym, ap, ◌∙◌, inl, inr, Bool, true, Option, none, some, ℤ, pos,
  arith, wrap_int, wrap_int_of_IsInt, ◌+ℤ◌, Bool-cases, ltb, subst, ◌⊎◌,
}
use threaded_network_adder.Net.{SockAddr, htons}
use threaded_network_adder.Server.Packet.{desc, RequestPacket, ResponsePacket, whole}
use threaded_network_adder.Server.Request.{
  receive_and_decode_message, discovery_round, discovery_answer,
}
use threaded_network_adder.Client.Search.{
  Probe, unanswered, answered, Search, hit, discover_server, base_port, port_step, max_servers,
}
use threaded_network_adder.Client.Ports.{
  Misses, Finds, Searched, finds, finds_none, not_ready, discover_server-Searched,
}

-- DISCOVERY: what the client sends to each port.
abbrev pub discovery_packet : RequestPacket
discovery_packet = record { type = desc; req = record { seqn = pos 1; value = pos 0 } }

-- The base port of the `k`-th server.
abbrev pub server_port : ℕ → ℕ
server_port k = base_port + k * port_step

-- The network brings the answer of a host.
abbrev pub brought : ℕ → Option ResponsePacket → Probe
brought host o = elim o [ none ↦ unanswered | some p ↦ answered p.type p.resp.value host ]

-- The server on a port answers there with the port above.
hit_server :
    (host k : ℕ)
    → k < max_servers
    → hit (brought host (discovery_round (pos (server_port k)) (whole discovery_packet)))
      ≡ some (pos (server_port k + 1), host)
unfolding hit discovery_round discovery_answer receive_and_decode_message ◌+ℤ◌
hit_server host k h =
    let plus : pos (server_port k) +ℤ pos 1 ≡ pos (server_port k + 1) = ground arith in
    ap (λ (v : ℤ). some (v, host))
      (ap wrap_int plus ∙ wrap_int_of_IsInt (pos (server_port k + 1)) (omega arith))

order : (m n : ℕ) → (m ≡ n) ⊎ ((m < n) ⊎ (n < m))
order m n = elim (Bool-cases (ltb m n)) [
  | inl less ↦ inr (inl (ground arith))
  | inr le ↦ elim (Bool-cases (ltb n m)) [
    | inl more ↦ inr (inr (ground arith))
    | inr ge ↦ inl (ground arith)
  ]
]

none_or_some {ℓ} : {A : Type ℓ} (o : Option A) (a : A) → o ≡ none → o ≡ some a → ⊥
none_or_some o a e f = cc

-- A search that finds stops at the first port that answers.
first_index :
    (k : ℕ) (probe : ℕ → Probe) (h : ℤ × ℕ) (s : Search)
    → k < max_servers
    → Misses k base_port probe
    → hit (probe (server_port k)) ≡ some h
    → (f : Finds max_servers base_port probe s) → f.index ≡ k
first_index k probe h s small before here f = elim (order f.index k) [
  | inl same ↦ same
  | inr (inl less) ↦ absurd (none_or_some _ _ (before f.index less) f.answers)
  | inr (inr more) ↦ absurd (none_or_some _ h (f.none_before k more) here)
]

some_inj {ℓ} : {A : Type ℓ} (a b : A) → some a ≡ some b → a ≡ b
some_inj a b e = cc

found_first :
    (k host : ℕ) (value : ℤ) (probe : ℕ → Probe) (s : Search)
    → k < max_servers
    → Misses k base_port probe
    → hit (probe (server_port k)) ≡ some (value, host)
    → Finds max_servers base_port probe s
    → (s.request_port ≡ value) × (s.server_addr ≡ record { s_addr = host; sin_port = htons value })
found_first k host value probe s small before here f =
    let at_k = first_index k probe (value, host) s small before here f in
    let there : hit (probe (server_port k)) ≡ some (s.request_port, f.host) =
      subst (λ (i : ℕ). hit (probe (server_port i)) ≡ some (s.request_port, f.host)) at_k
        f.answers in
    let same = some_inj _ _ (sym there ∙ here) in
    let port : s.request_port ≡ value = ap (λ (p : ℤ × ℕ). p.0) same in
    let at_host : f.host ≡ host = ap (λ (p : ℤ × ℕ). p.1) same in
    (port, f.address ∙ (rw (port, at_host) refl))

-- The result of a search.
pub record Met (k host : ℕ) (s : Search) : Type 0 where
  pub port : s.request_port ≡ pos (server_port k + 1)
  pub address : s.server_addr ≡ record { s_addr = host; sin_port = htons (pos (server_port k + 1)) }

first_port_search :
    (ready : Bool) (k host : ℕ) (value : ℤ) (probe : ℕ → Probe) (addr : SockAddr)
    → k < max_servers
    → Misses k base_port probe
    → hit (probe (server_port k)) ≡ some (value, host)
    → ready ≡ true
    → {s : Search} → Searched ready probe addr s
    → (s.request_port ≡ value) × (s.server_addr ≡ record { s_addr = host; sin_port = htons value })
first_port_search ready k host value probe addr small before here up {s} (finds _ f) =
    found_first k host value probe s small before here f
first_port_search ready k host value probe addr small before here up (finds_none _ n) =
    absurd (none_or_some _ _ (n.all_miss k small) here)
first_port_search ready k host value probe addr small before here up (not_ready down) = absurd cc

-- The search ends with the first answer of the right type.
pub found_by_search :
    (ready : Bool) (k host : ℕ) (value : ℤ) (probe : ℕ → Probe) (addr : SockAddr)
    → ready ≡ true
    → k < max_servers
    → Misses k base_port probe
    → hit (probe (server_port k)) ≡ some (value, host)
    → let s = discover_server ready probe addr in
      (s.request_port ≡ value) × (s.server_addr ≡ record { s_addr = host; sin_port = htons value })
found_by_search ready k host value probe addr up small before here =
    first_port_search ready k host value probe addr small before here up
      (discover_server-Searched ready probe addr)

-- Where no server listens below the `k`-th base port, and the answer of the server on that port
-- comes, the search ends with the port of that server's request service and the server's host,
-- whether the server is the primary or not.
pub discover_server-Met :
    (ready : Bool) (k host : ℕ) (probe : ℕ → Probe) (addr : SockAddr)
    → ready ≡ true
    → k < max_servers
    → Misses k base_port probe
    → probe (server_port k)
      ≡ brought host (discovery_round (pos (server_port k)) (whole discovery_packet))
    → Met k host (discover_server ready probe addr)
discover_server-Met ready k host probe addr up small before e =
    let (port, address) =
      found_by_search ready k host _ probe addr up small before
        (ap hit e ∙ hit_server host k small) in
    record { port = port; address = address }
