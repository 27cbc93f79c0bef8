-- ===== src/Net/Tcp/Open.antt =====
-- `tcp_connect` and `tcp_accept` of net/tcp.c, from one wait to the next, and `tcp_checksum`.
mod Tests
use plant_os.Base.{
  ℕ, ◌+◌, ◌-◌, ◌%◌, ◌^◌, ◌≡◌, refl, Bool, true, false, ◌&&◌, ◌||◌, not, Option, none, some, List,
  [], ◌∷◌, ◌++◌, length, set, ltb, leb, ◌==◌, if◌then◌else◌,
}
use plant_os.Net.Tcp.{
  TcpState, listen, syn_sent, syn_received, established, is_state, Conn, World, max_conns, syn,
  add32, send_segment, conn, tcp_gen_iss, alloc_conn, free_conn,
}
use plant_os.Net.Netbuf.{put16, put32, sum16, fold16, net_checksum}
use plant_os.Net.Arp.{ArpEntry, arp_resolve}

-- The 12 bytes of a `struct tcp_pseudo`.
abbrev pub pseudo_header : ℕ → ℕ → ℕ → List ℕ
pseudo_header src_ip dst_ip tcp_len = put32 src_ip ++ (put32 dst_ip ++ (0 ∷ 6 ∷ put16 tcp_len))

-- The sum goes over the pseudo-header and then over the segment.
unfoldable pub tcp_checksum : ℕ → ℕ → List ℕ → ℕ
tcp_checksum src_ip dst_ip segment =
    2 ^ 16
    - 1
    - fold16 3 (sum16 segment (sum16 (pseudo_header src_ip dst_ip (length segment % 2 ^ 16)) 0))
      % 2 ^ 16

-- It is `net_checksum` of the two together.
tcp_checksum-net_checksum :
    (src_ip dst_ip : ℕ) (segment : List ℕ)
    → tcp_checksum src_ip dst_ip segment
      ≡ net_checksum (pseudo_header src_ip dst_ip (length segment % 2 ^ 16) ++ segment)
unfolding tcp_checksum net_checksum sum16
tcp_checksum-net_checksum src_ip dst_ip segment = refl

-- The port, and the next value of `next_ephemeral`.
unfoldable pub alloc_ephemeral : ℕ → ℕ × ℕ
alloc_ephemeral next_ephemeral = (next_ephemeral, (next_ephemeral + 1) % 2 ^ 16)

-- What a call comes to: another wait, -1, or a connection.
pub data Opening : Type 0 where
  waits : Opening
  fails : Opening
  returns : ℕ → Opening

-- `tcp_connect` from the address `ip`, until it looks for the hardware address; `none` is -1.
unfoldable pub connect_start : List Conn → ℕ → ℕ → ℕ → ℕ → World → Option (ℕ × List Conn × ℕ)
connect_start cs next_ephemeral ip dst_ip dst_port w = elim (alloc_conn cs) [
  | none ↦ none
  | some (i, cs') ↦
      let (port, next) = alloc_ephemeral next_ephemeral in
      let iss = tcp_gen_iss w.now in
      some (
        i,
        set cs' i (record (conn cs' i) {
          local_ip = ip;
          local_port = port;
          remote_ip = dst_ip;
          remote_port = dst_port;
          iss = iss;
          snd_una = iss;
          snd_nxt = add32 iss 1;
          tx_seq = add32 iss 1;
          state = syn_sent;
        }),
        next,
      )
]

-- One look for the hardware address of the next hop after `waited` ticks: the SYN, if it is there.
-- Before the first wait the code calls `arp_request`.
unfoldable pub connect_arp :
    List Conn → ℕ → List ArpEntry → ℕ → ℕ → World → List Conn × World × Opening
connect_arp cs i cache hop waited w = elim (arp_resolve cache hop) [
  | some mac ↦
      let (c, w') = send_segment (conn cs i) syn (conn cs i).iss [] w in (set cs i c, w', waits)
  | none ↦ if ltb 200 waited then (set cs i (free_conn (conn cs i)), w, fails) else (cs, w, waits)
]

-- One look of its last wait.
unfoldable pub connect_look : List Conn → ℕ → ℕ → List Conn × Opening
connect_look cs i waited =
    if not (conn cs i).established_flag && not (conn cs i).closed_flag
    then (if ltb 500 waited then (set cs i (free_conn (conn cs i)), fails) else (cs, waits))
    else if (conn cs i).closed_flag
    then (cs, fails)
    else (cs, returns i)

-- The first other connection at the port that is open or about to be, from slot `i` on.
unfoldable pub child_from : List Conn → ℕ → ℕ → ℕ → Option ℕ
child_from [] i listen_conn port = none
child_from (c ∷ cs) i listen_conn port =
    let rest = child_from cs (i + 1) listen_conn port in
    if not (i == listen_conn)
      && (c.used
          && (c.local_port == port
              && (is_state c.state syn_received || is_state c.state established)))
    then some i
    else rest

-- `tcp_accept` until it has a child to wait for: `none` is -1, and `some none` another wait.
unfoldable pub accept_start : List Conn → ℕ → List Conn × Option (Option ℕ)
accept_start cs i =
    let cleared = set cs i (record (conn cs i) { data_ready = false }) in
    if leb max_conns i || (not (conn cs i).used || not (is_state (conn cs i).state listen))
    then (cs, none)
    else if not (conn cs i).data_ready
    then (cs, some none)
    else (
      cleared,
      (elim (child_from cleared 0 i (conn cs i).local_port) [
        | none ↦ none
        | some k ↦ some (some k)
      ]),
    )

-- One look of its wait for the child.
unfoldable pub accept_look : List Conn → ℕ → ℕ → List Conn × Opening
accept_look cs child waited =
    if is_state (conn cs child).state syn_received
    then (if ltb 500 waited then (set cs child (free_conn (conn cs child)), fails) else (cs, waits))
    else if is_state (conn cs child).state established
    then (cs, returns child)
    else (set cs child (free_conn (conn cs child)), fails)
