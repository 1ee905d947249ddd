-- ===== src/Net/Tcp/Packet.antt =====
-- `net_handle_tcp` of src/kernel/net/net_tcp.c: the checks of a TCP packet, the probe of a port, and the
-- answer to a segment that belongs to no connection.
use szczupak_os.Net.Checksum.{tcp_checksum}
use szczupak_os.Net.Tcp.{
  client_matches, segment_advance, is_ack, is_syn, is_rst, handle_segment, Sent, Surroundings,
  Segment, Client,
}
use szczupak_os.Net.Bytes.{ip_equal, ip_is_zero, read_be32, ip_from_u32, read_be16, Bytes}
use szczupak_os.Base.{
  add64, ℕ, ◌+◌, ◌-◌, ◌*◌, ◌/◌, ◌≡◌, refl, Bool, true, false, not, ◌&&◌, ◌||◌, Option, none, some,
  List, [], ◌∷◌, ltb, ◌==◌, if◌then◌else◌, if_elim, length, slice, add32,
}

-- `tcp_probe_state_t`
pub record Probe : Type 0 where
  pub waiting : Bool
  pub received : Bool
  pub open_port : Bool
  pub expected_src_ip : ℕ
  pub src_port : ℕ
  pub dst_port : ℕ
  pub sequence : ℕ
  pub received_tick : ℕ

-- The static variables that the handler changes; the counter is `g_net_stats.rx_tcp`.
pub record Tcp : Type 0 where
  pub probe : Probe
  pub client : Client
  pub rx_tcp : ℕ

-- The fields of `tcp_header_t` that the handler reads, and the payload behind the header.
abbrev pub segment_at : (src_ip length header_length : ℕ) → Bytes → Segment
segment_at src_ip length header_length p = record {
  src_ip = src_ip;
  src_port = read_be16 p 0;
  dst_port = read_be16 p 2;
  sequence = read_be32 p 4;
  ack_number = read_be32 p 8;
  flags = p 13;
  payload = λ i. p (header_length + i);
  payload_length = length - header_length;
}

abbrev pub reset_segment : (dst_ip : ℕ) → Segment → (sequence ack_number flags : ℕ) → Sent
reset_segment dst_ip seg sequence ack_number flags = record {
  from_ip = ip_from_u32 dst_ip;
  to_ip = ip_from_u32 seg.src_ip;
  from_port = seg.dst_port;
  to_port = seg.src_port;
  sequence = sequence;
  ack_number = ack_number;
  flags = flags;
}

-- `tcp_send_reset_for_segment`: what goes out.
unfoldable pub send_reset : (dst_ip : ℕ) → Segment → List Sent
send_reset dst_ip seg =
    let reset_ack = add32 seg.sequence (segment_advance seg.flags seg.payload_length) in
    if is_rst seg.flags
    then []
    else if ip_is_zero (ip_from_u32 dst_ip)
    then []
    else if is_ack seg.flags
    then reset_segment dst_ip seg seg.ack_number 0 4 ∷ []
    else reset_segment dst_ip seg 0 reset_ack 20 ∷ []

-- Whether the answer is for the probe.
abbrev pub probe_matches : Segment → Probe → Bool
probe_matches seg p =
    p.waiting
    && (not p.received
        && (seg.src_ip == p.expected_src_ip
            && (seg.src_port == p.dst_port && seg.dst_port == p.src_port)))

-- What the probe does with a segment for it; `none` where the handler goes on.
unfoldable pub handle_probe : Surroundings → Segment → Probe → Option (List Sent × Probe)
handle_probe e seg p =
    if is_rst seg.flags
    then some ([], record p { received = true; open_port = false; received_tick = e.ticks })
    else if is_syn seg.flags && (is_ack seg.flags && seg.ack_number == add32 p.sequence 1)
    then some (
      record {
        from_ip = e.own_ip;
        to_ip = ip_from_u32 seg.src_ip;
        from_port = p.src_port;
        to_port = p.dst_port;
        sequence = add32 p.sequence 1;
        ack_number = add32 seg.sequence 1;
        flags = 20;
      }
          ∷ [],
      record p { received = true; open_port = true; received_tick = e.ticks },
    )
    else none

-- The end of the handler: the client, and else the answer of the host.
abbrev pub handle_rest : Surroundings → (dst_ip : ℕ) → Segment → Tcp → List Sent × Tcp
handle_rest e dst_ip seg s =
    let (mine, out, c) = handle_segment e seg s.client in
    if mine
    then (out, record s { client = c })
    else if not e.configured
        || (ip_is_zero e.own_ip || not (ip_equal (ip_from_u32 dst_ip) e.own_ip))
    then ([], s)
    else (send_reset dst_ip seg, s)

-- The handler behind its checks.
unfoldable pub dispatch : Surroundings → (dst_ip : ℕ) → Segment → Tcp → List Sent × Tcp
dispatch e dst_ip seg s =
    if seg.src_port == 0 || seg.dst_port == 0
    then ([], s)
    else if probe_matches seg s.probe
    then (elim (handle_probe e seg s.probe) [
      | none ↦ handle_rest e dst_ip seg s
      | some (out, p) ↦ (out, record s { probe = p })
    ])
    else handle_rest e dst_ip seg s

-- `net_handle_tcp` of a packet that is there.
unfoldable pub handle_tcp :
    Surroundings → (payload : Bytes) (length src_ip dst_ip : ℕ) → Tcp → List Sent × Tcp
handle_tcp e p length src_ip dst_ip s =
    let header_length = p 12 / 16 * 4 in
    let verify = tcp_checksum src_ip dst_ip (slice p 0 length) in
    if ltb length 20 || ltb 0xFFFF length
    then ([], s)
    else if ltb header_length 20 || ltb length header_length
    then ([], s)
    else if not (verify == 0) && not (verify == 0xFFFF)
    then ([], s)
    else dispatch e dst_ip (segment_at src_ip length header_length p)
        (record s { rx_tcp = add64 s.rx_tcp 1 })

-- Nothing goes out for a reset.
handle_segment-rst :
    (e : Surroundings) (seg : Segment) (c : Client)
    → is_rst seg.flags ≡ true
    → (handle_segment e seg c).1 ≡ []
unfolding handle_segment
handle_segment-rst e seg c r =
    if_elim (λ (x : Bool × List Sent × Client). x.1 ≡ [])
      (not (client_matches seg.src_ip seg.src_port seg.dst_port c)) refl (rw r refl)

handle_rest-rst :
    (e : Surroundings) (dst_ip : ℕ) (seg : Segment) (s : Tcp)
    → is_rst seg.flags ≡ true
    → (handle_rest e dst_ip seg s).0 ≡ []
unfolding send_reset
handle_rest-rst e dst_ip seg s r =
    let P : List Sent × Tcp → Type 0 = λ x. x.0 ≡ [] in
    if_elim P (handle_segment e seg s.client).0 (handle_segment-rst e seg s.client r) (
      if_elim P
        (not e.configured || (ip_is_zero e.own_ip || not (ip_equal (ip_from_u32 dst_ip) e.own_ip)))
        refl (rw r refl))

dispatch-rst :
    (e : Surroundings) (dst_ip : ℕ) (seg : Segment) (s : Tcp)
    → is_rst seg.flags ≡ true
    → (dispatch e dst_ip seg s).0 ≡ []
unfolding dispatch handle_probe
dispatch-rst e dst_ip seg s r =
    let P : List Sent × Tcp → Type 0 = λ x. x.0 ≡ [] in
    if_elim P (seg.src_port == 0 || seg.dst_port == 0) refl
      (if_elim P (probe_matches seg s.probe) (rw r refl) (handle_rest-rst e dst_ip seg s r))

-- A packet with the reset flag is never answered, whatever else it holds, so two hosts cannot send each
-- other resets without an end.
pub no_answer_to_reset :
    (e : Surroundings) (payload : Bytes) (length src_ip dst_ip : ℕ) (s : Tcp)
    → is_rst (payload 13) ≡ true
    → (handle_tcp e payload length src_ip dst_ip s).0 ≡ []
unfolding handle_tcp
no_answer_to_reset e p length src_ip dst_ip s r =
    let P : List Sent × Tcp → Type 0 = λ x. x.0 ≡ [] in
    let header_length = p 12 / 16 * 4 in
    let verify = tcp_checksum src_ip dst_ip (slice p 0 length) in
    if_elim P (ltb length 20 || ltb 0xFFFF length) refl (
      if_elim P (ltb header_length 20 || ltb length header_length) refl (
        if_elim P (not (verify == 0) && not (verify == 0xFFFF)) refl (
          dispatch-rst e dst_ip (segment_at src_ip length header_length p)
            (record s { rx_tcp = add64 s.rx_tcp 1 }) r)))
