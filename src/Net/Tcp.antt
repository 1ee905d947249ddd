-- ===== src/Net/Tcp.antt =====
-- The TCP client of src/kernel/net/net_tcp.c: what it does with a segment that arrives. Bytes behind
-- a pointer are a function from offsets. A segment goes out through `net_send_tcp_ipv4`; whether
-- that can send is part of the surroundings.
pub mod Order
pub mod Stream
pub mod Prefix
pub mod Kept
pub mod Delivery
pub mod Packet
mod Tests
use szczupak_os.Base.{
  ℕ, zero, suc, ◌+◌, ◌-◌, ◌*◌, ◌/◌, ◌%◌, ◌^◌, ◌≤◌, ◌<◌, min, ◌≡◌, refl, sym, ap, ap₂, ◌∙◌, subst,
  ◌≢◌, ◌↔◌, ◌⊎◌, inl, inr, Bool, true, false, not, ◌&&◌, ◌||◌, Option, none, some, List, [], ◌∷◌,
  ◌++◌, arith, ltb, leb, ◌==◌, if◌then◌else◌, ltb→lt, ltb→ge, lt→ltb, ge→ltb, leb→le, leb→gt,
  le→leb, gt→leb, ==→eq, ==→ne, eq→==, ne→==, tests, Bool-cases, Option-cases, if_elim, some_inj,
  length, take, drop, get_or, length-append, length-take, take_nil, take_cons, take_zero, take_all,
  drop_nil, take-min, All, update, slice, update_self, update_ne, slice_eq, add16, add32, sub32,
  add64, sub64, mul64, page_size, align_down, align_up, max, bit_or, has_bit, bit_or_step,
  bit_or-zero, zero-bit_or, bit_or_frame, bit_or_odd, bit_or_half, Memory, read64, write64,
  read64-write64, write64_frame, read64_frame, read64-write64_ne, bit_or_128, AreBytes, read64-lt,
  write64-AreBytes, write64-read64,
}
use szczupak_os.Net.Bytes.{Bytes, Ip, ip_from_u32, ip_is_zero}

-- `TCP_FLAG_FIN`, `TCP_FLAG_SYN`, `TCP_FLAG_RST` and `TCP_FLAG_ACK`
abbrev pub is_fin : ℕ → Bool
is_fin flags = has_bit 1 flags

abbrev pub is_syn : ℕ → Bool
is_syn flags = has_bit 2 flags

abbrev pub is_rst : ℕ → Bool
is_rst flags = has_bit 4 flags

abbrev pub is_ack : ℕ → Bool
is_ack flags = has_bit 16 flags

-- `TCP_FLAG_ACK` alone
abbrev pub flag_ack : ℕ
flag_ack = 16

-- `tcp_client_state_t`
pub record Client : Type 0 where
  pub active : Bool
  pub established : Bool
  pub finished : Bool
  pub reset : Bool
  pub truncated : Bool
  pub src_port : ℕ
  pub dst_port : ℕ
  pub remote_ip : ℕ
  pub snd_nxt : ℕ
  pub rcv_nxt : ℕ
  pub rx_buffer : Bytes
  pub rx_capacity : ℕ
  pub rx_length : ℕ
  pub last_activity_tick : ℕ

-- The arguments of `net_send_tcp_ipv4`, without the time to live and the payload.
pub record Sent : Type 0 where
  pub from_ip : Ip
  pub to_ip : Ip
  pub from_port : ℕ
  pub to_port : ℕ
  pub sequence : ℕ
  pub ack_number : ℕ
  pub flags : ℕ

-- What a handler reads besides the state: the configuration, the time, and whether sending works.
pub record Surroundings : Type 0 where
  pub configured : Bool
  pub own_ip : Ip
  pub ticks : ℕ
  pub sends : Bool

-- The arguments of `tcp_client_handle_segment`.
pub record Segment : Type 0 where
  pub src_ip : ℕ
  pub src_port : ℕ
  pub dst_port : ℕ
  pub sequence : ℕ
  pub ack_number : ℕ
  pub flags : ℕ
  pub payload : Bytes
  pub payload_length : ℕ

-- `tcp_segment_advance`
unfoldable pub segment_advance : (flags payload_length : ℕ) → ℕ
segment_advance flags n =
    let advance = n % 2 ^ 32 in
    let with_syn = if is_syn flags then add32 advance 1 else advance in
    if is_fin flags then add32 with_syn 1 else with_syn

-- `tcp_client_matches`
unfoldable pub client_matches : (src_ip src_port dst_port : ℕ) → Client → Bool
client_matches src_ip src_port dst_port c =
    c.active && (src_ip == c.remote_ip && (src_port == c.dst_port && dst_port == c.src_port))

-- The segment that `tcp_client_send_segment` hands on.
abbrev pub outgoing : (flags : ℕ) → Surroundings → Client → Sent
outgoing flags e c = record {
  from_ip = e.own_ip;
  to_ip = ip_from_u32 c.remote_ip;
  from_port = c.src_port;
  to_port = c.dst_port;
  sequence = c.snd_nxt;
  ack_number = if is_ack flags then c.rcv_nxt else 0;
  flags = flags;
}

-- `tcp_client_send_segment`: whether it was sent, what was handed on, and the client.
unfoldable pub send_segment :
    (flags payload_length : ℕ) → Surroundings → Client → Bool × List Sent × Client
send_segment flags n e c =
    if not c.active || (not e.configured || ip_is_zero e.own_ip)
    then (false, [], c)
    else if not e.sends
    then (false, outgoing flags e c ∷ [], c)
    else (
      true,
      outgoing flags e c ∷ [],
      record c { snd_nxt = add32 c.snd_nxt (segment_advance flags n) },
    )

-- A handler that acknowledges and reports the segment as its own.
abbrev pub acknowledge : Surroundings → Client → Bool × List Sent × Client
acknowledge e c = (let (_, out, c') = send_segment flag_ack 0 e c in (true, out, c'))

-- `memcpy` of `n` bytes of one object to place `i` of another.
unfoldable pub put : (i n : ℕ) → (src dst : Bytes) → Bytes
put i n src dst x = if leb i x && ltb x (i + n) then src (x - i) else dst x

-- What is free behind the bytes received.
abbrev pub remaining : Client → ℕ
remaining c = if ltb c.rx_length c.rx_capacity then c.rx_capacity - c.rx_length else 0

-- The payload is stored as far as there is room, and counted in full.
unfoldable pub store_payload : Segment → Client → Client
store_payload seg c =
    let asked = seg.payload_length % 2 ^ 32 in
    let large = ltb (remaining c) asked in
    let copy_len = if large then remaining c else asked in
    record c {
      truncated = if large then true else c.truncated;
      rx_buffer = put c.rx_length copy_len seg.payload c.rx_buffer;
      rx_length = add32 c.rx_length copy_len;
      rcv_nxt = add32 c.rcv_nxt seg.payload_length;
    }

-- What `tcp_client_handle_segment` does with the segment that comes next.
abbrev pub accept : Surroundings → Segment → Client → Bool × List Sent × Client
accept e seg c =
    let c1 = if ltb 0 seg.payload_length then store_payload seg c else c in
    let c2 =
      if is_fin seg.flags
      then record c1 { rcv_nxt = add32 c1.rcv_nxt 1; finished = true }
      else c1 in
    if ltb 0 seg.payload_length || is_fin seg.flags then acknowledge e c2 else (true, [], c2)

-- Before the connection is established.
abbrev pub open_connection : Surroundings → Segment → Client → Bool × List Sent × Client
open_connection e seg c =
    if is_syn seg.flags && (is_ack seg.flags && seg.ack_number == c.snd_nxt)
    then acknowledge e (record c { established = true; rcv_nxt = add32 seg.sequence 1 })
    else (true, [], c)

-- A segment that does not come next.
abbrev pub out_of_order : Surroundings → Segment → Client → Bool × List Sent × Client
out_of_order e seg c =
    if ltb 0 seg.payload_length || (is_fin seg.flags || is_syn seg.flags)
    then acknowledge e c
    else (true, [], c)

-- `tcp_client_handle_segment`: whether the segment belongs to the connection, what goes out, and
-- the client.
unfoldable pub handle_segment : Surroundings → Segment → Client → Bool × List Sent × Client
handle_segment e seg c =
    let c1 = record c { last_activity_tick = e.ticks } in
    if not (client_matches seg.src_ip seg.src_port seg.dst_port c)
    then (false, [], c)
    else if is_rst seg.flags
    then (true, [], record c1 { reset = true; finished = true })
    else if not c.established
    then open_connection e seg c1
    else if not (seg.sequence == c.rcv_nxt)
    then out_of_order e seg c1
    else accept e seg c1

-- The client that `net_http_get_ipv4` sets up.
abbrev pub new_client :
    (src_port dst_port remote_ip sequence : ℕ) (buffer : Bytes) (capacity ticks : ℕ) → Client
new_client src_port dst_port remote_ip sequence buffer capacity ticks = record {
  active = true;
  established = false;
  finished = false;
  reset = false;
  truncated = false;
  src_port = src_port;
  dst_port = dst_port;
  remote_ip = remote_ip;
  snd_nxt = sequence;
  rcv_nxt = 0;
  rx_buffer = buffer;
  rx_capacity = capacity;
  rx_length = 0;
  last_activity_tick = ticks;
}
