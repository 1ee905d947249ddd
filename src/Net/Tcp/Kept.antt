-- ===== src/Net/Tcp/Kept.antt =====
-- What no segment changes in the TCP client of src/kernel/net/net_tcp.c.
use szczupak_os.Net.Tcp.{
  is_ack, is_syn, flag_ack, is_rst, is_fin, client_matches, accept, ip_is_zero, Segment,
  Surroundings, store_payload, send_segment, handle_segment, Sent, Bytes, Client,
}
use szczupak_os.Base.{
  ℕ, ◌≡◌, Bool, true, not, ◌&&◌, ◌||◌, List, ltb, ◌==◌, if◌then◌else◌, if_elim, add32,
}

-- The connection that the client has, and the room of its buffer.
pub record IsPeer (ip port local capacity : ℕ) (c : Client) : Type 0 where
  pub active : c.active ≡ true
  pub to_ip : c.remote_ip ≡ ip
  pub to_port : c.dst_port ≡ port
  pub from_port : c.src_port ≡ local
  pub room : c.rx_capacity ≡ capacity

-- A predicate that depends on nothing else.
module _ (P : Client → Type 0)
    (keeps : (c : Client) (truncated finished reset : Bool) (snd rcv length tick : ℕ)
        (buffer : Bytes)
      → P c
      → P (record c {
        truncated = truncated;
        finished = finished;
        reset = reset;
        snd_nxt = snd;
        rcv_nxt = rcv;
        rx_buffer = buffer;
        rx_length = length;
        last_activity_tick = tick;
      }))
    (opens : (c : Client) (rcv : ℕ)
      → P c
      → P (record c { established = true; rcv_nxt = rcv })) where
  pub send_segment-Kept :
      (flags n : ℕ) (e : Surroundings) (c : Client) → P c → P (send_segment flags n e c).2
  unfolding send_segment
  send_segment-Kept flags n e c h =
      if_elim (λ (x : Bool × List Sent × Client). P x.2)
        (not c.active || (not e.configured || ip_is_zero e.own_ip)) h
        (if_elim (λ (x : Bool × List Sent × Client). P x.2) (not e.sends) h
          (keeps c c.truncated c.finished c.reset _ c.rcv_nxt c.rx_length c.last_activity_tick
            c.rx_buffer h))

  accept-Kept : (e : Surroundings) (seg : Segment) (c : Client) → P c → P (accept e seg c).2
  unfolding store_payload
  accept-Kept e seg c h =
      let c1 = if ltb 0 seg.payload_length then store_payload seg c else c in
      let first : P c1 =
        if_elim P (ltb 0 seg.payload_length)
          (keeps c _ c.finished c.reset c.snd_nxt _ _ c.last_activity_tick _ h) h in
      let c2 : Client =
        if is_fin seg.flags
        then record c1 { rcv_nxt = add32 c1.rcv_nxt 1; finished = true }
        else c1 in
      let second : P c2 =
        if_elim P (is_fin seg.flags)
          (keeps c1 c1.truncated true c1.reset c1.snd_nxt _ c1.rx_length c1.last_activity_tick
            c1.rx_buffer first)
          first in
      if_elim (λ (x : Bool × List Sent × Client). P x.2)
        (ltb 0 seg.payload_length || is_fin seg.flags) (send_segment-Kept flag_ack 0 e c2 second)
        second

  pub handle_segment-Kept :
      (e : Surroundings) (seg : Segment) (c : Client) → P c → P (handle_segment e seg c).2
  unfolding handle_segment
  handle_segment-Kept e seg c h =
      let Q : Bool × List Sent × Client → Type 0 = λ x. P x.2 in
      let c1 = record c { last_activity_tick = e.ticks } in
      let h1 : P c1 =
        keeps c c.truncated c.finished c.reset c.snd_nxt c.rcv_nxt c.rx_length e.ticks c.rx_buffer
          h in
      let c2 = record c1 { established = true; rcv_nxt = add32 seg.sequence 1 } in
      if_elim Q (not (client_matches seg.src_ip seg.src_port seg.dst_port c)) h (
        if_elim Q (is_rst seg.flags)
          (keeps c1 c.truncated true true c.snd_nxt c.rcv_nxt c.rx_length e.ticks c.rx_buffer h1)
          (if_elim Q (not c.established)
            (if_elim Q (is_syn seg.flags && (is_ack seg.flags && seg.ack_number == c.snd_nxt))
              (send_segment-Kept flag_ack 0 e c2 (opens c1 (add32 seg.sequence 1) h1)) h1)
            (if_elim Q (not (seg.sequence == c.rcv_nxt))
              (if_elim Q (ltb 0 seg.payload_length || (is_fin seg.flags || is_syn seg.flags))
                (send_segment-Kept flag_ack 0 e c1 h1) h1)
              (accept-Kept e seg c1 h1))))
