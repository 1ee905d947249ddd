-- ===== src/Net/Tcp/Tests.antt =====
-- The theorems about src/kernel/net/net_tcp.c for a stream of two bytes, and runs of the code.
use szczupak_os.Net.Tcp.Prefix.{begin, arrive, received_prefix, Reach}
use szczupak_os.Net.Tcp.Packet.{Tcp, Probe}
use szczupak_os.Net.Tcp.{
  put, store_payload, send_segment, new_client, client_matches, handle_segment, Surroundings,
  Segment, Client,
}
use szczupak_os.Net.Bytes.{ip_is_zero}
use szczupak_os.Net.Tcp.Order.{opening, part}
use szczupak_os.Base.{ap, ℕ, ◌+◌, ◌≤◌, ◌<◌, ◌≡◌, refl, ap, inr, true, false, arith, length}

abbrev here : Surroundings
here = record {
  configured = true;
  own_ip = record { a = 10; b = 0; c = 2; d = 15 };
  ticks = 5;
  sends = true;
}

abbrev client : Client
client = new_client 49152 80 0x0A000202 7000 (λ _. 0) 100 0

-- The stream is "AB", after the initial sequence number 1000.
abbrev stream : ℕ → ℕ
stream x = 65 + x

abbrev segment : (sequence flags length : ℕ) → Segment
segment sequence flags length = record {
  src_ip = 0x0A000202;
  src_port = 80;
  dst_port = 49152;
  sequence = sequence;
  ack_number = 7000;
  flags = flags;
  payload = stream;
  payload_length = length;
}

-- SYN and ACK, and then both bytes with FIN and ACK.
abbrev opened : Client
opened = (handle_segment here (segment 1000 18 0) client).2

abbrev ended : Client
ended = (handle_segment here (segment 1001 17 2) opened).2

Reach-opened : Reach stream 2 1000 client opened
Reach-opened = arrive client here (segment 1000 18 0) begin (λ _. inr (opening refl refl refl))

Reach-ended : Reach stream 2 1000 client ended
Reach-ended =
    arrive opened here (segment 1001 17 2) Reach-opened
      (λ _. inr (part 0 refl (omega arith) (λ j l. ap stream (omega arith)) refl (λ _. refl)))

ended_run :
    (ended.finished ≡ true)
    × (ended.rx_length ≡ 2)
    × (ended.rx_buffer 1 ≡ 66)
    × (ended.rcv_nxt ≡ 1004)
unfolding handle_segment client_matches store_payload put send_segment ip_is_zero
ended_run = (refl, refl, refl, refl)

received_prefix_example :
    (ended.rx_length ≤ 2)
    × ((x : ℕ) → x < ended.rx_length → ended.rx_buffer x ≡ stream x)
    × (ended.finished ≡ true → ended.reset ≡ false → ended.truncated ≡ false → ended.rx_length ≡ 2)
received_prefix_example =
    received_prefix stream 2 1000 49152 80 0x0A000202 7000 (λ _. 0) 100 0 ended (omega arith)
      (omega arith) Reach-ended

abbrev probe : Probe
probe = record {
  waiting = false;
  received = false;
  open_port = false;
  expected_src_ip = 0;
  src_port = 0;
  dst_port = 0;
  sequence = 0;
  received_tick = 0;
}

abbrev state : Tcp
state = record { probe = probe; client = client; rx_tcp = 0 }
