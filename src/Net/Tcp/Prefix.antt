-- ===== src/Net/Tcp/Prefix.antt =====
-- Every state of the TCP client of src/kernel/net/net_tcp.c holds a prefix of the peer's stream.
use szczupak_os.Net.Tcp.Stream.{send_segment-Received, handle_segment-Received, Received, MayArrive}
use szczupak_os.Net.Tcp.{new_client, handle_segment, send_segment, Surroundings, Segment, Client}
use szczupak_os.Net.Bytes.{Bytes}
use szczupak_os.Base.{
  ℕ, ◌+◌, ◌^◌, ◌≤◌, ◌<◌, ◌≡◌, refl, sym, ◌∙◌, inl, inr, true, false, arith, ltb→ge, ge→ltb,
}

-- The clients that a new one may become: segments arrive, and the program sends.
pub data Reach (f : Bytes) (n iss : ℕ) (start : Client) : Client → Type 0 where
  begin : Reach f n iss start start
  arrive :
      (c : Client) (e : Surroundings) (seg : Segment)
      → Reach f n iss start c
      → MayArrive f n iss seg c
      → Reach f n iss start (handle_segment e seg c).2
  send :
      (c : Client) (e : Surroundings) (flags payload_length : ℕ)
      → Reach f n iss start c
      → Reach f n iss start (send_segment flags payload_length e c).2

module _ (f : Bytes) (n iss : ℕ) (small : n + 2 < 2 ^ 32) where
  pub Reach-Received :
      (start c : Client) → Received f n iss start → Reach f n iss start c → Received f n iss c
  Reach-Received start c h begin = h
  Reach-Received start _ h (arrive c e seg r may) =
      handle_segment-Received f n iss small e seg c may (Reach-Received start c h r)
  Reach-Received start _ h (send c e flags payload_length r) =
      send_segment-Received f n iss small e flags payload_length c (Reach-Received start c h r)

pub new_client-Received :
    (f : Bytes) (n iss : ℕ) (src_port dst_port remote_ip sequence : ℕ) (buffer : Bytes)
    (capacity ticks : ℕ)
    → capacity < 2 ^ 32
    → Received f n iss (new_client src_port dst_port remote_ip sequence buffer capacity ticks)
new_client-Received f n iss src_port dst_port remote_ip sequence buffer capacity ticks room =
    record {
      received = 0;
      closed = false;
      in_order = record {
        within = omega arith;
        next = λ e. absurd (cc);
        before = λ e. (refl, refl);
        all = λ e. absurd (cc);
        stored = omega arith;
        prefix = λ x l. absurd (omega arith);
        cut = sym (ge→ltb capacity 0 (omega arith));
        ended = λ e. absurd (cc);
        done = λ e. absurd (cc);
      };
      room = room;
    }

-- Whatever segments arrive from elsewhere, and in whatever order, however often and with whatever
-- losses those of the peer arrive, the buffer of the client holds a prefix of the peer's stream of less
-- than 2^32 - 2 bytes. When the client is finished, without a reset and not truncated, it holds the
-- whole stream.
pub received_prefix :
    (f : Bytes) (n iss : ℕ) (src_port dst_port remote_ip sequence : ℕ) (buffer : Bytes)
    (capacity ticks : ℕ) (c : Client)
    → n + 2 < 2 ^ 32
    → capacity < 2 ^ 32
    → Reach f n iss (new_client src_port dst_port remote_ip sequence buffer capacity ticks) c
    → (c.rx_length ≤ n)
      × ((x : ℕ) → x < c.rx_length → c.rx_buffer x ≡ f x)
      × (c.finished ≡ true → c.reset ≡ false → c.truncated ≡ false → c.rx_length ≡ n)
received_prefix f n iss src_port dst_port remote_ip sequence buffer capacity ticks c small room r =
    let start = new_client src_port dst_port remote_ip sequence buffer capacity ticks in
    let h =
      Reach-Received f n iss small start c
        (new_client-Received f n iss src_port dst_port remote_ip sequence buffer capacity ticks
          room)
        r in
    let within = h.in_order.within in
    let stored = h.in_order.stored in
    (
      omega arith,
      h.in_order.prefix,
      λ fin clean fit. elim (h.in_order.done fin) [
        | inl dirty ↦ absurd (cc)
        | inr closed ↦
            let whole = h.in_order.all closed in
            let under = ltb→ge c.rx_capacity h.received (sym h.in_order.cut ∙ fit) in omega arith
      ],
    )
