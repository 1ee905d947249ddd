-- ===== src/Net/Tcp/Delivery.antt =====
-- The TCP client of src/kernel/net/net_tcp.c gets all that the peer sends, if the peer repeats what
-- is not acknowledged.
use szczupak_os.Net.Tcp.Order.{InOrder}
use szczupak_os.Net.Tcp.Prefix.{arrive, send, send, arrive}
use szczupak_os.Net.Tcp.Kept.{IsPeer}
use szczupak_os.Net.Tcp.{is_rst, is_fin, handle_segment, Surroundings, Segment, Client}
use szczupak_os.Net.Bytes.{Bytes}
use szczupak_os.Base.{ℕ, ◌+◌, ◌%◌, ◌^◌, ◌≤◌, ◌<◌, ◌≡◌, ◌≢◌, true, false, List, [], ◌∷◌, arith}

-- Segments that arrive one after the other.
pub deliver : List (Surroundings × Segment) → Client → Client
deliver [] c = c
deliver ((e, seg) ∷ rest) c = deliver rest (handle_segment e seg c).2

-- A segment of the connection that is no reset.
pub record FromPeer (ip port local : ℕ) (seg : Segment) : Type 0 where
  pub from_ip : seg.src_ip ≡ ip
  pub from_port : seg.src_port ≡ port
  pub to_port : seg.dst_port ≡ local
  pub no_reset : is_rst seg.flags ≡ false

-- The part of the stream that starts at `o`.
pub record IsPart (f : Bytes) (n iss o : ℕ) (seg : Segment) : Type 0 where
  pub place : seg.sequence ≡ (iss + 1 + o) % 2 ^ 32
  pub fits : o + seg.payload_length ≤ n
  pub bytes : (j : ℕ) → j < seg.payload_length → seg.payload j ≡ f (o + j)

-- Segments by which a peer delivers the rest of its stream from `o` on: the parts in order, up to the
-- one that ends it, and in between any segments with another sequence number.
pub data Delivers (f : Bytes) (n iss ip port local : ℕ)
    : (o : ℕ) → List (Surroundings × Segment) → Type 0 where
  last :
      (o : ℕ) (e : Surroundings) (seg : Segment)
      → FromPeer ip port local seg
      → IsPart f n iss o seg
      → is_fin seg.flags ≡ true
      → o + seg.payload_length ≡ n
      → Delivers f n iss ip port local o ((e, seg) ∷ [])
  next :
      (o : ℕ) (e : Surroundings) (seg : Segment) (rest : List (Surroundings × Segment))
      → FromPeer ip port local seg
      → IsPart f n iss o seg
      → is_fin seg.flags ≡ false
      → Delivers f n iss ip port local (o + seg.payload_length) rest
      → Delivers f n iss ip port local o ((e, seg) ∷ rest)
  stale :
      (o : ℕ) (e : Surroundings) (seg : Segment) (rest : List (Surroundings × Segment))
      → FromPeer ip port local seg
      → seg.sequence ≢ (iss + 1 + o) % 2 ^ 32
      → Delivers f n iss ip port local o rest
      → Delivers f n iss ip port local o ((e, seg) ∷ rest)

module _ (f : Bytes) (n iss ip port local capacity : ℕ) (small : n + 2 < 2 ^ 32)
    (room : capacity < 2 ^ 32) where
  abbrev Peer : Client → Type 0
  Peer c = IsPeer ip port local capacity c

  place :
      (o : ℕ) (c : Client)
      → c.established ≡ true
      → InOrder f n iss o false c
      → c.rcv_nxt ≡ (iss + 1 + o) % 2 ^ 32
  place o c up h = omega (arith, h.next up)
