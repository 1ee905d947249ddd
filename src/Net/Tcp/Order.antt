-- ===== src/Net/Tcp/Order.antt =====
-- The bytes that the TCP client of src/kernel/net/net_tcp.c receives, and the peer's stream.
use szczupak_os.Net.Tcp.{
  Sent, accept, remaining, is_syn, acknowledge, put, is_fin, Surroundings, store_payload,
  send_segment, Segment, Client,
}
use szczupak_os.Net.Bytes.{ip_is_zero, Bytes}
use szczupak_os.Base.{
  ℕ, ◌+◌, ◌-◌, ◌%◌, ◌^◌, ◌≤◌, ◌<◌, min, ◌≡◌, refl, sym, ap, ◌∙◌, subst, ◌⊎◌, inl, inr, Bool, true,
  false, not, ◌||◌, List, arith, ltb, if◌then◌else◌, ltb→lt, ltb→ge, lt→ltb, ge→ltb, le→leb, gt→leb,
  Bool-cases, if_elim, add32,
}

-- A segment of a peer that sends the `n` bytes of `f` after the initial sequence number `iss`, whether
-- it comes in order, late, twice or never: it opens the connection, carries a part of the
-- stream, or follows its end.
pub data IsGenuine (f : Bytes) (n iss : ℕ) (seg : Segment) : Type 0 where
  opening :
      seg.sequence ≡ iss % 2 ^ 32
      → seg.payload_length ≡ 0
      → is_fin seg.flags ≡ false
      → IsGenuine f n iss seg
  part :
      (o : ℕ)
      → seg.sequence ≡ (iss + 1 + o) % 2 ^ 32
      → o + seg.payload_length ≤ n
      → ((j : ℕ) → j < seg.payload_length → seg.payload j ≡ f (o + j))
      → is_syn seg.flags ≡ false
      → (is_fin seg.flags ≡ true → o + seg.payload_length ≡ n)
      → IsGenuine f n iss seg
  closing :
      seg.sequence ≡ (iss + 2 + n) % 2 ^ 32
      → seg.payload_length ≡ 0
      → is_fin seg.flags ≡ false
      → is_syn seg.flags ≡ false
      → IsGenuine f n iss seg

-- The client has `received` bytes of the stream in order, and its end if `closed`.
pub record InOrder (f : Bytes) (n iss received : ℕ) (closed : Bool) (c : Client) : Type 0 where
  pub within : received ≤ n
  pub next :
      c.established ≡ true → c.rcv_nxt ≡ (iss + 1 + received + (if closed then 1 else 0)) % 2 ^ 32
  pub before : c.established ≡ false → (received ≡ 0) × (closed ≡ false)
  pub all : closed ≡ true → received ≡ n
  pub stored : c.rx_length ≡ min received c.rx_capacity
  pub prefix : (x : ℕ) → x < c.rx_length → c.rx_buffer x ≡ f x
  pub cut : c.truncated ≡ ltb c.rx_capacity received
  pub ended : closed ≡ true → c.finished ≡ true
  pub done : c.finished ≡ true → (c.reset ≡ true) ⊎ (closed ≡ true)

module _ (f : Bytes) (n iss : ℕ) (small : n + 2 < 2 ^ 32) where
  -- Only what is sent and when changes.
  pub touched :
      (received : ℕ) (closed : Bool) (c : Client) (nxt tick : ℕ)
      → InOrder f n iss received closed c
      → InOrder f n iss received closed (record c { snd_nxt = nxt; last_activity_tick = tick })
  touched received closed c nxt tick h = record {
    within = h.within;
    next = h.next;
    before = h.before;
    all = h.all;
    stored = h.stored;
    prefix = h.prefix;
    cut = h.cut;
    ended = h.ended;
    done = h.done;
  }

  pub acknowledge-InOrder :
      (received : ℕ) (closed : Bool) (e : Surroundings) (c : Client)
      → InOrder f n iss received closed c
      → InOrder f n iss received closed (acknowledge e c).2
  unfolding send_segment
  acknowledge-InOrder received closed e c h =
      elim (Bool-cases (not c.active || (not e.configured || ip_is_zero e.own_ip))) [
        | inl a ↦ rw a h
        | inr a ↦ elim (Bool-cases (not e.sends)) [
          | inl b ↦ rw (a, b) h
          | inr b ↦ rw (a, b) (touched received closed c _ c.last_activity_tick h)
        ]
      ]

  -- `k` bytes of a part that comes next are stored.
  stored-InOrder :
      (received k : ℕ) (t : Bool) (seg : Segment) (c : Client)
      → c.established ≡ true
      → received + seg.payload_length ≤ n
      → ((j : ℕ) → j < seg.payload_length → seg.payload j ≡ f (received + j))
      → InOrder f n iss received false c
      → k ≤ seg.payload_length
      → (0 < k → c.rx_length ≡ received)
      → add32 c.rx_length k ≡ min (received + seg.payload_length) c.rx_capacity
      → c.rx_length + k < 2 ^ 32
      → t ≡ ltb c.rx_capacity (received + seg.payload_length)
      → InOrder f n iss (received + seg.payload_length) false (record c {
        truncated = t;
        rx_buffer = put c.rx_length k seg.payload c.rx_buffer;
        rx_length = add32 c.rx_length k;
        rcv_nxt = add32 c.rcv_nxt seg.payload_length;
      })
  unfolding put
  stored-InOrder received k t seg c up fits same h within at_end total low cut = record {
    within = fits;
    next = λ _. omega (arith, h.next up);
    before = λ e. absurd (cc);
    all = λ e. absurd (cc);
    stored = total;
    prefix = λ x l. elim (Bool-cases (ltb x c.rx_length)) [
      | inl e ↦ let old = ltb→lt x c.rx_length e in rw (gt→leb c.rx_length x old) (h.prefix x old)
      | inr e ↦
          let above = ltb→ge x c.rx_length e in
          let start = at_end (omega arith) in
          rw (le→leb c.rx_length x above, lt→ltb x (c.rx_length + k) (omega arith))
            (same (x - c.rx_length) (omega arith) ∙ ap f (omega arith))
    ];
    cut = cut;
    ended = h.ended;
    done = h.done;
  }

  -- A part that comes next is stored as far as there is room.
  store_payload-InOrder :
      (received : ℕ) (seg : Segment) (c : Client)
      → c.rx_capacity < 2 ^ 32
      → c.established ≡ true
      → received + seg.payload_length ≤ n
      → ((j : ℕ) → j < seg.payload_length → seg.payload j ≡ f (received + j))
      → InOrder f n iss received false c
      → InOrder f n iss (received + seg.payload_length) false (store_payload seg c)
  unfolding store_payload
  store_payload-InOrder received seg c room up fits same h =
      let free : remaining c ≡ c.rx_capacity - c.rx_length = ground arith in
      let at = h.stored in
      let asked : seg.payload_length % 2 ^ 32 ≡ seg.payload_length = omega arith in
      elim (Bool-cases (ltb (remaining c) (seg.payload_length % 2 ^ 32))) [
        | inl e ↦
            let large = ltb→lt (remaining c) (seg.payload_length % 2 ^ 32) e in
            rw e (
              stored-InOrder received (remaining c) true seg c up fits same h (omega arith)
                (λ l. omega arith) (omega arith) (omega arith)
                (sym (lt→ltb c.rx_capacity (received + seg.payload_length) (omega arith))))
        | inr e ↦
            let fitting = ltb→ge (remaining c) (seg.payload_length % 2 ^ 32) e in
            rw e (
              stored-InOrder received (seg.payload_length % 2 ^ 32) c.truncated seg c up fits same h
                (omega arith) (λ l. omega arith) (omega arith) (omega arith)
                (h.cut ∙ elim (Bool-cases (ltb c.rx_capacity received)) [
                  | inl g ↦
                      let over = ltb→lt c.rx_capacity received g in
                      g ∙ sym (lt→ltb c.rx_capacity (received + seg.payload_length) (omega arith))
                  | inr g ↦
                      let under = ltb→ge c.rx_capacity received g in
                      g ∙ sym (ge→ltb c.rx_capacity (received + seg.payload_length) (omega arith))
                ]))
      ]

  -- The end of the stream, with no bytes or with its last part.
  finish-InOrder :
      (received : ℕ) (c : Client)
      → c.established ≡ true
      → received ≡ n
      → InOrder f n iss received false c
      → InOrder f n iss received true (record c { rcv_nxt = add32 c.rcv_nxt 1; finished = true })
  finish-InOrder received c up whole h = record {
    within = h.within;
    next = λ _. omega (arith, h.next up);
    before = λ e. absurd (cc);
    all = λ _. whole;
    stored = h.stored;
    prefix = h.prefix;
    cut = h.cut;
    ended = λ _. refl;
    done = λ _. inr refl;
  }

  finish_if-InOrder :
      (received : ℕ) (c : Client) (flags : ℕ)
      → c.established ≡ true
      → (is_fin flags ≡ true → received ≡ n)
      → InOrder f n iss received false c
      → InOrder f n iss received
          (is_fin flags)
          (if is_fin flags then record c { rcv_nxt = add32 c.rcv_nxt 1; finished = true } else c)
  finish_if-InOrder received c flags up whole h = elim (Bool-cases (is_fin flags)) [
    | inl e ↦ rw e (finish-InOrder received c up (whole e) h)
    | inr e ↦ rw e h
  ]

  store_if-InOrder :
      (received : ℕ) (seg : Segment) (c : Client)
      → c.rx_capacity < 2 ^ 32
      → c.established ≡ true
      → received + seg.payload_length ≤ n
      → ((j : ℕ) → j < seg.payload_length → seg.payload j ≡ f (received + j))
      → InOrder f n iss received false c
      → InOrder f n iss
          (received + seg.payload_length)
          false
          (if ltb 0 seg.payload_length then store_payload seg c else c)
  store_if-InOrder received seg c room up fits same h =
      elim (Bool-cases (ltb 0 seg.payload_length)) [
        | inl e ↦ rw e (store_payload-InOrder received seg c room up fits same h)
        | inr e ↦
            let none_there = ltb→ge 0 seg.payload_length e in
            rw e (subst (λ r. InOrder f n iss r false c) (omega arith) h)
      ]

  -- A part that comes next moves the client on by its length.
  pub accept-InOrder :
      (received : ℕ) (e : Surroundings) (seg : Segment) (c : Client)
      → c.rx_capacity < 2 ^ 32
      → c.established ≡ true
      → received + seg.payload_length ≤ n
      → ((j : ℕ) → j < seg.payload_length → seg.payload j ≡ f (received + j))
      → (is_fin seg.flags ≡ true → received + seg.payload_length ≡ n)
      → InOrder f n iss received false c
      → InOrder f n iss (received + seg.payload_length) (is_fin seg.flags) (accept e seg c).2
  unfolding store_payload
  accept-InOrder received e seg c room up fits same whole h =
      let c1 = if ltb 0 seg.payload_length then store_payload seg c else c in
      let up1 : c1.established ≡ true =
        if_elim (λ (x : Client). x.established ≡ true) (ltb 0 seg.payload_length) up up in
      let first = store_if-InOrder received seg c room up fits same h in
      let second = finish_if-InOrder (received + seg.payload_length) c1 seg.flags up1 whole first in
      if_elim
        (λ (x : Bool × List Sent × Client).
          InOrder f n iss (received + seg.payload_length) (is_fin seg.flags) x.2)
        (ltb 0 seg.payload_length || is_fin seg.flags)
        (acknowledge-InOrder (received + seg.payload_length) (is_fin seg.flags) e _ second) second
