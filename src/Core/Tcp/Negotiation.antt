-- ===== src/Core/Tcp/Negotiation.antt =====
-- What a hello can bring a connection to.
use muc_opcua.Common.{ℕ, ◌%◌, ◌^◌, ◌≤◌, ◌<◌, ◌≡◌, ◌≢◌, refl, List, not, some, if_both, arith, ltb}
use muc_opcua.Status.{good, bad_tcp_message_too_large, bad_tcp_message_type_invalid}
use muc_opcua.Encoding.State.{done, fail, Outcome}
use muc_opcua.Encoding.Reader.{Reader, reader_init}
use muc_opcua.Core.Tcp.{
  Connection, Config, Hello, HelloResult, established, process_hello, answer, negotiate, read_hello,
  min_chunk_size, min, or_default, conclude, unanswered, is_hello,
}
use muc_opcua.Core.Tcp.Honest.{IsHonest, Honest-hello}

-- The limits of a connection that the server's configuration allows.
pub record WithinLimits (config : Config) (c : Connection) : Type 0 where
  pub is_established : c.state ≡ established
  pub receive_small : c.receive_buffer_size ≤ config.send_limit
  pub send_small : c.send_buffer_size ≤ config.receive_limit
  pub receive_large : min_chunk_size ≤ c.receive_buffer_size
  pub send_large : min_chunk_size ≤ c.send_buffer_size
  pub message_small : c.max_message_size ≤ config.message_limit
  pub chunk_small : c.max_chunk_count ≤ config.chunk_limit
  pub message_some : 0 < c.max_message_size
  pub chunk_some : 0 < c.max_chunk_count

-- What mu_server_init asks of the limits, but for the buffers: it asks for a minimum of their sizes,
-- and here that minimum is left when the sizes are cast to 32 bits. The two differ for buffers of
-- 2^32 bytes and more, which mu_server_init accepts.
pub record IsConfig (config : Config) : Type 0 where
  pub receive_enough : min_chunk_size ≤ config.receive_limit % 2 ^ 32
  pub send_enough : min_chunk_size ≤ config.send_limit % 2 ^ 32
  pub chunk_enough : 0 < config.chunk_limit
  pub message_enough : min_chunk_size ≤ config.message_limit

min_le : (a b : ℕ) → (min a b ≤ a) × (min a b ≤ b)
min_le a b = (ground arith, ground arith)

le_min : (a b c : ℕ) → c ≤ a → c ≤ b → c ≤ min a b
le_min a b c ha hb = ground arith

or_default_bounds : (a d : ℕ) → 0 < d → (or_default (min a d) d ≤ d) × (0 < or_default (min a d) d)
or_default_bounds a d h = (ground arith, ground arith)

answer-good :
    (config : Config) (h : Hello) (c : Connection) (ack : List ℕ) (n : ℕ)
    → (answer config h c ack n).status ≡ good
    → (min_chunk_size ≤ h.receive_size)
      × (min_chunk_size ≤ h.send_size)
      × ((answer config h c ack n).connection
          ≡ record (negotiate config h c) { state = established })
unfolding answer
answer-good config h c ack n e = (ground arith, ground arith, ground arith)

negotiate_lem :
    (config : Config) (h : Hello) (c : Connection)
    → IsConfig config
    → min_chunk_size ≤ h.receive_size
    → min_chunk_size ≤ h.send_size
    → WithinLimits config (record (negotiate config h c) { state = established })
unfolding negotiate
negotiate_lem config h c w hr hs =
    let receive_le : config.receive_limit % 2 ^ 32 ≤ config.receive_limit = omega arith in
    let send_le : config.send_limit % 2 ^ 32 ≤ config.send_limit = omega arith in
    let me : min_chunk_size ≤ config.message_limit = w.message_enough in
    let (message_le, message_pos) =
      or_default_bounds h.message_size_limit config.message_limit (omega arith) in
    let (chunk_le, chunk_pos) =
      or_default_bounds h.chunk_count_limit config.chunk_limit w.chunk_enough in
    record {
      is_established = refl;
      receive_small =
          omega (arith, (min_le h.receive_size (config.send_limit % 2 ^ 32)).1, send_le);
      send_small =
          omega (arith, (min_le h.send_size (config.receive_limit % 2 ^ 32)).1, receive_le);
      receive_large =
          le_min h.receive_size (config.send_limit % 2 ^ 32) min_chunk_size hr w.send_enough;
      send_large =
          le_min h.send_size (config.receive_limit % 2 ^ 32) min_chunk_size hs w.receive_enough;
      message_small = message_le;
      chunk_small = chunk_le;
      message_some = message_pos;
      chunk_some = chunk_pos;
    }

answer_within :
    (config : Config) (h : Hello) (c : Connection) (ack : List ℕ) (n : ℕ)
    → IsConfig config
    → (answer config h c ack n).status ≡ good
    → WithinLimits config (answer config h c ack n).connection
answer_within config h c ack n w e =
    let (hr, hs, left) = answer-good config h c ack n e in
    rw left (negotiate_lem config h c w hr hs)

-- A status other than good leaves the state of the connection and the ACK as they were.
abbrev Untouched : HelloResult → Connection → List ℕ → Type 0
Untouched r c ack = (r.connection.state ≡ c.state) × (r.ack_message ≡ ack)

answer-Untouched :
    (config : Config) (h : Hello) (c : Connection) (ack : List ℕ) (n : ℕ)
    → (answer config h c ack n).status ≢ good
    → Untouched (answer config h c ack n) c ack
unfolding answer negotiate
answer-Untouched config h c ack n e = (ground arith, ground arith)

abbrev GoodIsWithin : Config → HelloResult → Type 0
GoodIsWithin config r = r.status ≡ good → WithinLimits config r.connection

conclude_within :
    (config : Config) (c : Connection) (ack : List ℕ) (n : ℕ) (o : Outcome Reader Hello)
    → IsConfig config
    → IsHonest o
    → GoodIsWithin config (conclude config c ack n o)
conclude_within config c ack n (done h r) w honest e = answer_within config h c ack n w e
conclude_within config c ack n (fail s r) w honest e = absurd (honest e)

abbrev BadIsUntouched : Connection → List ℕ → HelloResult → Type 0
BadIsUntouched c ack r = r.status ≢ good → (r.connection.state ≡ c.state) × (r.ack_message ≡ ack)

conclude_untouched :
    (config : Config) (c : Connection) (ack : List ℕ) (n : ℕ) (o : Outcome Reader Hello)
    → BadIsUntouched c ack (conclude config c ack n o)
conclude_untouched config c ack n (done h r) e = answer-Untouched config h c ack n e
conclude_untouched config c ack n (fail s r) e = (refl, refl)

abbrev hello_reader : List ℕ → ℕ → Reader
hello_reader message n = record (reader_init (some message) n) { position = 4 }

-- Where the server's buffers have at least the minimum chunk size when their sizes are cast to 32
-- bits, its chunk limit is positive and its message limit has at least that size too, a hello that
-- is answered with MU_STATUS_GOOD, whatever its bytes, leaves an established connection whose buffer
-- sizes lie between the minimum chunk size and the server's buffers, and whose message size and
-- chunk count are positive and at most the server's limits.
pub hello-WithinLimits :
    (c : Connection) (message : List ℕ) (n : ℕ) (config : Config) (ack : List ℕ) (ack_length : ℕ)
    → IsConfig config
    → (process_hello c message n config ack ack_length).status ≡ good
    → WithinLimits config (process_hello c message n config ack ack_length).connection
unfolding process_hello
hello-WithinLimits c message n config ack ack_length w e =
    if_both (GoodIsWithin config) (ltb n 8) (unanswered c ack ack_length bad_tcp_message_too_large)
      _ (λ s. absurd (bad s))
      (if_both (GoodIsWithin config) (not (is_hello message))
        (unanswered c ack ack_length bad_tcp_message_type_invalid) _ (λ s. absurd (bad' s))
        (conclude_within config c ack ack_length (read_hello n (hello_reader message n)) w
          ((Honest-hello n).run (hello_reader message n))))
      e
  where
    bad : bad_tcp_message_too_large ≢ good
    bad = omega arith

    bad' : bad_tcp_message_type_invalid ≢ good
    bad' = omega arith

-- A hello that is refused, with any status, leaves the state of the connection and the ACK buffer
-- as they were.
pub hello_refused :
    (c : Connection) (message : List ℕ) (n : ℕ) (config : Config) (ack : List ℕ) (ack_length : ℕ)
    → (process_hello c message n config ack ack_length).status ≢ good
    → ((process_hello c message n config ack ack_length).connection.state ≡ c.state)
      × ((process_hello c message n config ack ack_length).ack_message ≡ ack)
unfolding process_hello
hello_refused c message n config ack ack_length e =
    if_both (BadIsUntouched c ack) (ltb n 8) (unanswered c ack ack_length bad_tcp_message_too_large)
      _ (λ s. (refl, refl))
      (if_both (BadIsUntouched c ack) (not (is_hello message))
        (unanswered c ack ack_length bad_tcp_message_type_invalid) _ (λ s. (refl, refl))
        (conclude_untouched config c ack ack_length (read_hello n (hello_reader message n))))
      e
