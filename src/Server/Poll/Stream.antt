-- ===== src/Server/Poll/Stream.antt =====
-- src/core/server/poll.c: a buffer that holds messages and the beginning of one more.
use muc_opcua.Common.{
  ℕ, zero, suc, ◌+◌, ◌-◌, ◌^◌, ◌≤◌, ◌<◌, ◌≡◌, ◌⊎◌, inl, inr, refl, sym, ap, subst, get_or, ◌∙◌,
  List, [], ◌∷◌, ◌++◌, true, false, arith, ltb, ◌==◌, length, length-append, slice,
  slice-eq_of_Holds, overwrite, Holds, Holds-append_left, Holds-append_right, Holds-overwrite,
  Bool-cases,
}
use muc_opcua.Encoding.Le.{le_u32, get_u32-le_u32}
use muc_opcua.Server.{Server, Neighbours}
use muc_opcua.Server.Process.{process_message}
use muc_opcua.Server.Assembly.{process_messages, message_first}
use muc_opcua.Server.Poll.{
  Receive, Loop, finished, ended, poll_msg_size, compact, process_loop, poll_conclude,
  poll_process_buffer,
}

Holds-get :
    (buf msg : List ℕ) (p i : ℕ)
    → Holds buf p msg
    → i < length msg
    → get_or buf (p + i) 0 ≡ get_or msg i 0
Holds-get buf [] p i h k = absurd (omega arith)
Holds-get buf (b ∷ msg) p zero h k = ap (λ (j : ℕ). get_or buf j 0) (omega arith) ∙ h.0
Holds-get buf (b ∷ msg) p (suc i) h k =
    ap (λ (j : ℕ). get_or buf j 0) (omega arith) ∙ Holds-get buf msg (suc p) i h.1 (omega arith)

-- What a part of the buffer holds, the buffer holds there.
Holds-part :
    (buf msg bs : List ℕ) (p q m : ℕ)
    → m ≡ p + q
    → Holds buf p msg
    → Holds msg q bs
    → q + length bs ≤ length msg
    → Holds buf m bs
Holds-part buf msg [] p q m e h k fits = tt
Holds-part buf msg (b ∷ bs) p q m e h k fits = (
  ap (λ (j : ℕ). get_or buf j 0) e ∙ Holds-get buf msg p q h (omega arith) ∙ k.0,
  Holds-part buf msg bs p (suc q) (suc m) (omega arith) h k.1 (omega arith),
)

-- The size of a message that lies in the buffer.
poll_msg_size_lem :
    (buf msg : List ℕ) (p size : ℕ)
    → Holds buf p msg
    → Holds msg 4 (le_u32 size)
    → 8 ≤ length msg
    → size < 2 ^ 32
    → poll_msg_size buf p ≡ size
unfolding poll_msg_size le_u32
poll_msg_size_lem buf msg p size h k large word =
    get_u32-le_u32 buf (p + 4) size word
      (Holds-part buf msg (le_u32 size) p 4 (p + 4) refl h k (omega arith))

module _ {App : Type 0} (neighbours : Neighbours App) where
  -- A message of the size that it says, for which the buffer has room.
  pub record IsFramed (buffer_size : ℕ) (msg : List ℕ) : Type 0 where
    pub large : 8 ≤ length msg
    pub small : length msg ≤ buffer_size
    pub size_word : length msg < 2 ^ 32
    pub says : Holds msg 4 (le_u32 (length msg))

  abbrev pub AreFramed : ℕ → List (List ℕ) → Type 0
  AreFramed buffer_size [] = Unit
  AreFramed buffer_size (msg ∷ msgs) = IsFramed buffer_size msg × AreFramed buffer_size msgs

  abbrev pub stream : List (List ℕ) → List ℕ → List ℕ
  stream [] tail = tail
  stream (msg ∷ msgs) tail = msg ++ stream msgs tail

  -- The beginning of a message: its size is missing, or says that more is to come.
  abbrev pub IsPartial : ℕ → List ℕ → Type 0
  IsPartial buffer_size tail =
      (length tail < 8)
      ⊎ ((size : ℕ) × (size < 2 ^ 32)
          × Holds tail 4 (le_u32 size)
          × (length tail < size)
          × (size ≤ buffer_size)
          × (8 ≤ length tail))

  -- On a connection that is not open, messages are left alone.
  process_messages_closed :
      (server : Server App) (msgs : List (List ℕ))
      → server.conn.is_connected ≡ false
      → process_messages neighbours server msgs ≡ server
  unfolding process_messages
  process_messages_closed server [] off = refl
  process_messages_closed server (msg ∷ msgs) off = simp off refl

  module _ (rx : Receive) (buffer_size : ℕ) (tail : List ℕ)
      (partial : IsPartial buffer_size tail) where
    -- The loop stops in front of what is not complete.
    loop_partial :
        (fuel : ℕ) (server : Server App) (consumed : ℕ)
        → consumed + length tail ≡ rx.rx_len
        → Holds rx.buffer (rx.read_pos + consumed) tail
        → process_loop neighbours fuel rx buffer_size server consumed ≡ finished server consumed
    unfolding process_loop
    loop_partial zero server consumed e h = refl
    loop_partial (suc fuel) server consumed e h = elim partial [
      | inl short ↦
          let brief : ltb (rx.rx_len - consumed) 8 ≡ true = ground arith in rw brief (ground arith)
      | inr (size, word, says, more, fits, large) ↦
          rw (poll_msg_size_lem rx.buffer tail (rx.read_pos + consumed) size h says large word)
            (ground arith)
    ]

    loop_step :
        (fuel : ℕ) (server : Server App) (consumed : ℕ) (msg : List ℕ)
        → server.conn.is_connected ≡ true
        → (process_message neighbours server msg).conn.is_connected ≡ true
        → Holds rx.buffer (rx.read_pos + consumed) msg
        → IsFramed buffer_size msg
        → length msg ≤ rx.rx_len - consumed
        → process_loop neighbours (suc fuel) rx buffer_size server consumed
          ≡ process_loop neighbours fuel rx buffer_size
              (process_message neighbours server msg)
              (consumed + length msg)
    unfolding process_loop
    loop_step fuel server consumed msg on stays h framed there =
        rw
          (
            poll_msg_size_lem rx.buffer msg (rx.read_pos + consumed) (length msg) h framed.says
                framed.large framed.size_word,
            slice-eq_of_Holds rx.buffer (rx.read_pos + consumed) msg h,
          )
          (ground (arith, on, stays, framed.large, framed.small))

    -- A message behind which the connection has ended is the last one.
    loop_ended :
        (fuel : ℕ) (server : Server App) (consumed : ℕ) (msg : List ℕ)
        → server.conn.is_connected ≡ true
        → (process_message neighbours server msg).conn.is_connected ≡ false
        → Holds rx.buffer (rx.read_pos + consumed) msg
        → IsFramed buffer_size msg
        → length msg ≤ rx.rx_len - consumed
        → process_loop neighbours (suc fuel) rx buffer_size server consumed
          ≡ ended (process_message neighbours server msg)
    unfolding process_loop
    loop_ended fuel server consumed msg on off h framed there =
        rw
          (
            poll_msg_size_lem rx.buffer msg (rx.read_pos + consumed) (length msg) h framed.says
                framed.large framed.size_word,
            slice-eq_of_Holds rx.buffer (rx.read_pos + consumed) msg h,
          )
          (ground (arith, on, off, framed.large, framed.small))

    -- The loop comes to its end where the connection is open, and is left where it is not.
    abbrev Runs : Loop App → Server App → Type 0
    Runs loop server =
        ((server.conn.is_connected ≡ true) × (loop ≡ finished server (rx.rx_len - length tail)))
        ⊎ ((server.conn.is_connected ≡ false) × (loop ≡ ended server))

    loop_stream :
        (fuel : ℕ) (server : Server App) (consumed : ℕ) (msgs : List (List ℕ))
        → length (stream msgs tail) ≤ fuel
        → consumed + length (stream msgs tail) ≡ rx.rx_len
        → Holds rx.buffer (rx.read_pos + consumed) (stream msgs tail)
        → AreFramed buffer_size msgs
        → server.conn.is_connected ≡ true
        → Runs
            (process_loop neighbours fuel rx buffer_size server consumed)
            (process_messages neighbours server msgs)
    unfolding process_messages process_loop
    loop_stream fuel server consumed [] enough e h framed on =
        inl (on, loop_partial fuel server consumed e h ∙ ap (finished server) (omega arith))
    loop_stream zero server consumed (msg ∷ msgs) enough e h (framed, rest) on =
        absurd (omega (arith, framed.large, length-append msg (stream msgs tail)))
    loop_stream (suc fuel) server consumed (msg ∷ msgs) enough e h (framed, rest) on =
        let len : length (msg ++ stream msgs tail) ≡ length msg + length (stream msgs tail) =
          length-append msg (stream msgs tail) in
        let here : Holds rx.buffer (rx.read_pos + consumed) msg =
          Holds-append_left rx.buffer (rx.read_pos + consumed) msg (stream msgs tail) h in
        let behind : Holds rx.buffer (rx.read_pos + (consumed + length msg)) (stream msgs tail) =
          Holds-append_right rx.buffer (rx.read_pos + consumed)
            (rx.read_pos + (consumed + length msg)) msg (stream msgs tail) (omega arith) h in
        let after : Server App = process_message neighbours server msg in
        let first : process_messages neighbours server (msg ∷ msgs)
            ≡ process_messages neighbours after msgs =
          message_first neighbours server msg msgs on in
        elim (Bool-cases after.conn.is_connected) [
          | inl stays ↦
              subst (Runs (process_loop neighbours (suc fuel) rx buffer_size server consumed))
                (sym first)
                (subst (λ loop. Runs loop (process_messages neighbours after msgs))
                  (sym (loop_step fuel server consumed msg on stays here framed (omega arith)))
                  (loop_stream fuel after (consumed + length msg) msgs (omega (arith, framed.large))
                    (omega arith) behind rest stays))
          | inr off ↦
              subst (Runs (process_loop neighbours (suc fuel) rx buffer_size server consumed))
                (sym (first ∙ process_messages_closed after msgs off))
                (inr (off, loop_ended fuel server consumed msg on off here framed (omega arith)))
        ]

  -- The bytes that are not consumed yet.
  abbrev pub Keeps : Receive → List ℕ → Type 0
  Keeps rx tail = (rx.rx_len ≡ length tail) × Holds rx.buffer rx.read_pos tail

  compact_lem :
      (rx : Receive) (buffer_size : ℕ) (tail : List ℕ)
      → rx.rx_len ≡ length tail
      → rx.read_pos + rx.rx_len ≤ length rx.buffer
      → Holds rx.buffer rx.read_pos tail
      → Keeps (compact rx buffer_size) tail
  unfolding compact
  compact_lem rx buffer_size [] e room h = (rw e refl, tt)
  compact_lem rx buffer_size (b ∷ tail) e room h =
      let some_left : (rx.rx_len == 0) ≡ false = ground (arith, e) in
      let moved : slice rx.buffer rx.read_pos rx.rx_len ≡ b ∷ tail =
        ap (slice rx.buffer rx.read_pos) e ∙ slice-eq_of_Holds rx.buffer rx.read_pos (b ∷ tail) h in
      elim (Bool-cases (ltb buffer_size (rx.read_pos + rx.rx_len + 64))) [
        | inl full ↦
            let front : compact rx buffer_size
                ≡ record rx { buffer = overwrite rx.buffer 0 (b ∷ tail); read_pos = 0 } =
              rw (some_left, full, moved) refl in
            subst (λ x. Keeps x (b ∷ tail)) (sym front)
              (e, Holds-overwrite rx.buffer 0 (b ∷ tail) (omega arith))
        | inr wide ↦
            let same : compact rx buffer_size ≡ rx = rw (some_left, wide) refl in
            subst (λ x. Keeps x (b ∷ tail)) (sym same) (e, h)
      ]

  length-stream : (msgs : List (List ℕ)) (tail : List ℕ) → length tail ≤ length (stream msgs tail)
  length-stream [] tail = omega arith
  length-stream (msg ∷ msgs) tail =
      omega (arith, length-stream msgs tail, length-append msg (stream msgs tail))

  stream-Holds :
      (buf : List ℕ) (msgs : List (List ℕ)) (tail : List ℕ) (p q : ℕ)
      → Holds buf p (stream msgs tail)
      → q + length tail ≡ p + length (stream msgs tail)
      → Holds buf q tail
  stream-Holds buf [] tail p q h e = subst (λ k. Holds buf k tail) (omega arith) h
  stream-Holds buf (msg ∷ msgs) tail p q h e =
      stream-Holds buf msgs tail (p + length msg) q
        (Holds-append_right buf p (p + length msg) msg (stream msgs tail) refl h)
        (omega (arith, length-append msg (stream msgs tail)))

  -- What becomes of the buffer: the beginning of the next message is kept on an open connection, and
  -- nothing on one that has ended.
  abbrev pub Leaves : List ℕ → Server App → Receive → Type 0
  Leaves tail server rx =
      ((server.conn.is_connected ≡ true) × Keeps rx tail)
      ⊎ ((server.conn.is_connected ≡ false) × (rx.rx_len ≡ 0) × (rx.read_pos ≡ 0))

  -- An open connection's receive buffer holds whole messages, each of the size that it says and that
  -- the buffer has room for, and perhaps the beginning of one more. However the bytes came in, the
  -- messages are processed, each once and in their order, up to the first behind which the
  -- connection is not open any more. Where it is still open, the buffer goes on with the beginning
  -- of the next message and nothing else, and where it is not, the buffer is empty.
  pub poll_process_buffer_lem :
      (server : Server App) (rx : Receive) (buffer_size : ℕ) (msgs : List (List ℕ)) (tail : List ℕ)
      → server.conn.is_connected ≡ true
      → AreFramed buffer_size msgs
      → IsPartial buffer_size tail
      → length (stream msgs tail) ≡ rx.rx_len
      → Holds rx.buffer rx.read_pos (stream msgs tail)
      → rx.read_pos + rx.rx_len ≤ length rx.buffer
      → let after = poll_process_buffer neighbours server rx buffer_size in
        (after.0 ≡ process_messages neighbours server msgs) × Leaves tail after.0 after.1
  unfolding poll_process_buffer poll_conclude
  poll_process_buffer_lem server rx buffer_size msgs tail on framed partial e h room =
      let short : length tail ≤ length (stream msgs tail) = length-stream msgs tail in
      elim (loop_stream rx buffer_size tail partial rx.rx_len server 0 msgs (omega arith)
        (omega arith) (subst (λ p. Holds rx.buffer p (stream msgs tail)) (omega arith) h) framed
        on) [
          | inl (stays, run) ↦ rw run (
            refl,
            inl (
              stays,
              compact_lem
                  (record rx {
                    rx_len = rx.rx_len - (rx.rx_len - length tail);
                    read_pos = rx.read_pos + (rx.rx_len - length tail);
                  })
                  buffer_size tail (omega arith) (omega arith)
                  (stream-Holds rx.buffer msgs tail rx.read_pos
                    (rx.read_pos + (rx.rx_len - length tail)) h (omega arith)),
            ),
          )
          | inr (off, run) ↦ rw run (refl, inr (off, refl, refl))
        ]
