-- ===== src/Network/Messages.antt =====
-- What a peer's message becomes: `handle_peer_connection` and its buffer of 1,024 bytes
-- (src/network/p2p_protocol.cpp).
use mathlib.Core.Option
use synledger_core.Network.Sockets.{Call, close_fd}
use synledger_core.Prelude.{
  length, ◌==◌, if◌then◌else◌, Text, ℕ, zero, suc, ◌≡◌, refl, Option, none, some, List, [], ◌∷◌,
  ◌++◌, ◌-◌, ◌≤◌, ap, ◌∙◌, arith, take, All, ◌<◌, false,
}
use synledger_core.Prelude.Int.{ℤ}

-- What `recv` answers: the bytes that it stores, none at the end of the stream, or a failure.
pub data Received : Type 0 where
  bytes : Text → Received
  failure : Received

-- `memset(buffer, 0, n)`.
unfoldable pub zeros : ℕ → Text
zeros zero = []
zeros (suc n) = 0 ∷ zeros n

-- `recv` into a buffer, from its start; `none` for a write behind its end.
unfoldable pub store : Text → Text → Option Text
store [] buffer = some buffer
store (c ∷ t) [] = none
store (c ∷ t) (b ∷ buffer) = Option.map (λ rest. c ∷ rest) (store t buffer)

-- `buffer[i] = c`.
unfoldable pub put_at : ℕ → ℕ → Text → Option Text
put_at i c [] = none
put_at zero c (b ∷ buffer) = some (c ∷ buffer)
put_at (suc i) c (b ∷ buffer) = Option.map (λ rest. b ∷ rest) (put_at i c buffer)

-- `std::string(buffer)`: up to the first 0; `none` for a read behind the end.
unfoldable pub c_string : Text → Option Text
c_string [] = none
c_string (b ∷ buffer) =
    let rest = Option.map (λ t. b ∷ t) (c_string buffer) in if b == 0 then some [] else rest

infixl 5 ◌>>=◌
abbrev ◌>>=◌ : {A B : Type 0} → Option A → (A → Option B) → Option B
none >>= f = none
some a >>= f = f a

-- The message, if there is one; `none` for a fault.
unfoldable pub read_message : Received → Option (Option Text)
unfolding store put_at c_string zeros
read_message failure = some none
read_message (bytes []) = some none
read_message (bytes (c ∷ t)) = do
  buffer ← store (c ∷ t) (zeros 1024)
  zero_ended ← put_at (length (c ∷ t)) 0 buffer
  message ← c_string zero_ended
  some (some message)

-- `handle_peer_connection` on a socket that `accept` has opened: the message that is printed, and the log.
unfoldable pub handle_peer_connection : Received → ℤ → Option (Option Text) × List Call
handle_peer_connection received peer_socket = (read_message received, close_fd peer_socket ∷ [])

-- The bytes before the first 0.
abbrev pub until_zero : Text → Text
until_zero [] = []
until_zero (c ∷ t) = if c == 0 then [] else c ∷ until_zero t

-- What stands in the buffer: the bytes, and zeros behind them.
store-zeros :
    (t : Text) (m : ℕ) → length t ≤ m → store t (zeros m) ≡ some (t ++ zeros (m - length t))
unfolding store zeros
store-zeros [] m h = ap (λ k. some (zeros k)) (omega arith)
store-zeros (c ∷ t) zero h = absurd (omega arith)
store-zeros (c ∷ t) (suc m) h =
    ap (Option.map (λ rest. c ∷ rest)) (store-zeros t m (omega arith))
    ∙ ap (λ k. some (c ∷ (t ++ zeros k))) (omega arith)

put_at-append :
    (t : Text) (n : ℕ) → put_at (length t) 0 (t ++ zeros (suc n)) ≡ some (t ++ zeros (suc n))
unfolding put_at zeros
put_at-append [] n = refl
put_at-append (c ∷ t) n = ap (Option.map (λ rest. c ∷ rest)) (put_at-append t n)

c_string-append : (t : Text) (n : ℕ) → c_string (t ++ zeros (suc n)) ≡ some (until_zero t)
unfolding c_string zeros
c_string-append [] n = refl
c_string-append (c ∷ t) n = ground (arith, c_string-append t n)

-- What is printed of bytes that arrive: nothing where there are none, else those before the first 0.
abbrev pub printed : Text → Option Text
printed [] = none
printed (c ∷ t) = some (until_zero (c ∷ t))

read_message-bytes : (t : Text) → length t ≤ 1023 → read_message (bytes t) ≡ some (printed t)
unfolding read_message
read_message-bytes [] h = refl
read_message-bytes (c ∷ t) h =
    let whole = c ∷ t in
    let room : 1024 - length whole ≡ suc (1023 - length whole) = omega arith in
    ap
      (λ o. o >>= λ buffer.
        put_at (length whole) 0 buffer >>= λ zero_ended. c_string zero_ended >>= λ m. some (some m))
      (store-zeros whole 1024 (omega arith) ∙ ap (λ k. some (whole ++ zeros k)) room)
    ∙ ap (λ o. o >>= λ zero_ended. c_string zero_ended >>= λ m. some (some m))
        (put_at-append whole (1023 - length whole))
    ∙ ap (λ o. o >>= λ m. some (some m)) (c_string-append whole (1023 - length whole))

-- `recv` is asked for one byte less than the buffer has, and answers with no more.
abbrev pub IsReceived : Received → Type 0
IsReceived (bytes t) = length t ≤ 1023
IsReceived failure = Unit

abbrev pub printed_of : Received → Option Text
printed_of (bytes t) = printed t
printed_of failure = none

-- Whatever `recv` answers within the length that it is asked for, nothing is written or read outside the
-- buffer, the bytes before the first 0 are printed if any bytes have arrived, and the socket is closed.
pub handle_peer_connection-printed_of :
    (received : Received) (peer_socket : ℤ)
    → IsReceived received
    → handle_peer_connection received peer_socket
      ≡ (some (printed_of received), close_fd peer_socket ∷ [])
unfolding handle_peer_connection read_message
handle_peer_connection-printed_of (bytes t) peer_socket h =
    ap (λ r. (r, close_fd peer_socket ∷ [])) (read_message-bytes t h)
handle_peer_connection-printed_of failure peer_socket h = refl

until_zero_id : (t : Text) → All (λ c. (c == 0) ≡ false) t → until_zero t ≡ t
until_zero_id [] h = refl
until_zero_id (c ∷ t) h = ground (arith, until_zero_id t h.1)

All-take : (P : ℕ → Type 0) (k : ℕ) (t : Text) → All P t → All P (take k t)
All-take P zero t h = tt
All-take P (suc k) [] h = tt
All-take P (suc k) (c ∷ t) h = (h.0, All-take P k t h.1)

length-take_le : (k : ℕ) (t : Text) → length (take k t) ≤ k
length-take_le zero t = omega arith
length-take_le (suc k) [] = omega arith
length-take_le (suc k) (c ∷ t) = omega (arith, length-take_le k t)

-- Of a message without a 0 the first bytes are printed that one `recv` delivers, 1,023 at most, and the
-- rest is lost.
pub handle_peer_connection-take :
    (message : Text) (k : ℕ) (peer_socket : ℤ)
    → suc k ≤ 1023
    → 0 < length message
    → All (λ c. (c == 0) ≡ false) message
    → (handle_peer_connection (bytes (take (suc k) message)) peer_socket).0
      ≡ some (some (take (suc k) message))
handle_peer_connection-take [] k peer_socket h some_byte all = absurd (omega arith)
handle_peer_connection-take (c ∷ message) k peer_socket h some_byte all =
    ap (λ r. r.0)
      (handle_peer_connection-printed_of (bytes (c ∷ take k message)) peer_socket
        (omega (arith, length-take_le k message)))
    ∙ ap (λ t. some (some t))
        (until_zero_id (c ∷ take k message)
          (all.0, All-take (λ c. (c == 0) ≡ false) k message all.1))
