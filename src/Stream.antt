-- ===== src/Stream.antt =====
-- `BufferedStream` of nodes/src/aggregator.rs: messages over a socket that does not block. The socket
-- and the Borsh encoding are arguments. The outer `none` is a panic: a socket that reports more bytes
-- than it was given room for.
pub mod Receive
pub mod Ready
pub mod Send
mod Tests
use arm_noir.Prelude.{
  ℕ, zero, suc, ◌+◌, ◌-◌, ◌⊎◌, inl, inr, Bool, true, false, Option, none, some, List, [], ◌∷◌, ◌++◌,
  length, take, drop, leb, ltb, ◌==◌, if◌then◌else◌, ◌>>=◌,
}
use arm_noir.Bytes.{Bytes}

-- `std::io::Error`: nothing to read or no room to write, data that is not an object, and what the
-- socket reports.
pub data IoError : Type 0 where
  would_block : IoError
  invalid_data : IoError
  socket_error : ℕ → IoError

-- A socket with state S: `read` into a buffer of some length, and `write`, which returns how many
-- bytes it took.
pub record Socket (S : Type 0) : Type 0 where
  pub read : ℕ → S → (IoError ⊎ Bytes) × S
  pub write : Bytes → S → (IoError ⊎ ℕ) × S

-- Borsh: a u32, a byte vector with its length, and an object.
pub record Borsh (T : Type 0) : Type 0 where
  pub u32_from_slice : Bytes → Option ℕ
  pub bytes_to_vec : Bytes → Bytes
  pub to_vec : T → Bytes
  pub from_slice : Bytes → Option T

pub record BufferedStream (S : Type 0) : Type 0 where
  pub stream : S
  pub read_buf : Bytes
  pub write_buf : Bytes

abbrev pub Io : Type 0 → Type 0 → Type 0
Io S A = Option ((IoError ⊎ A) × BufferedStream S)

-- The error of a step, or the next step.
unfoldable pub and_then : {S A B : Type 0} → Io S A → (A → BufferedStream S → Io S B) → Io S B
and_then none next = none
and_then (some (inl e, self)) next = some (inl e, self)
and_then (some (inr a, self)) next = next a self

unfoldable pub new : {S : Type 0} → S → BufferedStream S
new stream = record { stream = stream; read_buf = []; write_buf = [] }

unfoldable pub unread : {S : Type 0} → Bytes → BufferedStream S → BufferedStream S
unread buf self = record self { read_buf = buf ++ self.read_buf }

abbrev pub is_empty : Bytes → Bool
is_empty [] = true
is_empty (x ∷ xs) = false

module _ {S : Type 0} (socket : Socket S) where
  -- What `read` makes of the answer of the socket.
  unfoldable pub read_answer :
      BufferedStream S → (IoError ⊎ Bytes) × S → (IoError ⊎ Bytes) × BufferedStream S
  read_answer self (inl e, s) = (inl e, record self { stream = s })
  read_answer self (inr bytes, s) =
      (inr (self.read_buf ++ bytes), record self { stream = s; read_buf = [] })

  -- `read` into a buffer of n bytes; the bytes that it now holds.
  unfoldable pub read : ℕ → BufferedStream S → (IoError ⊎ Bytes) × BufferedStream S
  unfolding read_answer
  read n self =
      if leb n (length self.read_buf)
      then (inr (take n self.read_buf), record self { read_buf = drop n self.read_buf })
      else read_answer self (socket.read (n - length self.read_buf) self.stream)

  -- What `read_exact` makes of the answer of the socket, and the call of itself.
  unfoldable pub read_exact_answer :
      ℕ → BufferedStream S → (IoError ⊎ Bytes) × S → (BufferedStream S → Io S Bytes) → Io S Bytes
  read_exact_answer n self (inl e, s) again = some (inl e, record self { stream = s })
  read_exact_answer n self (inr bytes, s) again =
      let bytes_read = length bytes + length self.read_buf in
      if bytes_read == length self.read_buf
      then some (inl would_block, record self { stream = s })
      else if ltb bytes_read n
      then again (record self { stream = s; read_buf = self.read_buf ++ bytes })
      else if bytes_read == n
      then some (inr (self.read_buf ++ bytes), record self { stream = s; read_buf = [] })
      else none

  -- Each call of itself follows a read of at least one byte, so that n calls are enough.
  unfoldable pub read_exact_fuel : ℕ → ℕ → BufferedStream S → Io S Bytes
  unfolding read_exact_answer
  read_exact_fuel zero n self = none
  read_exact_fuel (suc fuel) n self =
      if leb n (length self.read_buf)
      then some (inr (take n self.read_buf), record self { read_buf = drop n self.read_buf })
      else read_exact_answer n self (socket.read (n - length self.read_buf) self.stream)
          (λ self'. read_exact_fuel fuel n self')

  unfoldable pub read_exact : ℕ → BufferedStream S → Io S Bytes
  unfolding read_exact_fuel
  read_exact n self = read_exact_fuel (suc n) n self

  -- What `flush` makes of the answer of the socket, and the call of itself.
  unfoldable pub flush_answer :
      BufferedStream S → (IoError ⊎ ℕ) × S → (BufferedStream S → Io S (Unit {0})) → Io S (Unit {0})
  flush_answer self (inl e, s) again = some (inl e, record self { stream = s })
  flush_answer self (inr bytes_written, s) again =
      let left = drop bytes_written self.write_buf in
      let self' = record self { stream = s; write_buf = left } in
      if leb bytes_written (length self.write_buf)
      then (if is_empty left
          then some (inr tt, self')
          else if bytes_written == 0
          then some (inl would_block, self')
          else again self')
      else none

  -- Each call of itself follows a write of at least one byte.
  unfoldable pub flush_fuel : ℕ → BufferedStream S → Io S (Unit {0})
  unfolding flush_answer
  flush_fuel zero self = none
  flush_fuel (suc fuel) self =
      flush_answer self (socket.write self.write_buf self.stream) (λ self'. flush_fuel fuel self')

  unfoldable pub flush : BufferedStream S → Io S (Unit {0})
  unfolding flush_fuel
  flush self = flush_fuel (suc (length self.write_buf)) self

  unfoldable pub write_all : Bytes → BufferedStream S → Io S (Unit {0})
  unfolding flush
  write_all buf self = flush (record self { write_buf = self.write_buf ++ buf })

  module _ {T : Type 0} (borsh : Borsh T) where
    open borsh use {u32_from_slice, bytes_to_vec, to_vec, from_slice}

    -- The payload, once its length is known. On an error the length goes back into the buffer.
    unfoldable pub recv_payload : Bytes → Io S Bytes → Io S T
    recv_payload len_bytes none = none
    recv_payload len_bytes (some (inl e, self)) = some (inl e, unread len_bytes self)
    recv_payload len_bytes (some (inr payload, self)) = elim (from_slice payload) [
      | none ↦ some (inl invalid_data, self)
      | some t ↦ some (inr t, self)
    ]

    unfoldable pub try_recv : BufferedStream S → Io S T
    unfolding and_then recv_payload
    try_recv self = and_then (read_exact 4 self) (λ len_bytes self1.
        elim (u32_from_slice len_bytes) [
          | none ↦ some (inl invalid_data, self1)
          | some len ↦ recv_payload len_bytes (read_exact len self1)
        ])

    unfoldable pub send : T → BufferedStream S → Io S (Unit {0})
    unfolding write_all
    send t self = write_all (bytes_to_vec (to_vec t)) self
