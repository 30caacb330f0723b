-- ===== src/Stream/Tests.antt =====
-- A socket that hands over one byte at a time and takes three, and messages over it.
use Prim.Native.Nat.{min}
use arm_noir.Prelude.{
  ℕ, zero, suc, ◌+◌, ◌*◌, ◌≤◌, ◌≡◌, refl, ◌⊎◌, inl, inr, Option, none, some, [], ◌∷◌, ◌++◌, length,
  take, arith,
}
use arm_noir.Bytes.{Bytes, le_bytes}
use arm_noir.Stream.{
  IoError, would_block, Socket, Borsh, BufferedStream, new, unread, read_exact, read_exact_fuel,
  read_exact_answer, flush, flush_fuel, flush_answer, write_all, and_then, recv_payload, try_recv,
  send,
}
use arm_noir.Stream.Receive.{
  Reads, Frames, unreceived, Received, Taken, read_exact_lem, try_recv_lem,
}
use arm_noir.Stream.Ready.{IsReady, try_recv_ready}
use arm_noir.Stream.Send.{Writes, Flushed, send_lem}

-- The bytes to read, how many more writes there is room for, and the bytes written.
data Link : Type 0 where
  link : Bytes → ℕ → Bytes → Link

abbrev input : Link → Bytes
input (link i room o) = i

abbrev output : Link → Bytes
output (link i room o) = o

abbrev read_byte : ℕ → Link → (IoError ⊎ Bytes) × Link
read_byte zero l = (inr [], l)
read_byte (suc n) (link [] room o) = (inl would_block, link [] room o)
read_byte (suc n) (link (x ∷ i) room o) = (inr (x ∷ []), link i room o)

abbrev write_three : Bytes → Link → (IoError ⊎ ℕ) × Link
write_three buf (link i zero o) = (inl would_block, link i zero o)
write_three buf (link i (suc room) o) =
    let n = min 3 (length buf) in (inr n, link i room (o ++ take n buf))

abbrev link_socket : Socket Link
link_socket = record { read = read_byte; write = write_three }

read_byte_bytes :
    (n : ℕ) (l : Link) {bytes : Bytes} {l' : Link}
    → read_byte n l ≡ (inr bytes, l')
    → (input l ≡ bytes ++ input l') × (length bytes ≤ n)
read_byte_bytes zero l {bytes = bytes} {l' = l'} e =
    let same : [] ≡ bytes = cc e in
    let rest : l ≡ l' = cc e in rw (← same, ← rest) (refl, omega arith)
read_byte_bytes (suc n) (link [] room o) e = absurd (cc e)
read_byte_bytes (suc n) (link (x ∷ i) room o) {bytes = bytes} {l' = l'} e =
    let same : x ∷ [] ≡ bytes = cc e in
    let rest : link i room o ≡ l' = cc e in rw (← same, ← rest) (refl, omega arith)

read_byte_error :
    (n : ℕ) (l : Link) {e : IoError} {l' : Link} → read_byte n l ≡ (inl e, l') → input l' ≡ input l
read_byte_error zero l e = absurd (cc e)
read_byte_error (suc n) (link [] room o) {l' = l'} e =
    let rest : link [] room o ≡ l' = cc e in rw (← rest)
read_byte_error (suc n) (link (x ∷ i) room o) e = absurd (cc e)

abbrev link_reads : Reads link_socket
link_reads = record {
  incoming = λ l. input l;
  read_bytes = read_byte_bytes;
  read_error = read_byte_error;
}

link-IsReady : IsReady link_socket link_reads
link-IsReady zero l p q = absurd (omega arith)
link-IsReady (suc n) (link [] room o) p q = absurd (omega arith)
link-IsReady (suc n) (link (x ∷ i) room o) p q = (x ∷ [], link i room o, refl, omega arith)

write_three_bytes :
    (buf : Bytes) (l : Link) {n : ℕ} {l' : Link}
    → write_three buf l ≡ (inr n, l')
    → (n ≤ length buf) × (output l' ≡ output l ++ take n buf)
write_three_bytes buf (link i zero o) e = absurd (cc e)
write_three_bytes buf (link i (suc room) o) {n = n} {l' = l'} e =
    let same : min 3 (length buf) ≡ n = cc e in
    let rest : link i room (o ++ take (min 3 (length buf)) buf) ≡ l' = cc e in
    rw (← same, ← rest) (omega arith, refl)

write_three_error :
    (buf : Bytes) (l : Link) {e : IoError} {l' : Link}
    → write_three buf l ≡ (inl e, l')
    → output l' ≡ output l
write_three_error buf (link i zero o) {l' = l'} e =
    let rest : link i zero o ≡ l' = cc e in rw (← rest)
write_three_error buf (link i (suc room) o) e = absurd (cc e)

abbrev link_writes : Writes link_socket
link_writes = record {
  outgoing = λ l. output l;
  write_bytes = write_three_bytes;
  write_error = write_three_error;
}

abbrev u32_value : Bytes → Option ℕ
u32_value (a ∷ b ∷ c ∷ d ∷ []) = some (a + 256 * (b + 256 * (c + 256 * d)))
u32_value bytes = none

-- An object is one byte.
abbrev one_byte : Bytes → Option ℕ
one_byte (x ∷ []) = some x
one_byte bytes = none

abbrev byte_borsh : Borsh ℕ
byte_borsh = record {
  u32_from_slice = u32_value;
  bytes_to_vec = λ b. le_bytes 4 (length b) ++ b;
  to_vec = λ t. t ∷ [];
  from_slice = one_byte;
}

byte-Frames : (t : ℕ) → Frames link_socket link_reads byte_borsh t
unfolding le_bytes
byte-Frames t = record {
  len_bytes = 1 ∷ 0 ∷ 0 ∷ 0 ∷ [];
  length-len_bytes = refl;
  framed = refl;
  read_len = refl;
  read_back = refl;
}

-- Two of the four bytes of a length are in the buffer, and part of the next message is on its way.
abbrev half_read : BufferedStream Link
half_read = record {
  stream = link (0 ∷ 0 ∷ 7 ∷ 1 ∷ 0 ∷ []) 2 (9 ∷ []);
  read_buf = 1 ∷ 0 ∷ [];
  write_buf = 5 ∷ 6 ∷ [];
}

half_front :
    unreceived link_socket link_reads half_read
    ≡ byte_borsh.bytes_to_vec (byte_borsh.to_vec 7) ++ (1 ∷ 0 ∷ [])
unfolding le_bytes
half_front = refl

try_recv_run :
    try_recv link_socket byte_borsh half_read
    ≡ some (inr 7, record half_read { stream = link (1 ∷ 0 ∷ []) 2 (9 ∷ []); read_buf = [] })
unfolding try_recv and_then read_exact read_exact_fuel read_exact_answer recv_payload
try_recv_run = refl

-- The length alone has come: it goes back into the buffer.
try_recv_short :
    try_recv link_socket byte_borsh (new (link (1 ∷ 0 ∷ 0 ∷ 0 ∷ []) 0 []))
    ≡ some (
      inl would_block,
      record { stream = link [] 0 []; read_buf = 1 ∷ 0 ∷ 0 ∷ 0 ∷ []; write_buf = [] },
    )
unfolding try_recv and_then read_exact read_exact_fuel read_exact_answer recv_payload unread new
try_recv_short = refl

send_run :
    send link_socket byte_borsh 7 half_read
    ≡ some (
      inl would_block,
      record half_read {
        stream = link (0 ∷ 0 ∷ 7 ∷ 1 ∷ 0 ∷ []) 0 (9 ∷ 5 ∷ 6 ∷ 1 ∷ 0 ∷ 0 ∷ 0 ∷ []);
        write_buf = 7 ∷ [];
      },
    )
unfolding send write_all flush flush_fuel flush_answer le_bytes
send_run = refl

read_exact_lem_example :
    (r : (IoError ⊎ Bytes) × BufferedStream Link) × (read_exact link_socket 4 half_read ≡ some r)
    × Received link_socket link_reads 4 half_read r
read_exact_lem_example = read_exact_lem link_socket link_reads 4 half_read

try_recv_lem_example :
    (r : (IoError ⊎ ℕ) × BufferedStream Link) × (try_recv link_socket byte_borsh half_read ≡ some r)
    × Taken link_socket link_reads byte_borsh 7 (1 ∷ 0 ∷ []) half_read r
try_recv_lem_example =
    try_recv_lem link_socket link_reads byte_borsh 7 (1 ∷ 0 ∷ []) half_read (byte-Frames 7)
      half_front

try_recv_ready_example :
    (self' : BufferedStream Link) × (try_recv link_socket byte_borsh half_read
      ≡ some (inr 7, self'))
    × (unreceived link_socket link_reads self' ≡ 1 ∷ 0 ∷ [])
try_recv_ready_example =
    try_recv_ready link_socket link_reads link-IsReady byte_borsh 7 (1 ∷ 0 ∷ []) half_read
      (byte-Frames 7) half_front

send_lem_example :
    (r : (IoError ⊎ Unit {0}) × BufferedStream Link) × (send link_socket byte_borsh 7 half_read
      ≡ some r)
    × Flushed link_socket link_writes (9 ∷ 5 ∷ 6 ∷ 1 ∷ 0 ∷ 0 ∷ 0 ∷ 7 ∷ []) r
unfolding le_bytes
send_lem_example = send_lem link_socket link_writes byte_borsh 7 half_read
