-- ===== src/Stream/Ready.antt =====
-- Receiving from a socket that hands over a byte whenever one is on its way.
use arm_noir.Prelude.{
  ℕ, zero, suc, ◌+◌, ◌-◌, ◌≤◌, ◌<◌, ◌≡◌, sym, ap, subst, ◌∙◌, ◌⊎◌, inl, inr, true, false,
  Bool-cases, some, [], ◌++◌, append_assoc, length, take, drop, length-append, leb, ltb, ◌==◌,
  arith,
}
use arm_noir.Bytes.{Bytes}
use arm_noir.Bytes.Laws.{append-injective}
use arm_noir.Stream.{
  IoError, Socket, Borsh, BufferedStream, and_then, read_exact_answer, read_exact_fuel, read_exact,
  recv_payload, try_recv,
}
use arm_noir.Stream.Receive.{Reads, Frames, unreceived, Received, read_exact_lem}

-- A read for which there is room and a byte on its way returns a byte.
abbrev pub IsReady : {S : Type 0} (socket : Socket S) → Reads socket → Type 0
IsReady {S} socket reads =
    (n : ℕ) (s : S)
    → 0 < n
    → 0 < length (reads.incoming s)
    → (bytes : Bytes) × (s' : S) × (socket.read n s ≡ (inr bytes, s')) × (0 < length bytes)

module _ {S : Type 0} (socket : Socket S) (reads : Reads socket)
    (ready : IsReady socket reads) where
  open reads use {incoming}

  read_exact_fuel_ready :
      (fuel n : ℕ) (self : BufferedStream S)
      → n - length self.read_buf < fuel
      → n ≤ length (unreceived socket reads self)
      → (bytes : Bytes) × (self' : BufferedStream S) × (read_exact_fuel socket fuel n self
          ≡ some (inr bytes, self'))
  unfolding read_exact_fuel read_exact_answer
  read_exact_fuel_ready zero n self p q = absurd (omega arith)
  read_exact_fuel_ready (suc fuel) n self p q = elim (Bool-cases (leb n (length self.read_buf))) [
    | inl enough ↦
        (take n self.read_buf, record self { read_buf = drop n self.read_buf }, rw enough)
    | inr short ↦
        let size = length-append self.read_buf (incoming self.stream) in
        let (bytes, s, e, some_bytes) =
          ready (n - length self.read_buf) self.stream (ground arith) (ground (arith, size)) in
        let (split, fits) = reads.read_bytes _ _ e in
        let joined : unreceived socket reads self ≡ (self.read_buf ++ bytes) ++ incoming s =
          ap (λ b. self.read_buf ++ b) split
          ∙ sym (append_assoc self.read_buf bytes (incoming s)) in
        let grown = length-append self.read_buf bytes in
        let moved : (length bytes + length self.read_buf == length self.read_buf) ≡ false =
          ground arith in
        elim (Bool-cases (ltb (length bytes + length self.read_buf) n)) [
          | inl more ↦
              let self1 = record self { stream = s; read_buf = self.read_buf ++ bytes } in
              let (bytes', self', done) =
                read_exact_fuel_ready fuel n self1 (ground (arith, grown)) (rw joined at q) in
              (bytes', self', rw (short, e, moved, more) done)
          | inr enough ↦
              let exact : (length bytes + length self.read_buf == n) ≡ true = ground arith in
              (
                self.read_buf ++ bytes,
                record self { stream = s; read_buf = [] },
                rw (short, e, moved, enough, exact),
              )
        ]
  ]

  same_answer :
      (n : ℕ) (self self' : BufferedStream S) (bytes : Bytes)
      (r : (IoError ⊎ Bytes) × BufferedStream S)
      → read_exact socket n self ≡ some (inr bytes, self')
      → read_exact socket n self ≡ some r
      → Received socket reads n self r
      → Received socket reads n self (inr bytes, self')
  same_answer n self self' bytes r e f h =
      let same : r ≡ (inr bytes, self') = cc in subst (λ r. Received socket reads n self r) same h

  -- `read_exact` succeeds where enough bytes are on their way.
  pub read_exact_ready :
      (n : ℕ) (self : BufferedStream S)
      → n ≤ length (unreceived socket reads self)
      → (bytes : Bytes) × (self' : BufferedStream S) × (read_exact socket n self
          ≡ some (inr bytes, self'))
        × Received socket reads n self (inr bytes, self')
  unfolding read_exact
  read_exact_ready n self p =
      let (bytes, self', done) = read_exact_fuel_ready (suc n) n self (omega arith) p in
      let (r, e, h) = read_exact_lem socket reads n self in
      (bytes, self', done, same_answer n self self' bytes r done e h)

  -- Where the bytes not received yet begin with the frame of an object, `try_recv` returns the object
  -- and takes its frame, if the socket hands over a byte whenever one is on its way.
  pub try_recv_ready :
      {T : Type 0} (borsh : Borsh T) (t : T) (rest : Bytes) (self : BufferedStream S)
      → Frames socket reads borsh t
      → unreceived socket reads self ≡ borsh.bytes_to_vec (borsh.to_vec t) ++ rest
      → (self' : BufferedStream S) × (try_recv socket borsh self ≡ some (inr t, self'))
        × (unreceived socket reads self' ≡ rest)
  unfolding try_recv and_then
  try_recv_ready borsh t rest self frames e =
      let payload = borsh.to_vec t in
      let whole : unreceived socket reads self ≡ frames.len_bytes ++ (payload ++ rest) =
        e ∙ ap (λ b. b ++ rest) frames.framed ∙ append_assoc frames.len_bytes payload rest in
      let l4 = frames.length-len_bytes in
      let size = length-append frames.len_bytes (payload ++ rest) in
      let enough : length (unreceived socket reads self)
          ≡ length (frames.len_bytes ++ (payload ++ rest)) =
        ap length whole in
      let (bytes, self1, done, (four, h)) = read_exact_ready 4 self (omega arith) in
      let (same, front) =
        append-injective bytes frames.len_bytes (unreceived socket reads self1) (payload ++ rest)
          (four ∙ sym l4) (sym h ∙ whole) in
      let decoded : borsh.u32_from_slice bytes ≡ some (length payload) =
        ap borsh.u32_from_slice same ∙ frames.read_len in
      let size1 = length-append payload rest in
      let enough1 : length (unreceived socket reads self1) ≡ length (payload ++ rest) =
        ap length front in
      let (body, self2, done1, (five, k)) = read_exact_ready (length payload) self1 (omega arith) in
      let (same1, left) =
        append-injective body payload (unreceived socket reads self2) rest five (sym k ∙ front) in
      let parsed : borsh.from_slice body ≡ some t = ap borsh.from_slice same1 ∙ frames.read_back in
      (self2, rw (done, decoded, done1, recv_payload, parsed), left)
