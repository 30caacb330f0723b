-- ===== src/Stream/Receive.antt =====
-- Receiving: no byte is lost or read twice, whatever pieces the socket hands over.
use arm_noir.Prelude.{
  ℕ, zero, suc, ◌+◌, ◌-◌, ◌≤◌, ◌<◌, ◌≡◌, refl, sym, ap, ◌∙◌, ◌⊎◌, inl, inr, true, false, Bool-cases,
  some, [], ◌∷◌, ◌++◌, append-nil, append_assoc, length, take, drop, length-append, length-take,
  take-append-drop, leb, ltb, ◌==◌, arith,
}
use arm_noir.Bytes.{Bytes}
use arm_noir.Bytes.Laws.{append-injective}
use arm_noir.Stream.{
  IoError, would_block, Socket, Borsh, BufferedStream, and_then, unread, read_exact_answer,
  read_exact_fuel, read_exact, recv_payload, try_recv,
}

-- What the code relies on: the bytes on their way to the reader, of which a read takes a prefix that
-- fits its buffer, and an error none.
pub record Reads {S : Type 0} (socket : Socket S) : Type 0 where
  pub incoming : S → Bytes
  pub read_bytes :
      (n : ℕ) (s : S) {bytes : Bytes} {s' : S}
      → socket.read n s ≡ (inr bytes, s')
      → (incoming s ≡ bytes ++ incoming s') × (length bytes ≤ n)
  pub read_error :
      (n : ℕ) (s : S) {e : IoError} {s' : S}
      → socket.read n s ≡ (inl e, s')
      → incoming s' ≡ incoming s

module _ {S : Type 0} (socket : Socket S) (reads : Reads socket) where
  open reads use {incoming}

  -- The bytes that the receiver has not been given yet.
  abbrev pub unreceived : BufferedStream S → Bytes
  unreceived self = self.read_buf ++ incoming self.stream

  -- The n bytes are taken from the front, or an error takes none.
  abbrev pub Received : ℕ → BufferedStream S → (IoError ⊎ Bytes) × BufferedStream S → Type 0
  Received n self (inl e, self') = unreceived self' ≡ unreceived self
  Received n self (inr bytes, self') =
      (length bytes ≡ n) × (unreceived self ≡ bytes ++ unreceived self')

  joined_nil : (bytes buf rest : Bytes) → length bytes ≡ 0 → buf ++ rest ≡ (buf ++ bytes) ++ rest
  joined_nil [] buf rest e = ap (λ b. b ++ rest) (sym (append-nil buf))
  joined_nil (x ∷ bytes) buf rest e = absurd (omega arith)

  -- What is taken from a stream with the same bytes.
  moved :
      (n : ℕ) (self self1 : BufferedStream S) (r : (IoError ⊎ Bytes) × BufferedStream S)
      → unreceived self ≡ unreceived self1
      → Received n self1 r
      → Received n self r
  moved n self self1 (inl e, self') same h = h ∙ sym same
  moved n self self1 (inr bytes, self') same (size, h) = (size, same ∙ h)

  -- One answer of the socket.
  answered :
      (fuel n : ℕ) (self : BufferedStream S) (answer : (IoError ⊎ Bytes) × S)
      → leb n (length self.read_buf) ≡ false
      → n - length self.read_buf < suc fuel
      → ((self' : BufferedStream S)
          → n - length self'.read_buf < fuel
          → (r : (IoError ⊎ Bytes) × BufferedStream S) × (read_exact_fuel socket fuel n self'
              ≡ some r)
            × Received n self' r)
      → socket.read (n - length self.read_buf) self.stream ≡ answer
      → (r : (IoError ⊎ Bytes) × BufferedStream S) × (read_exact_answer socket n self answer
            (λ self'. read_exact_fuel socket fuel n self')
          ≡ some r)
        × Received n self r
  unfolding read_exact_answer
  answered fuel n self (inl err, s) short p again e = (
    (inl err, record self { stream = s }),
    refl,
    ap (λ b. self.read_buf ++ b) (reads.read_error _ _ e),
  )
  answered fuel n self (inr bytes, s) short p again e =
      let (split, fits) = reads.read_bytes _ _ e in
      let joined : unreceived self ≡ (self.read_buf ++ bytes) ++ incoming s =
        ap (λ b. self.read_buf ++ b) split ∙ sym (append_assoc self.read_buf bytes (incoming s)) in
      let size = length-append self.read_buf bytes in
      elim (Bool-cases (length bytes + length self.read_buf == length self.read_buf)) [
        | inl nothing ↦ (
          (inl would_block, record self { stream = s }),
          rw nothing,
          joined_nil bytes self.read_buf (incoming s) (ground arith) ∙ sym joined,
        )
        | inr some_bytes ↦ elim (Bool-cases (ltb (length bytes + length self.read_buf) n)) [
          | inl more ↦
              let self1 = record self { stream = s; read_buf = self.read_buf ++ bytes } in
              let (r, done, h) = again self1 (ground (arith, size)) in
              (r, rw (some_bytes, more) done, moved n self self1 r joined h)
          | inr enough ↦
              let exact : (length bytes + length self.read_buf == n) ≡ true = ground arith in
              (
                (inr (self.read_buf ++ bytes), record self { stream = s; read_buf = [] }),
                rw (some_bytes, enough, exact),
                (ground (arith, size), joined),
              )
        ]
      ]

  read_exact_fuel_lem :
      (fuel n : ℕ) (self : BufferedStream S)
      → n - length self.read_buf < fuel
      → (r : (IoError ⊎ Bytes) × BufferedStream S) × (read_exact_fuel socket fuel n self ≡ some r)
        × Received n self r
  unfolding read_exact_fuel
  read_exact_fuel_lem zero n self p = absurd (omega arith)
  read_exact_fuel_lem (suc fuel) n self p = elim (Bool-cases (leb n (length self.read_buf))) [
    | inl enough ↦ (
      (inr (take n self.read_buf), record self { read_buf = drop n self.read_buf }),
      rw enough,
      (
        ground (arith, length-take n self.read_buf),
        ap (λ b. b ++ incoming self.stream) (sym (take-append-drop n self.read_buf))
            ∙ append_assoc (take n self.read_buf) (drop n self.read_buf) (incoming self.stream),
      ),
    )
    | inr short ↦
        let (r, e, h) =
          answered fuel n self (socket.read (n - length self.read_buf) self.stream) short
            (omega arith) (read_exact_fuel_lem fuel n) refl in
        (r, rw short e, h)
  ]

  -- `read_exact` ends, whatever the socket answers; it takes exactly the bytes it was asked for from
  -- the front of those not received yet, or it returns an error and takes none.
  pub read_exact_lem :
      (n : ℕ) (self : BufferedStream S)
      → (r : (IoError ⊎ Bytes) × BufferedStream S) × (read_exact socket n self ≡ some r)
        × Received n self r
  unfolding read_exact
  read_exact_lem n self = read_exact_fuel_lem (suc n) n self (omega arith)

  -- The frame of an object: its length and its bytes.
  module _ {T : Type 0} (borsh : Borsh T) where
    open borsh use {u32_from_slice, bytes_to_vec, to_vec, from_slice}

    -- A byte vector is written as four bytes, from which its length is read, and the bytes; an object is
    -- read back from its bytes.
    pub record Frames (t : T) : Type 0 where
      pub len_bytes : Bytes
      pub length-len_bytes : length len_bytes ≡ 4
      pub framed : bytes_to_vec (to_vec t) ≡ len_bytes ++ to_vec t
      pub read_len : u32_from_slice len_bytes ≡ some (length (to_vec t))
      pub read_back : from_slice (to_vec t) ≡ some t

    -- The object is taken with its frame, or an error takes nothing.
    abbrev pub Taken : T → Bytes → BufferedStream S → (IoError ⊎ T) × BufferedStream S → Type 0
    Taken t rest self (inl e, self') = unreceived self' ≡ unreceived self
    Taken t rest self (inr u, self') = (u ≡ t) × (unreceived self' ≡ rest)

    payload-Taken :
        (t : T) (rest len_bytes : Bytes) (self self1 : BufferedStream S)
        (r : (IoError ⊎ Bytes) × BufferedStream S)
        → from_slice (to_vec t) ≡ some t
        → unreceived self ≡ len_bytes ++ unreceived self1
        → unreceived self1 ≡ to_vec t ++ rest
        → Received (length (to_vec t)) self1 r
        → (r' : (IoError ⊎ T) × BufferedStream S) × (recv_payload socket borsh len_bytes (some r)
            ≡ some r')
          × Taken t rest self r'
    unfolding recv_payload unread
    payload-Taken t rest len_bytes self self1 (inl e, self2) back whole front h = (
      (inl e, unread len_bytes self2),
      refl,
      append_assoc len_bytes self2.read_buf (incoming self2.stream)
          ∙ ap (λ b. len_bytes ++ b) h
          ∙ sym whole,
    )
    payload-Taken t rest len_bytes self self1 (inr bytes, self2) back whole front (size, h) =
        let (same, left) =
          append-injective bytes (to_vec t) (unreceived self2) rest size (sym h ∙ front) in
        ((inr t, self2), rw (same, recv_payload, back), (refl, left))

    -- `try_recv`, once the four bytes are read.
    length_read :
        (t : T) (rest : Bytes) (self : BufferedStream S)
        → Frames t
        → unreceived self ≡ bytes_to_vec (to_vec t) ++ rest
        → (r : (IoError ⊎ Bytes) × BufferedStream S) → read_exact socket 4 self ≡ some r
        → Received 4 self r
        → (r' : (IoError ⊎ T) × BufferedStream S) × (try_recv socket borsh self ≡ some r')
          × Taken t rest self r'
    unfolding try_recv and_then
    length_read t rest self frames e (inl err, self1) done h = ((inl err, self1), rw done, h)
    length_read t rest self frames e (inr bytes, self1) done (size, h) =
        let whole : unreceived self ≡ frames.len_bytes ++ (to_vec t ++ rest) =
          e ∙ ap (λ b. b ++ rest) frames.framed ∙ append_assoc frames.len_bytes (to_vec t) rest in
        let (same, front) =
          append-injective bytes frames.len_bytes (unreceived self1) (to_vec t ++ rest)
            (size ∙ sym frames.length-len_bytes) (sym h ∙ whole) in
        let decoded : u32_from_slice bytes ≡ some (length (to_vec t)) =
          ap u32_from_slice same ∙ frames.read_len in
        let (r, read, k) = read_exact_lem (length (to_vec t)) self1 in
        let (r', taken, m) = payload-Taken t rest bytes self self1 r frames.read_back h front k in
        (r', rw (done, decoded, read) taken, m)

    -- Where the bytes not received yet begin with the frame of an object, `try_recv` ends, whatever pieces
    -- the socket hands over: it returns the object and takes its frame, or it returns an error and takes
    -- nothing.
    pub try_recv_lem :
        (t : T) (rest : Bytes) (self : BufferedStream S)
        → Frames t
        → unreceived self ≡ bytes_to_vec (to_vec t) ++ rest
        → (r : (IoError ⊎ T) × BufferedStream S) × (try_recv socket borsh self ≡ some r)
          × Taken t rest self r
    try_recv_lem t rest self frames e =
        let (r, done, h) = read_exact_lem 4 self in length_read t rest self frames e r done h
