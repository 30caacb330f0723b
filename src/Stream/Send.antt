-- ===== src/Stream/Send.antt =====
-- Sending: what is accepted reaches the socket whole and in order, whatever pieces the socket takes.
use arm_noir.Prelude.{
  ℕ, zero, suc, ◌≤◌, ◌<◌, ◌≡◌, refl, sym, ap, ◌∙◌, ◌⊎◌, inl, inr, true, false, Bool-cases, some, [],
  ◌∷◌, ◌++◌, append_assoc, subst, length, take, drop, length-drop, take-append-drop, leb, le→leb,
  ◌==◌, arith,
}
use arm_noir.Bytes.{Bytes}
use arm_noir.Stream.{
  IoError, would_block, Socket, Borsh, BufferedStream, is_empty, flush_answer, flush_fuel, flush,
  write_all, send,
}

-- What the code relies on: a write takes a prefix of the bytes offered, and an error none.
pub record Writes {S : Type 0} (socket : Socket S) : Type 0 where
  pub outgoing : S → Bytes
  pub write_bytes :
      (buf : Bytes) (s : S) {n : ℕ} {s' : S}
      → socket.write buf s ≡ (inr n, s')
      → (n ≤ length buf) × (outgoing s' ≡ outgoing s ++ take n buf)
  pub write_error :
      (buf : Bytes) (s : S) {e : IoError} {s' : S}
      → socket.write buf s ≡ (inl e, s')
      → outgoing s' ≡ outgoing s

module _ {S : Type 0} (socket : Socket S) (writes : Writes socket) where
  open writes use {outgoing}

  -- The bytes that the sender has accepted: those the socket took and those still in the buffer.
  abbrev pub accepted : BufferedStream S → Bytes
  accepted self = outgoing self.stream ++ self.write_buf

  -- The bytes accepted are these, and after success none is left in the buffer.
  abbrev pub Flushed : Bytes → (IoError ⊎ Unit {0}) × BufferedStream S → Type 0
  Flushed bytes (inl e, self') = accepted self' ≡ bytes
  Flushed bytes (inr u, self') = (accepted self' ≡ bytes) × (self'.write_buf ≡ [])

  empty_nil : (xs : Bytes) → is_empty xs ≡ true → xs ≡ []
  empty_nil [] e = refl
  empty_nil (x ∷ xs) e = absurd (cc e)

  -- What is left after a write of some bytes is shorter.
  shorter :
      (n fuel : ℕ) (buf : Bytes)
      → length buf < suc fuel
      → (n == 0) ≡ false
      → is_empty (drop n buf) ≡ false
      → length (drop n buf) < fuel
  shorter zero fuel [] p q r = absurd (cc r)
  shorter (suc n) fuel [] p q r = absurd (cc r)
  shorter n fuel (x ∷ xs) p q r = ground (arith, length-drop n (x ∷ xs))

  answered :
      (fuel : ℕ) (self : BufferedStream S) (answer : (IoError ⊎ ℕ) × S)
      → length self.write_buf < suc fuel
      → ((self' : BufferedStream S)
          → length self'.write_buf < fuel
          → (r : (IoError ⊎ Unit {0}) × BufferedStream S) × (flush_fuel socket fuel self' ≡ some r)
            × Flushed (accepted self') r)
      → socket.write self.write_buf self.stream ≡ answer
      → (r : (IoError ⊎ Unit {0}) × BufferedStream S) × (flush_answer socket self answer
            (λ self'. flush_fuel socket fuel self')
          ≡ some r)
        × Flushed (accepted self) r
  unfolding flush_answer
  answered fuel self (inl err, s) p again e = (
    (inl err, record self { stream = s }),
    refl,
    ap (λ b. b ++ self.write_buf) (writes.write_error _ _ e),
  )
  answered fuel self (inr n, s) p again e =
      let (fits, took) = writes.write_bytes _ _ e in
      let left = drop n self.write_buf in
      let self1 = record self { stream = s; write_buf = left } in
      let kept : outgoing s ++ left ≡ accepted self =
        ap (λ b. b ++ left) took
        ∙ append_assoc (outgoing self.stream) (take n self.write_buf) left
        ∙ ap (λ b. outgoing self.stream ++ b) (take-append-drop n self.write_buf) in
      let inside : leb n (length self.write_buf) ≡ true = le→leb _ _ fits in
      elim (Bool-cases (is_empty left)) [
        | inl done ↦ ((inr tt, self1), rw (inside, done), (kept, empty_nil left done))
        | inr more ↦ elim (Bool-cases (n == 0)) [
          | inl nothing ↦ ((inl would_block, self1), rw (inside, more, nothing), kept)
          | inr some_bytes ↦
              let (r, ends, h) = again self1 (shorter n fuel self.write_buf p some_bytes more) in
              (r, rw (inside, more, some_bytes) ends, subst (λ b. Flushed b r) kept h)
        ]
      ]

  flush_fuel_lem :
      (fuel : ℕ) (self : BufferedStream S)
      → length self.write_buf < fuel
      → (r : (IoError ⊎ Unit {0}) × BufferedStream S) × (flush_fuel socket fuel self ≡ some r)
        × Flushed (accepted self) r
  unfolding flush_fuel
  flush_fuel_lem zero self p = absurd (omega arith)
  flush_fuel_lem (suc fuel) self p =
      answered fuel self (socket.write self.write_buf self.stream) p (flush_fuel_lem fuel) refl

  -- `flush` ends, whatever the socket answers, and no byte accepted is lost or reordered; after success
  -- the socket has taken all of them.
  pub flush_lem :
      (self : BufferedStream S)
      → (r : (IoError ⊎ Unit {0}) × BufferedStream S) × (flush socket self ≡ some r)
        × Flushed (accepted self) r
  unfolding flush
  flush_lem self = flush_fuel_lem (suc (length self.write_buf)) self (omega arith)

  -- `send` ends, whatever the socket answers: the frame of the object goes behind the bytes accepted
  -- before, even where an error is returned, and after success the socket has taken all of them.
  pub send_lem :
      {T : Type 0} (borsh : Borsh T) (t : T) (self : BufferedStream S)
      → (r : (IoError ⊎ Unit {0}) × BufferedStream S) × (send socket borsh t self ≡ some r)
        × Flushed (accepted self ++ borsh.bytes_to_vec (borsh.to_vec t)) r
  unfolding send write_all
  send_lem borsh t self =
      let frame = borsh.bytes_to_vec (borsh.to_vec t) in
      let (r, ends, h) = flush_lem (record self { write_buf = self.write_buf ++ frame }) in
      (
        r,
        ends,
        subst (λ b. Flushed b r) (sym (append_assoc (outgoing self.stream) self.write_buf frame)) h,
      )
