-- ===== src/Client/Notes.antt =====
-- The set of spent positions: what `insert` and the scan of the nullifiers put into it.
use arm_noir.Prelude.{
  ℕ, ◌≡◌, refl, sym, ap, ◌∙◌, ◌⊎◌, true, Bool-cases, inl, inr, some, Option-cases, List, [], ◌∷◌,
  ltb, ◌==◌, bytes_eq, bytes_eq_iff, contains, lookup, bytes_Eq, arith, In,
}
use arm_noir.Bytes.{Bytes}
use arm_noir.Client.{insert_pos}
use arm_noir.Client.Scan.{scan_nullifiers}

insert_pos-In : (pos p : ℕ) (s : List ℕ) → In p (insert_pos pos s) → (p ≡ pos) ⊎ In p s
insert_pos-In pos p [] (inl e) = inl e
insert_pos-In pos p [] (inr h) = elim h [ ]
insert_pos-In pos p (q ∷ rest) h = elim (Bool-cases (pos == q)) [
  | inl same ↦ inr (rw same at h)
  | inr other ↦ elim (Bool-cases (ltb pos q)) [
    | inl before ↦ (rw (other, before) at h)
    | inr after ↦ elim (rw (other, after) at h) [
      | inl e ↦ inr (inl e)
      | inr later ↦ elim (insert_pos-In pos p rest later) [
        | inl e ↦ inl e
        | inr old ↦ inr (inr old)
      ]
    ]
  ]
]

In-insert_pos : (pos p : ℕ) (s : List ℕ) → (p ≡ pos) ⊎ In p s → In p (insert_pos pos s)
In-insert_pos pos p [] (inl e) = inl e
In-insert_pos pos p [] (inr h) = elim h [ ]
In-insert_pos pos p (q ∷ rest) h = elim (Bool-cases (pos == q)) [
  | inl same ↦
      rw same (elim h [ inl e ↦ inl (let f : pos ≡ q = ground arith in e ∙ f) | inr old ↦ old ])
  | inr other ↦ elim (Bool-cases (ltb pos q)) [
    | inl before ↦ rw (other, before) h
    | inr after ↦
        rw (other, after)
          (elim h [
            | inl e ↦ inr (In-insert_pos pos p rest (inl e))
            | inr (inl e) ↦ inl e
            | inr (inr old) ↦ inr (In-insert_pos pos p rest (inr old))
          ])
  ]
]

abbrev pub SpentBy : List Bytes → List (Bytes × ℕ) → ℕ → Type 0
SpentBy nullifiers nf_map p =
    (n : Bytes) × (contains n nullifiers ≡ true) × (lookup n nf_map ≡ some p)

pub scan_nullifiers-In :
    (ns : List Bytes) (nf_map : List (Bytes × ℕ)) (spent : List ℕ) (p : ℕ)
    → In p (scan_nullifiers ns nf_map spent)
    → In p spent ⊎ SpentBy ns nf_map p
unfolding scan_nullifiers
scan_nullifiers-In [] nf_map spent p h = inl h
scan_nullifiers-In (n ∷ ns) nf_map spent p h =
    let later : SpentBy ns nf_map p → SpentBy (n ∷ ns) nf_map p =
      λ (m, c, e). (m, ground arith, e) in
    elim (Option-cases (lookup n nf_map)) [
      | inl unknown ↦
          elim (scan_nullifiers-In ns nf_map spent p (rw (unknown, scan_nullifiers) at h)) [
            | inl old ↦ inl old
            | inr new_one ↦ inr (later new_one)
          ]
      | inr (pos, known) ↦
          elim (scan_nullifiers-In ns nf_map (insert_pos pos spent) p
            (rw (known, scan_nullifiers) at h)) [
              | inr new_one ↦ inr (later new_one)
              | inl either ↦ elim (insert_pos-In pos p spent either) [
                | inr old ↦ inl old
                | inl e ↦ inr (n, ground (arith, bytes_eq_iff n n), known ∙ ap some (sym e))
              ]
            ]
    ]

pub In-scan_nullifiers :
    (ns : List Bytes) (nf_map : List (Bytes × ℕ)) (spent : List ℕ) (p : ℕ)
    → In p spent ⊎ SpentBy ns nf_map p
    → In p (scan_nullifiers ns nf_map spent)
unfolding scan_nullifiers
In-scan_nullifiers [] nf_map spent p (inl h) = h
In-scan_nullifiers [] nf_map spent p (inr (n, c, e)) = absurd (cc c)
In-scan_nullifiers (n ∷ ns) nf_map spent p (inl old) = elim (Option-cases (lookup n nf_map)) [
  | inl unknown ↦ rw (unknown, scan_nullifiers) (In-scan_nullifiers ns nf_map spent p (inl old))
  | inr (pos, known) ↦
      rw (known, scan_nullifiers)
        (In-scan_nullifiers ns nf_map (insert_pos pos spent) p
          (inl (In-insert_pos pos p spent (inr old))))
]
In-scan_nullifiers (n ∷ ns) nf_map spent p (inr (m, c, e)) = elim (Bool-cases (bytes_eq m n)) [
  | inl same ↦
      let f : m ≡ n = (bytes_eq_iff m n).0 same in
      let known : lookup n nf_map ≡ some p = (rw f at e) in
      rw (known, scan_nullifiers)
        (In-scan_nullifiers ns nf_map (insert_pos p spent) p
          (inl (In-insert_pos p p spent (inl refl))))
  | inr other ↦
      let c' : contains m ns ≡ true = ground arith in
      elim (Option-cases (lookup n nf_map)) [
        | inl unknown ↦
            rw (unknown, scan_nullifiers) (In-scan_nullifiers ns nf_map spent p (inr (m, c', e)))
        | inr (pos, known) ↦
            rw (known, scan_nullifiers)
              (In-scan_nullifiers ns nf_map (insert_pos pos spent) p (inr (m, c', e)))
      ]
]
