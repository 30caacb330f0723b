-- ===== src/Pool/Ledger.antt =====
-- The resources that a list of transactions creates and consumes.
use arm_noir.Prelude.{
  ◌≡◌, refl, sym, ap, ◌∙◌, true, false, Bool-cases, inl, inr, List, [], ◌∷◌, ◌++◌, append-nil,
  append_assoc, map, bytes_eq_iff, bytes_Eq, contains, contains-append, Distinct, arith,
}
use arm_noir.Bytes.{Bytes}
use arm_noir.Pool.State.{Transaction}
use arm_noir.Pool.Submit.Tags.{consumed_tags, created_tags}

pub map-append :
    {A B : Type 0} (f : A → B) (xs ys : List A) → map f (xs ++ ys) ≡ map f xs ++ map f ys
map-append f [] ys = refl
map-append f (x ∷ xs) ys = ap (◌∷◌ (f x)) (map-append f xs ys)

-- Two lists without repetition that share no item.
pub Distinct-append :
    (xs ys : List Bytes)
    → Distinct xs
    → Distinct ys
    → ((k : Bytes) → contains k ys ≡ true → contains k xs ≡ false)
    → Distinct (xs ++ ys)
Distinct-append [] ys d e apart = e
Distinct-append (x ∷ xs) ys (fresh, d) e apart =
    let apart' : (k : Bytes) → contains k ys ≡ true → contains k xs ≡ false =
      λ k p. let q = apart k p in ground arith in
    let unlike : contains x ys ≡ false = elim (Bool-cases (contains x ys)) [
      | inr apart_x ↦ apart_x
      | inl shared ↦
          (let q = apart x shared in let same = (bytes_eq_iff x x).1 refl in ground arith)
    ] in
    (contains-append x xs ys ∙ ground arith, Distinct-append xs ys d e apart')

module _ {F : Type 0} where
  -- The tags of all resources that the transactions create, and of all that they consume, in order.
  abbrev pub all_created : List (Transaction F) → List Bytes
  all_created [] = []
  all_created (tx ∷ txs) = created_tags tx.logic_instances ++ all_created txs

  abbrev pub all_consumed : List (Transaction F) → List Bytes
  all_consumed [] = []
  all_consumed (tx ∷ txs) = consumed_tags tx.logic_instances ++ all_consumed txs

  pub all_created-append :
      (txs : List (Transaction F)) (tx : Transaction F)
      → all_created (txs ++ tx ∷ []) ≡ all_created txs ++ created_tags tx.logic_instances
  all_created-append [] tx = append-nil (created_tags tx.logic_instances)
  all_created-append (t ∷ txs) tx =
      ap (λ b. created_tags t.logic_instances ++ b) (all_created-append txs tx)
      ∙ sym (
          append_assoc (created_tags t.logic_instances) (all_created txs)
            (created_tags tx.logic_instances))

  pub all_consumed-append :
      (txs : List (Transaction F)) (tx : Transaction F)
      → all_consumed (txs ++ tx ∷ []) ≡ all_consumed txs ++ consumed_tags tx.logic_instances
  all_consumed-append [] tx = append-nil (consumed_tags tx.logic_instances)
  all_consumed-append (t ∷ txs) tx =
      ap (λ b. consumed_tags t.logic_instances ++ b) (all_consumed-append txs tx)
      ∙ sym (
          append_assoc (consumed_tags t.logic_instances) (all_consumed txs)
            (consumed_tags tx.logic_instances))
