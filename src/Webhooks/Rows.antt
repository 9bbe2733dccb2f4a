-- ===== src/Webhooks/Rows.antt =====
-- The row ids of the queue of linkmoth_webhooks.py: ascending, so that a row is its id.
use linkmoth.Prelude.{
  ℕ, ◌≤◌, ◌<◌, ◌≡◌, refl, Bool, false, not, All, List, [], ◌∷◌, ◌++◌, keep, any, map, ◌==◌,
  Bool-cases, inl, inr, arith,
}
use linkmoth.Webhooks.Data.{Delivery}
use linkmoth.Webhooks.Emit.{without_ids, next_id}
use linkmoth.Webhooks.Drain.{delete_row, update_row}

-- Every id is above a bound, and above the ids before it.
abbrev pub Above : ℕ → List Delivery → Type 0
Above b [] = Unit
Above b (r ∷ rows) = (b < r.id) × Above r.id rows

abbrev pub AllAbove : ℕ → List Delivery → Type 0
AllAbove b rows = All (λ (r : Delivery). b < r.id) rows

pub Above-weaken : (a b : ℕ) (rows : List Delivery) → a ≤ b → Above b rows → Above a rows
Above-weaken a b [] h k = tt
Above-weaken a b (r ∷ rows) h k = (omega (arith, k.0), k.1)

pub Above-all : (b : ℕ) (rows : List Delivery) → Above b rows → AllAbove b rows
Above-all b [] h = tt
Above-all b (r ∷ rows) h =
    (h.0, Above-all b rows (Above-weaken b r.id rows (omega (arith, h.0)) h.1))

pub delete-above : (b : ℕ) (rows : List Delivery) → AllAbove b rows → delete_row b rows ≡ rows
delete-above b [] h = refl
delete-above b (r ∷ rows) h = ground (arith, h.0, delete-above b rows h.1)

pub update-above :
    (b : ℕ) (f : Delivery → Delivery) (rows : List Delivery)
    → AllAbove b rows
    → update_row b f rows ≡ rows
update-above b f [] h = refl
update-above b f (r ∷ rows) h = ground (arith, h.0, update-above b f rows h.1)

pub Above-keep :
    (b : ℕ) (p : Delivery → Bool) (rows : List Delivery) → Above b rows → Above b (keep p rows)
Above-keep b p [] h = tt
Above-keep b p (r ∷ rows) h = elim (Bool-cases (p r)) [
  | inl here ↦ rw here (h.0, Above-keep r.id p rows h.1)
  | inr gone ↦ rw gone (Above-keep b p rows (Above-weaken b r.id rows (omega (arith, h.0)) h.1))
]

-- `next_id` is above every id, and behind the queue it keeps the order.
pub Above-next_id :
    (b : ℕ) (r : Delivery) (rows : List Delivery)
    → b < r.id
    → next_id rows ≤ r.id
    → Above b rows
    → Above b (rows ++ r ∷ [])
unfolding next_id
Above-next_id b r [] h k a = (h, tt)
Above-next_id b r (x ∷ rows) h k a =
    (a.0, Above-next_id x.id r rows (omega (arith, k)) (omega (arith, k)) a.1)

pub next_id_positive : (rows : List Delivery) → 1 ≤ next_id rows
unfolding next_id
next_id_positive [] = omega arith
next_id_positive (x ∷ rows) = omega (arith, next_id_positive rows)

any_above :
    (b : ℕ) (p : Delivery → Bool) (rows : List Delivery)
    → AllAbove b rows
    → any (λ i. i == b) (map (λ (r : Delivery). r.id) (keep p rows)) ≡ false
any_above b p [] h = refl
any_above b p (r ∷ rows) h = ground (arith, h.0, any_above b p rows h.1)

without_below :
    (b : ℕ) (ids : List ℕ) (rows : List Delivery)
    → AllAbove b rows
    → without_ids (b ∷ ids) rows ≡ without_ids ids rows
without_below b ids [] h = refl
without_below b ids (r ∷ rows) h = ground (arith, h.0, without_below b ids rows h.1)

-- Deleting by id the rows that pass a test keeps exactly the others.
pub without_ids-keep :
    (b : ℕ) (p : Delivery → Bool) (rows : List Delivery)
    → Above b rows
    → without_ids (map (λ (r : Delivery). r.id) (keep p rows)) rows ≡ keep (λ r. not (p r)) rows
without_ids-keep b p [] h = refl
without_ids-keep b p (r ∷ rows) h =
    let above = Above-all r.id rows h.1 in
    ground (
      arith,
      without_ids-keep r.id p rows h.1,
      any_above r.id p rows above,
      without_below r.id (map (λ (r : Delivery). r.id) (keep p rows)) rows above,
    )
