-- ===== src/Webhooks/Trim.antt =====
-- What the trim of a full queue does (`emit_event` of linkmoth_webhooks.py).
use linkmoth.Prelude.{
  ℕ, suc, zero, ◌+◌, ◌-◌, ◌≤◌, ◌<◌, ◌≡◌, refl, String, false, Option, none, some, All, All-imply,
  List, [], ◌∷◌, keep, length, min, ltb, ◌==◌, str_eq, eq_iff, Bool-cases, Option-cases, inl, inr,
  ◌⊎◌, arith,
}
use linkmoth.Webhooks.Data.{Delivery}
use linkmoth.Webhooks.Emit.{is_of, louder, backlog, noisiest_of, noisiest, drop_oldest, trim}

pub length-drop_oldest :
    (w : String) (n : ℕ) (rows : List Delivery)
    → n ≤ backlog w rows
    → length (drop_oldest w n rows) + n ≡ length rows
unfolding drop_oldest
length-drop_oldest w zero [] h = refl
length-drop_oldest w (suc n) [] h = omega (arith, h)
length-drop_oldest w zero (r ∷ rows) h = omega arith
length-drop_oldest w (suc n) (r ∷ rows) h = elim (Bool-cases (is_of w r)) [
  | inl own ↦ ground (arith, own, h, length-drop_oldest w n rows)
  | inr other ↦ ground (arith, other, h, length-drop_oldest w (suc n) rows)
]

-- A webhook that others is compared with keeps its rows.
pub kept-drop_oldest :
    (v w : String) (n : ℕ) (rows : List Delivery)
    → str_eq w v ≡ false
    → keep (is_of v) (drop_oldest w n rows) ≡ keep (is_of v) rows
unfolding drop_oldest
kept-drop_oldest v w zero [] h = refl
kept-drop_oldest v w (suc n) [] h = refl
kept-drop_oldest v w zero (r ∷ rows) h = refl
kept-drop_oldest v w (suc n) (r ∷ rows) h = ground (
  arith,
  h,
  eq_iff r.webhook_id w,
  eq_iff r.webhook_id v,
  eq_iff w v,
  kept-drop_oldest v w n rows h,
  kept-drop_oldest v w (suc n) rows h,
)

-- The chosen webhook's backlog is at least that of each row's webhook.
abbrev pub IsNoisiest : List Delivery → List Delivery → Option (String × ℕ) → Type 0
IsNoisiest rows rest none = rest ≡ []
IsNoisiest rows rest (some (w, n)) =
    (n ≡ backlog w rows) × All (λ r. backlog r.webhook_id rows ≤ n) rest

IsNoisiest-louder :
    (rows rest : List Delivery) (r : Delivery) (o : Option (String × ℕ))
    → IsNoisiest rows rest o
    → IsNoisiest rows (r ∷ rest) (louder (backlog r.webhook_id rows) r o)
IsNoisiest-louder rows rest r none h = rw h (refl, (omega arith, tt))
IsNoisiest-louder rows rest r (some (w, m)) (e, h) =
    elim (Bool-cases (ltb (backlog r.webhook_id rows) m)) [
      | inl less ↦ rw less (e, (ground (arith, less), h))
      | inr more ↦
          rw more (refl, (omega arith, All-imply _ _ rest (λ x k. ground (arith, k, more)) h))
    ]

pub noisiest_of_lem : (rows rest : List Delivery) → IsNoisiest rows rest (noisiest_of rows rest)
unfolding noisiest_of
noisiest_of_lem rows [] = refl
noisiest_of_lem rows (r ∷ rest) =
    IsNoisiest-louder rows rest r (noisiest_of rows rest) (noisiest_of_lem rows rest)

-- A webhook with its backlog, which is not zero.
abbrev pub IsBacklog : List Delivery → Option (String × ℕ) → Type 0
IsBacklog rows o = (w : String) × ((n : ℕ) × ((o ≡ some (w, n)) × ((n ≡ backlog w rows) × (1 ≤ n))))

IsNoisiest-IsBacklog :
    (r : Delivery) (rows : List Delivery) (o : Option (String × ℕ))
    → IsNoisiest (r ∷ rows) (r ∷ rows) o
    → IsBacklog (r ∷ rows) o
IsNoisiest-IsBacklog r rows none h = ground (arith, h)
IsNoisiest-IsBacklog r rows (some (w, n)) (e, (first, h)) =
    (w, (n, (refl, (e, ground (arith, first, eq_iff r.webhook_id r.webhook_id)))))

pub noisiest-IsBacklog :
    (r : Delivery) (rows : List Delivery) → IsBacklog (r ∷ rows) (noisiest (r ∷ rows))
noisiest-IsBacklog r rows =
    IsNoisiest-IsBacklog r rows (noisiest (r ∷ rows)) (noisiest_of_lem (r ∷ rows) (r ∷ rows))

-- A pass of the loop: nothing, a last deletion, or a deletion before the other passes.
pub trim_pass :
    (fuel overflow : ℕ) (rows : List Delivery)
    → (trim (suc fuel) overflow rows ≡ rows)
      ⊎ ((w : String) × ((k : ℕ) × ((trim (suc fuel) overflow rows ≡ drop_oldest w k rows)
              ⊎ ((o : ℕ) × (trim (suc fuel) overflow rows ≡ trim fuel o (drop_oldest w k rows))))))
unfolding trim
trim_pass fuel overflow rows = elim (Option-cases (noisiest rows)) [
  | inl empty ↦ inl (ground (arith, empty))
  | inr ((w, n), found) ↦
      let left = drop_oldest w (min overflow n) rows in
      elim (Bool-cases (overflow == 0)) [
        | inl over ↦ inl (ground (arith, found, over))
        | inr going ↦ elim (Bool-cases (length rows - length left == 0)) [
          | inl stuck ↦ inr (w, (min overflow n, inl (ground (arith, found, going, stuck))))
          | inr shed ↦ inr (
            w,
            (
              min overflow n,
              inr (overflow - (length rows - length left), ground (arith, found, going, shed)),
            ),
          )
        ]
      ]
]

-- Enough passes bring the queue down by exactly the overflow.
pub length-trim :
    (fuel overflow : ℕ) (rows : List Delivery)
    → overflow < fuel
    → overflow ≤ length rows
    → length (trim fuel overflow rows) + overflow ≡ length rows
unfolding trim
length-trim zero overflow rows h k = ground (arith, h)
length-trim (suc fuel) overflow [] h k = ground (arith, k)
length-trim (suc fuel) overflow (r ∷ rows) h k =
    let (w, (n, (found, (e, least)))) = noisiest-IsBacklog r rows in
    let left = drop_oldest w (min overflow n) (r ∷ rows) in
    let shorter : length left + min overflow n ≡ length (r ∷ rows) =
      length-drop_oldest w (min overflow n) (r ∷ rows) (omega (arith, e)) in
    elim (Bool-cases (overflow == 0)) [
      | inl over ↦ ground (arith, found, over)
      | inr more ↦ ground (
        arith,
        found,
        more,
        shorter,
        least,
        length-trim fuel (overflow - (length (r ∷ rows) - length left)) left
            (ground (arith, shorter, more, least, h)) (ground (arith, shorter, more, least)),
      )
    ]
