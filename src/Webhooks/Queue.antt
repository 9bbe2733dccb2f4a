-- ===== src/Webhooks/Queue.antt =====
-- What every sequence of events, drains and changes of the settings keeps of the queue of
-- linkmoth_webhooks.py.
use linkmoth.Prelude.{
  ℕ, suc, zero, ◌-◌, ◌≤◌, ◌<◌, ◌≡◌, refl, sym, subst, String, Bool, true, not, ◌&&◌, Option, none,
  some, All, All-append, All-keep, List, [], ◌∷◌, ◌++◌, keep, any, ltb, ◌==◌, length, str_eq,
  Bool-cases, Option-cases, inl, inr, arith,
}
use linkmoth.Text.{is_empty}
use linkmoth.Webhooks.Trim.{trim_pass}
use linkmoth.Webhooks.Data.{
  queue_cap, max_delivery_attempts, is_clearing, Context, Webhook, Delivery,
}
use linkmoth.Webhooks.Emit.{
  ids_of_held, cancel_held, without_ids, next_id, new_delivery, enqueue, drop_oldest, trim,
  trim_queue,
}
use linkmoth.Webhooks.Drain.{Answer, find_webhook, Send, is_ready}
use linkmoth.Webhooks.Rows.{Above, Above-weaken, Above-keep, Above-next_id, next_id_positive}
use linkmoth.Webhooks.Settle.{retry_after, settle, kept_for}

-- A delivery that may be tried again.
abbrev pub is_open : Delivery → Bool
is_open r = ltb r.attempts max_delivery_attempts

abbrev pub AllOpen : List Delivery → Type 0
AllOpen rows = All (λ r. is_open r ≡ true) rows

-- Ascending ids, and attempts below the limit.
abbrev pub IsQueue : List Delivery → Type 0
IsQueue rows = Above 0 rows × AllOpen rows

pub IsQueue-keep :
    (p : Delivery → Bool) (rows : List Delivery) → IsQueue rows → IsQueue (keep p rows)
IsQueue-keep p rows (a, o) = (Above-keep 0 p rows a, All-keep (λ r. is_open r ≡ true) p rows o)

pub IsQueue-cancel :
    (now : ℕ) (event : String) (ctx : Context) (rows : List Delivery)
    → IsQueue rows
    → IsQueue (cancel_held now event ctx rows)
unfolding cancel_held
IsQueue-cancel now event ctx rows h =
    let held = ids_of_held now ctx.incident_id rows in
    let k : IsQueue (without_ids held rows) =
      IsQueue-keep (λ r. not (any (λ i. i == r.id) held)) rows h in
    elim (Bool-cases (is_clearing event && not (is_empty ctx.incident_id))) [
      | inl clears ↦ rw clears k
      | inr other ↦ rw other h
    ]

pub IsQueue-enqueue :
    (now : ℕ) (event : String) (ctx : Context) (targets : List Webhook) (rows : List Delivery)
    → IsQueue rows
    → IsQueue (enqueue now event ctx targets rows)
unfolding enqueue new_delivery
IsQueue-enqueue now event ctx [] rows h = h
IsQueue-enqueue now event ctx (w ∷ targets) rows (a, o) =
    let row = new_delivery (next_id rows) now event ctx w in
    IsQueue-enqueue now event ctx targets (rows ++ row ∷ []) (
      Above-next_id 0 row rows (omega (arith, next_id_positive rows)) (omega arith) a,
      All-append (λ r. is_open r ≡ true) rows (row ∷ []) o (refl, tt),
    )

Above-drop_oldest :
    (b : ℕ) (w : String) (n : ℕ) (rows : List Delivery)
    → Above b rows
    → Above b (drop_oldest w n rows)
unfolding drop_oldest
Above-drop_oldest b w zero [] h = h
Above-drop_oldest b w (suc n) [] h = h
Above-drop_oldest b w zero (r ∷ rows) h = h
Above-drop_oldest b w (suc n) (r ∷ rows) h = elim (Bool-cases (str_eq r.webhook_id w)) [
  | inl own ↦
      rw own (Above-drop_oldest b w n rows (Above-weaken b r.id rows (omega (arith, h.0)) h.1))
  | inr other ↦ rw other (h.0, Above-drop_oldest r.id w (suc n) rows h.1)
]

AllOpen-drop_oldest :
    (w : String) (n : ℕ) (rows : List Delivery) → AllOpen rows → AllOpen (drop_oldest w n rows)
unfolding drop_oldest
AllOpen-drop_oldest w zero [] h = h
AllOpen-drop_oldest w (suc n) [] h = h
AllOpen-drop_oldest w zero (r ∷ rows) h = h
AllOpen-drop_oldest w (suc n) (r ∷ rows) h = elim (Bool-cases (str_eq r.webhook_id w)) [
  | inl own ↦ rw own (AllOpen-drop_oldest w n rows h.1)
  | inr other ↦ rw other (h.0, AllOpen-drop_oldest w (suc n) rows h.1)
]

IsQueue-drop_oldest :
    (w : String) (n : ℕ) (rows : List Delivery) → IsQueue rows → IsQueue (drop_oldest w n rows)
IsQueue-drop_oldest w n rows (a, o) =
    (Above-drop_oldest 0 w n rows a, AllOpen-drop_oldest w n rows o)

IsQueue-trim :
    (fuel overflow : ℕ) (rows : List Delivery) → IsQueue rows → IsQueue (trim fuel overflow rows)
unfolding trim
IsQueue-trim zero overflow rows h = h
IsQueue-trim (suc fuel) overflow rows h = elim (trim_pass fuel overflow rows) [
  | inl same ↦ subst IsQueue (sym same) h
  | inr (w, (k, inl last)) ↦ subst IsQueue (sym last) (IsQueue-drop_oldest w k rows h)
  | inr (w, (k, inr (o, more))) ↦
      subst IsQueue (sym more)
        (IsQueue-trim fuel o (drop_oldest w k rows) (IsQueue-drop_oldest w k rows h))
]

Above-kept_for :
    (now b : ℕ) (row : Delivery) (o : Option Answer) (rest : List Delivery)
    → b < row.id
    → Above row.id rest
    → Above b (kept_for now row o rest)
Above-kept_for now b row none rest h k = Above-weaken b row.id rest (omega (arith, h)) k
Above-kept_for now b row (some answer) rest h k = (h, k)

module _ (send : Send) (now : ℕ) (webhooks : List Webhook) where
  pub Above-settle :
      (b budget : ℕ) (rows : List Delivery)
      → Above b rows
      → Above b (settle send now webhooks budget rows)
  unfolding settle
  Above-settle b budget [] h = tt
  Above-settle b zero (row ∷ rows) h = h
  Above-settle b (suc budget) (row ∷ rows) h = elim (Bool-cases (is_ready now row)) [
    | inl due ↦ rw due (
        Above-kept_for now b row (retry_after send now webhooks row) _ h.0
          (Above-settle row.id budget rows h.1))
    | inr early ↦ rw early (h.0, Above-settle row.id (suc budget) rows h.1)
  ]

  -- A delivery is kept only where the limit is not reached.
  AllOpen-kept_for :
      (row : Delivery) (o : Option Answer) (rest : List Delivery)
      → retry_after send now webhooks row ≡ o
      → AllOpen rest
      → AllOpen (kept_for now row o rest)
  unfolding retry_after
  AllOpen-kept_for row none rest e h = h
  AllOpen-kept_for row (some answer) rest e h = (
    elim (Option-cases (find_webhook row.webhook_id webhooks)) [
      | inl missing ↦ ground (arith, e, missing)
      | inr (w, found) ↦ ground (arith, e, found)
    ],
    h,
  )

  pub AllOpen-settle :
      (budget : ℕ) (rows : List Delivery)
      → AllOpen rows
      → AllOpen (settle send now webhooks budget rows)
  unfolding settle
  AllOpen-settle budget [] h = tt
  AllOpen-settle zero (row ∷ rows) h = h
  AllOpen-settle (suc budget) (row ∷ rows) h = elim (Bool-cases (is_ready now row)) [
    | inl due ↦ rw due (
        AllOpen-kept_for row (retry_after send now webhooks row) _ refl
          (AllOpen-settle budget rows h.1))
    | inr early ↦ rw early (h.0, AllOpen-settle (suc budget) rows h.1)
  ]

  length-kept_for :
      (row : Delivery) (o : Option Answer) (rest : List Delivery)
      → length (kept_for now row o rest) ≤ suc (length rest)
  length-kept_for row none rest = omega arith
  length-kept_for row (some answer) rest = omega arith

  pub length-settle :
      (budget : ℕ) (rows : List Delivery)
      → length (settle send now webhooks budget rows) ≤ length rows
  unfolding settle
  length-settle budget [] = omega arith
  length-settle zero (row ∷ rows) = omega arith
  length-settle (suc budget) (row ∷ rows) = ground (
    arith,
    length-settle budget rows,
    length-settle (suc budget) rows,
    length-kept_for row (retry_after send now webhooks row) (settle send now webhooks budget rows),
  )

pub IsQueue-trim_queue : (rows : List Delivery) → IsQueue rows → IsQueue (trim_queue rows)
unfolding trim_queue
IsQueue-trim_queue rows h =
    IsQueue-trim (suc (length rows - queue_cap)) (length rows - queue_cap) rows h
