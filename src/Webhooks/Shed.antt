-- ===== src/Webhooks/Shed.antt =====
-- Which deliveries a full queue sheds (`emit_event` of linkmoth_webhooks.py).
use linkmoth.Prelude.{
  ℕ, suc, zero, ◌+◌, ◌-◌, ◌≤◌, ◌≡◌, ◌≢◌, refl, ◌∙◌, ap, String, some, List, [], ◌∷◌, keep, drop,
  length, min, ◌==◌, str_eq, eq_iff, Bool-cases, Option-cases, inl, inr, arith, ◌<◌, All, subst,
}
use linkmoth.Webhooks.Data.{queue_cap, Delivery}
use linkmoth.Webhooks.Emit.{is_of, backlog, noisiest, drop_oldest, trim, trim_queue}
use linkmoth.Webhooks.Trim.{
  IsNoisiest, noisiest_of_lem, noisiest-IsBacklog, trim_pass, length-drop_oldest, length-trim,
  kept-drop_oldest,
}

-- The deliveries of one webhook, oldest first.
abbrev pub of : String → List Delivery → List Delivery
of v rows = keep (is_of v) rows

drop-drop : (m n : ℕ) (rows : List Delivery) → drop m (drop n rows) ≡ drop (n + m) rows
drop-drop m zero rows = let e : 0 + m ≡ m = omega arith in rw e refl
drop-drop zero (suc n) [] = let e : suc n + 0 ≡ suc n = omega arith in rw e refl
drop-drop (suc m) (suc n) [] = let e : suc n + suc m ≡ suc (n + suc m) = omega arith in rw e refl
drop-drop m (suc n) (r ∷ rows) =
    let e : suc n + m ≡ suc (n + m) = omega arith in rw e (drop-drop m n rows)

of-drop_oldest_own :
    (v : String) (n : ℕ) (rows : List Delivery) → of v (drop_oldest v n rows) ≡ drop n (of v rows)
unfolding drop_oldest
of-drop_oldest_own v zero [] = refl
of-drop_oldest_own v (suc n) [] = refl
of-drop_oldest_own v zero (r ∷ rows) = refl
of-drop_oldest_own v (suc n) (r ∷ rows) =
    ground (arith, of-drop_oldest_own v n rows, of-drop_oldest_own v (suc n) rows)

-- What is left of one webhook: all but its oldest deliveries.
abbrev pub IsNewest : List Delivery → List Delivery → Type 0
IsNewest rows left = (k : ℕ) × (left ≡ drop k rows)

IsNewest-drop_oldest :
    (v w : String) (n : ℕ) (rows : List Delivery)
    → IsNewest (of v rows) (of v (drop_oldest w n rows))
IsNewest-drop_oldest v w n rows = elim (Bool-cases (str_eq w v)) [
  | inr other ↦ (0, kept-drop_oldest v w n rows other)
  | inl same ↦
      (n, ap (λ x. of v (drop_oldest x n rows)) ((eq_iff w v).0 same) ∙ of-drop_oldest_own v n rows)
]

IsNewest-trans : (a b c : List Delivery) → IsNewest a b → IsNewest b c → IsNewest a c
IsNewest-trans a b c (n, e) (m, f) = (n + m, f ∙ ap (drop m) e ∙ drop-drop m n a)

IsNewest-trim :
    (v : String) (fuel overflow : ℕ) (rows : List Delivery)
    → IsNewest (of v rows) (of v (trim fuel overflow rows))
unfolding trim
IsNewest-trim v zero overflow rows = (0, refl)
IsNewest-trim v (suc fuel) overflow rows = elim (trim_pass fuel overflow rows) [
  | inl same ↦ (0, ap (of v) same)
  | inr (w, (k, inl last)) ↦
      let one = IsNewest-drop_oldest v w k rows in (one.0, ap (of v) last ∙ one.1)
  | inr (w, (k, inr (o, more))) ↦
      let left = drop_oldest w k rows in
      let all =
        IsNewest-trans (of v rows) (of v left) _ (IsNewest-drop_oldest v w k rows)
          (IsNewest-trim v fuel o left) in
      (all.0, ap (of v) more ∙ all.1)
]

-- A full queue is cut to its cap, and no further; each webhook loses only its oldest deliveries.
pub trim_queue_lem :
    (v : String) (rows : List Delivery)
    → (length (trim_queue rows) ≡ min queue_cap (length rows))
      × IsNewest (of v rows) (of v (trim_queue rows))
unfolding trim_queue
trim_queue_lem v rows =
    let overflow = length rows - queue_cap in
    (
      omega (arith, length-trim (suc overflow) overflow rows (omega arith) (omega arith)),
      IsNewest-trim v (suc overflow) overflow rows,
    )

trim_zero : (fuel : ℕ) (rows : List Delivery) → trim fuel 0 rows ≡ rows
unfolding trim
trim_zero zero rows = refl
trim_zero (suc fuel) rows = elim (Option-cases (noisiest rows)) [
  | inl empty ↦ ground (arith, empty)
  | inr ((w, n), found) ↦ ground (arith, found)
]

drop_none : (w : String) (rows : List Delivery) → drop_oldest w 0 rows ≡ rows
unfolding drop_oldest
drop_none w [] = refl
drop_none w (r ∷ rows) = refl

trim_once :
    (fuel overflow n : ℕ) (w : String) (rows : List Delivery)
    → noisiest rows ≡ some (w, n)
    → n ≡ backlog w rows
    → overflow ≤ n
    → trim (suc fuel) overflow rows ≡ drop_oldest w overflow rows
unfolding trim
trim_once fuel overflow n w rows found e enough =
    let left = drop_oldest w (min overflow n) rows in
    let shorter : length left + min overflow n ≡ length rows =
      length-drop_oldest w (min overflow n) rows (omega (arith, e)) in
    let all_of_it : min overflow n ≡ overflow = omega (arith, enough) in
    elim (Bool-cases (overflow == 0)) [
      | inl over ↦ ground (arith, found, over, drop_none w rows)
      | inr going ↦
          let none_over : overflow - (length rows - length left) ≡ 0 =
            omega (arith, shorter, all_of_it) in
          ground (arith, found, going, shorter, all_of_it, none_over, trim_zero fuel left)
    ]

-- What holds of the webhook of every row holds of each webhook with a row.
All-webhook_id :
    (P : String → Type 0) (w : String) (rows : List Delivery)
    → 1 ≤ backlog w rows
    → All (λ r. P r.webhook_id) rows
    → P w
All-webhook_id P w [] some_row h = absurd (omega (arith, some_row))
All-webhook_id P w (r ∷ rows) some_row h = elim (Bool-cases (is_of w r)) [
  | inl own ↦ subst P ((eq_iff r.webhook_id w).0 own) h.0
  | inr other ↦ All-webhook_id P w rows (ground (arith, other, some_row)) h.1
]

-- A webhook with more deliveries than any other is the one that a pass chooses.
noisiest-deepest :
    (w : String) (r : Delivery) (rows : List Delivery)
    → ((v : String) → v ≢ w → backlog v (r ∷ rows) < backlog w (r ∷ rows))
    → noisiest (r ∷ rows) ≡ some (w, backlog w (r ∷ rows))
noisiest-deepest w r rows deepest =
    let all = r ∷ rows in
    let (x, (n, (found, (e, least)))) = noisiest-IsBacklog r rows in
    let top = subst (IsNoisiest all all) found (noisiest_of_lem all all) in
    let some_row : 1 ≤ backlog w all = elim (Bool-cases (str_eq x w)) [
      | inl same ↦ ground (arith, e, least, (eq_iff x w).0 same)
      | inr other ↦ omega (arith, deepest x (λ q. ground (arith, q, eq_iff x w, other)))
    ] in
    let bound = All-webhook_id (λ v. backlog v all ≤ n) w all some_row top.1 in
    elim (Bool-cases (str_eq x w)) [
      | inl same ↦ ground (arith, found, e, (eq_iff x w).0 same)
      | inr other ↦
          absurd (omega (arith, bound, e, deepest x (λ q. ground (arith, q, eq_iff x w, other))))
    ]

-- When one webhook has more deliveries than any other, and enough to shed the whole overflow, it loses the
-- whole overflow, the oldest first, and all others keep every delivery.
pub trim_queue-deepest :
    (v w : String) (rows : List Delivery)
    → ((x : String) → x ≢ w → backlog x rows < backlog w rows)
    → length rows ≤ queue_cap + backlog w rows
    → v ≢ w
    → (of v (trim_queue rows) ≡ of v rows)
      × (of w (trim_queue rows) ≡ drop (length rows - queue_cap) (of w rows))
unfolding trim_queue
trim_queue-deepest v w [] deepest enough other =
    (ap (λ l. of v l) (trim_zero 1 []), ap (λ l. of w l) (trim_zero 1 []))
trim_queue-deepest v w (r ∷ rows) deepest enough other =
    let overflow = length (r ∷ rows) - queue_cap in
    let found = noisiest-deepest w r rows deepest in
    let once =
      trim_once overflow overflow (backlog w (r ∷ rows)) w (r ∷ rows) found refl
        (omega (arith, enough)) in
    (
      rw once (kept-drop_oldest v w overflow (r ∷ rows) (ground (arith, other, eq_iff w v))),
      rw once (of-drop_oldest_own w overflow (r ∷ rows)),
    )
