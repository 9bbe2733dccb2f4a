-- ===== src/Incidents/Told.antt =====
-- One more stored run keeps the written segments of an incident and those that its runs tell
-- together: the step of `_record_incident_observation` in linkmoth_core.py.
use linkmoth.Prelude.{
  ℕ, ◌≤◌, ◌≡◌, refl, sym, Bool-cases, ◌∙◌, ap, Bool, true, false, ◌&&◌, Option, none, some, List,
  [], ◌∷◌, ◌++◌, any, max, map, length, arith, ◌==◌, if◌then◌else◌, inl, inr,
}
use linkmoth.Incidents.Data.{RunRow, Segment}
use linkmoth.Incidents.Segments.{is_ok, derive_loop}
use linkmoth.Incidents.Store.{is_open, end_if_open}
use linkmoth.Incidents.Mirror.{
  is_nil, derive_loop-append, View, opened, with_open, see, IsTold, told_by,
}

pub map-closed : (at : ℕ) (l : List Segment) → any is_open l ≡ false → map (end_if_open at) l ≡ l
map-closed at [] h = refl
map-closed at (s ∷ l) h = ground (arith, map-closed at l)

pub map-opened :
    (at s : ℕ) (l : List Segment)
    → any is_open l ≡ false
    → map (end_if_open at) (l ++ opened (some s))
      ≡ l ++ record { started = s; ended = some at } ∷ []
map-opened at s [] h = refl
map-opened at s (x ∷ l) h = ground (arith, map-opened at s l)

any-closed :
    (s at : ℕ) (l : List Segment)
    → any is_open l ≡ false
    → any is_open (l ++ record { started = s; ended = some at } ∷ []) ≡ false
any-closed s at [] h = refl
any-closed s at (x ∷ l) h = ground (arith, any-closed s at l)

any-opened : (s : ℕ) (l : List Segment) → any is_open (l ++ opened (some s)) ≡ true
any-opened s [] = refl
any-opened s (x ∷ l) = ground (arith, any-opened s l)

pub append_nil {ℓ} : {A : Type ℓ} (l : List A) → (l ++ []) ≡ l
append_nil [] = refl
append_nil (x ∷ l) = ap (◌∷◌ x) (append_nil l)

module _ (started bound at : ℕ) (first : Bool) (l : List Segment) (k : bound ≤ at)
    (begun : started ≤ bound) (closed : any is_open l ≡ false) where
  told_idle :
      (r : RunRow)
      → r.ts ≡ at
      → is_ok r.severity ≡ true
      → derive_loop started first none l (r ∷ []) ≡ (none, l)
  unfolding derive_loop
  told_idle r e healthy = ground (arith, healthy)

  told_ended :
      (r : RunRow) (s : ℕ)
      → r.ts ≡ at
      → is_ok r.severity ≡ true
      → s ≤ bound
      → derive_loop started first (some s) l (r ∷ [])
        ≡ (none, l ++ record { started = s; ended = some at } ∷ [])
  unfolding derive_loop
  told_ended r s e healthy h =
      let same : max s (max started r.ts) ≡ at = ground arith in ground (arith, healthy, same)

  told_begun :
      (r : RunRow)
      → r.ts ≡ at
      → is_ok r.severity ≡ false
      → derive_loop started first none l (r ∷ []) ≡ (some (if first then started else at), l)
  unfolding derive_loop
  told_begun r e broken =
      let same : max started r.ts ≡ at = ground arith in ground (arith, broken, same)

  told_lasting :
      (r : RunRow) (s : ℕ)
      → is_ok r.severity ≡ false
      → derive_loop started first (some s) l (r ∷ []) ≡ (some s, l)
  unfolding derive_loop
  told_lasting r s broken = ground (arith, broken)

start_lem :
    (started at : ℕ) (runs : List RunRow) (l : List Segment)
    → told_by started runs ≡ (none, l)
    → (if (length l == 0) && (length runs == 0) then started else at)
      ≡ (if true && is_nil runs then started else at)
unfolding derive_loop
start_lem started at [] l told = let e : l ≡ [] = cc in rw e refl
start_lem started at (x ∷ xs) l told = ground arith

with_open-idle :
    (started at : ℕ) (v : View) (l : List Segment)
    → told_by started v.runs ≡ (none, l)
    → v.segments ≡ l
    → any is_open l ≡ false
    → with_open started at v ≡ l ++ opened (some (if true && is_nil v.runs then started else at))
unfolding with_open
with_open-idle started at v l told written closed =
    rw (written, closed, start_lem started at v.runs l told) refl

with_open-lasting :
    (started at s : ℕ) (v : View) (l : List Segment)
    → v.segments ≡ l ++ opened (some s)
    → with_open started at v ≡ l ++ opened (some s)
unfolding with_open
with_open-lasting started at s v l written = rw (written, any-opened s l) refl

module _ (started bound : ℕ) (r : RunRow) (v : View) (l : List Segment) where
  see_idle :
      told_by started v.runs ≡ (none, l)
      → IsTold bound (none, l) v.segments v.recovered_at
      → started ≤ bound
      → bound ≤ r.ts
      → IsTold r.ts
          (derive_loop started (true && is_nil v.runs) none l (r ∷ []))
          (see started r v).segments
          (see started r v).recovered_at
  unfolding see
  see_idle told h begun k = elim (Bool-cases (is_ok r.severity)) [
    | inl healthy ↦
        rw
          (
            healthy,
            told_idle started bound r.ts (true && is_nil v.runs) l k begun h.closed r refl healthy,
          )
          (record {
            written = rw (h.written, append_nil l) (map-closed r.ts l h.closed);
            closed = h.closed;
            bounded = λ s e. cc;
          })
    | inr broken ↦
        rw
          (
            broken,
            told_begun started bound r.ts (true && is_nil v.runs) l k begun h.closed r refl broken,
          )
          (record {
            written = with_open-idle started r.ts v l told (h.written ∙ append_nil l) h.closed;
            closed = h.closed;
            bounded = λ s e. (ground arith, refl);
          })
  ]

  see_busy :
      (s : ℕ)
      → IsTold bound (some s, l) v.segments v.recovered_at
      → started ≤ bound
      → bound ≤ r.ts
      → IsTold r.ts
          (derive_loop started (true && is_nil v.runs) (some s) l (r ∷ []))
          (see started r v).segments
          (see started r v).recovered_at
  unfolding see
  see_busy s h begun k = elim (Bool-cases (is_ok r.severity)) [
    | inl healthy ↦
        rw
          (
            healthy,
            told_ended started bound r.ts (true && is_nil v.runs) l k begun h.closed r s refl
                healthy (h.bounded s refl).0,
          )
          (record {
            written =
                rw h.written (map-opened r.ts s l h.closed)
                ∙ sym (append_nil (l ++ record { started = s; ended = some r.ts } ∷ []));
            closed = any-closed s r.ts l h.closed;
            bounded = λ s' e. cc;
          })
    | inr broken ↦
        rw
          (
            broken,
            told_lasting started bound r.ts (true && is_nil v.runs) l k begun h.closed r s broken,
          )
          (record {
            written = with_open-lasting started r.ts s v l h.written;
            closed = h.closed;
            bounded = λ s' e. (ground (arith, h.bounded s refl), refl);
          })
  ]

-- One more run keeps the two accounts together.
pub see-IsTold :
    (started bound : ℕ) (r : RunRow) (v : View)
    → started ≤ bound
    → bound ≤ r.ts
    → IsTold bound (told_by started v.runs) v.segments v.recovered_at
    → IsTold r.ts
        (told_by started (v.runs ++ r ∷ []))
        (see started r v).segments
        (see started r v).recovered_at
see-IsTold started bound r v begun k h =
    rw (derive_loop-append started true none [] v.runs r)
      (by_open (told_by started v.runs).0 (told_by started v.runs).1 refl h)
  where
    by_open :
        (o : Option ℕ) (l : List Segment)
        → told_by started v.runs ≡ (o, l)
        → IsTold bound (o, l) v.segments v.recovered_at
        → IsTold r.ts
            (derive_loop started (true && is_nil v.runs) o l (r ∷ []))
            (see started r v).segments
            (see started r v).recovered_at
    by_open none l told h' = see_idle started bound r v l told h' begun k
    by_open (some s) l told h' = see_busy started bound r v l s h' begun k
