-- ===== src/Incidents/Seconds.antt =====
-- `_outage_seconds` of linkmoth_core.py counts each second of outage once.
use linkmoth.Prelude.{
  ℕ, ◌+◌, ◌-◌, ◌≤◌, ◌<◌, ◌≡◌, refl, sym, ltb→lt, ltb→le, inl, inr, Bool-cases, ◌∙◌, ap, max, Bool,
  true, false, ◌&&◌, ◌||◌, Option, none, some, List, [], ◌∷◌, ltb, leb, any, arith, if◌then◌else◌,
}
use linkmoth.Incidents.Data.{Segment}
use linkmoth.Incidents.Segments.{
  Span, ended_or, to_end, clip, before, insert_span, sort_spans, merge_loop, merge, outage_seconds,
}
use linkmoth.Incidents.Measure.{
  measure, measure_ext, measure_disjoint, inside, measure-inside, measure_none,
}

abbrev pub covers : List Span → ℕ → Bool
covers l t = any (λ (s, e). inside s e t) l

abbrev StartsFrom : ℕ → List Span → Type 0
StartsFrom a [] = Unit
StartsFrom a ((s, e) ∷ rest) = (a ≤ s) × StartsFrom s rest

-- Every span is not empty and ends within the bound.
abbrev IsWithin : ℕ → List Span → Type 0
IsWithin n [] = Unit
IsWithin n ((s, e) ∷ rest) = (s < e) × (e ≤ n) × IsWithin n rest

covers_from : (a t : ℕ) (l : List Span) → StartsFrom a l → t < a → covers l t ≡ false
covers_from a t [] h lt = refl
covers_from a t ((s, e) ∷ rest) h lt = ground (arith, covers_from s t rest h.1)

covers_cons : (s e t : ℕ) (l : List Span) → covers ((s, e) ∷ l) t ≡ (inside s e t || covers l t)
covers_cons s e t l = refl

-- Past the end of the first span nothing that it covers is covered again.
apart :
    (a b s e t : ℕ) (rest : List Span)
    → b < s
    → StartsFrom s rest
    → inside a b t ≡ true
    → covers ((s, e) ∷ rest) t ≡ false
apart a b s e t rest gap from is = ground (arith, covers_from s t rest from)

join_pointwise :
    (a b s e t : ℕ) → a ≤ s → s ≤ b → s < e → inside a (max b e) t ≡ (inside a b t || inside s e t)
join_pointwise a b s e t h k l = ground arith

or_assoc : (x y z : Bool) → ((x || y) || z) ≡ (x || (y || z))
or_assoc true y z = refl
or_assoc false y z = refl

join_covers :
    (a b s e t : ℕ) (rest : List Span)
    → a ≤ s
    → s ≤ b
    → s < e
    → covers ((a, max b e) ∷ rest) t ≡ covers ((a, b) ∷ (s, e) ∷ rest) t
join_covers a b s e t rest h k l =
    ap (λ x. x || covers rest t) (join_pointwise a b s e t h k l)
    ∙ or_assoc (inside a b t) (inside s e t) (covers rest t)

or_false : (x : Bool) → (x || false) ≡ x
or_false true = refl
or_false false = refl

bounded : (n a b : ℕ) → b ≤ n → measure n (inside a b) ≡ b - a
bounded n a b k = ground (arith, measure-inside n a b)

-- An empty list adds nothing to a span's seconds.
single : (n a b : ℕ) → b ≤ n → measure n (covers ((a, b) ∷ [])) ≡ b - a
single n a b k =
    measure_ext n (covers ((a, b) ∷ [])) (inside a b) (λ t. or_false (inside a b t))
    ∙ bounded n a b k

StartsFrom-le : (a s : ℕ) (l : List Span) → a ≤ s → StartsFrom s l → StartsFrom a l
StartsFrom-le a s [] h from = tt
StartsFrom-le a s ((c, d) ∷ rest) h (le, from) = (omega arith, from)

gap-measure :
    (n total a b s e : ℕ) (rest : List Span)
    → b ≤ n
    → b < s
    → StartsFrom s rest
    → (total + (b - a)) + measure n (covers ((s, e) ∷ rest))
      ≡ total + measure n (covers ((a, b) ∷ (s, e) ∷ rest))
gap-measure n total a b s e rest k gap from = ground (
  arith,
  measure_disjoint n (inside a b) (covers ((s, e) ∷ rest))
      (λ t is. apart a b s e t rest gap from is),
  bounded n a b k,
)

merge_loop-measure :
    (n total a b : ℕ) (rest : List Span)
    → a < b
    → b ≤ n
    → StartsFrom a rest
    → IsWithin n rest
    → merge_loop total (a, b) rest ≡ total + measure n (covers ((a, b) ∷ rest))
unfolding merge_loop
merge_loop-measure n total a b [] h k from within = ap (λ x. total + x) (sym (single n a b k))
merge_loop-measure n total a b ((s, e) ∷ rest) h k (le, from) (l, m, within) =
    elim (Bool-cases (ltb b s)) [
      | inl gap ↦
          ap
            (λ c.
              if c
              then merge_loop (total + (b - a)) (s, e) rest
              else merge_loop total (a, max b e) rest)
            gap
          ∙ merge_loop-measure n (total + (b - a)) s e rest l m from within
          ∙ gap-measure n total a b s e rest k (ltb→lt b s gap) from
      | inr touches ↦
          ap
            (λ c.
              if c
              then merge_loop (total + (b - a)) (s, e) rest
              else merge_loop total (a, max b e) rest)
            touches
          ∙ merge_loop-measure n total a (max b e) rest (ground arith) (ground arith)
              (StartsFrom-le a s rest le from) within
          ∙ ap (λ x. total + x)
              (measure_ext n (covers ((a, max b e) ∷ rest)) (covers ((a, b) ∷ (s, e) ∷ rest))
                (λ t. join_covers a b s e t rest le (ltb→le b s touches) l))
    ]

-- Insertion sort: the list that it leaves starts in order, is within the bound and covers the same.
insert-StartsFrom :
    (a s e : ℕ) (l : List Span) → a ≤ s → StartsFrom a l → StartsFrom a (insert_span (s, e) l)
unfolding insert_span before
insert-StartsFrom a s e [] h from = (h, tt)
insert-StartsFrom a s e ((c, d) ∷ rest) h (le, from) =
    ground (arith, λ (k : c ≤ s). insert-StartsFrom c s e rest k from)

sort-StartsFrom : (l : List Span) → StartsFrom 0 (sort_spans l)
unfolding sort_spans
sort-StartsFrom [] = tt
sort-StartsFrom ((s, e) ∷ rest) =
    insert-StartsFrom 0 s e (sort_spans rest) (omega arith) (sort-StartsFrom rest)

insert-IsWithin :
    (n s e : ℕ) (l : List Span) → s < e → e ≤ n → IsWithin n l → IsWithin n (insert_span (s, e) l)
unfolding insert_span
insert-IsWithin n s e [] h k within = (h, k, tt)
insert-IsWithin n s e ((c, d) ∷ rest) h k (l, m, within) =
    ground (arith, insert-IsWithin n s e rest h k within)

sort-IsWithin : (n : ℕ) (l : List Span) → IsWithin n l → IsWithin n (sort_spans l)
unfolding sort_spans
sort-IsWithin n [] within = tt
sort-IsWithin n ((s, e) ∷ rest) (l, m, within) =
    insert-IsWithin n s e (sort_spans rest) l m (sort-IsWithin n rest within)

or_swap : (x y z : Bool) → (x || (y || z)) ≡ (y || (x || z))
or_swap true true z = refl
or_swap true false z = refl
or_swap false true z = refl
or_swap false false z = refl

insert-covers :
    (t s e : ℕ) (l : List Span) → covers (insert_span (s, e) l) t ≡ (inside s e t || covers l t)
unfolding insert_span
insert-covers t s e [] = refl
insert-covers t s e ((c, d) ∷ rest) =
    ground (arith, insert-covers t s e rest, or_swap (inside s e t) (inside c d t) (covers rest t))

sort-covers : (t : ℕ) (l : List Span) → covers (sort_spans l) t ≡ covers l t
unfolding sort_spans
sort-covers t [] = refl
sort-covers t ((s, e) ∷ rest) =
    insert-covers t s e (sort_spans rest) ∙ ap (λ x. inside s e t || x) (sort-covers t rest)

merge-measure :
    (n : ℕ) (l : List Span) → StartsFrom 0 l → IsWithin n l → merge l ≡ measure n (covers l)
unfolding merge
merge-measure n [] from within = sym (measure_none n (covers []) (λ t. refl))
merge-measure n ((s, e) ∷ rest) (le, from) (l, m, within) =
    merge_loop-measure n 0 s e rest l m from within ∙ omega arith

clip-IsWithin :
    (w : Option ℕ) (n now : ℕ) (segments : List Segment) → IsWithin n (clip w n now segments)
unfolding clip
clip-IsWithin w n now [] = tt
clip-IsWithin w n now (s ∷ rest) = ground (arith, clip-IsWithin w n now rest)

-- Whether an outage is observed at a second: some segment has begun, and is open or not yet over.
abbrev pub down_at : ℕ → List Segment → ℕ → Bool
down_at now segments t = any (λ (s : Segment). inside s.started (ended_or now s.ended) t) segments

abbrev pub after : Option ℕ → ℕ → Bool
after none t = true
after (some limit) t = leb limit t

clip-covers :
    (w : Option ℕ) (n now t : ℕ) (segments : List Segment)
    → covers (clip w n now segments) t ≡ ((after w t && ltb t n) && down_at now segments t)
unfolding clip
clip-covers w n now t [] = ground arith
clip-covers none n now t (s ∷ rest) = ground (arith, clip-covers none n now t rest)
clip-covers (some a) n now t (s ∷ rest) = ground (arith, clip-covers (some a) n now t rest)

-- The length of the reported outage is the number of seconds of the window in which some segment is down.
pub outage_seconds-measure :
    (segments : List Segment) (from until : Option ℕ) (now : ℕ)
    → outage_seconds segments from until now
      ≡ measure
          (to_end now until)
          (λ t. (after from t && ltb t (to_end now until)) && down_at now segments t)
unfolding outage_seconds
outage_seconds-measure segments from until now =
    let n = to_end now until in
    let spans = clip from n now segments in
    merge-measure n (sort_spans spans) (sort-StartsFrom spans)
      (sort-IsWithin n spans (clip-IsWithin from n now segments))
    ∙ measure_ext n (covers (sort_spans spans))
        (λ t. (after from t && ltb t n) && down_at now segments t)
        (λ t. sort-covers t spans ∙ clip-covers from n now t segments)
