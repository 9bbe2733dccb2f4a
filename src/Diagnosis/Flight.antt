-- ===== src/Diagnosis/Flight.antt =====
-- At most one ladder runs at a time (`run_ladder_cached` of linkmoth_engine.py), under any interleaving of
-- calls.
use linkmoth.Prelude.{
  ℕ, ◌+◌, ◌≤◌, ◌≡◌, sym, ap, ◌∙◌, Bool, true, false, not, Option, none, some, List, [], ◌∷◌, ◌++◌,
  count, if◌then◌else◌, arith,
}
use linkmoth.Diagnosis.Cache.{
  LadderCache, Phase, arrives, waits, claims, runs, finishes, ends, returns, look, take_lock,
  store_ladder_cache, step_call,
}

-- A call between setting and clearing the flag of the run.
abbrev pub in_run : Phase → Bool
in_run (runs force) = true
in_run (finishes force r) = true
in_run _ = false

-- A call between making and releasing the claim.
abbrev pub in_claim : Phase → Bool
in_claim (claims force) = not force
in_claim (runs force) = not force
in_claim (finishes force r) = not force
in_claim (ends force r) = not force
in_claim _ = false

abbrev pub bit : Bool → ℕ
bit b = if b then 1 else 0

pub record System : Type 0 where
  pub shared : LadderCache
  pub calls : List Phase

-- The flags are set exactly while one call accounts for them.
pub record IsFlight (s : System) : Type 0 where
  pub one_run : count in_run s.calls ≡ bit s.shared.run_in_progress
  pub one_claim : count in_claim s.calls ≡ bit s.shared.inflight

count-append : (q : Phase → Bool) (l m : List Phase) → count q (l ++ m) ≡ count q l + count q m
count-append q [] m = omega arith
count-append q (x ∷ l) m = ground (arith, count-append q l m)

count-step :
    (q : Phase → Bool) (l m : List Phase) (x : Phase)
    → count q (l ++ x ∷ m) ≡ count q l + (bit (q x) + count q m)
count-step q l m x = ground (arith, count-append q l (x ∷ m))

-- A new call, or a step of one of the calls; others may step in between.
pub data Step (s : System) : System → Type 0 where
  calls : (force : Bool) → Step s (record s { calls = s.calls ++ arrives force ∷ [] })
  steps :
      (ttl now : ℕ) (outcome : Option ℕ) (before : List Phase) (p : Phase) (after : List Phase)
      → s.calls ≡ before ++ p ∷ after
      → Step s (record {
        shared = (step_call ttl now outcome s.shared p).0;
        calls = before ++ (step_call ttl now outcome s.shared p).1 ∷ after;
      })

pub data Run (s : System) : System → Type 0 where
  start : Run s s
  then_step : {t u : System} → Run s t → Step t u → Run s u

-- What a step does to the flags and to the part of the call that steps.
step_call_lem :
    (ttl now : ℕ) (outcome : Option ℕ) (s : LadderCache) (p : Phase)
    → bit (in_run p) ≤ bit s.run_in_progress
    → bit (in_claim p) ≤ bit s.inflight
    → (bit (in_run (step_call ttl now outcome s p).1) + bit s.run_in_progress
        ≡ bit (in_run p) + bit (step_call ttl now outcome s p).0.run_in_progress)
      × (bit (in_claim (step_call ttl now outcome s p).1) + bit s.inflight
          ≡ bit (in_claim p) + bit (step_call ttl now outcome s p).0.inflight)
unfolding step_call look take_lock store_ladder_cache
step_call_lem ttl now outcome s (arrives true) h k = ground arith
step_call_lem ttl now outcome s (arrives false) h k = ground arith
step_call_lem ttl now outcome s waits h k = ground arith
step_call_lem ttl now outcome s (claims force) h k = ground (arith, h, k)
step_call_lem ttl now none s (runs force) h k = ground (arith, h, k)
step_call_lem ttl now (some run) s (runs force) h k = ground (arith, h, k)
step_call_lem ttl now outcome s (finishes force r) h k = ground (arith, h, k)
step_call_lem ttl now outcome s (ends true r) h k = ground arith
step_call_lem ttl now outcome s (ends false r) h k = ground (arith, h, k)
step_call_lem ttl now outcome s (returns r) h k = ground arith

steps-IsFlight :
    (ttl now : ℕ) (outcome : Option ℕ) (s : System) (before : List Phase) (p : Phase)
    (after : List Phase)
    → s.calls ≡ before ++ p ∷ after
    → IsFlight s
    → IsFlight (record {
      shared = (step_call ttl now outcome s.shared p).0;
      calls = before ++ (step_call ttl now outcome s.shared p).1 ∷ after;
    })
steps-IsFlight ttl now outcome s before p after e h =
    let p' = (step_call ttl now outcome s.shared p).1 in
    let run : count in_run (before ++ p ∷ after) ≡ bit s.shared.run_in_progress =
      ap (count in_run) (sym e) ∙ h.one_run in
    let held : count in_claim (before ++ p ∷ after) ≡ bit s.shared.inflight =
      ap (count in_claim) (sym e) ∙ h.one_claim in
    let run' = count-step in_run before after p in
    let held' = count-step in_claim before after p in
    let (f, g) =
      step_call_lem ttl now outcome s.shared p (omega (arith, run, run'))
        (omega (arith, held, held')) in
    record {
      one_run = omega (arith, run, run', f, count-step in_run before after p');
      one_claim = omega (arith, held, held', g, count-step in_claim before after p');
    }

Step-IsFlight : {s t : System} → Step s t → IsFlight s → IsFlight t
Step-IsFlight {s} (calls force) h = record {
  one_run = ground (arith, h.one_run, count-append in_run s.calls (arrives force ∷ []));
  one_claim = ground (arith, h.one_claim, count-append in_claim s.calls (arrives force ∷ []));
}
Step-IsFlight {s} (steps ttl now outcome before p after e) h =
    steps-IsFlight ttl now outcome s before p after e h

-- Under any interleaving of forced and unforced calls, runs that raise included: as many ladders run as the
-- flag of the run says, so at most one, and as many claims are held as the flag of the claim says, so a
-- flag is never left behind.
pub Run-IsFlight : {s t : System} → IsFlight s → Run s t → IsFlight t
Run-IsFlight h start = h
Run-IsFlight h (then_step r st) = Step-IsFlight st (Run-IsFlight h r)
