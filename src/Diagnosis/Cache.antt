-- ===== src/Diagnosis/Cache.antt =====
-- `run_ladder_cached` of linkmoth_engine.py, one thread's step at a time: a step is one critical section.
use linkmoth.Prelude.{ℕ, ◌-◌, Bool, true, false, Option, none, some, leb, if◌then◌else◌}

-- A run that was stored: its time on the monotonic clock, and which run it is.
pub record Hit : Type 0 where
  pub mono_ts : ℕ
  pub run : ℕ

-- What the threads share.
pub record LadderCache : Type 0 where
  pub cache : Option Hit
  pub inflight : Bool
  pub run_in_progress : Bool

pub data LadderResult : Type 0 where
  cached : Hit → LadderResult
  computed : Hit → LadderResult
  no_result failed : LadderResult

-- Where a call stands; the Boolean is `force`. `claims` is before the lock, `finishes` before the flag of
-- the run is cleared, `ends` before the claim is released.
pub data Phase : Type 0 where
  arrives : Bool → Phase
  waits : Phase
  claims : Bool → Phase
  runs : Bool → Phase
  finishes : Bool → LadderResult → Phase
  ends : Bool → LadderResult → Phase
  returns : LadderResult → Phase

abbrev pub is_fresh : ℕ → ℕ → Hit → Bool
is_fresh ttl now hit = leb (now - hit.mono_ts) ttl

abbrev claim : LadderCache → LadderCache × Phase
claim s = if s.inflight then (s, waits) else (record s { inflight = true }, claims false)

-- A call without force, at its beginning and whenever it wakes up.
unfoldable pub look : ℕ → ℕ → LadderCache → LadderCache × Phase
look ttl now s = elim s.cache [
  | none ↦ claim s
  | some hit ↦ if is_fresh ttl now hit then (s, returns (cached hit)) else claim s
]

abbrev stale_result : Bool → Option Hit → LadderResult
stale_result true o = no_result
stale_result false none = no_result
stale_result false (some hit) = cached hit

-- Behind the lock: another run is in progress, or this one begins.
unfoldable pub take_lock : Bool → LadderCache → LadderCache × Phase
take_lock force s =
    if s.run_in_progress
    then (s, ends force (stale_result force s.cache))
    else (record s { run_in_progress = true }, runs force)

-- The ladder ran, or raised.
unfoldable pub store_ladder_cache : Bool → ℕ → Option ℕ → LadderCache → LadderCache × Phase
store_ladder_cache force now none s = (s, finishes force failed)
store_ladder_cache force now (some run) s =
    let hit : Hit = record { mono_ts = now; run = run } in
    (record s { cache = some hit }, finishes force (computed hit))

-- One step of a call; `outcome` is the run that the ladder gives, `none` where it raises.
unfoldable pub step_call : ℕ → ℕ → Option ℕ → LadderCache → Phase → LadderCache × Phase
step_call ttl now outcome s (arrives true) = (s, claims true)
step_call ttl now outcome s (arrives false) = look ttl now s
step_call ttl now outcome s waits = look ttl now s
step_call ttl now outcome s (claims force) = take_lock force s
step_call ttl now outcome s (runs force) = store_ladder_cache force now outcome s
step_call ttl now outcome s (finishes force r) =
    (record s { run_in_progress = false }, ends force r)
step_call ttl now outcome s (ends true r) = (s, returns r)
step_call ttl now outcome s (ends false r) = (record s { inflight = false }, returns r)
step_call ttl now outcome s (returns r) = (s, returns r)
