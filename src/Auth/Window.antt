-- ===== src/Auth/Window.antt =====
-- How many wrong guesses the throttle of linkmoth_auth.py lets through while requests overlap.
use linkmoth.Prelude.{
  ℕ, suc, ◌+◌, ◌-◌, ◌≤◌, ◌<◌, ◌≡◌, ◌⊎◌, inl, inr, refl, String, true, false, Option, none, some,
  List, [], ◌∷◌, str_eq, eq_iff, if◌then◌else◌, arith,
}
use linkmoth.Auth.Data.{AuthConfig, max_attempts, lockout_seconds, Attempts}
use linkmoth.Auth.Throttle.{
  find_attempts, put_attempts, locks, login_allowed, failed_row, record_login_failure,
  clear_login_failures,
}

-- The throttle, seen from one address: its requests that were let through and are at work, and how many
-- wrong guesses of them were examined.
pub record Gate : Type 0 where
  pub rows : List Attempts
  pub at_work : ℕ
  pub examined : ℕ

find-put :
    (ip : String) (new : Attempts) (rows : List Attempts)
    → find_attempts ip (put_attempts new rows)
      ≡ (if str_eq new.ip ip then some new else find_attempts ip rows)
unfolding find_attempts put_attempts
find-put ip new [] = ground arith
find-put ip new (row ∷ rows) =
    ground (arith, find-put ip new rows, eq_iff row.ip new.ip, eq_iff row.ip ip, eq_iff new.ip ip)

find-clear :
    (ip other : String) (rows : List Attempts)
    → str_eq other ip ≡ false
    → find_attempts ip (clear_login_failures other rows) ≡ find_attempts ip rows
unfolding find_attempts clear_login_failures
find-clear ip other [] h = refl
find-clear ip other (row ∷ rows) h =
    ground
      (arith, h, find-clear ip other rows h, eq_iff row.ip other, eq_iff row.ip ip, eq_iff other ip)

-- What happens to an address within a span of the length of a lockout: `login_allowed` lets a request
-- through, at most `k` being at work; one ends with a wrong guess that is recorded; one ends without a
-- recorded guess and without clearing the count; another address fails or succeeds.
pub data GateStep (cfg : AuthConfig) (ip : String) (start k : ℕ) (g : Gate) : Gate → Type 0 where
  admits :
      (now : ℕ)
      → start ≤ now
      → now < start + lockout_seconds cfg
      → (login_allowed ip now g.rows).0 ≡ true
      → g.at_work < k
      → GateStep cfg ip start k g (record g { at_work = suc g.at_work })
  fails :
      (now : ℕ)
      → start ≤ now
      → now < start + lockout_seconds cfg
      → 1 ≤ g.at_work
      → GateStep cfg ip start k g (record {
        rows = record_login_failure cfg ip now g.rows;
        at_work = g.at_work - 1;
        examined = suc g.examined;
      })
  leaves : 1 ≤ g.at_work → GateStep cfg ip start k g (record g { at_work = g.at_work - 1 })
  other_fails :
      (other : String) (now : ℕ)
      → str_eq other ip ≡ false
      → GateStep cfg ip start k g (record g { rows = record_login_failure cfg other now g.rows })
  other_succeeds :
      (other : String)
      → str_eq other ip ≡ false
      → GateStep cfg ip start k g (record g { rows = clear_login_failures other g.rows })

pub data GateRun (cfg : AuthConfig) (ip : String) (start k : ℕ) (g : Gate) : Gate → Type 0 where
  begin : GateRun cfg ip start k g g
  and_then :
      {f h : Gate}
      → GateRun cfg ip start k g f
      → GateStep cfg ip start k f h
      → GateRun cfg ip start k g h

-- The address is not locked at a time, and its count is below the limit.
abbrev pub IsFree : AuthConfig → ℕ → Option Attempts → Type 0
IsFree cfg start none = Unit
IsFree cfg start (some row) = (row.failures < max_attempts cfg) × (row.locked_until ≤ start)

-- Not more were examined than failures are counted, or the address is locked to the end of the span and
-- what was examined and what is still at work stay below the limit and `k` together.
abbrev IsCounted : AuthConfig → ℕ → ℕ → ℕ → ℕ → Option Attempts → Type 0
IsCounted cfg start k p n none = (n ≡ 0) × (p ≤ k)
IsCounted cfg start k p n (some row) =
    (row.failures < max_attempts cfg)
    × (((n ≤ row.failures) × ((row.locked_until ≤ start) × (p ≤ k)))
        ⊎ ((start + lockout_seconds cfg ≤ row.locked_until) × (suc (n + p) ≤ max_attempts cfg + k)))

ip-failed_row :
    (cfg : AuthConfig) (ip : String) (now : ℕ) (row : Option Attempts)
    → (failed_row cfg ip now row).ip ≡ ip
unfolding failed_row
ip-failed_row cfg ip now row = refl

-- The row of one address after a failure of some address.
find-record_login_failure :
    (cfg : AuthConfig) (other : String) (now : ℕ) (rows : List Attempts) (ip : String)
    → find_attempts ip (record_login_failure cfg other now rows) ≡ (
        if str_eq other ip
        then (if locks (find_attempts ip rows) now
            then find_attempts ip rows
            else some (failed_row cfg ip now (find_attempts ip rows)))
        else find_attempts ip rows)
unfolding record_login_failure
find-record_login_failure cfg other now rows ip = ground (
  arith,
  find-put ip (failed_row cfg other now (find_attempts other rows)) rows,
  ip-failed_row cfg ip now (find_attempts ip rows),
  ip-failed_row cfg other now (find_attempts other rows),
  eq_iff other ip,
)

module _ (cfg : AuthConfig) (start k p n : ℕ) where
  IsCounted-failed :
      (now : ℕ) (ip : String) (row : Option Attempts)
      → start ≤ now
      → now < start + lockout_seconds cfg
      → 1 ≤ p
      → IsCounted cfg start k p n row
      → IsCounted cfg start k
          (p - 1)
          (suc n)
          (if locks row now then row else some (failed_row cfg ip now row))
  unfolding failed_row
  IsCounted-failed now ip none h h' w c = ground arith
  IsCounted-failed now ip (some row) h h' w (below, inl (few, (free, few_at_work))) = ground arith
  IsCounted-failed now ip (some row) h h' w (below, inr (locked, few)) = ground arith

  IsCounted-leaves :
      (row : Option Attempts)
      → 1 ≤ p
      → IsCounted cfg start k p n row
      → IsCounted cfg start k (p - 1) n row
  IsCounted-leaves none w c = ground arith
  IsCounted-leaves (some row) w (below, inl (few, (free, few_at_work))) = ground arith
  IsCounted-leaves (some row) w (below, inr (locked, few)) = ground arith

  IsCounted-admits :
      (now : ℕ) (row : Option Attempts)
      → now < start + lockout_seconds cfg
      → locks row now ≡ false
      → p < k
      → IsCounted cfg start k p n row
      → IsCounted cfg start k (suc p) n row
  IsCounted-admits now none h free w c = ground arith
  IsCounted-admits now (some row) h free w (below, inl (few, (over, few_at_work))) = ground arith
  IsCounted-admits now (some row) h free w (below, inr (locked, few)) = ground arith

  IsCounted-lt : (row : Option Attempts) → IsCounted cfg start k p n row → n < max_attempts cfg + k
  IsCounted-lt none c = omega (arith, c.0)
  IsCounted-lt (some row) (below, inl (few, rest)) = omega arith
  IsCounted-lt (some row) (below, inr (locked, few)) = omega arith

IsFree-IsCounted :
    (cfg : AuthConfig) (start k p : ℕ) (row : Option Attempts)
    → p ≤ k
    → IsFree cfg start row
    → IsCounted cfg start k p 0 row
IsFree-IsCounted cfg start k p none h free = (refl, h)
IsFree-IsCounted cfg start k p (some row) h free = (free.0, inl (omega arith, (free.1, h)))

module _ (cfg : AuthConfig) (ip : String) (start k : ℕ) where
  abbrev IsOk : Gate → Type 0
  IsOk g = IsCounted cfg start k g.at_work g.examined (find_attempts ip g.rows)

  GateStep-IsOk : {g h : Gate} → GateStep cfg ip start k g h → IsOk g → IsOk h
  unfolding login_allowed
  GateStep-IsOk {g} (admits now h h' allowed few) ok =
      IsCounted-admits cfg start k g.at_work g.examined now (find_attempts ip g.rows) h'
        (ground (arith, allowed)) few ok
  GateStep-IsOk {g} (fails now h h' some_work) ok =
      let own : find_attempts ip (record_login_failure cfg ip now g.rows) ≡ (
          if locks (find_attempts ip g.rows) now
          then find_attempts ip g.rows
          else some (failed_row cfg ip now (find_attempts ip g.rows))) =
        ground (arith, find-record_login_failure cfg ip now g.rows ip, eq_iff ip ip) in
      rw own (
        IsCounted-failed cfg start k g.at_work g.examined now ip (find_attempts ip g.rows) h h'
          some_work ok)
  GateStep-IsOk {g} (leaves some_work) ok =
      IsCounted-leaves cfg start k g.at_work g.examined (find_attempts ip g.rows) some_work ok
  GateStep-IsOk {g} (other_fails other now apart) ok =
      let same : find_attempts ip (record_login_failure cfg other now g.rows)
          ≡ find_attempts ip g.rows =
        ground (arith, find-record_login_failure cfg other now g.rows ip, apart) in
      rw same ok
  GateStep-IsOk {g} (other_succeeds other apart) ok = rw (find-clear ip other g.rows apart) ok

  GateRun-IsOk : {g h : Gate} → GateRun cfg ip start k g h → IsOk g → IsOk h
  GateRun-IsOk begin ok = ok
  GateRun-IsOk (and_then run step) ok = GateStep-IsOk step (GateRun-IsOk run ok)

-- In a span of the length of a lockout, at whose beginning an address is not locked and its stored count
-- is below the limit, in which it does not succeed, and in which its row is not purged (as a row is seven
-- days after its last attempt): fewer of its wrong guesses are examined than the configured attempts and
-- `k` together, where `k` bounds how many of its requests are at work at a time, those at the beginning
-- included. A guess that was let through before the lock is examined after it. With one request at a time
-- they are at most the configured attempts. Other addresses may fail and succeed in between.
pub examined-lt-max_attempts :
    {g h : Gate} (cfg : AuthConfig) (ip : String) (start k : ℕ)
    → GateRun cfg ip start k g h
    → g.examined ≡ 0
    → g.at_work ≤ k
    → IsFree cfg start (find_attempts ip g.rows)
    → h.examined < max_attempts cfg + k
examined-lt-max_attempts {g} {h} cfg ip start k run none_yet few free =
    let ok = IsFree-IsCounted cfg start k g.at_work (find_attempts ip g.rows) few free in
    IsCounted-lt cfg start k h.at_work h.examined (find_attempts ip h.rows)
      (GateRun-IsOk cfg ip start k run (rw none_yet ok))
