-- ===== src/Notify/Dedupe.antt =====
-- A recovery of linkmoth_notify.py is announced once within 45 seconds.
use linkmoth.Prelude.{
  ℕ, ◌+◌, ◌-◌, ◌<◌, ◌≡◌, refl, ◌∙◌, ap, Bool, true, false, not, Option, some, List, [], ◌∷◌, keep,
  leb, Bool-cases, inl, inr, if◌then◌else◌, arith,
}
use linkmoth.Notify.Recovery.{
  Key, incident_key, global_key, key_eq, dedupe_key, Sent, sent_at, recently_sent, put_sent,
  mark_recovery_sent, Notifier, Call, notify_recovery, recovery_dedupe_seconds,
}

key_eq_refl : (k : Key) → key_eq k k ≡ true
key_eq_refl (incident_key i) = ground arith
key_eq_refl global_key = refl

key_eq→eq : (a b : Key) → key_eq a b ≡ true → a ≡ b
key_eq→eq (incident_key i) (incident_key j) h = ap incident_key (ground (arith, h))
key_eq→eq (incident_key i) global_key h = ground (arith, h)
key_eq→eq global_key (incident_key j) h = ground (arith, h)
key_eq→eq global_key global_key h = refl

-- The time of one key after a notice of another or of the same.
sent_at-put_sent :
    (k key : Key) (now : ℕ) (sent : Sent)
    → sent_at k (put_sent key now sent) ≡ (if key_eq key k then some now else sent_at k sent)
unfolding sent_at put_sent
sent_at-put_sent k key now [] = ground arith
sent_at-put_sent k key now ((x, ts) ∷ sent) = elim (Bool-cases (key_eq x key)) [
  | inl same ↦ ground (arith, same, ap (λ y. key_eq y k) (key_eq→eq x key same))
  | inr other ↦ elim (Bool-cases (key_eq key k)) [
    | inl own ↦ ground (
      arith,
      other,
      own,
      ap (λ y. key_eq x y) (key_eq→eq key k own),
      sent_at-put_sent k key now sent,
    )
    | inr apart ↦ ground (arith, other, apart, sent_at-put_sent k key now sent)
  ]
]

-- A time that is not stale survives the sweep.
sent_at-keep :
    (k : Key) (t now : ℕ) (sent : Sent)
    → now < t + recovery_dedupe_seconds
    → sent_at k sent ≡ some t
    → sent_at k (keep (λ (x, ts). not (leb recovery_dedupe_seconds (now - ts))) sent) ≡ some t
unfolding sent_at
sent_at-keep k t now [] h e = e
sent_at-keep k t now ((x, ts) ∷ sent) h e = elim (Bool-cases (key_eq x k)) [
  | inl own ↦ ground (arith, own, e, h)
  | inr other ↦ ground (arith, other, e, sent_at-keep k t now sent h (ground (arith, other, e)))
]

sent_at-mark :
    (k key : Key) (t now : ℕ) (sent : Sent)
    → now < t + recovery_dedupe_seconds
    → (if key_eq key k then some now else sent_at k sent) ≡ some t
    → sent_at k (mark_recovery_sent now key sent) ≡ some t
unfolding mark_recovery_sent
sent_at-mark k key t now sent h e =
    sent_at-keep k t now (put_sent key now sent) h (sent_at-put_sent k key now sent ∙ e)

-- A recovery, with what the channels made of it.
pub record Attempt : Type 0 where
  pub call : Call
  pub incident : Option ℕ
  pub has_digest : Bool
  pub discord : Bool

unfoldable pub send_notice : Attempt → Notifier → Notifier × Bool
send_notice a n = notify_recovery a.call a.incident a.has_digest a.discord n

unfoldable pub send_notices : List Attempt → Notifier → Notifier
send_notices [] n = n
send_notices (a ∷ rest) n = send_notices rest (send_notice a n).0

-- Every attempt comes before a time.
abbrev pub Before : ℕ → List Attempt → Type 0
Before t [] = Unit
Before t (a ∷ rest) = (a.call.mono < t) × Before t rest

-- A notice that was sent is remembered.
sent_at-send_notice :
    (a : Attempt) (n : Notifier)
    → (send_notice a n).1 ≡ true
    → sent_at (dedupe_key a.incident) (send_notice a n).0.sent ≡ some a.call.mono
unfolding send_notice notify_recovery
sent_at-send_notice a n h =
    let key = dedupe_key a.incident in
    let kept =
      sent_at-mark key key a.call.mono a.call.mono n.sent (omega arith)
        (ground (arith, key_eq_refl key)) in
    ground (arith, h, kept)

-- It stays remembered for its time.
sent_at-later :
    (k : Key) (t : ℕ) (a : Attempt) (n : Notifier)
    → a.call.mono < t + recovery_dedupe_seconds
    → sent_at k n.sent ≡ some t
    → sent_at k (send_notice a n).0.sent ≡ some t
unfolding send_notice notify_recovery recently_sent
sent_at-later k t a n h e = elim (Bool-cases (key_eq (dedupe_key a.incident) k)) [
  | inl own ↦
      let mine : sent_at (dedupe_key a.incident) n.sent ≡ some t =
        ap (λ x. sent_at x n.sent) (key_eq→eq (dedupe_key a.incident) k own) ∙ e in
      ground (arith, mine, e, h)
  | inr other ↦
      let kept =
        sent_at-mark k (dedupe_key a.incident) t a.call.mono n.sent h (ground (arith, other, e)) in
      ground (arith, e, kept)
]

sent_at-all :
    (k : Key) (t : ℕ) (between : List Attempt) (n : Notifier)
    → Before (t + recovery_dedupe_seconds) between
    → sent_at k n.sent ≡ some t
    → sent_at k (send_notices between n).sent ≡ some t
unfolding send_notices
sent_at-all k t [] n h e = e
sent_at-all k t (a ∷ between) n h e =
    sent_at-all k t between (send_notice a n).0 h.1 (sent_at-later k t a n h.0 e)

-- After a recovery notice that was sent, deferred or counted as sent: for 45 seconds, whatever notices of
-- this and other incidents come in between, another notice for the same incident, or another one for none,
-- is not sent and changes nothing.
pub send_notice-once :
    (first again : Attempt) (between : List Attempt) (n : Notifier)
    → (send_notice first n).1 ≡ true
    → dedupe_key again.incident ≡ dedupe_key first.incident
    → Before (first.call.mono + recovery_dedupe_seconds) between
    → again.call.mono < first.call.mono + recovery_dedupe_seconds
    → send_notice again (send_notices between (send_notice first n).0)
      ≡ (send_notices between (send_notice first n).0, false)
unfolding send_notice notify_recovery recently_sent
send_notice-once first again between n sent same before soon =
    let b = send_notices between (send_notice first n).0 in
    let held =
      sent_at-all (dedupe_key first.incident) first.call.mono between (send_notice first n).0 before
        (sent_at-send_notice first n sent) in
    let mine : sent_at (dedupe_key again.incident) b.sent ≡ some first.call.mono =
      ap (λ k. sent_at k b.sent) same ∙ held in
    ground (arith, mine, soon)
