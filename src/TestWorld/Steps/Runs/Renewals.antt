-- ===== src/TestWorld/Steps/Runs/Renewals.antt =====
-- What a lease is good for after it was renewed.
use lil_tweak.Prelude.{
  ℕ, ◌+◌, ◌≡◌, ◌≢◌, sym, ◌∙◌, Bool, true, false, String, some, List, string_Eq, arith, ok, err, not,
  ◌&&◌, eq_iff,
}
use lil_tweak.Prelude.Table.{get, get-put_self}
use lil_tweak.Json.{Fields}
use lil_tweak.TestWorld.Model.{conflict, World, Attempt, Lease, Store, is_running}
use lil_tweak.TestWorld.Leases.{renew_attempt, release_attempt, same_holder, same_lease}
use lil_tweak.TestWorld.Checks.{has_complete_pass_proof}
use lil_tweak.TestWorld.Results.{
  Report, complete_attempt, complete_held, completed, finish, check_report, fail_attempt,
  check_failure, held_attempt,
}

-- What is held after a renewal.
renewed :
    (l l' : Lease) (lease_seconds now : ℕ) (s t : Store)
    → renew_attempt l lease_seconds now s ≡ (ok l', t)
    → (get l.attempt_id t.claims ≡ some l')
      × (same_holder l' l ≡ true)
      × (l'.expires_at ≡ now + lease_seconds)
      × (t.attempts ≡ s.attempts)
      × (t.worlds ≡ s.worlds)
unfolding renew_attempt same_holder
renewed l l' lease_seconds now s t h = ground (arith, h, get-put_self l.attempt_id l' s.claims)

moved_lease : (l l' : Lease) → l'.expires_at ≢ l.expires_at → same_lease l' l ≡ false
unfolding same_lease
moved_lease l l' ne = ground (arith, ne)

holder_held :
    (l l' : Lease) (t : Store) (a : Attempt)
    → get l.attempt_id t.claims ≡ some l'
    → get l.attempt_id t.attempts ≡ some a
    → same_holder l' l ≡ true
    → is_running a.status ≡ true
    → held_attempt same_holder l t ≡ some a
unfolding held_attempt
holder_held l l' t a held found same running = ground (arith, held, found, same, running)

lost_fail :
    (l l' : Lease) (t : Store) (feedback bounded : List Fields) (summary : String) (blocked : Bool)
    (duration_ms now : ℕ)
    → check_failure feedback summary duration_ms ≡ ok bounded
    → get l.attempt_id t.claims ≡ some l'
    → same_lease l' l ≡ false
    → fail_attempt l feedback summary blocked duration_ms now t
      ≡ (err (conflict "stale attempt lease"), t)
unfolding fail_attempt held_attempt
lost_fail l l' t feedback bounded summary blocked duration_ms now checked held other =
    ground (arith, checked, held, other)

lost_release :
    (l l' : Lease) (t : Store)
    → get l.attempt_id t.claims ≡ some l'
    → same_lease l' l ≡ false
    → release_attempt l t ≡ t
unfolding release_attempt
lost_release l l' t held other = ground (arith, held, other)

held_complete :
    (l : Lease) (t : Store) (a : Attempt) (world : World) (r : Report) (reported : List Fields)
    (now : ℕ)
    → check_report r ≡ ok reported
    → held_attempt same_holder l t ≡ some a
    → get a.world_id t.worlds ≡ some world
    → a.world_fingerprint ≡ world.fingerprint
    → a.judge_version ≡ world.judge_version
    → (r.passed && not (has_complete_pass_proof world reported)) ≡ false
    → (complete_attempt l r now t).0 ≡ ok (completed a r reported now)
unfolding complete_attempt complete_held finish
held_complete l t a world r reported now checked held found fingerprint version proved = ground (
  arith,
  checked,
  held,
  found,
  (eq_iff a.world_fingerprint world.fingerprint).1 fingerprint,
  (eq_iff a.judge_version world.judge_version).1 version,
  proved,
)

-- After a renewal that moved the expiry, the lease as it was before the renewal still completes the attempt that it holds: `complete_attempt` answers with the completed attempt, for a report that passes its checks, with a complete proof if it claims to pass, in a world of the attempt's fingerprint and judge version. But with the same lease `fail_attempt` ends in a conflict for arguments that pass its checks, and `fail_attempt` and `release_attempt` leave the state as it is.
pub renewed_lease_cannot_fail :
    (l l' : Lease) (lease_seconds later : ℕ) (s t : Store) (a : Attempt) (world : World)
    (r : Report) (reported : List Fields) (feedback bounded : List Fields) (summary : String)
    (blocked : Bool) (duration_ms now : ℕ)
    → renew_attempt l lease_seconds later s ≡ (ok l', t)
    → l.expires_at ≢ later + lease_seconds
    → get l.attempt_id s.attempts ≡ some a
    → is_running a.status ≡ true
    → get a.world_id s.worlds ≡ some world
    → a.world_fingerprint ≡ world.fingerprint
    → a.judge_version ≡ world.judge_version
    → check_report r ≡ ok reported
    → (r.passed && not (has_complete_pass_proof world reported)) ≡ false
    → check_failure feedback summary duration_ms ≡ ok bounded
    → ((complete_attempt l r now t).0 ≡ ok (completed a r reported now))
      × (fail_attempt l feedback summary blocked duration_ms now t
          ≡ (err (conflict "stale attempt lease"), t))
      × (release_attempt l t ≡ t)
renewed_lease_cannot_fail l l' lease_seconds later s t a world r reported feedback bounded summary
      blocked duration_ms now renew moved found running there fingerprint version valid proved
      checked =
    let (held, same, expiry, attempts, worlds) = renewed l l' lease_seconds later s t renew in
    let other = moved_lease l l' (λ e. moved (sym e ∙ expiry)) in
    (
      held_complete l t a world r reported now valid
          (holder_held l l' t a held (rw attempts found) same running) (rw worlds there) fingerprint
          version proved,
      lost_fail l l' t feedback bounded summary blocked duration_ms now checked held other,
      lost_release l l' t held other,
    )
