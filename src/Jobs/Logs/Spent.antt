-- ===== src/Jobs/Logs/Spent.antt =====
-- Approvals that were used, over any calls of `MemoryJobStore`.
use lil_tweak.Prelude.{
  ℕ, ◌≡◌, ◌≢◌, refl, ap, inl, inr, true, false, String, none, some, List, [], ◌∷◌, string_Eq,
  pair_Eq, ok, err, Bool-cases, ◌==◌, eq_iff,
}
use lil_tweak.Prelude.Table.{All, get, put, get-put, get-put_at, get-put_self}
use lil_tweak.Jobs.Model.{Job, Approval, JobStore, invalid_approval}
use lil_tweak.Jobs.Approvals.Exports.{
  Use, Export, used, consume_approval, consume_export_idempotent, export_identity,
}
use lil_tweak.Jobs.Approvals.Uses.{
  consume_approval-after, spent-consume, spent-export, export_needs_approval,
}
use lil_tweak.Jobs.Logs.{
  Digesters, JobCall, nonce, claim, renew, release, reconcile, create, update, cancel, cancel_once,
  decide, export, log, move, approve, use_approval, record_answer, job_after, job_run,
}
use lil_tweak.Jobs.Logs.Kept.{
  nonce-approvals, claim-approvals, renew-approvals, release-approvals, create-approvals,
  update-approvals, transition-approvals, request-approvals, cancel-approvals, log-approvals,
  record-approvals, reconcile-approvals, approve-approvals, use-approvals, export-approvals,
  decide-approvals,
}

-- The approval on record under a hash was used.
pub record IsSpent (hash : String) (s : JobStore) : Type 0 where
  pub approval : Approval
  pub found : get hash s.approvals ≡ some approval
  pub spent : approval.consumed ≡ true

-- A call that does not ask for an approval under this hash: neither `create_approval` nor a verdict
-- brings the hash. All other calls do not.
abbrev pub IsElsewhere : String → JobCall → Type 0
IsElsewhere hash (approve a now) = a.token_hash ≢ hash
IsElsewhere hash (decide id owner revision v now) = v.approval_token_hash ≢ some hash
IsElsewhere hash _ = Unit

same-IsSpent :
    (hash : String) (s t : JobStore) → t.approvals ≡ s.approvals → IsSpent hash s → IsSpent hash t
same-IsSpent hash s t e i = record { approval = i.approval; found = rw e i.found; spent = i.spent }

elsewhere-IsSpent :
    (hash k : String) (b : Approval) (s t : JobStore)
    → k ≢ hash
    → t.approvals ≡ put k b s.approvals
    → IsSpent hash s
    → IsSpent hash t
elsewhere-IsSpent hash k b s t other e i = elim (Bool-cases (k == hash)) [
  | inl at_hash ↦ absurd (other ((eq_iff k hash).0 at_hash))
  | inr q ↦ record {
    approval = i.approval;
    found = rw (e, get-put k hash b s.approvals, q) i.found;
    spent = i.spent;
  }
]

used-IsSpent :
    (hash k : String) (b : Approval) (now : ℕ) (s t : JobStore)
    → t.approvals ≡ put k (used b now) s.approvals
    → IsSpent hash s
    → IsSpent hash t
used-IsSpent hash k b now s t e i = elim (Bool-cases (k == hash)) [
  | inl at_hash ↦ record {
    approval = used b now;
    found = rw e (get-put_at k hash (used b now) s.approvals ((eq_iff k hash).0 at_hash));
    spent = refl;
  }
  | inr q ↦ record {
    approval = i.approval;
    found = rw (e, get-put k hash (used b now) s.approvals, q) i.found;
    spent = i.spent;
  }
]

-- A call that asks for no approval under the hash leaves what was used as it is, or used.
after-IsSpent :
    (d : Digesters) (hash : String) (c : JobCall) (s : JobStore)
    → IsElsewhere hash c
    → IsSpent hash s
    → IsSpent hash (job_after d c s)
unfolding job_after
after-IsSpent d hash (nonce key_id value now later) s f i =
    same-IsSpent hash s _ (nonce-approvals key_id value now later s) i
after-IsSpent d hash (claim id owner worker seconds now) s f i =
    same-IsSpent hash s _ (claim-approvals id owner worker seconds now s) i
after-IsSpent d hash (renew lease seconds now) s f i =
    same-IsSpent hash s _ (renew-approvals lease seconds now s) i
after-IsSpent d hash (release lease) s f i = same-IsSpent hash s _ (release-approvals lease s) i
after-IsSpent d hash (reconcile now limit) s f i =
    same-IsSpent hash s _ (reconcile-approvals now limit s) i
after-IsSpent d hash (create r id now) s f i =
    same-IsSpent hash s _ (create-approvals d.fingerprint r id now s) i
after-IsSpent d hash (update id owner revision c now) s f i =
    same-IsSpent hash s _ (update-approvals id owner revision c now s) i
after-IsSpent d hash (cancel id owner revision now) s f i =
    same-IsSpent hash s _ (request-approvals id owner revision now s) i
after-IsSpent d hash (cancel_once id owner revision key h now) s f i =
    same-IsSpent hash s _ (cancel-approvals id owner revision key h now s) i
after-IsSpent d hash (decide id owner revision v now) s f i =
    elim (decide-approvals id owner revision v now s) [
      | inl e ↦ same-IsSpent hash s _ e i
      | inr (b, brought, e) ↦
          elsewhere-IsSpent hash b.token_hash b s _
            (λ (p : b.token_hash ≡ hash). f (rw (← p) brought)) e i
    ]
after-IsSpent d hash (export u x now) s f i = elim (export-approvals d.sha256 u x now s) [
  | inl e ↦ same-IsSpent hash s _ e i
  | inr (b, e) ↦ used-IsSpent hash (d.sha256 x.approval_token) b now s _ e i
]
after-IsSpent d hash (log id owner kind data_fields now) s f i =
    same-IsSpent hash s _ (log-approvals id owner kind data_fields now s) i
after-IsSpent d hash (move id owner revision c kind data_fields now) s f i =
    same-IsSpent hash s _ (transition-approvals id owner revision c kind data_fields now s) i
after-IsSpent d hash (approve a now) s f i = elim (approve-approvals a now s) [
  | inl e ↦ same-IsSpent hash s _ e i
  | inr e ↦
      elsewhere-IsSpent hash a.token_hash (record a { consumed = false; consumed_at = none }) s _ f
        e i
]
after-IsSpent d hash (use_approval token u now) s f i =
    elim (use-approvals d.sha256 token u now s) [
      | inl e ↦ same-IsSpent hash s _ e i
      | inr (b, e) ↦ used-IsSpent hash (d.sha256 token) b now s _ e i
    ]
after-IsSpent d hash (record_answer owner key h id) s f i =
    same-IsSpent hash s _ (record-approvals owner key h id s) i

run-IsSpent :
    (d : Digesters) (hash : String) (calls : List JobCall) (s : JobStore)
    → All (IsElsewhere hash) calls
    → IsSpent hash s
    → IsSpent hash (job_run d calls s)
unfolding job_run
run-IsSpent d hash [] s f i = i
run-IsSpent d hash (c ∷ cs) s f i =
    run-IsSpent d hash cs (job_after d c s) f.1 (after-IsSpent d hash c s f.0 i)

-- Once `consume_approval` has used the approval of a token, it refuses the token after any further calls of the store, for any job, owner and revision and at any time, and leaves the state as it is, provided that no call in between brings the token's hash to `create_approval` or with a verdict (which would store a new approval under it).
pub approval_is_used_once :
    (d : Digesters) (token : String) (u u' : Use) (now now' : ℕ) (s t : JobStore) (a : Approval)
    (calls : List JobCall)
    → consume_approval d.sha256 token u now s ≡ (ok a, t)
    → All (IsElsewhere (d.sha256 token)) calls
    → consume_approval d.sha256 token u' now' (job_run d calls t)
      ≡ (err invalid_approval, job_run d calls t)
approval_is_used_once d token u u' now now' s t a calls h elsewhere =
    let (b, found, covered, made, only) = consume_approval-after d.sha256 token u now s t a h in
    let i = run-IsSpent d (d.sha256 token) calls t elsewhere (record {
      approval = a;
      found = rw only (get-put_self (d.sha256 token) a s.approvals);
      spent = ap (λ (z : Approval). z.consumed) made;
    }) in
    spent-consume d.sha256 token u' now' (job_run d calls t) i.approval i.found i.spent

-- After an export under a token, and after any further calls of the store, every export with the same token whose decision is not on record is refused, whatever job it names, and leaves the state as it is, provided that no call in between brings the token's hash to `create_approval` or with a verdict (which would store a new approval under it).
pub export_is_made_once :
    (d : Digesters) (u u' : Use) (x x' : Export) (now now' : ℕ) (s t : JobStore) (j : Job)
    (calls : List JobCall)
    → consume_export_idempotent d.sha256 u x now s ≡ (ok j, t)
    → get {K = String × String} (export_identity u x) s.decisions ≡ none
    → All (IsElsewhere (d.sha256 x.approval_token)) calls
    → x'.approval_token ≡ x.approval_token
    → get {K = String × String} (export_identity u' x') (job_run d calls t).decisions ≡ none
    → consume_export_idempotent d.sha256 u' x' now' (job_run d calls t)
      ≡ (err invalid_approval, job_run d calls t)
export_is_made_once d u u' x x' now now' s t j calls h fresh elsewhere same fresh' =
    let e = export_needs_approval d.sha256 u x now s t j h fresh in
    let i =
      run-IsSpent d (d.sha256 x.approval_token) calls t elsewhere
        (record { approval = used e.approval now; found = e.spends; spent = refl }) in
    spent-export d.sha256 u' x' now' (job_run d calls t) i.approval (rw same i.found) i.spent fresh'
