-- ===== src/Thrift/Service/Expiring.antt =====
-- What the clean-up keeps: `cleanup_expired` of src/thrift.rs.
use harborsql.Base.{
  ℕ, ◌-◌, ◌<◌, ◌≡◌, refl, ap, ◌∙◌, sym, ◌↔◌, Bool, true, false, Option, none, some, Bytes, arith,
  Bool-cases, inl, inr,
}
use harborsql.Base.Dict.{Dict, get, kept, get-retain}
use harborsql.Thrift.State.{
  SessionState, OperationState, OperationExecution, running, refreshing, finished, failed, canceled,
  session_is_expired, execution_is_expired, is_expired,
}
use harborsql.Thrift.Service.{
  Config, Service, session_is_live, operation_is_live, expired_session, retain_operations,
  remove_expired, cleanup_expired, refresh_finished_operations, finished_ids,
}
use harborsql.Thrift.Service.Wf.{IsWf, IsWf-refresh_all}

kept_iff :
    {V : Type 0} (keep : Bytes → V → Bool) (j : Bytes) (o : Option V) (v : V)
    → (kept keep j o ≡ some v) ↔ ((o ≡ some v) × (keep j v ≡ true))
kept_iff keep j none v = (λ h. absurd cc, λ h. absurd (let e = h.0 in cc))
kept_iff keep j (some w) v = elim (Bool-cases (keep j w)) [
  | inl e ↦ rw e (λ h. (h, ap (keep j) (let same : v ≡ w = cc in same) ∙ e), λ h. h.0)
  | inr e ↦ rw e (
    λ h. absurd cc,
    λ h. absurd (
        let same : w ≡ v = (let g = h.0 in cc) in
        let f : false ≡ true = sym e ∙ ap (keep j) same ∙ h.1 in cc),
  )
]

-- What is kept, by what the test means.
kept_by :
    {V : Type 0} (keep : Bytes → V → Bool) (j : Bytes) (o : Option V) (v : V) (P : Type 0)
    {p : Option V}
    → p ≡ kept keep j o
    → (keep j v ≡ true) ↔ P
    → (p ≡ some v) ↔ ((o ≡ some v) × P)
kept_by keep j o v P same means =
    let all = kept_iff keep j o v in
    (λ e. let a = all.0 (sym same ∙ e) in (a.0, means.0 a.1), λ a. same ∙ all.1 (a.0, means.1 a.1))

module _ (c : Config) (now : ℕ) where
  -- The session was used within the time-out.
  abbrev pub IsUsed : SessionState → Type 0
  IsUsed s = now - s.last_access < c.idle_session_timeout

  -- The operation has not ended, or ended within its time to live.
  abbrev pub IsRecent : {R : Type 0} → OperationExecution R → Type 0
  IsRecent (running started task) = Unit
  IsRecent (refreshing started) = Unit
  IsRecent (finished r duration at) = now - at < c.completed_operation_ttl
  IsRecent (failed e duration at) = now - at < c.completed_operation_ttl
  IsRecent (canceled duration at) = now - at < c.completed_operation_ttl

  IsUsed-iff : (id : Bytes) (s : SessionState) → (session_is_live c now id s ≡ true) ↔ IsUsed s
  unfolding session_is_live session_is_expired
  IsUsed-iff id s = (λ h. ground (arith, h), λ h. ground (arith, h))

  IsRecent-iff :
      {R : Type 0} (s : OperationExecution R)
      → (execution_is_expired s now c.completed_operation_ttl ≡ false) ↔ IsRecent s
  unfolding execution_is_expired
  IsRecent-iff (running started task) = (λ h. tt, λ h. refl)
  IsRecent-iff (refreshing started) = (λ h. tt, λ h. refl)
  IsRecent-iff (finished r duration at) = (λ h. ground (arith, h), λ h. ground (arith, h))
  IsRecent-iff (failed e duration at) = (λ h. ground (arith, h), λ h. ground (arith, h))
  IsRecent-iff (canceled duration at) = (λ h. ground (arith, h), λ h. ground (arith, h))

  -- The session of an operation, if it is in the table, was used within the time-out.
  abbrev pub HasUsedSession : Dict SessionState → Bytes → Type 0
  HasUsedSession sessions id = (s : SessionState) → get id sessions ≡ some s → IsUsed s

  expired_at :
      (o : Option SessionState)
      → (elim o [
        | none ↦ false
        | some session ↦ session_is_expired session now c.idle_session_timeout
      ]
          ≡ false)
        ↔ ((s : SessionState) → o ≡ some s → IsUsed s)
  unfolding session_is_expired
  expired_at none = (λ _ s e. absurd cc, λ _. refl)
  expired_at (some session) = (
    λ h s e.
        ground (
          arith,
          h,
          ap (λ (x : SessionState). x.last_access) (let same : session ≡ s = cc in same),
        ),
    λ h. ground (arith, h session refl),
  )

  operation_is_live_iff :
      {R : Type 0} (sessions : Dict SessionState) (id : Bytes) (o : OperationState R)
      → (operation_is_live c now sessions id o ≡ true)
        ↔ (HasUsedSession sessions o.session_id × IsRecent o.state)
  unfolding operation_is_live expired_session is_expired
  operation_is_live_iff sessions id o =
      let used = expired_at (get o.session_id sessions) in
      let recent = IsRecent-iff o.state in
      (
        λ h. (used.0 (ground (arith, h)), recent.0 (ground (arith, h))),
        λ h. let a = used.1 h.0 in let b = recent.1 h.1 in ground (arith, a, b),
      )

module _ {R : Type 0} (c : Config) where
  cleanup_expired-kept :
      (refresh now : ℕ) (s : Service R)
      → IsWf c s
      → let r = refresh_finished_operations refresh s in
        let s' = cleanup_expired c refresh now s in
        ((j : Bytes) → get j s'.sessions ≡ kept (session_is_live c now) j (get j r.sessions))
        × ((j : Bytes)
            → get j s'.operations
              ≡ kept (operation_is_live c now r.sessions) j (get j r.operations))
  unfolding cleanup_expired remove_expired retain_operations refresh_finished_operations
  cleanup_expired-kept refresh now s h =
      let r = IsWf-refresh_all c (finished_ids s.operations) refresh s h in
      (λ j. get-retain _ j _ r.one_session, λ j. get-retain _ j _ r.one_operation)

  -- The clean-up of a service whose tables are well formed refreshes the operations whose tasks ended. Of what it
  -- then has, it keeps exactly the sessions that were used less than the time-out ago, and exactly the
  -- operations whose session, if there is one, was used less than the time-out ago, and which run or
  -- finished, failed or were canceled less than the time to live ago. What it keeps is unchanged.
  pub cleanup_expired_iff :
      (refresh now : ℕ) (s : Service R)
      → IsWf c s
      → let r = refresh_finished_operations refresh s in
        let s' = cleanup_expired c refresh now s in
        ((j : Bytes) (x : SessionState)
          → (get j s'.sessions ≡ some x) ↔ ((get j r.sessions ≡ some x) × IsUsed c now x))
        × ((j : Bytes) (o : OperationState R)
            → (get j s'.operations ≡ some o) ↔ (
                (get j r.operations ≡ some o)
                × (HasUsedSession c now r.sessions o.session_id × IsRecent c now o.state)))
  cleanup_expired_iff refresh now s h =
      let r = refresh_finished_operations refresh s in
      let k = cleanup_expired-kept refresh now s h in
      (
        λ j x.
            kept_by (session_is_live c now) j (get j r.sessions) x (IsUsed c now x) (k.0 j)
              (IsUsed-iff c now j x),
        λ j o.
            kept_by (operation_is_live c now r.sessions) j (get j r.operations) o
              (HasUsedSession c now r.sessions o.session_id × IsRecent c now o.state) (k.1 j)
              (operation_is_live_iff c now r.sessions j o),
      )
