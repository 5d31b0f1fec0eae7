-- ===== src/Thrift/Service/Access.antt =====
-- Who may use a session or an operation: the checks of secret and token of src/thrift.rs.
use harborsql.Base.{
  ◌⊎◌, ℕ, ◌≡◌, refl, sym, ◌∙◌, Bool, true, false, ◌&&◌, Option, none, some, Bytes, bytes_eq,
  bytes_eq_iff, arith, Bool-cases, inl, inr, if◌then◌else◌,
}
use harborsql.Base.Dict.{get, get-update}
use harborsql.Thrift.Requests.{Handle}
use harborsql.Thrift.State.{SessionState, session_is_expired, OperationState}
use harborsql.Thrift.Service.{
  Config, Service, grants, session_for, session_found, session_grants, accessed, touch_session,
  operation_grants, cleanup_expired, refresh_operation,
}
use harborsql.Thrift.Service.Handlers.{
  Context, with_operation, operation_found, remove_operation, close_found, operation_valid,
  cancel_operation, cancel_found,
}

abbrev pub is_some : {A : Type 0} → Option A → Bool
is_some none = false
is_some (some x) = true

true_and : (a b : Bool) → (a && b) ≡ true → (a ≡ true) × (b ≡ true)
true_and true true h = (refl, refl)
true_and true false h = (refl, h)
true_and false b h = (h, ground (arith, h))

pub grants-true :
    (secret fp given given_fp : Bytes)
    → grants secret fp given given_fp ≡ true
    → (secret ≡ given) × (fp ≡ given_fp)
grants-true secret fp given given_fp h =
    let (h1, h2) = true_and (bytes_eq secret given) (bytes_eq fp given_fp) h in
    ((bytes_eq_iff secret given).0 h1, (bytes_eq_iff fp given_fp).0 h2)

-- A session that `session_for` gave at `now`: what was stored, and what is stored now.
pub record Granted {R : Type 0} (c : Config) (now : ℕ) (k : Handle) (fp : Bytes)
    (session : SessionState) (s s' : Service R) : Type 0 where
  pub old : SessionState
  pub stored : get k.id s.sessions ≡ some old
  pub live : session_is_expired old now c.idle_session_timeout ≡ false
  pub secret_fits : old.secret ≡ k.secret
  pub owner_fits : old.token_fingerprint ≡ fp
  pub is_session : session ≡ accessed now old
  pub stored_now : get k.id s'.sessions ≡ some session

pub some_inj : {A : Type 0} (x y : A) → some x ≡ some y → x ≡ y
some_inj x y h = cc

first_if :
    (b : Bool) {S : Type 0} (p q : S)
    → (if◌then◌else◌ {A = Bool × S} b (true, p) (false, q)).0 ≡ true
    → b ≡ true
first_if true p q h = refl
first_if false p q h = h

module _ {R : Type 0} (c : Config) where
  get-touch :
      (k : Bytes) (now : ℕ) (old : SessionState) (s : Service R)
      → get k s.sessions ≡ some old
      → get k (touch_session k now s).sessions ≡ some (accessed now old)
  unfolding touch_session
  get-touch k now old s h =
      rw (get-update k k (accessed now) s.sessions, (bytes_eq_iff k k).1 refl, h) refl

  found-Granted :
      (now : ℕ) (k : Handle) (fp : Bytes) (o : Option SessionState) (session : SessionState)
      (s : Service R)
      → get k.id s.sessions ≡ o
      → (session_found c now k fp o s).0 ≡ some session
      → Granted c now k fp session s (session_found c now k fp o s).1
  unfolding session_found session_grants
  found-Granted now k fp none session s e = λ h. absurd (ground (arith, h))
  found-Granted now k fp (some old) session s e =
      elim (Bool-cases (session_is_expired old now c.idle_session_timeout)) [
        | inl x ↦ rw x (λ h. absurd (ground (arith, h)))
        | inr x ↦ elim (Bool-cases (grants old.secret old.token_fingerprint k.secret fp)) [
          | inl y ↦
              let (a, b) = grants-true old.secret old.token_fingerprint k.secret fp y in
              rw (x, y)
                (λ h. record {
                  old = old;
                  stored = e;
                  live = x;
                  secret_fits = a;
                  owner_fits = b;
                  is_session = sym (some_inj _ _ h);
                  stored_now = get-touch k.id now old s e ∙ h;
                })
          | inr y ↦ rw (x, y) (λ h. absurd (ground (arith, h)))
        ]
      ]

  -- When `session_for` gives a session for a handle and a token, the table held an entry under the handle's
  -- id whose secret is the handle's, whose fingerprint is the token's and which had not expired; what it
  -- gives is that entry with the new access time, and that is what the table holds afterwards.
  pub session_for-Granted :
      (now : ℕ) (k : Handle) (fp : Bytes) (s : Service R) (session : SessionState)
      → (session_for c now (some k) fp s).0 ≡ some session
      → Granted c now k fp session s (session_for c now (some k) fp s).1
  unfolding session_for
  session_for-Granted now k fp s session h =
      found-Granted now k fp (get k.id s.sessions) session s refl h

module _ {R : Type 0} (c : Config) (x : Context) (fp : Bytes) where
  -- The entry of the handle's id, with the handle's secret and the token's fingerprint.
  pub record Owned (k : Handle) (s : Service R) : Type 0 where
    pub entry : OperationState R
    pub is_entry : get k.id s.operations ≡ some entry
    pub secret_fits : entry.secret ≡ k.secret
    pub owner_fits : entry.token_fingerprint ≡ fp

  Owned-valid :
      (k : Handle) (s : Service R) (o : Option (OperationState R))
      → get k.id s.operations ≡ o
      → operation_valid fp o k ≡ true
      → Owned k s
  unfolding operation_grants
  Owned-valid k s none e h = absurd (ground (arith, h))
  Owned-valid k s (some o) e h =
      let (a, b) = grants-true o.secret o.token_fingerprint k.secret fp h in
      record { entry = o; is_entry = e; secret_fits = a; owner_fits = b }

  Owned-found :
      {A : Type 0} (write : OperationState R → A) (k : Handle) (o : Option (OperationState R))
      (s : Service R)
      → get k.id s.operations ≡ o
      → is_some (operation_found c x fp write k o s).0 ≡ true
      → Owned k s
  unfolding operation_found
  Owned-found write k none s e = λ h. absurd (ground (arith, h))
  Owned-found write k (some o) s e = elim (Bool-cases (operation_grants o k fp)) [
    | inl y ↦ λ _. Owned-valid k s (some o) e y
    | inr y ↦ rw y (λ h. absurd (ground (arith, h)))
  ]

  cancel_operation-Owned :
      (k : Handle) (s : Service R)
      → (cancel_operation c x fp (some k) s).0 ≡ true
      → Owned k (cleanup_expired c x.refresh x.cleanup s)
  unfolding cancel_operation cancel_found
  cancel_operation-Owned k s h = Owned-valid k _ _ refl (first_if _ _ _ h)

  remove_operation-Owned :
      (k : Handle) (s : Service R)
      → (remove_operation c x fp (some k) s).0 ≡ true
      → Owned k (cleanup_expired c x.refresh x.cleanup s)
  unfolding remove_operation close_found
  remove_operation-Owned k s h = Owned-valid k _ _ refl (first_if _ _ _ h)

  -- When CancelOperation or CloseOperation is answered with success, the cleaned table has an entry under the
  -- handle's id with the handle's secret and the fingerprint of the request's token.
  pub ended-Owned :
      (k : Handle) (s : Service R)
      → ((cancel_operation c x fp (some k) s).0 ≡ true)
        ⊎ ((remove_operation c x fp (some k) s).0 ≡ true)
      → Owned k (cleanup_expired c x.refresh x.cleanup s)
  ended-Owned k s (inl h) = cancel_operation-Owned k s h
  ended-Owned k s (inr h) = remove_operation-Owned k s h

  -- When a request that reads an operation gets an answer from it, the table, cleaned and with this operation
  -- refreshed, has an entry under the handle's id with the handle's secret and the fingerprint of the
  -- request's token.
  pub with_operation-Owned :
      {A : Type 0} (write : OperationState R → A) (k : Handle) (s : Service R)
      → is_some (with_operation c x fp write (some k) s).0 ≡ true
      → Owned k (refresh_operation k.id x.refresh (cleanup_expired c x.refresh x.cleanup s))
  unfolding with_operation
  with_operation-Owned write k s h = Owned-found write k _ _ refl h
