-- ===== src/Thrift/Service/Events/Lasting.antt =====
-- What an operation keeps from one event to the next, and the end of its life: src/thrift.rs.
use harborsql.Base.{
  ℕ, ◌≡◌, refl, sym, ◌∙◌, ap, Bool, true, false, Option, none, some, List, [], ◌∷◌, Bytes, bytes_eq,
  arith, Bool-cases, inl, inr, ◌⊎◌, if◌then◌else◌,
}
use harborsql.Base.Dict.{
  Dict, get, update, retain, remove, kept, map_some, get-update, get-retain, get-remove, Distinct,
}
use harborsql.Thrift.State.{
  OperationState, OperationExecution, running, refreshing, finished, failed, canceled, Joined, Task,
  is_active, with_state, taken, take_finished_task, has_finished_task, refreshed, finish_refresh,
  canceled_now, cancel, abort,
}
use harborsql.Thrift.Service.{Service, awaited, put_refreshed, refresh_operation, refresh_all}
use harborsql.Thrift.Service.Handlers.{finish_task, take_operation, abort_log}

true_is_not_false : true ≡ false → ⊥
true_is_not_false h = ground (arith, h)

module _ {R : Type 0} where
  -- The same operation at a later time: its secret, session and owner are what they were, and a
  -- finished, failed or canceled state stays.
  pub record Kept (o o' : OperationState R) : Type 0 where
    pub same_secret : o'.secret ≡ o.secret
    pub same_session : o'.session_id ≡ o.session_id
    pub same_owner : o'.token_fingerprint ≡ o.token_fingerprint
    pub done_stays : (is_active o.state ≡ true) ⊎ (o'.state ≡ o.state)

  -- The entry of an operation later on: it is the same operation, or it is gone for good.
  abbrev pub Later : Option (OperationState R) → Option (OperationState R) → Type 0
  Later o none = Unit
  Later none (some o') = ⊥
  Later (some o) (some o') = Kept o o'

  Kept-same : (o : OperationState R) → Kept o o
  Kept-same o = record {
    same_secret = refl;
    same_session = refl;
    same_owner = refl;
    done_stays = inr refl;
  }

  stays_trans :
      (o p q : OperationState R)
      → (is_active o.state ≡ true) ⊎ (p.state ≡ o.state)
      → (is_active p.state ≡ true) ⊎ (q.state ≡ p.state)
      → (is_active o.state ≡ true) ⊎ (q.state ≡ o.state)
  stays_trans o p q (inl a) h' = inl a
  stays_trans o p q (inr e) (inl a) = inl (ap is_active (sym e) ∙ a)
  stays_trans o p q (inr e) (inr e') = inr (e' ∙ e)

  pub Later-same : (o : Option (OperationState R)) → Later o o
  Later-same none = tt
  Later-same (some o) = Kept-same o

  pub Later-trans : (o p q : Option (OperationState R)) → Later o p → Later p q → Later o q
  Later-trans o p none h h' = tt
  Later-trans o none (some q) h h' = absurd h'
  Later-trans none (some p) (some q) h h' = h
  Later-trans (some o) (some p) (some q) h h' = record {
    same_secret = h'.same_secret ∙ h.same_secret;
    same_session = h'.same_session ∙ h.same_session;
    same_owner = h'.same_owner ∙ h.same_owner;
    done_stays = stays_trans o p q h.done_stays h'.done_stays;
  }

  pub Kept-state :
      (o : OperationState R) (e : OperationExecution R)
      → (is_active o.state ≡ false → e ≡ o.state)
      → Kept o (with_state o e)
  Kept-state o e h = elim (Bool-cases (is_active o.state)) [
    | inl a ↦ record {
      same_secret = refl;
      same_session = refl;
      same_owner = refl;
      done_stays = inl a;
    }
    | inr d ↦ record {
      same_secret = refl;
      same_session = refl;
      same_owner = refl;
      done_stays = inr (h d);
    }
  ]

  Later-map :
      (f : OperationState R → OperationState R)
      → ((o : OperationState R) → Kept o (f o))
      → (b : Bool) (o : Option (OperationState R)) → Later o (if b then map_some f o else o)
  Later-map f h true none = tt
  Later-map f h true (some o) = h o
  Later-map f h false o = Later-same o

  Later-kept :
      (keep : Bytes → OperationState R → Bool) (id : Bytes) (o : Option (OperationState R))
      → Later o (kept keep id o)
  Later-kept keep id none = tt
  Later-kept keep id (some o) = elim (Bool-cases (keep id o)) [
    | inl e ↦ rw e (Kept-same o)
    | inr e ↦ rw e tt
  ]

  pub Later-update :
      (k j : Bytes) (f : OperationState R → OperationState R) (m : Dict (OperationState R))
      → ((o : OperationState R) → Kept o (f o))
      → Later (get j m) (get j (update k f m))
  Later-update k j f m h = rw (get-update k j f m) (Later-map f h (bytes_eq k j) (get j m))

  pub Later-retain :
      (keep : Bytes → OperationState R → Bool) (j : Bytes) (m : Dict (OperationState R))
      → Distinct m
      → Later (get j m) (get j (retain keep m))
  Later-retain keep j m d = rw (get-retain keep j m d) (Later-kept keep j (get j m))

  Later-if : (b : Bool) (o : Option (OperationState R)) → Later o (if b then none else o)
  Later-if true o = tt
  Later-if false o = Later-same o

  Later-remove : (k j : Bytes) (m : Dict (OperationState R)) → Later (get j m) (get j (remove k m))
  Later-remove k j m = rw (get-remove k j m) (Later-if (bytes_eq k j) (get j m))

  Kept-active :
      (o : OperationState R) (e : OperationExecution R)
      → is_active o.state ≡ true
      → Kept o (with_state o e)
  Kept-active o e h = record {
    same_secret = refl;
    same_session = refl;
    same_owner = refl;
    done_stays = inl h;
  }

  Kept-taken :
      (o : OperationState R) (e : OperationExecution R) → o.state ≡ e → Kept o (taken o e).0
  unfolding taken is_active
  Kept-taken o (running started task) h = Kept-active o _ (ap is_active h)
  Kept-taken o (refreshing started) h = Kept-state o _ (λ _. sym h)
  Kept-taken o (finished r duration at) h = Kept-state o _ (λ _. sym h)
  Kept-taken o (failed r duration at) h = Kept-state o _ (λ _. sym h)
  Kept-taken o (canceled duration at) h = Kept-state o _ (λ _. sym h)

  Kept-take_finished_task : (o : OperationState R) → Kept o (take_finished_task o).0
  unfolding take_finished_task
  Kept-take_finished_task o = elim (Bool-cases (has_finished_task o)) [
    | inl e ↦ rw e (Kept-taken o o.state refl)
    | inr e ↦ rw e (Kept-same o)
  ]

  refreshed_done :
      (now started : ℕ) (joined : Joined R) (e : OperationExecution R)
      → is_active e ≡ false
      → refreshed now started joined e ≡ e
  unfolding refreshed is_active
  refreshed_done now started joined (running s task) d = refl
  refreshed_done now started joined (refreshing s) d = absurd (true_is_not_false d)
  refreshed_done now started joined (finished r duration at) d = refl
  refreshed_done now started joined (failed e duration at) d = refl
  refreshed_done now started joined (canceled duration at) d = refl

  Kept-awaited :
      (now started : ℕ) (task : Task R) (o : OperationState R) → Kept o (awaited now started task o)
  unfolding finish_refresh
  Kept-awaited now started none o = Kept-same o
  Kept-awaited now started (some joined) o =
      Kept-state o _ (refreshed_done now started joined o.state)

  canceled_done :
      (now : ℕ) (e : OperationExecution R) → is_active e ≡ false → canceled_now now e ≡ e
  unfolding canceled_now is_active
  canceled_done now (running s task) d = absurd (true_is_not_false d)
  canceled_done now (refreshing s) d = refl
  canceled_done now (finished r duration at) d = refl
  canceled_done now (failed e duration at) d = refl
  canceled_done now (canceled duration at) d = refl

  pub Kept-cancel : (now : ℕ) (o : OperationState R) → Kept o (cancel now o)
  unfolding cancel
  Kept-cancel now o = Kept-state o _ (canceled_done now o.state)

  pub finished_done :
      (joined : Joined R) (e : OperationExecution R)
      → is_active e ≡ false
      → finish_task joined e ≡ e
  unfolding finish_task is_active
  finished_done joined (running s none) d = absurd (true_is_not_false d)
  finished_done joined (running s (some j)) d = refl
  finished_done joined (refreshing s) d = refl
  finished_done joined (finished r duration at) d = refl
  finished_done joined (failed e duration at) d = refl
  finished_done joined (canceled duration at) d = refl

  -- The entries of `id` in two services.
  abbrev pub LaterOf : Bytes → Service R → Service R → Type 0
  LaterOf id s s' = Later (get id s.operations) (get id s'.operations)

  Later-put_refreshed :
      (id k : Bytes) (now : ℕ) (o : Option (ℕ × Task R)) (s : Service R)
      → LaterOf id s (put_refreshed k now o s)
  Later-put_refreshed id k now none s = Later-same (get id s.operations)
  Later-put_refreshed id k now (some (started, task)) s =
      Later-update k id (awaited now started task) s.operations (Kept-awaited now started task)

  pub Later-refresh_operation :
      (id k : Bytes) (now : ℕ) (s : Service R) → LaterOf id s (refresh_operation k now s)
  unfolding refresh_operation
  Later-refresh_operation id k now s =
      Later-trans _ _ _
        (Later-update k id (λ o. (take_finished_task o).0) s.operations Kept-take_finished_task)
        (Later-put_refreshed id k now _ _)

  pub Later-refresh_all :
      (id : Bytes) (ids : List Bytes) (now : ℕ) (s : Service R)
      → LaterOf id s (refresh_all ids now s)
  unfolding refresh_all
  Later-refresh_all id [] now s = Later-same (get id s.operations)
  Later-refresh_all id (k ∷ ids) now s =
      Later-trans _ _ _ (Later-refresh_operation id k now s)
        (Later-refresh_all id ids now (refresh_operation k now s))

  pub Later-abort_log :
      (id k : Bytes) (o : Option (OperationState R)) (s : Service R)
      → LaterOf id s (abort_log k o s)
  Later-abort_log id k none s = Later-same (get id s.operations)
  Later-abort_log id k (some o) s = elim (Bool-cases (abort o)) [
    | inl e ↦ rw e (Later-same (get id s.operations))
    | inr e ↦ rw e (Later-same (get id s.operations))
  ]

  pub Later-take_operation : (id k : Bytes) (s : Service R) → LaterOf id s (take_operation k s)
  unfolding take_operation
  Later-take_operation id k s =
      Later-trans _ _ _ (Later-remove k id s.operations) (Later-abort_log id k _ _)
