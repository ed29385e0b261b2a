-- ===== src/Runtime/Stored.antt =====
-- That what `_execute` of src/agent_runtime/runtime.py returns is stored, over stores that keep a few
-- laws.
use agent_runtime_kit.Errors.{Result, ok, Error}
use agent_runtime_kit.Canonical.{Message, RuntimeResponse}
use agent_runtime_kit.Database.{Db, RunRow, RunStatus, is_active}
use agent_runtime_kit.Runtime.Action.{
  Local, lift, ◌>>=◌, RuntimeEvent, call, pure, raise, set_run, Action,
}
use agent_runtime_kit.Runtime.Protocol.{Runtime, Stores}
use agent_runtime_kit.Runtime.Execute.{
  answer_from, replay, emit_event, started_event, recover_if, require_scoped_thread,
}
use agent_runtime_kit.Runtime.Durable.{>>=-ok, pure-ok, call-ok}
use agent_runtime_kit.Runs.Rows.{RunClaim, RunRecord, model}
use agent_runtime_kit.Runs.Claim.{ClaimRequest}
use agent_runtime_kit.Base.{
  Bool, List, Option, String, ap, inl, inr, some, sym, ℕ, ◌++◌, ◌∙◌, ◌∷◌, ◌≡◌, Bool-cases, arith,
  false, none, subst, true,
}
use agent_runtime_kit.Canonical.Equality.{same_text?}

-- A record of a row that stands in the table.
pub record IsRowOf (rec : RunRecord) (db : Db) : Type 0 where
  pub before : List RunRow
  pub row : RunRow
  pub after : List RunRow
  pub stands : db.runs ≡ before ++ row ∷ after
  pub read : rec ≡ model row

-- A response that a succeeded run in the table has.
pub record IsStored (r : RuntimeResponse) (db : Db) : Type 0 where
  pub before : List RunRow
  pub row : RunRow
  pub after : List RunRow
  pub stands : db.runs ≡ before ++ row ∷ after
  pub succeeded : row.status ≡ RunStatus.succeeded
  pub responded : row.response ≡ some r

-- What the runtime relies on of its stores, whose tables are the view of their state.
pub record StoreLaws {S : Type 0} (stores : Stores S) (view : S → Db) : Type 0 where
  pub keyed :
      (agent_id key : String) (s s' : S) (rec : RunRecord)
      → stores.get_by_idempotency agent_id key s ≡ (ok (some rec), s')
      → IsRowOf rec (view s')
  pub claimed :
      (c : ClaimRequest) (s s' : S) (claim : RunClaim)
      → stores.claim c s ≡ (ok claim, s')
      → IsRowOf claim.run (view s')
  pub completed :
      (run_id token : ℕ) (messages : List Message) (r : RuntimeResponse) (s s' : S)
      (rec : RunRecord)
      → stores.complete run_id token messages r s ≡ (ok rec, s')
      → IsStored r (view s')
  pub recovered :
      (run_id : ℕ) (s s' : S) (rec : RunRecord)
      → stores.recover run_id s ≡ (ok rec, s')
      → IsRowOf rec (view s')
  pub scoped :
      (thread_id : ℕ) (namespace : String) (s s' : S) (found : Option ℕ) (r : RuntimeResponse)
      → stores.get_thread thread_id namespace s ≡ (ok found, s')
      → IsStored r (view s)
      → IsStored r (view s')

replay_stored :
    (rec : RunRecord) (hash : String) (r : RuntimeResponse)
    → replay rec hash ≡ ok r
    → (rec.status ≡ RunStatus.succeeded) × (rec.response ≡ some r)
unfolding replay
replay_stored rec hash r h = elim (Bool-cases (same_text? rec.request_hash (some hash))) [
  | inr e ↦ absurd (ground arith)
  | inl e ↦ elim (Bool-cases (is_active rec.status)) [
    | inl a ↦ absurd (ground arith)
    | inr a ↦ (ground arith, ground arith)
  ]
]

pub IsRowOf-IsStored :
    (rec : RunRecord) (hash : String) (r : RuntimeResponse) (db : Db)
    → IsRowOf rec db
    → replay rec hash ≡ ok r
    → IsStored r db
IsRowOf-IsStored rec hash r db row h =
    let (status, response) = replay_stored rec hash r h in
    record {
      before = row.before;
      row = row.row;
      after = row.after;
      stands = row.stands;
      succeeded = sym (ap (λ (x : RunRecord). x.status) row.read) ∙ status;
      responded = sym (ap (λ (x : RunRecord). x.response) row.read) ∙ response;
    }

module _ {S : Type 0} (runtime : Runtime S) (streaming : Bool) (view : S → Db)
    (laws : StoreLaws runtime.stores view) where
  pub lift-ok :
      {A : Type 0} (q : Result A) (a : A) (l l' : Local S)
      → lift q l ≡ (ok a, l')
      → (q ≡ ok a) × (l' ≡ l)
  unfolding ◌>>=◌
  lift-ok q a l l' h = (ap (λ p. p.0) h, sym (ap (λ p. p.1) h))

  emit_event-store :
      (e : RuntimeEvent) (l l' : Local S)
      → emit_event runtime streaming e l ≡ (ok tt, l')
      → l'.store ≡ l.store
  emit_event-store e l l' h = ground arith

  pub answer_from-stored :
      (run : RunRecord) (hash : String) (r : RuntimeResponse) (l l' : Local S)
      → answer_from runtime streaming run hash l ≡ (ok r, l')
      → (replay run hash ≡ ok r) × (l'.store ≡ l.store)
  unfolding answer_from
  answer_from-stored run hash r l l' h =
      let (x, l1, h1, k1) = >>=-ok (lift (replay run hash)) _ l l' r h in
      let (q, e1) = lift-ok (replay run hash) x l l1 h1 in
      let (_, l2, h2, k2) = >>=-ok (emit_event runtime streaming (started_event x)) _ l1 l' r k1 in
      let (z, e2) = pure-ok x r l2 l' k2 in
      (
        q ∙ ap ok (sym z),
        ap (λ (l : Local S). l.store) e2
            ∙ emit_event-store (started_event x) l1 l2 h2
            ∙ ap (λ (l : Local S). l.store) e1,
      )

  scoped_cases :
      {r : RuntimeResponse} (found : Option ℕ) (l l' : Local S)
      → (elim found as (λ _. Action S (Unit {0})) [
        | none ↦ raise Error.thread_not_found
        | some _ ↦ pure tt
      ])
          l
        ≡ (ok tt, l')
      → IsStored r (view l.store)
      → IsStored r (view l'.store)
  unfolding ◌>>=◌
  scoped_cases none l l' h s = absurd (ground arith)
  scoped_cases {r} (some k) l l' h s =
      subst (λ (l : Local S). IsStored r (view l.store)) (ap (λ p. p.1) h) s

  pub set_run-store :
      (k : Option ℕ) (l l' : Local S) → set_run k l ≡ (ok tt, l') → l'.store ≡ l.store
  unfolding ◌>>=◌
  set_run-store k l l' h = ground arith

  pub recovered_or_kept :
      (active : Bool) (previous run : RunRecord) (hash : String) (r : RuntimeResponse)
      (l l1 l2 : Local S)
      → IsRowOf previous (view l.store)
      → replay run hash ≡ ok r
      → (IsStored r (view l.store) → IsStored r (view l1.store))
      → recover_if runtime streaming active previous l1 ≡ (ok run, l2)
      → IsStored r (view l2.store)
  recovered_or_kept true previous run hash r l l1 l2 row q keeps h =
      IsRowOf-IsStored run hash r (view l2.store)
        (laws.recovered previous.id l1.store l2.store run (call-ok _ run l1 l2 h)) q
  recovered_or_kept false previous run hash r l l1 l2 row q keeps h =
      let (z, e) = pure-ok previous run l1 l2 h in
      let q' = subst (λ (x : RunRecord). replay x hash ≡ ok r) z q in
      subst (λ (l : Local S). IsStored r (view l.store)) (sym e)
        (keeps (IsRowOf-IsStored previous hash r (view l.store) row q'))

  pub require_scoped_thread-keeps :
      (thread_id : ℕ) (r : RuntimeResponse) (l l' : Local S)
      → require_scoped_thread runtime streaming thread_id l ≡ (ok tt, l')
      → IsStored r (view l.store)
      → IsStored r (view l'.store)
  unfolding require_scoped_thread
  require_scoped_thread-keeps thread_id r l l' h s =
      let (found, l1, c, k) =
        >>=-ok (call (runtime.stores.get_thread thread_id runtime.namespace)) _ l l' tt h in
      let kept =
        laws.scoped thread_id runtime.namespace l.store l1.store found r (call-ok _ found l l1 c)
          s in
      scoped_cases found l1 l' k kept
