-- ===== src/Memory/Recall.antt =====
-- What is read back from the long-term memory of src/agent_runtime/memory/postgres.py.
use agent_runtime_kit.Memory.Records.{
  Identity, same_identity, MemoryRecord, Written, cleanup_expired, delete, delete_rows, expired_in,
  overwrite, unexpired, upsert, put,
}
use agent_runtime_kit.Memory.Records.{get}
use agent_runtime_kit.Base.{
  ap, arith, eq_iff, refl, true, ◌=ˢ◌, ◌↔◌, ◌≡◌, Bool, Bool-cases, List, Option, String, [], false,
  if◌then◌else◌, inl, inr, none, some, ℕ, ◌&&◌, ◌∷◌, ◌≤◌, Option-cases, sym, ◌∙◌,
}

same_identity_iff : (a b : Identity) → (same_identity a b ≡ true) ↔ (a ≡ b)
same_identity_iff a b = (
  λ h.
      let n : a.namespace ≡ b.namespace = (eq_iff a.namespace b.namespace).0 (ground arith) in
      let u : a.user_key ≡ b.user_key = (eq_iff a.user_key b.user_key).0 (ground arith) in
      let m : a.memory_key ≡ b.memory_key = (eq_iff a.memory_key b.memory_key).0 (ground arith) in
      cc,
  λ e.
      let n : (a.namespace =ˢ b.namespace) ≡ true =
        (eq_iff a.namespace b.namespace).1 (ap (λ x. x.namespace) e) in
      let u : (a.user_key =ˢ b.user_key) ≡ true =
        (eq_iff a.user_key b.user_key).1 (ap (λ x. x.user_key) e) in
      let m : (a.memory_key =ˢ b.memory_key) ≡ true =
        (eq_iff a.memory_key b.memory_key).1 (ap (λ x. x.memory_key) e) in
      rw (n, u, m) refl,
)

-- The tests of one row against two identities: they agree when these do, and are not both true else.
same_identity_left :
    (r a b : Identity) → same_identity a b ≡ true → same_identity r b ≡ same_identity r a
same_identity_left r a b h = let e : a ≡ b = (same_identity_iff a b).0 h in rw e refl

same_identity_apart :
    (r a b : Identity)
    → same_identity a b ≡ false
    → same_identity r a ≡ true
    → same_identity r b ≡ false
same_identity_apart r a b h k = let e : r ≡ a = (same_identity_iff r a).0 k in rw e h

-- A DELETE that hits no row that can be read is not seen by a read.
get-delete_rows :
    (now : ℕ) (k : Identity) (p : MemoryRecord → Bool) (table : List MemoryRecord)
    → ((r : MemoryRecord)
        → p r ≡ true
        → (same_identity r.identity k && unexpired now r.expires_at) ≡ false)
    → get now k (delete_rows p table).1 ≡ get now k table
unfolding get delete_rows
get-delete_rows now k p [] h = refl
get-delete_rows now k p (r ∷ rs) h = elim (Bool-cases (p r)) [
  | inl e ↦ rw (e, h r e) (get-delete_rows now k p rs h)
  | inr e ↦ rw (e, get-delete_rows now k p rs h) refl
]

get-deleted :
    (now : ℕ) (k : Identity) (table : List MemoryRecord)
    → get now k (delete_rows (λ r. same_identity r.identity k) table).1 ≡ none
unfolding get delete_rows
get-deleted now k [] = refl
get-deleted now k (r ∷ rs) = elim (Bool-cases (same_identity r.identity k)) [
  | inl e ↦ rw e (get-deleted now k rs)
  | inr e ↦ rw e (rw e (get-deleted now k rs))
]

-- A record that is deleted is not read any more, at any time, and the reads of other identities
-- are as they were.
pub get-delete :
    (now : ℕ) (k j : Identity) (table : List MemoryRecord)
    → get now j (delete k table).1 ≡ (if same_identity k j then none else get now j table)
unfolding delete
get-delete now k j table = elim (Bool-cases (same_identity k j)) [
  | inl e ↦ let i : k ≡ j = (same_identity_iff k j).0 e in rw e (rw i (get-deleted now j table))
  | inr e ↦ rw e (
      get-delete_rows now j (λ r. same_identity r.identity k) table
        (λ r h. rw (same_identity_apart r.identity k j e h) refl))
]

-- Cleaning up expired records is not seen by a read whose time is no earlier than the cutoff.
pub get-cleanup_expired :
    (cutoff now : ℕ) (namespace : Option String) (k : Identity) (table : List MemoryRecord)
    → cutoff ≤ now
    → get now k (cleanup_expired cutoff namespace table).1 ≡ get now k table
unfolding cleanup_expired
get-cleanup_expired cutoff now none k table h =
    get-delete_rows now k (expired_in cutoff none) table (λ r e. ground arith)
get-cleanup_expired cutoff now (some n) k table h =
    get-delete_rows now k (expired_in cutoff (some n)) table (λ r e. ground arith)

-- A read behind an upsert that finds its row.
get-upsert :
    (now t : ℕ) (k j : Identity) (w : Written) (table : List MemoryRecord) (x : MemoryRecord)
    → unexpired t w.expires_at ≡ true
    → (upsert now k w table).0 ≡ some x
    → get t j (upsert now k w table).1 ≡ (if same_identity k j then some x else get t j table)
unfolding upsert get
get-upsert now t k j w [] x l h = absurd (ground arith)
get-upsert now t k j w (r ∷ rs) x l h = elim (Bool-cases (same_identity r.identity k)) [
  | inl e ↦
      let q : x ≡ overwrite now w r = ground arith in
      elim (Bool-cases (same_identity k j)) [
        | inl same ↦
            let s : same_identity r.identity j ≡ true =
              same_identity_left r.identity k j same ∙ e in
            rw (e, same, s, l) (ap (λ y. some y) (sym q))
        | inr other ↦
            let s : same_identity r.identity j ≡ false =
              same_identity_apart r.identity k j other e in
            rw (e, other, s) refl
      ]
  | inr e ↦
      let ih = get-upsert now t k j w rs x l (rw e at h) in
      elim (Bool-cases (same_identity k j)) [
        | inl same ↦
            let s : same_identity r.identity j ≡ false =
              same_identity_left r.identity k j same ∙ e in
            rw (e, same, s) (rw same at ih)
        | inr other ↦ rw (e, other, (rw other at ih)) refl
      ]
]

-- A record with an identity and what was asked to be written under it.
pub record IsWritten (k : Identity) (w : Written) (r : MemoryRecord) : Type 0 where
  pub identity : r.identity ≡ k
  pub value : r.value ≡ w.value
  pub tags : r.tags ≡ w.tags
  pub expires_at : r.expires_at ≡ w.expires_at

upsert-IsWritten :
    (now : ℕ) (k : Identity) (w : Written) (table : List MemoryRecord) (x : MemoryRecord)
    → (upsert now k w table).0 ≡ some x
    → IsWritten k w x
unfolding upsert
upsert-IsWritten now k w [] x h = absurd (ground arith)
upsert-IsWritten now k w (r ∷ rs) x h = elim (Bool-cases (same_identity r.identity k)) [
  | inl e ↦
      let q : x ≡ overwrite now w r = ground arith in
      let i : r.identity ≡ k = (same_identity_iff r.identity k).0 e in
      rw q (record { identity = i; value = refl; tags = refl; expires_at = refl })
  | inr e ↦ upsert-IsWritten now k w rs x (rw e at h)
]

put-IsWritten :
    (now server id : ℕ) (k : Identity) (w : Written) (table : List MemoryRecord)
    → IsWritten k w (put now server id k w table).0
unfolding put
put-IsWritten now server id k w table = elim (Option-cases (upsert now k w table).0) [
  | inl e ↦ rw e (record { identity = refl; value = refl; tags = refl; expires_at = refl })
  | inr (x, e) ↦ rw e (upsert-IsWritten now k w table x e)
]

get-put_returned :
    (now server id t : ℕ) (k j : Identity) (w : Written) (table : List MemoryRecord)
    → unexpired t w.expires_at ≡ true
    → get t j (put now server id k w table).1
      ≡ (if same_identity k j then some (put now server id k w table).0 else get t j table)
unfolding put get
get-put_returned now server id t k j w table l = elim (Option-cases (upsert now k w table).0) [
  | inl e ↦ elim (Bool-cases (same_identity k j)) [
    | inl same ↦ rw (e, same, l) refl
    | inr other ↦ rw (e, other) refl
  ]
  | inr (x, e) ↦ rw e (get-upsert now t k j w table x l e)
]

-- The record that put returns has the identity, the value, the tags and the expiry that were asked
-- for, whether it is new or replaces one; and at every time at which it has not expired it is what
-- get reads under its identity, and the reads of other identities are as they were.
pub get-put :
    (now server id t : ℕ) (k j : Identity) (w : Written) (table : List MemoryRecord)
    → unexpired t w.expires_at ≡ true
    → IsWritten k w (put now server id k w table).0
      × (get t j (put now server id k w table).1
          ≡ (if same_identity k j then some (put now server id k w table).0 else get t j table))
get-put now server id t k j w table l =
    (put-IsWritten now server id k w table, get-put_returned now server id t k j w table l)
