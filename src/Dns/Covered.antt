-- ===== src/Dns/Covered.antt =====
-- The records that the store of the DNS service has, and what a save and a delete do to them
-- (internal/dnssvc/workload_dns.go).
use orch.Prelude.{
  String, Bool, true, false, Option, none, some, ◌≡◌, ◌≢◌, refl, sym, ◌∙◌, ap, inl, inr, arith,
  eq_iff, Bool-cases, ◌==◌, ◌⊎◌,
}
use orch.Prelude.GoMap
use orch.Prelude.GoMap.{GoMap}
use orch.Dns
use orch.Dns.{Dns, DnsError, upsert_workload_a, remove_workload_a}
use orch.Dns.Libraries.{Record, Server, Store, StoreLaws}

-- What a key finds is what another finds, unless they differ.
found_again :
    (key other : String) (found : Option Record) (r : Record) (m : GoMap Record)
    → GoMap.lookup key m ≡ found
    → GoMap.lookup other m ≡ some r
    → (found ≡ some r) ⊎ (key == other ≡ false)
found_again key other found r m e h = elim (Bool-cases (key == other)) [
  | inl same ↦ inl (let p = (eq_iff key other).0 same in sym e ∙ (rw p h))
  | inr ne ↦ inr ne
]

module _ {S : Type 0} (server : Server) (has : String → S → Bool) where
  -- A record that a workload registered under the key.
  abbrev pub Registered : GoMap Record → String → Type 0
  Registered m k =
      (key : String) × (r : Record) × (GoMap.lookup key m ≡ some r) × (server.key r ≡ k)

  -- The store has no record but those that a workload registered and those that are allowed.
  abbrev pub Covered : (String → Type 0) → GoMap Record → S → Type 0
  Covered allowed m st = (k : String) → has k st ≡ true → Registered m k ⊎ allowed k

  module _ (db : Store S) where
    -- A record is saved, and the deletion of the one before it, under another key, fails.
    pub record IsStuck (prev norm : Record) (st : S) : Type 0 where
      pub apart : server.key prev ≢ server.key norm
      pub saved : (db.save_record norm st).0 ≡ true
      pub failed : (db.delete_record prev (db.save_record norm st).1).0 ≡ false

  module _ (db : Store S) (laws : StoreLaws server db has) (old new : String → Type 0)
      (grow : (k : String) → old k → new k) where
    pub grown : (m : GoMap Record) (st : S) → Covered old m st → Covered new m st
    grown m st c k h = elim (c k h) [ inl r ↦ inl r | inr o ↦ inr (grow k o) ]

    pub save_failed :
        (m : GoMap Record) (norm : Record) (st : S)
        → (db.save_record norm st).0 ≡ false
        → Covered old m st
        → Covered new m (db.save_record norm st).1
    save_failed m norm st failed c k h =
        grown m st c k (let e = laws.has_saved k norm st in ground (arith, e, failed, h))

    pub delete_failed :
        (m : GoMap Record) (prev : Record) (st : S)
        → (db.delete_record prev st).0 ≡ false
        → Covered old m st
        → Covered new m (db.delete_record prev st).1
    delete_failed m prev st failed c k h =
        grown m st c k (let e = laws.has_deleted k prev st in ground (arith, e, failed, h))

    pub delete_covers :
        (key : String) (prev : Record) (m : GoMap Record) (st : S)
        → (db.delete_record prev st).0 ≡ true
        → GoMap.lookup key m ≡ some prev
        → Covered old m st
        → Covered new (GoMap.delete key m) (db.delete_record prev st).1
    delete_covers key prev m st done e c k h =
        let d = laws.has_deleted k prev st in
        let was : has k st ≡ true = ground (arith, d, done, h) in
        let other : server.key prev ≢ k =
          λ p. ground (arith, d, done, h, eq_iff (server.key prev) k, p) in
        elim (c k was) [
          | inr o ↦ inr (grow k o)
          | inl (j, r, found, same) ↦ elim (found_again key j (some prev) r m e found) [
            | inl p ↦ absurd (other (ap server.key (let q : prev ≡ r = cc p in q) ∙ same))
            | inr ne ↦ inl (j, r, ground (arith, ne, found, GoMap.lookup-delete key j m), same)
          ]
        ]

    -- A key is covered after a write when the record written has it, or when a record had it that
    -- the write does not replace.
    kept_covers :
        (key : String) (norm : Record) (prev : Option Record) (m : GoMap Record) (st : S)
        (k : String)
        → GoMap.lookup key m ≡ prev
        → Covered old m st
        → (server.key norm ≡ k)
          ⊎ ((has k st ≡ true) × ((p : Record) → prev ≡ some p → server.key p ≢ k))
        → Registered (GoMap.insert key norm m) k ⊎ new k
    kept_covers key norm prev m st k e c (inl written) =
        inl (key, norm, GoMap.lookup-insert_self key norm m, written)
    kept_covers key norm prev m st k e c (inr (was, other)) = elim (c k was) [
      | inr o ↦ inr (grow k o)
      | inl (j, r, found, same) ↦ elim (found_again key j prev r m e found) [
        | inl p ↦ absurd (other r p same)
        | inr ne ↦ inl (j, r, ground (arith, ne, found, GoMap.lookup-insert key j norm m), same)
      ]
    ]

    -- A record that is saved in the place of the one before it, which goes or is left.
    pub replaced_covers :
        (key : String) (norm : Record) (prev : Option Record) (m : GoMap Record) (st : S)
        → GoMap.lookup key m ≡ prev
        → (db.save_record norm st).0 ≡ true
        → ((p : Record) → prev ≡ some p → IsStuck db p norm st → new (server.key p))
        → Covered old m st
        → Covered new
            (GoMap.insert key norm m)
            (Dns.delete_stale server db prev norm (db.save_record norm st).1)
    unfolding Dns.delete_stale
    replaced_covers key norm none m st e saved left c k h =
        let s = laws.has_saved k norm st in
        kept_covers key norm none m st k e c (elim (Bool-cases (server.key norm == k)) [
          | inl same ↦ inl ((eq_iff (server.key norm) k).0 same)
          | inr ne ↦ inr (ground (arith, s, ne, h), λ p q. absurd (cc q))
        ])
    replaced_covers key norm (some prev) m st e saved left c k h =
        let s = laws.has_saved k norm st in
        let after = (db.save_record norm st).1 in
        let d = laws.has_deleted k prev after in
        let pn = eq_iff (server.key prev) (server.key norm) in
        let pk = eq_iff (server.key prev) k in
        elim (Bool-cases (server.key norm == k)) [
          | inl same ↦
              kept_covers key norm (some prev) m st k e c
                (inl ((eq_iff (server.key norm) k).0 same))
          | inr ne ↦ elim (Bool-cases (server.key prev == k)) [
            | inr other ↦ kept_covers key norm (some prev) m st k e c (
                inr (
                  ground (arith, s, d, ne, other, h),
                  λ p q r.
                      let same : prev ≡ p = cc q in
                      let at : server.key prev ≡ k = ap server.key same ∙ r in
                      absurd (cc (sym other ∙ pk.1 at)),
                ))
            | inl here ↦ elim (Bool-cases (db.delete_record prev after).0) [
              | inr failed ↦ inr (
                  rw (← pk.0 here) (
                    left prev refl (record {
                      apart = λ p.
                          absurd (cc (sym ne ∙ (eq_iff (server.key norm) k).1 (sym p ∙ pk.0 here)));
                      saved = saved;
                      failed = failed;
                    })))
              | inl done ↦
                  let apart : (server.key prev == server.key norm) ≡ false =
                    grind (arith, here, ne, pn, pk, eq_iff (server.key norm) k) in
                  let gone = (rw apart at h) in absurd (ground (arith, d, done, here, gone))
            ]
          ]
        ]
