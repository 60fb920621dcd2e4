-- ===== src/Worker/Claim/Held.antt =====
-- What the workers hold while their claims are open: the invariant of the cluster.
use taskpilot_assessment.Prelude.{
  ℕ, ◌+◌, ◌-◌, ◌≤◌, ◌≡◌, Bool, true, false, some, List, [], ◌∷◌, arith, All, ◌==◌, nat_eq,
  nat_beq_iff, Bool-cases, inl, inr,
}
use taskpilot_assessment.Models.{Task, pending, status_eq}
use taskpilot_assessment.Database.{Database, Distinct, has_id}
use taskpilot_assessment.Database.Rows.{All-has_id}
use taskpilot_assessment.Worker.Claim.Cluster.{Cluster, pendings, hold, unlock}

module _ (D : Database) where
  open D use {Db, find, select_sound, select_distinct}

  -- A selected task is still the row of the table, pending and locked.
  abbrev pub Held : Db → (ℕ → Bool) → Task → Type 0
  Held d locked t = (find t.id d ≡ some t) × (t.status ≡ pending) × (locked t.id ≡ true)

  pub record IsExclusive (c : Cluster Db) : Type 0 where
    pub held : (i : ℕ) → All (Held c.db c.locked) (c.holding i)
    pub apart : (i : ℕ) → Distinct (c.holding i)
    pub disjoint :
        (i k j : ℕ) → has_id j (c.holding i) ≡ true → has_id j (c.holding k) ≡ true → i ≡ k
    pub counted : (j : ℕ) → c.claims j + pendings (find j c.db) ≤ c.made j

  pub Held-keep :
      (d d' : Db) (f g : ℕ → Bool) (ts : List Task)
      → ((j : ℕ) → has_id j ts ≡ true → find j d' ≡ find j d)
      → ((j : ℕ) → has_id j ts ≡ true → f j ≡ true → g j ≡ true)
      → All (Held d f) ts
      → All (Held d' g) ts
  Held-keep d d' f g [] rows locks a = tt
  Held-keep d d' f g (t ∷ ts) rows locks ((found, waits, lock'), a) =
      let mine : has_id t.id (t ∷ ts) ≡ true = ground (arith, nat_beq_iff t.id t.id) in
      (
        (ground (arith, rows t.id mine), waits, locks t.id mine lock'),
        Held-keep d d' f g ts (λ j h. rows j (ground arith)) (λ j h. locks j (ground arith)) a,
      )

  -- A row that some worker holds is locked and pending.
  pub Held-row :
      (d : Db) (f : ℕ → Bool) (ts : List Task) (j : ℕ)
      → All (Held d f) ts
      → has_id j ts ≡ true
      → (t : Task) × (find j d ≡ some t) × (t.status ≡ pending) × (f j ≡ true)
  Held-row d f ts j a h =
      let (t, same, (found, waits, lock')) = All-has_id (Held d f) j ts a h in
      (t, rw same at found, waits, rw same at lock')

  pub Held-locked :
      (d : Db) (f : ℕ → Bool) (ts : List Task) (j : ℕ)
      → All (Held d f) ts
      → has_id j ts ≡ true
      → f j ≡ true
  Held-locked d f ts j a h = let (t, found, waits, lock') = Held-row d f ts j a h in lock'

  pub other-IsExclusive :
      (c : Cluster Db) (d' : Db)
      → ((j : ℕ) → c.locked j ≡ true → find j d' ≡ find j c.db)
      → IsExclusive c
      → IsExclusive (record c {
        db = d';
        made = λ j. c.made j + (pendings (find j d') - pendings (find j c.db));
      })
  other-IsExclusive c d' kept x = record {
    held = λ i.
        Held-keep c.db d' c.locked c.locked (c.holding i)
          (λ j h. kept j (Held-locked c.db c.locked (c.holding i) j (x.held i) h)) (λ j h l. l)
          (x.held i);
    apart = x.apart;
    disjoint = x.disjoint;
    counted = λ j. omega (arith, x.counted j);
  }

  -- What a worker holds, no other one does.
  not-held :
      (c : Cluster Db) (i k j : ℕ)
      → IsExclusive c
      → (k == i) ≡ false
      → has_id j (c.holding k) ≡ true
      → has_id j (c.holding i) ≡ false
  not-held c i k j x apart mine = elim (Bool-cases (has_id j (c.holding i))) [
    | inl both ↦ ground (arith, x.disjoint k i j mine both, nat_beq_iff k i)
    | inr h ↦ h
  ]

  -- The end of the claim of worker `i`, when only the rows that it holds change.
  pub released-Held :
      (c : Cluster Db) (i : ℕ) (d' : Db) (k : ℕ)
      → IsExclusive c
      → ((j : ℕ) → has_id j (c.holding i) ≡ false → find j d' ≡ find j c.db)
      → All (Held d' (unlock (c.holding i) c.locked)) (hold i [] c.holding k)
  released-Held c i d' k x rows = elim (Bool-cases (k == i)) [
    | inl h ↦ rw h tt
    | inr h ↦ rw h (
        Held-keep c.db d' c.locked (unlock (c.holding i) c.locked) (c.holding k)
          (λ j m. rows j (not-held c i k j x h m)) (λ j m l. ground (arith, not-held c i k j x h m))
          (x.held k))
  ]

  pub released-apart : (c : Cluster Db) (i k : ℕ) → IsExclusive c → Distinct (hold i [] c.holding k)
  released-apart c i k x = elim (Bool-cases (k == i)) [ inl h ↦ rw h tt | inr h ↦ rw h (x.apart k) ]

  pub released-disjoint :
      (c : Cluster Db) (i a b j : ℕ)
      → IsExclusive c
      → has_id j (hold i [] c.holding a) ≡ true
      → has_id j (hold i [] c.holding b) ≡ true
      → a ≡ b
  released-disjoint c i a b j x ha hb = elim (Bool-cases (a == i)) [
    | inl h ↦ ground arith
    | inr h ↦ elim (Bool-cases (b == i)) [
      | inl h' ↦ ground arith
      | inr h' ↦ x.disjoint a b j (ground arith) (ground arith)
    ]
  ]
