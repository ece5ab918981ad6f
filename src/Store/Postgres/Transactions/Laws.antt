-- ===== src/Store/Postgres/Transactions/Laws.antt =====
-- How `withTx` ends, for a database that is in a transaction or not: which attempts it has made, and
-- that it leaves no transaction open.
use multi_desk.Base.{
  ℕ, zero, suc, ◌<◌, String, Option, none, some, Bool, true, false, ◌≡◌, refl, ◌∙◌, ap, ◌⊎◌,
  Option-cases, inl, inr, arith,
}
use multi_desk.Store.Types.{Error}
use multi_desk.Store.Postgres.Database.{Database}
use multi_desk.Store.Postgres.Transactions.{attempt, with_tx, next_or_error}

-- What a transaction relies on of a database: what is committed, which `content` shows, stays as it is
-- while a transaction is open, and a rollback drops the transaction. A commit that fails may have
-- changed the content or not, and may have left the transaction open or not.
pub record IsTransactional {D C : Type 0} (db : Database D) (content : D → C) (in_tx : D → Bool)
    (fn : D → D × Option Error) : Type 0 where
  pub begins : (d : D) → content (db.begin d).0 ≡ content d
  pub opens : (d : D) → (db.begin d).1 ≡ none → in_tx (db.begin d).0 ≡ true
  pub stays_out :
      (d : D) (e : String)
      → (db.begin d).1 ≡ some e
      → in_tx d ≡ false
      → in_tx (db.begin d).0 ≡ false
  pub runs : (d : D) → in_tx d ≡ true → content (fn d).0 ≡ content d
  pub rolls_back : (d : D) → content (db.rollback d) ≡ content d
  pub drops : (d : D) → in_tx (db.rollback d) ≡ false
  pub commits : (d : D) → (db.commit d).1 ≡ none → in_tx (db.commit d).0 ≡ false

module _ {D : Type 0} (db : Database D) (fn : D → D × Option Error) where
  -- the state in which an attempt leaves its commit
  abbrev pub after_commit : D → D
  after_commit d = (db.commit (fn (db.begin d).0).0).0

  -- So many attempts, each with a run of the function, a commit that failed, and a rollback.
  pub data Tried : ℕ → D → D → Type 0 where
    untried : {d e : D} → e ≡ d → Tried 0 d e
    retried :
        {n : ℕ} {d e : D} (x : String)
        → (db.begin d).1 ≡ none
        → (fn (db.begin d).0).1 ≡ none
        → (db.commit (fn (db.begin d).0).0).1 ≡ some x
        → Tried n (db.rollback (after_commit d)) e
        → Tried (suc n) d e

  -- the ways through one attempt
  attempt_rule {ℓ} :
      (P : D × Option Error → Type ℓ) (n : ℕ) (d : D)
      → ((x : String) (e : Error) → (db.begin d).1 ≡ some x → P ((db.begin d).0, some e))
      → ((e : Error)
          → (db.begin d).1 ≡ none
          → (fn (db.begin d).0).1 ≡ some e
          → P (db.rollback (fn (db.begin d).0).0, some e))
      → ((db.begin d).1 ≡ none
          → (fn (db.begin d).0).1 ≡ none
          → (db.commit (fn (db.begin d).0).0).1 ≡ none
          → P (after_commit d, none))
      → ((x : String)
          → (db.begin d).1 ≡ none
          → (fn (db.begin d).0).1 ≡ none
          → (db.commit (fn (db.begin d).0).0).1 ≡ some x
          → P (
              next_or_error n x
                (db.rollback (after_commit d))
                (attempt db fn n (db.rollback (after_commit d)))))
      → P (attempt db fn (suc n) d)
  unfolding attempt
  attempt_rule P n d unbegun unrun done again = elim (Option-cases (db.begin d).1) [
    | inr (x, h) ↦ rw (h, attempt) (unbegun x _ h)
    | inl h ↦
        rw (h, attempt)
          (elim (Option-cases (fn (db.begin d).0).1) [
            | inr (e, k) ↦ rw (k, attempt) (unrun e h k)
            | inl k ↦
                rw (k, attempt)
                  (elim (Option-cases (db.commit (fn (db.begin d).0).0).1) [
                    | inr (x, l) ↦ rw (l, attempt) (again x h k l)
                    | inl l ↦ rw (l, attempt) (done h k l)
                  ])
          ])
  ]

module _ {D C : Type 0} (db : Database D) (content : D → C) (in_tx : D → Bool)
    (fn : D → D × Option Error) where
  -- What the last attempt, from the given state with so many attempts before it out of so many, has
  -- come to: without an error, it has run the function and committed; with one, it has changed no
  -- content, and no attempt is left, or it could not begin, or the error is the function's own.
  abbrev pub Ends : (limit tries : ℕ) → D → D × Option Error → Type 0
  Ends limit tries d (t, none) =
      (tries < limit)
      × ((db.begin d).1 ≡ none)
      × ((fn (db.begin d).0).1 ≡ none)
      × (db.commit (fn (db.begin d).0).0 ≡ (t, none))
  Ends limit tries d (t, some e) =
      (content t ≡ content d)
      × ((tries ≡ limit)
          ⊎ ((tries < limit)
              × (((x : String) × ((db.begin d).1 ≡ some x)) ⊎ ((fn (db.begin d).0).1 ≡ some e))))

  -- of the outcome of at most so many attempts from a state outside of any transaction
  pub record IsSettled (limit : ℕ) (d : D) (r : D × Option Error) : Type 0 where
    pub tries : ℕ
    pub last : D
    pub tried : Tried db fn tries d last
    pub closed : in_tx r.0 ≡ false
    pub ends : Ends limit tries last r

module _ {D C : Type 0} (db : Database D) (content : D → C) (in_tx : D → Bool)
    (fn : D → D × Option Error) (laws : IsTransactional db content in_tx fn) where
  Ends-suc :
      (limit tries : ℕ) (d : D) (r : D × Option Error)
      → Ends db content in_tx fn limit tries d r
      → Ends db content in_tx fn (suc limit) (suc tries) d r
  Ends-suc limit tries d (t, none) (below, h, k, l) = (omega (arith, below), h, k, l)
  Ends-suc limit tries d (t, some e) (same, inl all) = (same, inl (ap suc all))
  Ends-suc limit tries d (t, some e) (same, inr (below, why)) =
      (same, inr (omega (arith, below), why))

  next_or_error-IsSettled :
      (n : ℕ) (x : String) (d : D)
      → (db.begin d).1 ≡ none
      → (fn (db.begin d).0).1 ≡ none
      → (db.commit (fn (db.begin d).0).0).1 ≡ some x
      → IsSettled db content in_tx fn n
          (db.rollback (after_commit db fn d))
          (attempt db fn n (db.rollback (after_commit db fn d)))
      → IsSettled db content in_tx fn (suc n) d (
          next_or_error n x
            (db.rollback (after_commit db fn d))
            (attempt db fn n (db.rollback (after_commit db fn d))))
  unfolding next_or_error
  next_or_error-IsSettled zero x d h k l next = record {
    tries = 1;
    last = db.rollback (after_commit db fn d);
    tried = retried x h k l (untried refl);
    closed = laws.drops _;
    ends = (refl, inl refl);
  }
  next_or_error-IsSettled (suc n) x d h k l i = record {
    tries = suc i.tries;
    last = i.last;
    tried = retried x h k l i.tried;
    closed = i.closed;
    ends = Ends-suc (suc n) i.tries i.last _ i.ends;
  }

  attempt-IsSettled :
      (n : ℕ) (d : D) → in_tx d ≡ false → IsSettled db content in_tx fn n d (attempt db fn n d)
  unfolding attempt
  attempt-IsSettled zero d out = record {
    tries = 0;
    last = d;
    tried = untried refl;
    closed = out;
    ends = (refl, inl refl);
  }
  attempt-IsSettled (suc n) d out =
      attempt_rule db fn (IsSettled db content in_tx fn (suc n) d) n d
        (λ x e h. record {
          tries = 0;
          last = d;
          tried = untried refl;
          closed = laws.stays_out d x h out;
          ends = (laws.begins d, inr (omega arith, inl (x, h)));
        })
        (λ e h k. record {
          tries = 0;
          last = d;
          tried = untried refl;
          closed = laws.drops _;
          ends = (
            laws.rolls_back _ ∙ laws.runs _ (laws.opens d h) ∙ laws.begins d,
            inr (omega arith, inr k),
          );
        })
        (λ h k l. record {
          tries = 0;
          last = d;
          tried = untried refl;
          closed = laws.commits _ l;
          ends = (omega arith, h, k, ap (λ o. (after_commit db fn d, o)) l);
        })
        (λ x h k l.
          next_or_error-IsSettled n x d h k l
            (attempt-IsSettled n (db.rollback (after_commit db fn d)) (laws.drops _)))

  -- From outside of any transaction, `withTx` ends outside of any, on a database whose transactions keep
  -- what is committed as it is until their commit and are dropped by a rollback. It makes at most three
  -- attempts, of which all but the last end with a commit that fails and a rollback. Where it returns
  -- no error, the last has run the function and committed with success. Where it returns one, either
  -- all three commits have failed, or the last attempt could not begin or the error is the
  -- function's own, and this attempt has changed nothing that is committed. Whether a commit that
  -- failed has changed anything is not assumed.
  pub with_tx-IsSettled :
      (d : D) → in_tx d ≡ false → IsSettled db content in_tx fn 3 d (with_tx db fn d)
  unfolding with_tx
  with_tx-IsSettled d out = attempt-IsSettled 3 d out
