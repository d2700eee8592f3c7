-- ===== src/Metadata/Postgres/Atomicity.antt =====
-- Steps on Postgres (src/metadata/postgres.rs) of which the tables stay, or which are done as a
-- whole or not at all: what a statement, a transaction and the reading behind them are.
use mr_boxington_cache.Prelude.{
  ◌≡◌, refl, sym, ap, subst, ◌∙◌, ◌⊎◌, Option, none, some, Result, ok, err, Result-cases, inl, inr,
  ok_inj,
}
use mr_boxington_cache.Server.Errors.{Fault}
use mr_boxington_cache.Metadata.{Access}
use mr_boxington_cache.Server.Handler.{continue, pure, lift}
use mr_boxington_cache.Metadata.Postgres.{
  Database, Outage, unsent, unanswered, Postgres, Statement, query, next_outage, later_outages,
}
use mr_boxington_cache.Metadata.Postgres.Results.{Jsonb, select}
use mr_boxington_cache.Metadata.Postgres.Sweep.{commit_transaction, transaction}
use mr_boxington_cache.Metadata.Postgres.Queries.{Leaves, query-Leaves, query-up, steady, IsSteady}

-- Whatever it answers, the tables stay.
pub record IsReading {A : Type 0} (op : Access Postgres A) : Type 0 where
  pub same : (pg : Postgres) → (op pg).1.database ≡ pg.database

-- Whatever it answers, the tables are as they were, or as it leaves them where nothing fails.
pub record IsAtomic {A : Type 0} (op : Access Postgres A) : Type 0 where
  pub leaves :
      (pg : Postgres)
      → ((op pg).1.database ≡ pg.database) ⊎ ((op pg).1.database ≡ (op (steady pg)).1.database)

pub IsReading-select : {A : Type 0} (f : Database → A) → IsReading (query (select f))
unfolding Leaves
IsReading-select f = record {
  same = λ pg. elim (query-Leaves (select f) pg) [
    | inl same ↦ same
    | inr (a, done) ↦ sym (ap (λ r. r.1) (ok_inj done))
  ];
}

pub IsAtomic-query : {A : Type 0} (statement : Statement A) → IsAtomic (query statement)
unfolding Leaves next_outage
IsAtomic-query statement = record {
  leaves = λ pg. elim (query-Leaves statement pg) [
    | inl same ↦ inl same
    | inr (a, done) ↦ inr (
        sym (
          ap (λ r. r.1.database)
            (query-up statement (steady pg) a (query statement pg).1.database refl done)))
  ];
}

-- What follows a query only looks at its answer.
pub continue-lift-state :
    {A C : Type 0} (f : A → Result Fault C) (p : Result Fault A × Postgres)
    → (continue (λ a. lift (f a)) p).1 ≡ p.1
continue-lift-state f (ok a, pg) = refl
continue-lift-state f (err e, pg) = refl

continue-database :
    {A C : Type 0} (next : A → Access Postgres C) (p : Result Fault A × Postgres)
    → ((a : A) → IsReading (next a))
    → (continue next p).1.database ≡ p.1.database
continue-database next (ok a, pg) reads = (reads a).same pg
continue-database next (err e, pg) reads = refl

-- One statement, and what only reads from there.
pub IsAtomic-bind :
    {A C : Type 0} (statement : Statement A) (next : A → Access Postgres C)
    → ((a : A) → IsReading (next a))
    → IsAtomic (λ pg. continue next (query statement pg))
IsAtomic-bind statement next reads = record {
  leaves = λ pg.
      let now = continue-database next (query statement pg) reads in
      let where_up = continue-database next (query statement (steady pg)) reads in
      elim ((IsAtomic-query statement).leaves pg) [
        | inl same ↦ inl (now ∙ same)
        | inr done ↦ inr (now ∙ done ∙ sym where_up)
      ];
}

pub IsReading-pure : {A : Type 0} (a : A) → IsReading (pure a)
IsReading-pure a = record { same = λ pg. refl }

-- A transaction of a body that answers the same where nothing fails.
module _ (j : Jsonb) {A : Type 0} (body : Access Postgres A) (h : IsSteady body) where
  steady-transaction :
      (pg pg1 : Postgres) (a : A)
      → body pg ≡ (ok a, pg1)
      → (transaction j body (steady pg)).1.database ≡ pg1.database
  unfolding transaction commit_transaction next_outage later_outages
  steady-transaction pg pg1 a e =
      let up = h.same pg pg1 a e in
      let calm : next_outage (body (steady pg)).1.outages ≡ none =
        ap (λ r. next_outage r.1.outages) up in
      rw (transaction, ap (λ r. r.0) up, calm) (ap (λ r. r.1.database) up)

  commit_transaction-leaves :
      (pg pg1 : Postgres) (a : A) (o : Option Outage) (left : Database)
      → left ≡ pg1.database
      → ((commit_transaction j a pg.database o pg1).1.database ≡ pg.database)
        ⊎ ((commit_transaction j a pg.database o pg1).1.database ≡ left)
  unfolding commit_transaction
  commit_transaction-leaves pg pg1 a none left done = inr (sym done)
  commit_transaction-leaves pg pg1 a (some (unsent e)) left done = inl refl
  commit_transaction-leaves pg pg1 a (some (unanswered e)) left done = inr (sym done)

  pub transaction-IsAtomic : IsAtomic (transaction j body)
  unfolding transaction
  transaction-IsAtomic = record {
    leaves = λ pg. elim (Result-cases (body pg).0) [
      | inl (a, done) ↦
          let left = steady-transaction pg (body pg).1 a (ap (λ r. (r, (body pg).1)) done) in
          subst
            (λ (p : Result Fault A × Postgres).
              (p.1.database ≡ pg.database)
              ⊎ (p.1.database ≡ (transaction j body (steady pg)).1.database))
            (sym (committed pg a done))
            (commit_transaction-leaves pg
              (record (body pg).1 { outages = later_outages (body pg).1.outages }) a
              (next_outage (body pg).1.outages) (transaction j body (steady pg)).1.database left)
      | inr (x, broken) ↦ inl (rw (transaction, broken))
    ];
  }
    where
      committed :
          (pg : Postgres) (a : A)
          → (body pg).0 ≡ ok a
          → transaction j body pg
            ≡ commit_transaction j a pg.database
                (next_outage (body pg).1.outages)
                (record (body pg).1 { outages = later_outages (body pg).1.outages })
      committed pg a done = rw (transaction, done)
