-- ===== src/Metadata/Postgres/Queries.antt =====
-- What a query to Postgres has done (src/metadata/postgres.rs).
use mr_boxington_cache.Prelude.{
  ◌≡◌, refl, sym, ap, ◌∙◌, Option, none, some, Result, ok, err, ok_inj, err_not_ok, [], ◌⊎◌, inl,
  inr,
}
use mr_boxington_cache.Server.Errors.{Fault}
use mr_boxington_cache.Metadata.{Access}
use mr_boxington_cache.Server.Handler.{pure, continue, continue-eq-ok}
use mr_boxington_cache.Metadata.Postgres.{
  Outage, unsent, unanswered, Database, Postgres, Statement, ran, attempt, query, next_outage,
  later_outages,
}

-- The statement ran, and the tables and the clock are as it left them.
unfoldable pub Ran : {A : Type 0} → Statement A → Postgres → Postgres → A → Type 0
Ran {A} statement pg pg' a =
    (statement pg.now pg.database ≡ ok (a, pg'.database)) × (pg'.now ≡ pg.now)

ran-ok :
    {A : Type 0} (pg pg' : Postgres) (r : Result Fault (A × Database)) (a : A)
    → ran pg r ≡ (ok a, pg')
    → (r ≡ ok (a, pg'.database)) × (pg'.now ≡ pg.now)
unfolding ran
ran-ok pg pg' (err e) a h = absurd (err_not_ok (ap (λ p. p.0) h))
ran-ok {A} pg pg' (ok (b, database)) a h =
    let same : b ≡ a = ok_inj (ap (λ p. p.0) h) in
    let left : database ≡ pg'.database = ap (λ p. p.1.database) h in
    (rw (same, left), sym (ap (λ p. p.1.now) h))

attempt-ok :
    {A : Type 0} (statement : Statement A) (o : Option Outage) (pg pg' : Postgres) (a : A)
    → attempt statement o pg ≡ (ok a, pg')
    → Ran statement pg pg' a
unfolding attempt Ran
attempt-ok statement none pg pg' a h = ran-ok pg pg' (statement pg.now pg.database) a h
attempt-ok statement (some (unsent e)) pg pg' a h = absurd (err_not_ok (ap (λ p. p.0) h))
attempt-ok statement (some (unanswered e)) pg pg' a h = absurd (err_not_ok (ap (λ p. p.0) h))

pub query-ok :
    {A : Type 0} (statement : Statement A) (pg pg' : Postgres) (a : A)
    → query statement pg ≡ (ok a, pg')
    → Ran statement pg pg' a
unfolding query Ran
query-ok statement pg pg' a h =
    attempt-ok statement (next_outage pg.outages) (record pg { outages = later_outages pg.outages })
      pg' a h

-- What the statement leaves where it runs: the tables as they were, or as it changes them.
unfoldable pub Leaves : {A : Type 0} → Statement A → Postgres → Database → Type 0
Leaves {A} statement pg database =
    (database ≡ pg.database) ⊎ ((a : A) × (statement pg.now pg.database ≡ ok (a, database)))

ran-Leaves :
    {A : Type 0} (statement : Statement A) (pg pg' : Postgres) (r : Result Fault (A × Database))
    → statement pg.now pg.database ≡ r
    → pg'.database ≡ pg.database
    → Leaves statement pg (ran pg' r).1.database
unfolding ran Leaves
ran-Leaves statement pg pg' (err e) h same = inl same
ran-Leaves statement pg pg' (ok (a, database)) h same = inr (a, h)

attempt-Leaves :
    {A : Type 0} (statement : Statement A) (o : Option Outage) (pg : Postgres)
    → Leaves statement pg (attempt statement o pg).1.database
unfolding attempt Leaves
attempt-Leaves statement none pg =
    ran-Leaves statement pg pg (statement pg.now pg.database) refl refl
attempt-Leaves statement (some (unsent e)) pg = inl refl
attempt-Leaves statement (some (unanswered e)) pg =
    ran-Leaves statement pg pg (statement pg.now pg.database) refl refl

-- Whatever a query answers, its statement has run or has not.
pub query-Leaves :
    {A : Type 0} (statement : Statement A) (pg : Postgres)
    → Leaves statement pg (query statement pg).1.database
unfolding query Leaves
query-Leaves statement pg =
    attempt-Leaves statement (next_outage pg.outages)
      (record pg { outages = later_outages pg.outages })

-- One that meets no outage runs its statement.
pub query-up :
    {A : Type 0} (statement : Statement A) (pg : Postgres) (a : A) (database : Database)
    → next_outage pg.outages ≡ none
    → statement pg.now pg.database ≡ ok (a, database)
    → query statement pg
      ≡ (ok a, record pg { database = database; outages = later_outages pg.outages })
unfolding query attempt ran
query-up statement pg a database up h = rw (up, h)

-- The same database, whose pool and network fail nothing.
abbrev pub steady : Postgres → Postgres
steady pg = record pg { outages = [] }

-- What answers where there are outages answers the same where there are none.
pub record IsSteady {A : Type 0} (op : Access Postgres A) : Type 0 where
  pub same : (pg pg' : Postgres) (a : A) → op pg ≡ (ok a, pg') → op (steady pg) ≡ (ok a, steady pg')

query-steady :
    {A : Type 0} (statement : Statement A) (pg pg' : Postgres) (a : A)
    → Ran statement pg pg' a
    → query statement (steady pg) ≡ (ok a, steady pg')
unfolding Ran next_outage later_outages
query-steady statement pg pg' a (done, now) =
    query-up statement (steady pg) a pg'.database refl done
    ∙ ap (λ t. (ok a, record { database = pg'.database; now = t; outages = [] })) (sym now)

pub IsSteady-query : {A : Type 0} (statement : Statement A) → IsSteady (query statement)
IsSteady-query statement = record {
  same = λ pg pg' a h. query-steady statement pg pg' a (query-ok statement pg pg' a h);
}

pub IsSteady-pure : {A : Type 0} (a : A) → IsSteady (pure a)
IsSteady-pure a = record { same = λ pg pg' b h. ap (λ r. (r.0, steady r.1)) h }

pub IsSteady-bind :
    {A C : Type 0} {first : Access Postgres A} {next : A → Access Postgres C}
    → IsSteady first
    → ((a : A) → IsSteady (next a))
    → IsSteady (λ pg. continue next (first pg))
IsSteady-bind {first = first} {next = next} h k = record {
  same = λ pg pg' c e.
      let (a, pg1, e1, r) = continue-eq-ok next (first pg) e in
      ap (λ p. continue next p) (h.same pg pg1 a e1) ∙ (k a).same pg1 pg' c r;
}
