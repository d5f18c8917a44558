-- ===== src/Worker/Trade/Rows.antt =====
-- GRPC/src/Worker.cc: the rows of a result, where the database behaves as Worker/Stock.antt says.
use docker_compose_seckill_s.Base.{
  ℕ, ◌≡◌, refl, sym, subst, ◌∙◌, Bytes, List, [], ◌∷◌, Option, none, some,
}
use docker_compose_seckill_s.Services.{Services, Row}
use docker_compose_seckill_s.Machine.{Machine, M, done}
use docker_compose_seckill_s.Machine.Calls.{fetch_row, query, use_result, free_result}
use docker_compose_seckill_s.Machine.Quiet.{books}
use docker_compose_seckill_s.Machine.Returns.{Returns}
use docker_compose_seckill_s.Worker.Stock.{GoodsDb, Takes}

module _ {sv : Services} (db : GoodsDb sv) (c : ℕ) where
  open db use {committed, view, holds, unread}

  -- Nothing that counts has changed between two states.
  pub record Same (m m' : Machine sv) : Type 0 where
    pub same_books : books m' ≡ books m
    pub same_committed : committed m'.world ≡ committed m.world
    pub same_view : view c m'.world ≡ view c m.world
    pub same_holds : holds c m'.world ≡ holds c m.world

  pub Same-trans : {m m1 m2 : Machine sv} → Same m m1 → Same m1 m2 → Same m m2
  Same-trans s t = record {
    same_books = t.same_books ∙ s.same_books;
    same_committed = t.same_committed ∙ s.same_committed;
    same_view = t.same_view ∙ s.same_view;
    same_holds = t.same_holds ∙ s.same_holds;
  }

  pub Same-refl : {m : Machine sv} → Same m m
  Same-refl = record {
    same_books = refl;
    same_committed = refl;
    same_view = refl;
    same_holds = refl;
  }

  pub on_some :
      {A : Type 0} (a : M sv A) (f : Row → M sv A) {o : Option Row} {x : Row} {m : Machine sv}
      {P : A → Machine sv → Type 0}
      → o ≡ some x
      → Returns (f x) m P
      → Returns (elim o [ none ↦ a | some r ↦ f r ]) m P
  on_some a f {m} {P} e h = subst (λ o. Returns (elim o [ none ↦ a | some r ↦ f r ]) m P) (sym e) h

  pub on_none :
      {A : Type 0} (a : M sv A) (f : Row → M sv A) {o : Option Row} {m : Machine sv}
      {P : A → Machine sv → Type 0}
      → o ≡ none
      → Returns a m P
      → Returns (elim o [ none ↦ a | some r ↦ f r ]) m P
  on_none a f {m} {P} e h = subst (λ o. Returns (elim o [ none ↦ a | some r ↦ f r ]) m P) (sym e) h

  fetched :
      (r : ℕ) (m : Machine sv) → Same m (record m { world = (sv.mysql_fetch_row r m.world).1 })
  fetched r m = record {
    same_books = refl;
    same_committed = (db.fetch_keeps c r m.world).0;
    same_view = (db.fetch_keeps c r m.world).1;
    same_holds = (db.fetch_keeps c r m.world).2;
  }

  pub fetch_first :
      (r : ℕ) (x : Row) (xs : List Row) (m : Machine sv)
      → unread r m.world ≡ x ∷ xs
      → Returns (fetch_row sv (some r)) m (λ row m'.
        (row ≡ some x)
        × (unread r m'.world ≡ xs)
        × (sv.mysql_num_fields r m'.world ≡ sv.mysql_num_fields r m.world)
        × Same m m')
  unfolding fetch_row
  fetch_first r x xs m e =
      let taken =
        subst
          (λ u.
            Takes u (sv.mysql_fetch_row r m.world).0 (unread r (sv.mysql_fetch_row r m.world).1))
          e (db.fetches r m.world) in
      record { apply = (taken.0, taken.1, db.same_columns r m.world, fetched r m) }

  pub fetch_last :
      (r : ℕ) (m : Machine sv)
      → unread r m.world ≡ []
      → Returns (fetch_row sv (some r)) m (λ row m'. (row ≡ none) × Same m m')
  unfolding fetch_row
  fetch_last r m e = record {
    apply = (
      subst
          (λ u.
            Takes u (sv.mysql_fetch_row r m.world).0 (unread r (sv.mysql_fetch_row r m.world).1))
          e (db.fetches r m.world),
      fetched r m,
    );
  }

  pub query_lem :
      (t : Bytes) (m : Machine sv)
      → query sv (some c) t m
        ≡ done (sv.mysql_query c t m.world).0 (record m { world = (sv.mysql_query c t m.world).1 })
  unfolding query
  query_lem t m = refl

  pub use_result_lem :
      (m : Machine sv)
      → use_result sv (some c) m
        ≡ done
            (sv.mysql_use_result c m.world).0
            (record m { world = (sv.mysql_use_result c m.world).1 })
  unfolding use_result
  use_result_lem m = refl

  pub free_result-Returns :
      (r : ℕ) (m : Machine sv) → Returns (free_result sv (some r)) m (λ _ m'. Same m m')
  unfolding free_result
  free_result-Returns r m = record {
    apply = record {
      same_books = refl;
      same_committed = (db.free_keeps c r m.world).0;
      same_view = (db.free_keeps c r m.world).1;
      same_holds = (db.free_keeps c r m.world).2;
    };
  }
