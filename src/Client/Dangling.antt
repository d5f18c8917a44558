-- ===== src/Client/Dangling.antt =====
-- GRPC/src/seckill_client.cc with GRPC/src/mysqlpool.cc: `checkSeckillInfo` reads the texts that
-- `executeSql` returned.
use docker_compose_seckill_s.Base.{
  ℕ, ◌≡◌, refl, ap, ◌∙◌, subst, Bool, true, false, List, [], ◌∷◌, Option, none, some, Bytes, arith,
  map, if◌then◌else◌, text_eq, Bool-cases, inl, inr,
}
use docker_compose_seckill_s.Services.{Services}
use docker_compose_seckill_s.Machine.{
  Machine, Outcome, done, fault, Fault, null_pointer, use_after_free, M, pure, ◌>>=◌,
}
use docker_compose_seckill_s.Machine.Calls.{
  parse_int, deref, query, free_result, mysql_connect, mysql_close,
}
use docker_compose_seckill_s.Machine.Execute.{
  Cell, Columns, is_text, freed, dangle, store_result, field_columns, push_rows, read_columns,
  execute_on, execute_sql, read_cell,
}
use docker_compose_seckill_s.Client.Check.{read_names, find_column, orders_normal}

abbrev AllDangle : List Cell → Type 0
AllDangle [] = Unit {0}
AllDangle (c ∷ cells) = (c.dangling ≡ is_text c.text) × AllDangle cells

abbrev pub ColumnsDangle : Columns → Type 0
ColumnsDangle [] = Unit {0}
ColumnsDangle ((k, cells) ∷ m) = AllDangle cells × ColumnsDangle m

freed-AllDangle : (cells : List Cell) → AllDangle (map freed cells)
freed-AllDangle [] = tt
freed-AllDangle (c ∷ cells) = (refl, freed-AllDangle cells)

dangle-ColumnsDangle : (m : Columns) → ColumnsDangle (dangle m)
unfolding dangle
dangle-ColumnsDangle [] = tt
dangle-ColumnsDangle ((k, cells) ∷ m) = (freed-AllDangle cells, dangle-ColumnsDangle m)

find_column-AllDangle :
    (sv : Services) (fuel : ℕ) (name : Bytes) (m : Columns)
    → ColumnsDangle m
    → AllDangle (find_column sv fuel name m)
unfolding find_column
find_column-AllDangle sv fuel name [] d = tt
find_column-AllDangle sv fuel name ((k, cells) ∷ m) (d, ds) = elim (Bool-cases (text_eq name k)) [
  | inl e ↦ rw e d
  | inr e ↦ rw e (find_column-AllDangle sv fuel name m ds)
]

abbrev OnDone : {sv : Services} {A : Type 0} → (A → Type 0) → Outcome sv A → Type 0
OnDone P (done a m) = P a
OnDone P (fault e) = Unit {0}

-- What `act` returns, if it returns, has the property `P`.
record Yields {sv : Services} {A : Type 0} (act : M sv A) (P : A → Type 0) : Type 0 where
  apply : (m : Machine sv) → OnDone P (act m)

module _ {sv : Services} where
  OnDone-bind :
      {A B : Type 0} (P : A → Type 0) (Q : B → Type 0) (o : Outcome sv A) (f : A → M sv B)
      → OnDone P o
      → ((a : A) → P a → Yields (f a) Q)
      → OnDone Q (elim o [ done a m ↦ f a m | fault e ↦ fault e ])
  OnDone-bind P Q (done a m) f p h = (h a p).apply m
  OnDone-bind P Q (fault e) f p h = tt

  Yields-bind :
      {A B : Type 0} {P : A → Type 0} {Q : B → Type 0} {act : M sv A} {f : A → M sv B}
      → Yields act P
      → ((a : A) → P a → Yields (f a) Q)
      → Yields (act >>= f) Q
  Yields-bind {P} {Q} {act} {f} p h = record {
    apply = λ m. OnDone-bind P Q (act m) f (p.apply m) h;
  }

  OnDone-any : {A : Type 0} (o : Outcome sv A) → OnDone (λ _. Unit {0}) o
  OnDone-any (done a m) = tt
  OnDone-any (fault e) = tt

  Yields-any : {A : Type 0} (act : M sv A) → Yields act (λ _. Unit {0})
  Yields-any act = record { apply = λ m. OnDone-any (act m) }

  OnDone-eq :
      {A : Type 0} (P : A → Type 0) (o : Outcome sv A) (a : A) (m : Machine sv)
      → OnDone P o
      → o ≡ done a m
      → P a
  OnDone-eq P (done b m') a m p e = subst P (ground (arith, e)) p
  OnDone-eq P (fault x) a m p e = absurd (ground (arith, e))

module _ (sv : Services) (fuel : ℕ) where
  read_columns-Dangle : (res : Option ℕ) → Yields (read_columns sv fuel res) ColumnsDangle
  unfolding read_columns
  read_columns-Dangle none = record { apply = λ m. tt }
  read_columns-Dangle (some res) =
      Yields-bind (Yields-any (field_columns sv fuel fuel res [])) λ fields _.
        Yields-bind (Yields-any (push_rows sv fuel fuel res fields)) λ results _.
          Yields-bind (Yields-any (free_result sv (some res)))
            λ _ _. record { apply = λ m. dangle-ColumnsDangle results }

  query_columns-Dangle :
      (conn : ℕ) (failed : Bool)
      → Yields
          (if failed then pure [] else (store_result sv fuel (some conn) >>= read_columns sv fuel))
          ColumnsDangle
  query_columns-Dangle conn true = record { apply = λ m. tt }
  query_columns-Dangle conn false =
      Yields-bind (Yields-any (store_result sv fuel (some conn))) λ res _. read_columns-Dangle res

  execute_on-Dangle :
      (conn : Option ℕ) (sql : Bytes) → Yields (execute_on sv fuel conn sql) ColumnsDangle
  unfolding execute_on
  execute_on-Dangle none sql = record { apply = λ m. tt }
  execute_on-Dangle (some conn) sql =
      Yields-bind (Yields-any (query sv (some conn) sql)) λ failed _.
        Yields-bind (query_columns-Dangle conn failed) λ results d.
          Yields-bind (Yields-any (mysql_close sv (some conn))) λ _ _. record { apply = λ m. d }

  execute_sql-Dangle : (sql : Bytes) → Yields (execute_sql sv fuel sql) ColumnsDangle
  unfolding execute_sql
  execute_sql-Dangle sql =
      Yields-bind (Yields-any (mysql_connect sv)) λ conn _. execute_on-Dangle conn sql

  abbrev reading : Option Bytes → Fault
  reading t = elim t [ none ↦ null_pointer | some t ↦ use_after_free ]

  abbrev first_text : List Cell → Option Bytes
  first_text [] = none
  first_text (c ∷ cells) = c.text

  orders_normal-fault :
      (success_count : ℕ) (cells : List Cell) (c : Cell) (rest : List Cell) (m : Machine sv)
      → AllDangle cells
      → cells ≡ c ∷ rest
      → orders_normal sv fuel success_count cells m ≡ fault (reading c.text)
  unfolding orders_normal read_names read_cell parse_int deref
  orders_normal-fault success_count [] c rest m d e = absurd (ground (arith, e))
  orders_normal-fault success_count (x ∷ cells) c rest m (d, ds) e =
      reads_first x.text refl ∙ ap (λ t. fault (reading t)) (ap first_text e)
    where
      reads_first :
          (t : Option Bytes)
          → x.text ≡ t
          → orders_normal sv fuel success_count (x ∷ cells) m ≡ fault (reading x.text)
      reads_first none h = rw (d, h) refl
      reads_first (some t) h = rw (d, h) refl

  -- Whatever column of whatever query: if `executeSql` returned any row in it, then the check of
  -- the orders does not come to compare them. If the first value is NULL, `atoi` is called on the
  -- null pointer; if it is a text, memory is read that was freed.
  pub orders_normal-execute_sql :
      (sql name : Bytes) (success_count : ℕ) (results : Columns) (c : Cell) (rest : List Cell)
      (m m' : Machine sv)
      → execute_sql sv fuel sql m ≡ done results m'
      → find_column sv fuel name results ≡ c ∷ rest
      → orders_normal sv fuel success_count (find_column sv fuel name results) m'
        ≡ fault (elim c.text [ none ↦ null_pointer | some t ↦ use_after_free ])
  orders_normal-execute_sql sql name success_count results c rest m m' e ne =
      orders_normal-fault success_count _ c rest m'
        (find_column-AllDangle sv fuel name results
          (OnDone-eq ColumnsDangle _ results m' ((execute_sql-Dangle sql).apply m) e))
        ne
