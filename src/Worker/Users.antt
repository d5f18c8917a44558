-- ===== src/Worker/Users.antt =====
-- GRPC/src/Worker.cc: `checkUserInfo` over Redis and `checkUserInfo_mysql` find out the same, where
-- both stores hold the same users.
use docker_compose_seckill_s.Base.{
  ℕ, zero, suc, ◌+◌, ◌≤◌, ◌<◌, ◌≡◌, refl, sym, subst, ap, ◌∙◌, Bool, true, false, Bytes, List, [],
  ◌∷◌, Option, none, some, codes, c_str, text_eq, length, if◌then◌else◌, arith,
}
use docker_compose_seckill_s.Services.{Services, Reply, Row}
use docker_compose_seckill_s.Machine.{Machine, M, done, pure, ◌>>=◌, ◌>>◌}
use docker_compose_seckill_s.Machine.Calls.{
  deref, sprintf_200, command, free_reply, query, use_result, num_fields, free_result, column,
  replies_in,
}
use docker_compose_seckill_s.Machine.Returns.{Returns, Returns-bind, Returns-if, Returns-step}
use docker_compose_seckill_s.Worker.Check.{
  is_string, select_key, key_in_row, key_in_rows, matches_key, check_user_info,
  check_user_info_mysql,
}
use docker_compose_seckill_s.Worker.Stock.{GoodsDb, IsPlain}
use docker_compose_seckill_s.Worker.Trade.Rows.{
  fetch_first, fetch_last, on_some, on_none, query_lem, use_result_lem, free_result-Returns,
}
use docker_compose_seckill_s.Worker.Trade.Statements.{sprintf_200_lem}

-- The answer of HGET: the key in a string, or no string.
abbrev pub HasKey : Option Bytes → Option Reply → Type 0
HasKey (some key) (some r) = (is_string r.type ≡ true) × (r.str ≡ some key)
HasKey (some key) none = ⊥
HasKey none (some r) = is_string r.type ≡ false
HasKey none none = Unit {0}

-- The rows of the SELECT.
abbrev pub key_rows : Option Bytes → List Row
key_rows none = []
key_rows (some key) = (some key ∷ []) ∷ []

-- Both stores hold the same users, the key by the name: Redis says so where it is up and the
-- connection is in no transaction, MySQL for a name that does not end the text of the query.
pub record SameUsers {sv : Services} (db : GoodsDb sv) : Type 0 where
  pub users : sv.World → Bytes → Option Bytes
  pub is_up : ℕ → sv.World → Bool
  pub in_redis :
      (conn : ℕ) (name : Bytes) (w : sv.World)
      → is_up conn w ≡ true
      → HasKey
          (users w name)
          (sv.redis_command conn (codes "HGET usr_info %s") (c_str name ∷ []) w).0
  pub in_mysql :
      (c : ℕ) (name : Bytes) (w : sv.World)
      → IsPlain name
      → (sv.mysql_query c (select_key name) w).0 ≡ false
      → let (res, w') = sv.mysql_use_result c (sv.mysql_query c (select_key name) w).1 in
        (r : ℕ) × (res ≡ some r)
        × (db.unread r w' ≡ key_rows (users w name))
        × (sv.mysql_num_fields r w' ≡ 1)

-- Whether the key of a user is the one that was sent, as C texts.
abbrev pub knows : Option Bytes → Bytes → Bool
knows none usr_key = false
knows (some key) usr_key = text_eq usr_key (c_str key)

text_eq_sym : (a b : Bytes) → text_eq a b ≡ text_eq b a
unfolding text_eq
text_eq_sym [] [] = refl
text_eq_sym [] (y ∷ ys) = refl
text_eq_sym (x ∷ xs) [] = refl
text_eq_sym (x ∷ xs) (y ∷ ys) = ground (arith, text_eq_sym xs ys)

module _ {sv : Services} (db : GoodsDb sv) (fuel : ℕ) where
  matches_key-Returns :
      (r : Option Reply) (user : Option Bytes) (key : Bytes) (m : Machine sv)
      → HasKey user r
      → Returns (matches_key sv fuel r key) m (λ b _. b ≡ knows user key)
  unfolding matches_key deref
  matches_key-Returns none none key m h = record { apply = refl }
  matches_key-Returns none (some k) key m h = absurd h
  matches_key-Returns (some r) none key m h = record { apply = rw h refl }
  matches_key-Returns (some r) (some k) key m (is, e) = record { apply = rw (is, e) refl }

  command_lem :
      (conn : ℕ) (format : Bytes) (args : List Bytes) (m : Machine sv)
      → let (r, w) = sv.redis_command conn format args m.world in
        command sv (some conn) format args m
        ≡ done r (record m { world = w; replies_made = m.replies_made + replies_in r })
  unfolding command
  command_lem conn format args m = refl

  free_reply-Returns :
      (r : Option Reply) (m : Machine sv) → Returns (free_reply sv r) m (λ _ _. Unit {0})
  unfolding free_reply
  free_reply-Returns r m = record { apply = tt }

  redis_knows :
      (same : SameUsers db) (name key : Bytes) (conn : ℕ) (mysql : Option ℕ) (m : Machine sv)
      → same.is_up conn m.world ≡ true
      → Returns
          (check_user_info sv fuel name key (some conn) mysql)
          m
          (λ b _. b ≡ knows (same.users m.world name) key)
  unfolding check_user_info
  redis_knows same name key conn mysql m up =
      Returns-step (command sv (some conn) (codes "HGET usr_info %s") (c_str name ∷ [])) _
        (command_lem conn (codes "HGET usr_info %s") (c_str name ∷ []) m)
        (Returns-bind
          (matches_key-Returns _ (same.users m.world name) key _
            (same.in_redis conn name m.world up))
          λ matched m2 e.
            Returns-if matched (λ t. record { apply = sym t ∙ e })
              (λ f. Returns-bind (free_reply-Returns _ m2) λ _ m3 _. record { apply = sym f ∙ e }))

  if_same : (b : Bool) → (if b then true else false) ≡ b
  if_same true = refl
  if_same false = refl

  key_in_row-Returns :
      (r : ℕ) (k key : Bytes) (m : Machine sv)
      → sv.mysql_num_fields r m.world ≡ 1
      → Returns
          (key_in_row sv fuel key (some r) (some k ∷ []) false)
          m
          (λ b m'. (b ≡ knows (some k) key) × (m' ≡ m))
  unfolding key_in_row num_fields column deref
  key_in_row-Returns r k key m e = record {
    apply = rw e (if_same (text_eq (c_str k) key) ∙ text_eq_sym (c_str k) key, refl);
  }

  key_in_rows-Returns :
      (rounds c r : ℕ) (user : Option Bytes) (key : Bytes) (m : Machine sv)
      → 2 ≤ rounds
      → db.unread r m.world ≡ key_rows user
      → sv.mysql_num_fields r m.world ≡ 1
      → Returns (key_in_rows sv fuel rounds key (some r) false) m (λ b _. b ≡ knows user key)
  unfolding key_in_rows
  key_in_rows-Returns zero c r user key m two rows cols = absurd (omega arith)
  key_in_rows-Returns (suc zero) c r user key m two rows cols = absurd (omega arith)
  key_in_rows-Returns (suc (suc rounds)) c r none key m two rows cols =
      Returns-bind (fetch_last db c r m rows)
        λ row m1 p. on_none db c _ _ p.0 (record { apply = refl })
  key_in_rows-Returns (suc (suc rounds)) c r (some k) key m two rows cols =
      Returns-bind (fetch_first db c r _ [] m rows) λ row m1 p. on_some db c _ _ p.0 (
        Returns-bind (key_in_row-Returns r k key m1 (p.2 ∙ cols)) λ b m2 q.
          Returns-bind
            (fetch_last db c r m2 (ap (λ (x : Machine sv). db.unread r x.world) q.1 ∙ p.1))
            λ row2 m3 t. on_none db c _ _ t.0 (record { apply = q.0 }))

  mysql_knows :
      (same : SameUsers db) (name key : Bytes) (c : ℕ) (m : Machine sv)
      → IsPlain name
      → 2 ≤ fuel
      → length (select_key name) < 200
      → (sv.mysql_query c (select_key name) m.world).0 ≡ false
      → Returns
          (check_user_info_mysql sv fuel name key (some c))
          m
          (λ b _. b ≡ knows (same.users m.world name) key)
  unfolding check_user_info_mysql
  mysql_knows same name key c m plain two fits ok =
      Returns-step (sprintf_200 sv (select_key name)) _
        (sprintf_200_lem db c (select_key name) m fits)
        (Returns-step (query sv (some c) (select_key name)) _ (query_lem db c (select_key name) m) (
          Returns-if (sv.mysql_query c (select_key name) m.world).0
            (λ t. absurd (ground (arith, t, ok)))
            λ _. Returns-step (use_result sv (some c)) _ (use_result_lem db c _) (
              let (r, e, rows, cols) = same.in_mysql c name m.world plain ok in
              subst
                (λ res. Returns (answer_of res) m2 (λ b _. b ≡ knows (same.users m.world name) key))
                (sym e)
                (Returns-bind
                  (key_in_rows-Returns fuel c r (same.users m.world name) key m2 two rows cols)
                  λ b m3 q.
                    Returns-bind (free_result-Returns db c r m3) λ _ m4 _. record { apply = q }))))
    where
      m2 : Machine sv
      m2 = record m {
        world = (sv.mysql_use_result c (sv.mysql_query c (select_key name) m.world).1).1;
      }

      answer_of : Option ℕ → M sv Bool
      answer_of res = do
        is_usr ← key_in_rows sv fuel fuel key res false
        free_result sv res
        pure is_usr

  -- Where both stores hold the same users, Redis is up and the name is of digits and small letters
  -- (a quote in it would change the query), the key of a user is checked with the same result over
  -- Redis and over MySQL, and both checks come to an end, if there are two rounds for the rows, the
  -- statement fits its buffer and the query succeeds.
  pub check_user_info-eq :
      (same : SameUsers db) (name key : Bytes) (conn c : ℕ) (m : Machine sv)
      → same.is_up conn m.world ≡ true
      → IsPlain name
      → 2 ≤ fuel
      → length (select_key name) < 200
      → (sv.mysql_query c (select_key name) m.world).0 ≡ false
      → Returns
          (check_user_info sv fuel name key (some conn) (some c))
          m
          (λ b _. b ≡ knows (same.users m.world name) key)
        × Returns
            (check_user_info sv fuel name key none (some c))
            m
            (λ b _. b ≡ knows (same.users m.world name) key)
  unfolding check_user_info
  check_user_info-eq same name key conn c m up plain two fits ok = (
    redis_knows same name key conn (some c) m up,
    mysql_knows same name key c m plain two fits ok,
  )
