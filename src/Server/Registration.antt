-- ===== src/Server/Registration.antt =====
-- GRPC/src/seckill_server.cc: the INSERT that `prepareForSeckill` sends to register users.
use docker_compose_seckill_s.Base.{
  ℕ, zero, suc, ◌+◌, ◌<◌, ◌≡◌, ap, ◌∙◌, true, false, List, [], ◌∷◌, ◌++◌, append_assoc, Bytes,
  codes, to_string, arith, ◌==◌,
}
use docker_compose_seckill_s.Server.Prepare.{user_key, user_values, append_users, insert_users}

-- The reference: the rows of a VALUES list, with a comma between two of them.
abbrev pub user_row : Bytes → ℕ → Bytes
user_row junk i = codes "('" ++ to_string i ++ codes "','" ++ user_key junk i ++ codes "')"

pub user_rows : Bytes → ℕ → ℕ → List Bytes
user_rows junk first zero = []
user_rows junk first (suc n) = user_row junk first ∷ user_rows junk (suc first) n

pub separate : List Bytes → Bytes
separate [] = []
separate (row ∷ []) = row
separate (row ∷ next ∷ rows) = row ++ codes "," ++ separate (next ∷ rows)

==_self : (i : ℕ) → (i == i) ≡ true
==_self i = ground arith

user_values-last : (junk : Bytes) (i : ℕ) → user_values junk i i ≡ user_row junk i
unfolding user_values
user_values-last junk i = rw (==_self i) (simp (append_assoc))

user_values-other :
    (junk : Bytes) (last i : ℕ)
    → (i == last) ≡ false
    → user_values junk last i ≡ user_row junk i ++ codes ","
unfolding user_values
user_values-other junk last i ne = rw ne (simp (append_assoc))

append_users_split :
    (junk : Bytes) (last a b i : ℕ) (sql : Bytes)
    → append_users junk last (a + b) i sql
      ≡ append_users junk last b (a + i) (append_users junk last a i sql)
unfolding append_users
append_users_split junk last zero b i sql =
    ap (λ k. append_users junk last k i sql) {x = zero + b} {y = b} (omega arith)
    ∙ ap (λ k. append_users junk last b k sql) {x = i} {y = zero + i} (omega arith)
append_users_split junk last (suc a) b i sql =
    ap (λ k. append_users junk last k i sql) {x = suc a + b} {y = suc (a + b)} (omega arith)
    ∙ append_users_split junk last a b (suc i) (sql ++ user_values junk last i)
    ∙ ap (λ k. append_users junk last b k (append_users junk last (suc a) i sql)) {x = a + suc i}
        {y = suc a + i} (omega arith)

-- With `last` the number of the last user, the text is a VALUES list.
append_users_to_last :
    (junk : Bytes) (n i : ℕ) (sql : Bytes)
    → append_users junk (n + i) (suc n) i sql ≡ sql ++ separate (user_rows junk i (suc n))
unfolding append_users user_rows separate
append_users_to_last junk zero i sql =
    ap (λ k. append_users junk k 1 i sql) {x = zero + i} {y = i} (omega arith)
    ∙ ap (λ t. sql ++ t) (user_values-last junk i)
append_users_to_last junk (suc n) i sql =
    ap (λ k. append_users junk k (suc n) (suc i) (sql ++ user_values junk k i)) {x = suc n + i}
      {y = n + suc i} (omega arith)
    ∙ append_users_to_last junk n (suc i) (sql ++ user_values junk (n + suc i) i)
    ∙ ap (λ t. (sql ++ t) ++ separate (user_rows junk (suc i) (suc n)))
        (user_values-other junk (n + suc i) i (ground arith))
    ∙ simp (append_assoc)

-- With `last` below the first user, a comma follows each row.
append_users_beyond :
    (junk : Bytes) (last n i : ℕ) (sql : Bytes)
    → last < i
    → append_users junk last (suc n) i sql ≡ sql ++ separate (user_rows junk i (suc n)) ++ codes ","
unfolding append_users user_rows separate
append_users_beyond junk last zero i sql above =
    ap (λ t. sql ++ t) (user_values-other junk last i (ground arith)) ∙ simp (append_assoc)
append_users_beyond junk last (suc n) i sql above =
    append_users_beyond junk last n (suc i) (sql ++ user_values junk last i) (omega arith)
    ∙ ap (λ t. (sql ++ t) ++ separate (user_rows junk (suc i) (suc n)) ++ codes ",")
        (user_values-other junk last i (ground arith))
    ∙ simp (append_assoc)

-- The text of the INSERT for every content `junk` of the stack: the rows of users 1 to 300 form
-- a VALUES list, those of users 301 to 400 follow without a comma between, and a comma ends it.
pub insert_users-eq :
    (junk : Bytes)
    → insert_users junk
      ≡ codes "INSERT INTO usr_info(usr_name,usr_key) VALUES "
        ++ separate (user_rows junk 1 300)
        ++ separate (user_rows junk 301 100)
        ++ codes ","
unfolding insert_users
insert_users-eq junk =
    append_users_split junk 300 300 100 1 _
    ∙ append_users_beyond junk 300 99 301 _ (omega arith)
    ∙ ap (λ t. t ++ separate (user_rows junk 301 100) ++ codes ",")
        (append_users_to_last junk 299 1 (codes "INSERT INTO usr_info(usr_name,usr_key) VALUES "))
