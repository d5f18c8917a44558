-- ===== src/Worker/Admission.antt =====
-- GRPC/src/Worker.cc: whom `Proceed` lets through to the goods, over Redis.
use docker_compose_seckill_s.Base.{
  ℕ, ◌+◌, ◌≡◌, subst, ◌≢◌, ◌⊎◌, inl, inr, refl, ap, ◌∙◌, Bool, true, false, Bytes, List, [], ◌∷◌,
  Option, none, some, codes, c_str, text_eq, text_eq→eq, arith,
}
use docker_compose_seckill_s.Services.{Services, Reply}
use docker_compose_seckill_s.Machine.{Machine, done, pure, ◌>>=◌, ◌>>◌}
use docker_compose_seckill_s.Machine.Calls.{command, free_reply, set_result, deref, replies_in}
use docker_compose_seckill_s.Machine.Quiet.{
  books, Ensures, Ensures-bind, Ensures-map, Ensures-test, Ensures-step,
}
use docker_compose_seckill_s.Worker.Check.{
  matches_key, check_user_info, has_text, check_user_has_got, is_string,
}
use docker_compose_seckill_s.Worker.Lends.{seckill_goods-Keeps}
use docker_compose_seckill_s.Worker.Proceed.{answer}
use docker_compose_seckill_s.Worker.Verdict.{answered}

-- The reply is a string with the text `key`.
pub record IsKey (key : Bytes) (reply : Option Reply) : Type 0 where
  pub r : Reply
  pub text : Bytes
  pub replied : reply ≡ some r
  pub string : is_string r.type ≡ true
  pub content : r.str ≡ some text
  pub same : key ≡ c_str text

-- The reply is no string.
abbrev pub IsNoString : Option Reply → Type 0
IsNoString reply =
    (r : Reply) (t : Bytes) → reply ≡ some r → is_string r.type ≡ true → r.str ≢ some t

module _ (sv : Services) (name key : Bytes) (conn : ℕ) where
  open sv use {World}

  -- What Redis says of the user's key, and what of an order, and the world after each.
  abbrev pub find_key : World → Option Reply × World
  find_key w = sv.redis_command conn (codes "HGET usr_info %s") (c_str name ∷ []) w

  abbrev pub find_order : World → Option Reply × World
  find_order w = sv.redis_command conn (codes "HGET order_info %s") (c_str name ∷ []) w

  -- The request was let through, or it was answered "0" and nothing else was done.
  pub data Admission (m m' : Machine sv) : Type 0 where
    admitted :
        IsKey key (find_key m.world).0
        → IsNoString (find_order (find_key m.world).1).0
        → Admission m m'
    turned_away :
        (m'.world ≡ (find_key m.world).1) ⊎ (m'.world ≡ (find_order (find_key m.world).1).1)
        → books m' ≡ answered (codes "0") (books m)
        → Admission m m'

  module _ (fuel : ℕ) where
    command_step :
        (format : Bytes) (args : List Bytes) (m : Machine sv)
        → let (r, w) = sv.redis_command conn format args m.world in
          command sv (some conn) format args m
          ≡ done r (record m { world = w; replies_made = m.replies_made + replies_in r })
    unfolding command
    command_step format args m = refl

    matches_key-IsKey :
        (r : Option Reply) (m : Machine sv)
        → Ensures (matches_key sv fuel r key) m (λ b m'. (m' ≡ m) × (b ≡ true → IsKey key r))
    unfolding matches_key deref
    matches_key-IsKey none m = record { apply = (refl, λ t. absurd (ground arith)) }
    matches_key-IsKey (some r) m =
        Ensures-test (is_string r.type) (λ is. compares r r.str is refl m)
          λ _. record { apply = (refl, λ t. absurd (ground arith)) }
      where
        compares :
            (r : Reply) (s : Option Bytes)
            → is_string r.type ≡ true
            → r.str ≡ s
            → (m : Machine sv)
            → Ensures
                (do k ← deref sv s; pure (text_eq key k))
                m
                (λ b m'. (m' ≡ m) × (b ≡ true → IsKey key (some r)))
        compares r none is e m = record { apply = refl }
        compares r (some t) is e m = record {
          apply = (
            refl,
            λ same. record {
              r = r;
              text = t;
              replied = refl;
              string = is;
              content = e;
              same = text_eq→eq key (c_str t) same;
            },
          );
        }

    abbrev Looked : Machine sv → World → Machine sv → Type 0
    Looked m w m' = (m'.world ≡ w) × (books m' ≡ books m)

    frees :
        (r : Option Reply) (b : Bool) (m : Machine sv)
        → Ensures (do free_reply sv r; pure b) m (λ b' m'. (b' ≡ b) × Looked m m.world m')
    unfolding free_reply
    frees r b m = record { apply = (refl, (refl, refl)) }

    knows_key :
        (mysql : Option ℕ) (m : Machine sv)
        → Ensures
            (check_user_info sv fuel name key (some conn) mysql)
            m
            (λ b m'. Looked m (find_key m.world).1 m' × (b ≡ true → IsKey key (find_key m.world).0))
    unfolding check_user_info
    knows_key mysql m = Ensures-step (command sv (some conn) _ _) _ (command_step _ _ m) (
        Ensures-bind (matches_key-IsKey (find_key m.world).0 _) λ matched m2 p.
          Ensures-test matched
            (λ t. record {
              apply = ((ap (λ (x : Machine sv). x.world) p.0, ap books p.0), λ _. p.1 t);
            })
            λ _. Ensures-map (frees _ false m2) λ b m3 q. (
              (q.1.0 ∙ ap (λ (x : Machine sv). x.world) p.0, q.1.1 ∙ ap books p.0),
              λ t. absurd (ground (arith, t, q.0)),
            ))

    has_text-true :
        (r : Reply) (t : Bytes)
        → is_string r.type ≡ true
        → r.str ≡ some t
        → has_text sv fuel (some r) ≡ true
    unfolding has_text
    has_text-true r t is e = rw (is, e) refl

    no_text : (o : Option Reply) → has_text sv fuel o ≡ false → IsNoString o
    no_text o h r t e is s = ground (arith, h, ap (has_text sv fuel) e, has_text-true r t is s)

    refuses :
        (m : Machine sv)
        → Ensures
            (set_result sv (codes "0"))
            m
            (λ _ m'. (m'.world ≡ m.world) × (books m' ≡ answered (codes "0") (books m)))
    unfolding set_result
    refuses m = record { apply = (refl, refl) }

    has_no_order :
        (mysql : Option ℕ) (m : Machine sv)
        → Ensures (check_user_has_got sv fuel name key (some conn) mysql) m (λ b m'.
          Looked m (find_order m.world).1 m' × (b ≡ false → IsNoString (find_order m.world).0))
    unfolding check_user_has_got
    has_no_order mysql m = Ensures-step (command sv (some conn) _ _) _ (command_step _ _ m) (
        Ensures-test (has_text sv fuel (find_order m.world).0)
          (λ t. record { apply = ((refl, refl), λ f. absurd (ground arith)) })
          λ f. Ensures-map (frees _ false _) λ b m3 q. (q.1, λ _. no_text _ f))

    -- Over Redis, with any servers: a request gets through to the goods only if Redis's reply to
    -- HGET usr_info is the key that was sent, as a C text, and its reply to HGET order_info is no
    -- string; any other request is answered "0" and does nothing but ask these questions: the
    -- world, the counters, the lock and the other workers are as these leave them.
    pub answer-Admission :
        (mysql : Option ℕ) (m : Machine sv)
        → Ensures (answer sv fuel name key (some conn) mysql) m (λ _ m'. Admission m m')
    unfolding answer
    answer-Admission mysql m = Ensures-bind (knows_key mysql m) λ known m1 p.
        Ensures-test known
          (λ yes. Ensures-bind (has_no_order mysql m1) λ got m2 q.
            Ensures-test got
              (λ _. Ensures-map (refuses m2) λ _ m3 e.
                turned_away (inr (e.0 ∙ q.0.0 ∙ ap (λ w. (find_order w).1) p.0.0))
                  (e.1 ∙ ap (answered (codes "0")) (q.0.1 ∙ p.0.1)))
              λ no.
                Ensures-map ((seckill_goods-Keeps sv fuel name key (some conn) mysql).apply m2)
                  λ _ m3 _.
                    admitted (p.1 yes) (subst (λ w. IsNoString (find_order w).0) p.0.0 (q.1 no)))
          λ _.
            Ensures-map (refuses m1)
              λ _ m2 e. turned_away (inl (e.0 ∙ p.0.0)) (e.1 ∙ ap (answered (codes "0")) p.0.1)
