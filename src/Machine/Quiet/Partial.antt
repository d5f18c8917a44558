-- ===== src/Machine/Quiet/Partial.antt =====
-- Partial correctness: what holds if code returns, and that it is not cut off.
use docker_compose_seckill_s.Base.{
  Bool, true, false, ◌≡◌, refl, sym, subst, if◌then◌else◌, Option, none, some,
}
use docker_compose_seckill_s.Services.{Services}
use docker_compose_seckill_s.Machine.Monad.{
  Machine, Outcome, done, fault, M, Fault, out_of_passes, ◌>>=◌,
}
use docker_compose_seckill_s.Machine.Returns.{Returns, ReturnsWith}

-- Every fault but the one that says that `seckillGoods` was given too few attempts.
abbrev pub is_stop : Fault → Bool
is_stop out_of_passes = false
is_stop _ = true

abbrev pub Holds : {sv : Services} {A : Type 0} → (A → Machine sv → Type 0) → Outcome sv A → Type 0
Holds P (done a m) = P a m
Holds P (fault e) = is_stop e ≡ true

-- If `act` returns when it is run on `m`, then `P` holds of its result and of the state; if it
-- stops, that is not for want of attempts.
pub record Ensures {sv : Services} {A : Type 0} (act : M sv A) (m : Machine sv)
    (P : A → Machine sv → Type 0) : Type 0 where
  pub apply : Holds P (act m)

module _ {sv : Services} where
  pub Holds-bind :
      {A B : Type 0} (P : A → Machine sv → Type 0) (Q : B → Machine sv → Type 0) (o : Outcome sv A)
      (f : A → M sv B)
      → Holds P o
      → ((a : A) (m' : Machine sv) → P a m' → Ensures (f a) m' Q)
      → Holds Q (elim o [ done a m' ↦ f a m' | fault e ↦ fault e ])
  Holds-bind P Q (done a m') f h k = (k a m' h).apply
  Holds-bind P Q (fault e) f h k = h

  pub Ensures-bind :
      {A B : Type 0} {P : A → Machine sv → Type 0} {Q : B → Machine sv → Type 0} {act : M sv A}
      {f : A → M sv B} {m : Machine sv}
      → Ensures act m P
      → ((a : A) (m' : Machine sv) → P a m' → Ensures (f a) m' Q)
      → Ensures (act >>= f) m Q
  Ensures-bind {P} {Q} {act} {f} {m} h k = record { apply = Holds-bind P Q (act m) f h.apply k }

  Holds-map :
      {A : Type 0} (P Q : A → Machine sv → Type 0) (o : Outcome sv A)
      → Holds P o
      → ((a : A) (m : Machine sv) → P a m → Q a m)
      → Holds Q o
  Holds-map P Q (done a m) h k = k a m h
  Holds-map P Q (fault e) h k = h

  pub Ensures-map :
      {A : Type 0} {P Q : A → Machine sv → Type 0} {act : M sv A} {m : Machine sv}
      → Ensures act m P
      → ((a : A) (m' : Machine sv) → P a m' → Q a m')
      → Ensures act m Q
  Ensures-map {P} {Q} {act} {m} h k = record { apply = Holds-map P Q (act m) h.apply k }

  pub Ensures-if :
      {A : Type 0} {P : A → Machine sv → Type 0} (b : Bool) {x y : M sv A} {m : Machine sv}
      → Ensures x m P
      → Ensures y m P
      → Ensures (if b then x else y) m P
  Ensures-if true h k = h
  Ensures-if false h k = k

  pub Ensures-option :
      {A B : Type 0} {P : B → Machine sv → Type 0} (o : Option A) {x : M sv B} {f : A → M sv B}
      {m : Machine sv}
      → Ensures x m P
      → ((a : A) → Ensures (f a) m P)
      → Ensures (elim o [ none ↦ x | some a ↦ f a ]) m P
  Ensures-option none h k = h
  Ensures-option (some a) h k = k a

  -- The test is known in each branch.
  pub Ensures-test :
      {A : Type 0} {P : A → Machine sv → Type 0} (b : Bool) {x y : M sv A} {m : Machine sv}
      → (b ≡ true → Ensures x m P)
      → (b ≡ false → Ensures y m P)
      → Ensures (if b then x else y) m P
  Ensures-test true h k = h refl
  Ensures-test false h k = k refl

  -- A step whose result is known.
  pub Ensures-step :
      {A B : Type 0} {Q : B → Machine sv → Type 0} (act : M sv A) (f : A → M sv B) {m : Machine sv}
      {a : A} {m1 : Machine sv}
      → act m ≡ done a m1
      → Ensures (f a) m1 Q
      → Ensures (act >>= f) m Q
  Ensures-step {Q} act f e h = record {
    apply =
        subst (λ o. Holds Q (elim o [ done b m' ↦ f b m' | fault x ↦ fault x ])) (sym e) h.apply;
  }

  Holds-returned :
      {A : Type 0} (P : A → Machine sv → Type 0) (o : Outcome sv A) → ReturnsWith P o → Holds P o
  Holds-returned P (done a m) h = h
  Holds-returned P (fault e) h = absurd h

  pub Returns-Ensures :
      {A : Type 0} {P : A → Machine sv → Type 0} {act : M sv A} {m : Machine sv}
      → Returns act m P
      → Ensures act m P
  Returns-Ensures {P} {act} {m} h = record { apply = Holds-returned P (act m) h.apply }

  both_hold :
      {A : Type 0} (P Q : A → Machine sv → Type 0) (o : Outcome sv A)
      → Holds P o
      → Holds Q o
      → Holds (λ a m'. P a m' × Q a m') o
  both_hold P Q (done a m) h k = (h, k)
  both_hold P Q (fault e) h k = h

  pub Ensures-both :
      {A : Type 0} {P Q : A → Machine sv → Type 0} {act : M sv A} {m : Machine sv}
      → Ensures act m P
      → Ensures act m Q
      → Ensures act m (λ a m'. P a m' × Q a m')
  Ensures-both {P} {Q} {act} {m} h k = record { apply = both_hold P Q (act m) h.apply k.apply }
