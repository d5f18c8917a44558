-- ===== src/Machine/Returns.antt =====
-- Code that returns, and what holds then.
use docker_compose_seckill_s.Base.{Bool, true, false, ◌≡◌, refl, subst, sym, if◌then◌else◌}
use docker_compose_seckill_s.Services.{Services}
use docker_compose_seckill_s.Machine.Monad.{Machine, Outcome, done, fault, M, ◌>>=◌}

abbrev pub ReturnsWith :
    {sv : Services} {A : Type 0} → (A → Machine sv → Type 0) → Outcome sv A → Type 0
ReturnsWith P (done a m) = P a m
ReturnsWith P (fault e) = ⊥

-- `act` does not fault when it is run on `m`, and `P` holds of its result and of the state.
pub record Returns {sv : Services} {A : Type 0} (act : M sv A) (m : Machine sv)
    (P : A → Machine sv → Type 0) : Type 0 where
  pub apply : ReturnsWith P (act m)

module _ {sv : Services} where
  ReturnsWith-bind :
      {A B : Type 0} (P : A → Machine sv → Type 0) (Q : B → Machine sv → Type 0) (o : Outcome sv A)
      (f : A → M sv B)
      → ReturnsWith P o
      → ((a : A) (m' : Machine sv) → P a m' → Returns (f a) m' Q)
      → ReturnsWith Q (elim o [ done a m' ↦ f a m' | fault e ↦ fault e ])
  ReturnsWith-bind P Q (done a m') f h k = (k a m' h).apply
  ReturnsWith-bind P Q (fault e) f h k = absurd h

  pub Returns-bind :
      {A B : Type 0} {P : A → Machine sv → Type 0} {Q : B → Machine sv → Type 0} {act : M sv A}
      {f : A → M sv B} {m : Machine sv}
      → Returns act m P
      → ((a : A) (m' : Machine sv) → P a m' → Returns (f a) m' Q)
      → Returns (act >>= f) m Q
  Returns-bind {P} {Q} {act} {f} {m} h k = record {
    apply = ReturnsWith-bind P Q (act m) f h.apply k;
  }

  ReturnsWith-map :
      {A : Type 0} (P Q : A → Machine sv → Type 0) (o : Outcome sv A)
      → ReturnsWith P o
      → ((a : A) (m : Machine sv) → P a m → Q a m)
      → ReturnsWith Q o
  ReturnsWith-map P Q (done a m) h k = k a m h
  ReturnsWith-map P Q (fault e) h k = absurd h

  pub Returns-map :
      {A : Type 0} {P Q : A → Machine sv → Type 0} {act : M sv A} {m : Machine sv}
      → Returns act m P
      → ((a : A) (m' : Machine sv) → P a m' → Q a m')
      → Returns act m Q
  Returns-map {P} {Q} {act} {m} h k = record { apply = ReturnsWith-map P Q (act m) h.apply k }

  -- The test is known in each branch.
  pub Returns-if :
      {A : Type 0} {P : A → Machine sv → Type 0} (b : Bool) {x y : M sv A} {m : Machine sv}
      → (b ≡ true → Returns x m P)
      → (b ≡ false → Returns y m P)
      → Returns (if b then x else y) m P
  Returns-if true h k = h refl
  Returns-if false h k = k refl

  -- A step whose result is known.
  pub Returns-step :
      {A B : Type 0} {Q : B → Machine sv → Type 0} (act : M sv A) (f : A → M sv B) {m : Machine sv}
      {a : A} {m1 : Machine sv}
      → act m ≡ done a m1
      → Returns (f a) m1 Q
      → Returns (act >>= f) m Q
  Returns-step {Q} act f e h = record {
    apply =
        subst (λ o. ReturnsWith Q (elim o [ done b m' ↦ f b m' | fault x ↦ fault x ])) (sym e)
          h.apply;
  }
