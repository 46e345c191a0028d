-- ===== src/World/Keeps.antt =====
-- Rules for calls: a relation between the state before and after that every step keeps, whatever
-- the result, and the inversion of a call that succeeded.
use ptv_mcp.Base.{◌≡◌, refl, ap, subst, Bool, true, false, Option, none, some}
use ptv_mcp.World.Monad.{
  World, Call, Result, ok, err, ServiceError, continue, ◌>>=◌, throw, pure, throw_if, gets, modify,
  or_throw,
}

pub ok-injective : {A : Type 0} (a b : A) → ok a ≡ ok b → a ≡ b
ok-injective a b h = cc

-- Whatever `m` answers, the state after is related to the state before.
pub record Keeps {P A : Type 0} (R : World P → World P → Type 0) (m : Call P A) : Type 0 where
  pub at : (w : World P) → R w (m w).1

module _ {P : Type 0} (R : World P → World P → Type 0)
    (trans : (w v u : World P) → R w v → R v u → R w u) where
  continue-Keeps :
      {A B : Type 0} (f : A → Call P B)
      → ((a : A) → Keeps R (f a))
      → (w : World P) (r : Result A) (v : World P) → R w v
      → R w (continue f r v).1
  continue-Keeps f keep w (ok a) v h = trans w v (f a v).1 h ((keep a).at v)
  continue-Keeps f keep w (err e) v h = h

  pub bind-Keeps :
      {A B : Type 0} (m : Call P A) (f : A → Call P B)
      → Keeps R m
      → ((a : A) → Keeps R (f a))
      → Keeps R (m >>= f)
  unfolding ◌>>=◌
  bind-Keeps m f hm hf = record { at = λ w. continue-Keeps f hf w (m w).0 (m w).1 (hm.at w) }

-- A call that succeeded: its first step did, and so did the rest.
continue-ok :
    {P A B : Type 0} (m : Call P A) (f : A → Call P B) (w u : World P) (b : B) (r : Result A)
    (v : World P)
    → m w ≡ (r, v)
    → continue f r v ≡ (ok b, u)
    → (a : A) × (z : World P) × (m w ≡ (ok a, z)) × (f a z ≡ (ok b, u))
continue-ok m f w u b (ok a) v e h = (a, v, e, h)
continue-ok m f w u b (err x) v e h = cc

pub bind-ok :
    {P A B : Type 0} (m : Call P A) (f : A → Call P B) (w u : World P) (b : B)
    → (m >>= f) w ≡ (ok b, u)
    → (a : A) × (z : World P) × (m w ≡ (ok a, z)) × (f a z ≡ (ok b, u))
unfolding ◌>>=◌
bind-ok m f w u b h = continue-ok m f w u b (m w).0 (m w).1 refl h

pub throw_if-ok :
    {P : Type 0} (c : Bool) (e : ServiceError) (w u : World P)
    → throw_if c e w ≡ (ok tt, u)
    → (c ≡ false) × (w ≡ u)
throw_if-ok true e w u h = cc
throw_if-ok false e w u h = (refl, cc)

-- A guard in front of a call that succeeded has not fired, and the rest ran from the same state.
pub throw_if-bind :
    {P B : Type 0} (c : Bool) (e : ServiceError) (k : Unit {0} → Call P B) (w u : World P) (b : B)
    → (throw_if c e >>= k) w ≡ (ok b, u)
    → (c ≡ false) × (k tt w ≡ (ok b, u))
unfolding ◌>>=◌
throw_if-bind true e k w u b h = cc
throw_if-bind false e k w u b h = (refl, h)

-- A read in front of a call that succeeded.
pub gets-bind :
    {P A B : Type 0} (f : World P → A) (k : A → Call P B) (w u : World P) (b : B)
    → (gets f >>= k) w ≡ (ok b, u)
    → k (f w) w ≡ (ok b, u)
unfolding ◌>>=◌
gets-bind f k w u b h = h

pub or_throw-ok :
    {P A : Type 0} (o : Option A) (e : ServiceError) (w u : World P) (a : A)
    → or_throw o e w ≡ (ok a, u)
    → (o ≡ some a) × (w ≡ u)
or_throw-ok none e w u a h = cc
or_throw-ok (some b) e w u a h = (cc, cc)

-- If the call succeeds from `w`, its answer and the state after satisfy `Q`.
pub record Ensures {P A : Type 0} (w : World P) (m : Call P A) (Q : A → World P → Type 0)
    : Type 0 where
  pub at : (a : A) (u : World P) → m w ≡ (ok a, u) → Q a u

module _ {P A B : Type 0} {w : World P} {Q : B → World P → Type 0} where
  pub bind-Ensures :
      (m : Call P A) (f : A → Call P B)
      → ((a : A) (v : World P) → m w ≡ (ok a, v) → Ensures v (f a) Q)
      → Ensures w (m >>= f) Q
  bind-Ensures m f step = record {
    at = λ b u h. let (a, v, first, rest) = bind-ok m f w u b h in (step a v first).at b u rest;
  }

  pub gets-Ensures :
      (g : World P → A) (f : A → Call P B) → Ensures w (f (g w)) Q → Ensures w (gets g >>= f) Q
  gets-Ensures g f h = record { at = λ b u e. h.at b u (gets-bind g f w u b e) }

module _ {P B : Type 0} {w : World P} {Q : B → World P → Type 0} where
  pub throw_if-Ensures :
      (c : Bool) (e : ServiceError) (f : Unit {0} → Call P B)
      → (c ≡ false → Ensures w (f tt) Q)
      → Ensures w (throw_if c e >>= f) Q
  throw_if-Ensures c e f step = record {
    at = λ b u h. let (open_, rest) = throw_if-bind c e f w u b h in (step open_).at b u rest;
  }

  pub modify-Ensures :
      (g : World P → World P) (f : Unit {0} → Call P B)
      → Ensures (g w) (f tt) Q
      → Ensures w (modify g >>= f) Q
  unfolding ◌>>=◌
  modify-Ensures g f h = record { at = λ b u e. h.at b u e }

  -- A call that only throws ensures anything.
  pub throw-Ensures : {e : ServiceError} → Ensures w (throw e) Q
  throw-Ensures = record { at = λ b u h. absurd (not_ok h) }
    where
      not_ok : {e : ServiceError} {b : B} {u : World P} → throw e w ≡ (ok b, u) → ⊥
      not_ok h = cc

  pub pure-Ensures : {b : B} → Q b w → Ensures w (pure b) Q
  pure-Ensures {b} q = record { at = λ c u h. back c u h }
    where
      back : (c : B) (u : World P) → pure b w ≡ (ok c, u) → Q c u
      back c u h =
          let e : b ≡ c = cc h in
          let s : w ≡ u = cc h in subst (λ x. Q c x) s (subst (λ x. Q x w) e q)

-- What a call ensures, said of an equal state.
pub from_same :
    {P A : Type 0} {w v : World P} {m : Call P A} {Q : A → World P → Type 0}
    → w ≡ v
    → Ensures w m Q
    → Ensures v m Q
from_same {m = m} {Q = Q} e h = subst (λ x. Ensures x m Q) e h

-- What a call does, from what its first step did.
pub bind-run :
    {P A B : Type 0} (m : Call P A) (f : A → Call P B) (w v : World P) (a : A)
    → m w ≡ (ok a, v)
    → (m >>= f) w ≡ f a v
unfolding ◌>>=◌
bind-run m f w v a h = ap (λ x. continue f x.0 x.1) h

pub bind-fail :
    {P A B : Type 0} (m : Call P A) (f : A → Call P B) (w v : World P) (e : ServiceError)
    → m w ≡ (err e, v)
    → (m >>= f) w ≡ (err e, v)
unfolding ◌>>=◌
bind-fail m f w v e h = ap (λ x. continue f x.0 x.1) h
