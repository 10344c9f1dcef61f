-- ===== src/Operator/Action/Rules.antt =====
-- What an action may do: each effect that it performs, and each value that it goes on with. One rule
-- for each way to build an action.
use proxmox_csi_plugin.Prelude.{
  ◌≡◌, refl, Bool, true, false, Option, none, some, All, if◌then◌else◌,
}
use proxmox_csi_plugin.Operator.Action.{
  Env, Effect, Trace, Next, go, return, Action, Outcome, Fault, pure, exit, ask, or_fail, perform,
  call, next_step, ask_or_fail, ◌>>=◌,
}

-- A value that a step goes on with satisfies `Q`.
abbrev pub OnGo : {A : Type 0} → (A → Type 0) → Next A → Type 0
OnGo Q (go a) = Q a
OnGo Q (return o) = Unit

-- Every effect that `m` adds satisfies `P`, and every value that it goes on with satisfies `Q`.
pub record Ensures {A : Type 0} (P : Effect → Type 0) (Q : A → Type 0) (m : Action A) : Type 0 where
  pub effects : (t : Trace) → All P t → All P (m t).1
  pub value : (t : Trace) → OnGo Q (m t).0

abbrev pub Anything : {A : Type 0} → A → Type 0
Anything a = Unit {0}

-- Every effect that `m` adds satisfies `P`.
abbrev pub Emits : {A : Type 0} → (Effect → Type 0) → Action A → Type 0
Emits P m = Ensures P Anything m

module _ {A : Type 0} {P : Effect → Type 0} {Q : A → Type 0} where
  pub Ensures-pure : (a : A) → Q a → Ensures P Q (pure a)
  unfolding pure
  Ensures-pure a q = record { effects = λ t h. h; value = λ t. q }

  pub Ensures-exit : (o : Outcome) → Ensures P Q (exit {A = A} o)
  unfolding exit
  Ensures-exit o = record { effects = λ t h. h; value = λ t. tt }

  pub Ensures-if :
      (b : Bool) (m n : Action A)
      → (b ≡ true → Ensures P Q m)
      → (b ≡ false → Ensures P Q n)
      → Ensures P Q (if b then m else n)
  Ensures-if true m n h k = h refl
  Ensures-if false m n h k = k refl

  pub Ensures-or_fail :
      (f : Fault) (o : Option A) → ((a : A) → o ≡ some a → Q a) → Ensures P Q (or_fail f o)
  unfolding or_fail
  Ensures-or_fail f none h = record { effects = λ t k. k; value = λ t. tt }
  Ensures-or_fail f (some a) h = record { effects = λ t k. k; value = λ t. h a refl }

  pub Ensures-ask : (f : Trace → A) → ((t : Trace) → Q (f t)) → Ensures P Q (ask f)
  unfolding ask
  Ensures-ask f h = record { effects = λ t k. k; value = h }

-- What `ask_or_fail` goes on with is an answer of the environment.
abbrev pub Answered : {A : Type 0} → (Trace → Option A) → A → Type 0
Answered g a = (t : Trace) × (g t ≡ some a)

pub Ensures-ask_or_fail :
    {A : Type 0} {P : Effect → Type 0} (f : Fault) (g : Trace → Option A)
    → Ensures P (Answered g) (ask_or_fail f g)
unfolding ask_or_fail
Ensures-ask_or_fail {A} {P} f g = record {
  effects = λ t k. kept (g t) t k;
  value = λ t. answered t (g t) refl;
}
  where
    kept : (o : Option A) (t : Trace) → All P t → All P (or_fail f o t).1
    kept none t k = k
    kept (some a) t k = k

    answered : (t : Trace) (o : Option A) → g t ≡ o → OnGo (Answered g) (or_fail f o t).0
    answered t none e = tt
    answered t (some a) e = (t, e)

-- A call may be made if its effect is allowed.
pub Emits-perform : {P : Effect → Type 0} (env : Env) (e : Effect) → P e → Emits P (perform env e)
unfolding perform
Emits-perform env e h = record { effects = λ t k. (h, k); value = λ t. tt }

pub Ensures-perform :
    {P : Effect → Type 0} (env : Env) (e : Effect)
    → P e
    → Ensures P (λ b. (t : Trace) × (env.succeeds t e ≡ b)) (perform env e)
unfolding perform
Ensures-perform env e h = record { effects = λ t k. (h, k); value = λ t. (t, refl) }

pub Ensures-call :
    {A : Type 0} {P : Effect → Type 0} (e : Effect) (f : Trace → A)
    → P e
    → Ensures P (λ a. (t : Trace) × (f t ≡ a)) (call e f)
unfolding call
Ensures-call e f h = record { effects = λ t k. (h, k); value = λ t. (t, refl) }

pub Emits-call :
    {A : Type 0} {P : Effect → Type 0} (e : Effect) (f : Trace → A) → P e → Emits P (call e f)
unfolding call
Emits-call e f h = record { effects = λ t k. (h, k); value = λ t. tt }

module _ {A B : Type 0} {P : Effect → Type 0} {Q : A → Type 0} {R : B → Type 0} where
  next_effects :
      (f : A → Action B) (n : Next A) (t : Trace)
      → OnGo Q n
      → ((a : A) → Q a → Ensures P R (f a))
      → All P t
      → All P (next_step n f t).1
  next_effects f (go a) t q h k = (h a q).effects t k
  next_effects f (return o) t q h k = k

  next_value :
      (f : A → Action B) (n : Next A) (t : Trace)
      → OnGo Q n
      → ((a : A) → Q a → Ensures P R (f a))
      → OnGo R (next_step n f t).0
  next_value f (go a) t q h = (h a q).value t
  next_value f (return o) t q h = tt

  pub Ensures-bind :
      (m : Action A) (f : A → Action B)
      → Ensures P Q m
      → ((a : A) → Q a → Ensures P R (f a))
      → Ensures P R (m >>= f)
  unfolding ◌>>=◌
  Ensures-bind m f hm hf = record {
    effects = λ t k. next_effects f (m t).0 (m t).1 (hm.value t) hf (hm.effects t k);
    value = λ t. next_value f (m t).0 (m t).1 (hm.value t) hf;
  }

pub weaken :
    {A : Type 0} {P : Effect → Type 0} {Q : A → Type 0} {m : Action A} → Ensures P Q m → Emits P m
weaken {A} {P} {Q} {m} h = record { effects = h.effects; value = λ t. any (m t).0 }
  where
    any : (n : Next A) → OnGo Anything n
    any (go a) = tt
    any (return o) = tt

pub Ensures-weakened :
    {A : Type 0} {P : Effect → Type 0} {Q R : A → Type 0} {m : Action A}
    → Ensures P Q m
    → ((a : A) → Q a → R a)
    → Ensures P R m
Ensures-weakened {A} {P} {Q} {R} {m} h k = record {
  effects = h.effects;
  value = λ t. through (m t).0 (h.value t);
}
  where
    through : (n : Next A) → OnGo Q n → OnGo R n
    through (go a) q = k a q
    through (return o) q = tt

-- The rules for effects alone, which `search` applies.
module _ {A : Type 0} {P : Effect → Type 0} where
  pub Emits-pure : (a : A) → Emits P (pure a)
  Emits-pure a = Ensures-pure a tt

  pub Emits-exit : (o : Outcome) → Emits P (exit {A = A} o)
  Emits-exit o = Ensures-exit o

  pub Emits-if :
      (b : Bool) (m n : Action A)
      → (b ≡ true → Emits P m)
      → (b ≡ false → Emits P n)
      → Emits P (if b then m else n)
  Emits-if b m n h k = Ensures-if b m n h k

  pub Emits-or_fail : (f : Fault) (o : Option A) → Emits P (or_fail f o)
  Emits-or_fail f o = Ensures-or_fail f o (λ a e. tt)

  pub Emits-ask : (f : Trace → A) → Emits P (ask f)
  Emits-ask f = Ensures-ask f (λ t. tt)

pub Emits-ask_or_fail :
    {A : Type 0} {P : Effect → Type 0} (f : Fault) (g : Trace → Option A)
    → Emits P (ask_or_fail f g)
Emits-ask_or_fail f g = weaken (Ensures-ask_or_fail f g)

module _ {A B : Type 0} {P : Effect → Type 0} where
  pub Emits-bind :
      (m : Action A) (f : A → Action B) → Emits P m → ((a : A) → Emits P (f a)) → Emits P (m >>= f)
  Emits-bind m f hm hf = Ensures-bind m f hm (λ a q. hf a)

pub ruleset emits_rules = (
  Emits-pure, Emits-exit, Emits-if, Emits-or_fail, Emits-ask, Emits-ask_or_fail, Emits-perform,
  Emits-call, Emits-bind,
)
