-- ===== src/Operator/Action/Runs.antt =====
-- What an action does from a trace, step by step.
use proxmox_csi_plugin.Prelude.{◌≡◌, refl, ap, Bool, true, false, ◌∷◌, Option, some, if◌then◌else◌}
use proxmox_csi_plugin.Operator.Action.{
  Env, Effect, Trace, go, return, Action, Outcome, Fault, pure, exit, ask, or_fail, perform, call,
  ask_or_fail, ◌>>=◌,
}

module _ {A B : Type 0} where
  -- A step that goes on.
  pub bind_go :
      (m : Action A) (f : A → Action B) (t u : Trace) (a : A)
      → m t ≡ (go a, u)
      → (m >>= f) t ≡ f a u
  unfolding ◌>>=◌
  bind_go m f t u a h = rw h refl

  -- A step that returns.
  pub bind_return :
      (m : Action A) (f : A → Action B) (t u : Trace) (o : Outcome)
      → m t ≡ (return o, u)
      → (m >>= f) t ≡ (return o, u)
  unfolding ◌>>=◌
  bind_return m f t u o h = rw h refl

module _ {A : Type 0} where
  pub pure_go : (a : A) (t : Trace) → pure a t ≡ (go a, t)
  unfolding pure
  pure_go a t = refl

  pub exit_return : (o : Outcome) (t : Trace) → exit {A = A} o t ≡ (return o, t)
  unfolding exit
  exit_return o t = refl

  pub ask_go : (f : Trace → A) (t : Trace) → ask f t ≡ (go (f t), t)
  unfolding ask
  ask_go f t = refl

  pub ask_or_fail_go :
      (f : Fault) (g : Trace → Option A) (t : Trace) (a : A)
      → g t ≡ some a
      → ask_or_fail f g t ≡ (go a, t)
  unfolding ask_or_fail ◌>>=◌ ask or_fail
  ask_or_fail_go f g t a h = rw h refl

pub perform_go :
    (env : Env) (e : Effect) (t : Trace) → perform env e t ≡ (go (env.succeeds t e), e ∷ t)
unfolding perform
perform_go env e t = refl

module _ {A : Type 0} (b : Bool) (m n : Action A) (t : Trace) where
  pub if_true : b ≡ true → (if b then m else n) t ≡ m t
  if_true h = ap (λ c. (if c then m else n) t) h

  pub if_false : b ≡ false → (if b then m else n) t ≡ n t
  if_false h = ap (λ c. (if c then m else n) t) h

pub call_go : {A : Type 0} (e : Effect) (f : Trace → A) (t : Trace) → call e f t ≡ (go (f t), e ∷ t)
unfolding call
call_go e f t = refl
