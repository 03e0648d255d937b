-- ===== src/Cinder/Along.antt =====
-- A reflexive and transitive relation between the worlds before and after a call holds for a call
-- that is made of calls for which it holds.
use cloud_provider_openstack.Prelude.{zero, Bool, suc, ℕ, if◌then◌else◌}
use cloud_provider_openstack.Go.{◌>>=◌, poll, Error, bind_rule, pure, Exec, if_rule}
use cloud_provider_openstack.Cinder.Api.{ask, Call, ask_rule}

pub record IsPreorder {W : Type 0} (R : W → W → Type 0) : Type 0 where
  pub same : (w : W) → R w w
  pub then_also : {u v w : W} → R u v → R v w → R u w

module _ {W : Type 0} (R : W → W → Type 0) where
  abbrev pub Along : {A : Type 0} → (W → A × W) → Type 0
  Along m = (w : W) → R w (m w).1

module _ {W : Type 0} {R : W → W → Type 0} (p : IsPreorder R) where
  pub Along-bind :
      {A B : Type 0} (m : Exec W A) (f : A → Exec W B)
      → Along R m
      → ((a : A) → Along R (f a))
      → Along R (m >>= f)
  Along-bind m f hm hf w =
      bind_rule (λ o. R w o.1) m f w (λ a h. p.then_also (hm w) (hf a (m w).1)) (λ e. hm w)

  pub Along-ask :
      {A B : Type 0} (m : Exec W A) (bad : Error → Call W B) (good : A → Call W B)
      → Along R m
      → ((e : Error) → Along R (bad e))
      → ((a : A) → Along R (good a))
      → Along R (ask m bad good)
  Along-ask m bad good hm hb hg w =
      ask_rule (λ o. R w o.1) m bad good w (λ a h. p.then_also (hm w) (hg a (m w).1))
        (λ e h. p.then_also (hm w) (hb e (m w).1))

  pub Along-if :
      {A : Type 0} (b : Bool) (x y : W → A × W)
      → Along R x
      → Along R y
      → Along R (if b then x else y)
  Along-if b x y hx hy w = if_rule (λ o. R w o.1) b x y w (λ _. hx w) (λ _. hy w)

  pub Along-poll : (n : ℕ) (c : Exec W Bool) → Along R c → Along R (poll n c)
  unfolding poll
  Along-poll zero c hc = p.same
  Along-poll (suc n) c hc =
      Along-bind c (λ done. if done then pure tt else poll n c) hc
        (λ done. Along-if done (pure tt) (poll n c) p.same (Along-poll n c hc))
