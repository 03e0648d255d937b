-- ===== src/Cinder/Waits.antt =====
-- The waits of pkg/csi/cinder/openstack: what wait.ExponentialBackoff documents, and what follows from
-- it for the condition that is asked.
use cloud_provider_openstack.Prelude.{
  ◌<◌, ◌≡◌, zero, suc, ℕ, refl, arith, false, Bool, true, ◌≤◌, inl, inr, Bool-cases,
}
use cloud_provider_openstack.Go.{ok, poll, Exec}

-- the world after so many looks
abbrev pub looks : {W A : Type 0} → ℕ → Exec W A → W → W
looks zero c w = w
looks (suc k) c w = looks k c (c w).1

pub poll_in_time :
    {W : Type 0} (n k : ℕ) (c : Exec W Bool) (w : W)
    → k < n
    → ((j : ℕ) → j < k → (c (looks j c w)).0 ≡ ok false)
    → (c (looks k c w)).0 ≡ ok true
    → poll n c w ≡ (ok tt, looks (suc k) c w)
unfolding poll
poll_in_time zero k c w h wait done = absurd (omega arith)
poll_in_time (suc n) zero c w h wait done = rw done refl
poll_in_time (suc n) (suc k) c w h wait done =
    rw (wait 0 (omega arith))
      (poll_in_time n k c (c w).1 (omega arith) (λ j less. wait (suc j) (omega arith)) done)

-- the first of the places at which a test holds
pub first_place :
    (p : ℕ → Bool) (k : ℕ)
    → p k ≡ true
    → (j : ℕ) × (j ≤ k) × (p j ≡ true) × ((i : ℕ) → i < j → p i ≡ false)
first_place p zero h = (0, omega arith, h, λ i less. absurd (omega arith))
first_place p (suc k) h = elim (Bool-cases (p 0)) [
  | inl now ↦ (0, omega arith, now, λ i less. absurd (omega arith))
  | inr not_now ↦
      let (j, below, at, before) = first_place (λ n. p (suc n)) k h in
      (suc j, omega arith, at, λ i less. later_place i j not_now before less)
]
  where
    later_place :
        (i j : ℕ) → p 0 ≡ false → ((n : ℕ) → n < j → p (suc n) ≡ false) → i < suc j → p i ≡ false
    later_place zero j not_now before less = not_now
    later_place (suc i) j not_now before less = before i (omega arith)
