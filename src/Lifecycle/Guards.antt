-- ===== src/Lifecycle/Guards.antt =====
-- The readiness guard of a transition reads the tables and writes nothing.
use vera_mmu.Common.{◌>>◌, ◌>>=◌, Bool, true, false, ◌≡◌, refl, Result, ok, err}
use vera_mmu.Store.{Tables, Rows}
use vera_mmu.Store.Returns.{Returns, Returns-err, Returns-require}
use vera_mmu.Readiness.{Readiness, ReadinessError}
use vera_mmu.Lifecycle.{LifecycleError, demand_ready, when}

-- if the policy guards the event, the item was evaluated and is ready
abbrev pub IsReady : Result ReadinessError Readiness → Type 0
IsReady (ok r) = r.ready ≡ true
IsReady (err _) = ⊥

pub ready_result :
    (r : Result ReadinessError Readiness)
    → IsReady r
    → (x : Readiness) × (r ≡ ok x) × (x.ready ≡ true)
ready_result (ok x) h = (x, refl, h)
ready_result (err e) h = absurd h

module _ {ℓ} {A : Type 0} {Q : A → Tables → Type ℓ} where
  pub Returns-guard :
      (b : Bool) (e : LifecycleError) (r : Result ReadinessError Readiness)
      (k : Rows LifecycleError A) (t : Tables)
      → ((b ≡ true → IsReady r) → Returns Q (k t))
      → Returns Q ((when b (demand_ready e r) >> k) t)
  unfolding when demand_ready ◌>>=◌
  Returns-guard false e r k t h = h (λ f. cc)
  Returns-guard true e (ok r) k t h = Returns-require r.ready _ k t (λ ready. h (λ _. ready))
  Returns-guard true e (err x) k t h = Returns-err _ t
