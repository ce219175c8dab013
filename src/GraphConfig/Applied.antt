-- ===== src/GraphConfig/Applied.antt =====
-- A configuration is applied to the policies it was previewed on.
use vera_mmu.Common.{
  arith, String, Bool-cases, inl, inr, subst, if◌then◌else◌, Bool, true, false, not, ◌||◌, ◌==◌,
  text_Eq, Option, ◌≡◌, refl, is_some, ok, err, ◌>>=◌,
}
use vera_mmu.Store.{Tables, Store, Raised, raised}
use vera_mmu.GraphConfig.{
  Payload, Preview, ConfigError, not_confirmed, preview_refused, stale_preview, payload_of,
  preview_of, preview_configuration, apply_configuration, named_start, named_completion,
}

guards :
    (a b c : Bool) (e1 e2 e3 : Raised ConfigError) (v p : Preview)
    → (if a then err e1 else if b then err e2 else if c then err e3 else ok v) ≡ ok p
    → (a ≡ false) × (b ≡ false) × (c ≡ false) × (v ≡ p)
guards a b c e1 e2 e3 v p h = ground arith

module _ (digest : Payload → String) where
  pub preview-guards :
      (t : Tables) (start completion : Option String) (p : Preview)
      → preview_configuration digest t start completion ≡ ok p
      → (not (is_some start || is_some completion) ≡ false)
        × (not (named_start start) ≡ false)
        × (not (named_completion completion) ≡ false)
        × (preview_of digest (payload_of t start completion) ≡ p)
  unfolding preview_configuration
  preview-guards t start completion p h =
      guards (not (is_some start || is_some completion)) (not (named_start start))
        (not (named_completion completion)) _ _ _
        (preview_of digest (payload_of t start completion)) p h

  preview-again :
      (t u : Tables) (start completion : Option String) (p : Preview)
      → preview_configuration digest t start completion ≡ ok p
      → preview_configuration digest u start completion
        ≡ ok (preview_of digest (payload_of u start completion))
  unfolding preview_configuration
  preview-again t u start completion p h =
      let (named, starts, completes, _) = preview-guards t start completion p h in
      rw (named, starts, completes) refl

  changed_at :
      (t : Tables) (start completion : Option String) (confirm : Bool) (now : String) (s : Store)
      → preview_configuration digest s.tables start completion
        ≡ ok (preview_of digest (payload_of s.tables start completion))
      → (digest (payload_of s.tables start completion) == digest (payload_of t start completion))
        ≡ false
      → (e : ConfigError) × (apply_configuration digest
            (preview_of digest (payload_of t start completion))
            confirm
            now
            s
          ≡ (err (raised e), s))
  unfolding apply_configuration ◌>>=◌
  changed_at t start completion false now s again changed = (not_confirmed, refl)
  changed_at t start completion true now s again changed =
      elim (Bool-cases (preview_of digest (payload_of t start completion)).refused) [
        | inl refused ↦ (preview_refused, rw refused refl)
        | inr unrefused ↦ (stale_preview, rw (unrefused, again, changed) refl)
      ]

  -- A preview is applied to the policies it was made on or not at all: where the digest of the
  -- configuration has changed since, the application raises and the store is as it was.
  pub changed_since_preview :
      (t : Tables) (start completion : Option String) (p : Preview) (confirm : Bool) (now : String)
      (s : Store)
      → preview_configuration digest t start completion ≡ ok p
      → (digest (payload_of s.tables start completion) == digest (payload_of t start completion))
        ≡ false
      → (e : ConfigError) × (apply_configuration digest p confirm now s ≡ (err (raised e), s))
  unfolding ◌>>=◌
  changed_since_preview t start completion p confirm now s previewed changed =
      let same = (preview-guards t start completion p previewed).3 in
      subst
        (λ (q : Preview).
          (e : ConfigError) × (apply_configuration digest q confirm now s ≡ (err (raised e), s)))
        same
        (changed_at t start completion confirm now s
          (preview-again t s.tables start completion p previewed) changed)
