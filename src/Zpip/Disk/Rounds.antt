-- ===== src/Zpip/Disk/Rounds.antt =====
-- The values for a path in a loop that removes files: what the rounds so far make of it, put together.
use zabawheels.Prelude.{◌≡◌, refl, ◌⊎◌, inl, inr, Bool, true, false, ◌&&◌, ◌||◌, if◌then◌else◌}

-- The value for a path that the round removes, and for one that it passes over.
pub round_removes :
    {A : Type 0} (same more within : Bool) (nothing d : A)
    → (same ≡ true → within ≡ true)
    → (if more && within then nothing else (if same then nothing else d))
      ≡ (if (same || more) && within then nothing else d)
round_removes true true true nothing d h = refl
round_removes true false true nothing d h = refl
round_removes true more false nothing d h = cc (h refl)
round_removes false more within nothing d h = refl

pub round_passes :
    {A : Type 0} (same more within : Bool) (nothing d : A)
    → (same ≡ true → (within ≡ false) ⊎ (d ≡ nothing))
    → (if more && within then nothing else d) ≡ (if (same || more) && within then nothing else d)
round_passes true true within nothing d h = refl
round_passes true false false nothing d h = refl
round_passes true false true nothing d h = elim (h refl) [ inl e ↦ cc e | inr e ↦ e ]
round_passes false more within nothing d h = refl
