-- ===== src/Prelude/Iff.antt =====
-- Equivalences put together.
use mathlib.Core.Logic.{◌⊎◌, ◌↔◌, inl, inr}

module _ {A B C : Type 0} where
  pub iff_trans : A ↔ B → B ↔ C → A ↔ C
  iff_trans (f, f') (g, g') = ((λ a. g (f a)), (λ c. f' (g' c)))

module _ {A B C D : Type 0} where
  pub iff_or : A ↔ B → C ↔ D → (A ⊎ C) ↔ (B ⊎ D)
  iff_or (f, f') (g, g') = (
    (λ s. elim s [ inl a ↦ inl (f a) | inr c ↦ inr (g c) ]),
    (λ s. elim s [ inl b ↦ inl (f' b) | inr d ↦ inr (g' d) ]),
  )

  pub iff_and : A ↔ B → C ↔ D → (A × C) ↔ (B × D)
  iff_and (f, f') (g, g') = ((λ (a, c). (f a, g c)), (λ (b, d). (f' b, g' d)))

module _ {A B C D E F : Type 0} where
  pub iff_and3 : A ↔ B → C ↔ D → E ↔ F → (A × C × E) ↔ (B × D × F)
  iff_and3 (f, f') (g, g') (h, h') =
      ((λ (a, c, e). (f a, g c, h e)), (λ (b, d, x). (f' b, g' d, h' x)))
