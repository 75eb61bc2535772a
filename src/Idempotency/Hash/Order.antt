-- ===== src/Idempotency/Hash/Order.antt =====
-- The order of the keys of an object.
use earn_defi_nestjs_backend.Base.{◌≡◌, refl, true, false, [], ◌∷◌, Text, arith}
use earn_defi_nestjs_backend.Idempotency.Hash.{leb_text}

pub leb_text_refl : (s : Text) → leb_text s s ≡ true
unfolding leb_text
leb_text_refl [] = refl
leb_text_refl (c ∷ cs) = ground (arith, leb_text_refl cs)

pub leb_text_total : (s t : Text) → leb_text s t ≡ false → leb_text t s ≡ true
unfolding leb_text
leb_text_total [] t h = cc
leb_text_total (c ∷ cs) [] h = refl
leb_text_total (c ∷ cs) (d ∷ ds) h = ground (arith, leb_text_total cs ds)

pub leb_text_antisymm : (s t : Text) → leb_text s t ≡ true → leb_text t s ≡ true → s ≡ t
unfolding leb_text
leb_text_antisymm [] [] h k = refl
leb_text_antisymm [] (d ∷ ds) h k = cc
leb_text_antisymm (c ∷ cs) [] h k = cc
leb_text_antisymm (c ∷ cs) (d ∷ ds) h k = ground (arith, leb_text_antisymm cs ds)

pub leb_text_trans :
    (s t u : Text) → leb_text s t ≡ true → leb_text t u ≡ true → leb_text s u ≡ true
unfolding leb_text
leb_text_trans [] t u h k = refl
leb_text_trans (c ∷ cs) [] u h k = cc
leb_text_trans (c ∷ cs) (d ∷ ds) [] h k = cc
leb_text_trans (c ∷ cs) (d ∷ ds) (e ∷ es) h k = ground (arith, leb_text_trans cs ds es)
