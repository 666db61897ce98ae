-- ===== src/Engine/Identity/Single.antt =====
-- A listing that names exactly one container, in internal/engine/identity.go and crash.go.
use labcontainers.Prelude.{String, ◌≡◌, refl, List, [], ◌∷◌, ok}
use labcontainers.Engine.Host.{Host}
use labcontainers.Engine.Identity.{only}

pub only-ok :
    (vs : List String) (h : Host) {v : String}
    → (only vs h).0 ≡ ok v
    → (vs ≡ v ∷ []) × ((only vs h).1 ≡ h)
unfolding only
only-ok [] h e = cc
only-ok (v ∷ []) h e = (cc, refl)
only-ok (v ∷ w ∷ vs) h e = cc
